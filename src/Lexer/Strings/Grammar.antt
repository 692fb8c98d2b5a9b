-- ===== src/Lexer/Strings/Grammar.antt =====
-- The string grammar of RFC 8259, section 7, over the well-formed byte sequences of UTF-8
-- (RFC 3629, section 4). parse_string of src/parser/lexer.c is held to it.
use jsonv.Base.{ℕ, ◌+◌, ◌*◌, ◌≤◌, ◌<◌, Bool, true, false, ◌||◌, [], ◌∷◌, ◌++◌, ◌⊎◌, ◌≡◌, ◌≢◌}
use jsonv.Token.{Bytes}
use jsonv.Lexer.Cursor.{is_hex_digit}
use jsonv.Lexer.Strings.{hex_value, is_short_escape}

-- lo ≤ c ≤ hi
abbrev pub In : ℕ → ℕ → ℕ → Type 0
In lo hi c = (lo ≤ c) × (c ≤ hi)

-- The four digits `ds` stand for the UTF-16 code unit `u`.
pub data IsUnit : ℕ → Bytes → Type 0 where
  unit :
      {a b c d u : ℕ}
      → is_hex_digit a ≡ true
      → is_hex_digit b ≡ true
      → is_hex_digit c ≡ true
      → is_hex_digit d ≡ true
      → u ≡ hex_value a * 4096 + hex_value b * 256 + hex_value c * 16 + hex_value d
      → IsUnit u (a ∷ b ∷ c ∷ d ∷ [])

-- The second of three bytes, and of four: no overlong form, no surrogate, none past U+10FFFF.
abbrev pub IsSecondOfThree : ℕ → ℕ → Type 0
IsSecondOfThree c b = In 0x80 0xBF b × (c ≡ 0xE0 → 0xA0 ≤ b) × (c ≡ 0xED → b ≤ 0x9F)

abbrev pub IsSecondOfFour : ℕ → ℕ → Type 0
IsSecondOfFour c b = In 0x80 0xBF b × (c ≡ 0xF0 → 0x90 ≤ b) × (c ≡ 0xF4 → b ≤ 0x8F)

-- One character of a string, as it is written; the flag says that it is an escape.
pub data IsChar : Bool → Bytes → Type 0 where
  ascii : {c : ℕ} → In 0x20 0x7F c → c ≢ b'"' → c ≢ b'\\' → IsChar false (c ∷ [])
  two : {c b : ℕ} → In 0xC2 0xDF c → In 0x80 0xBF b → IsChar false (c ∷ b ∷ [])
  three :
      {c b d : ℕ}
      → In 0xE0 0xEF c
      → IsSecondOfThree c b
      → In 0x80 0xBF d
      → IsChar false (c ∷ b ∷ d ∷ [])
  four :
      {c b d e : ℕ}
      → In 0xF0 0xF4 c
      → IsSecondOfFour c b
      → In 0x80 0xBF d
      → In 0x80 0xBF e
      → IsChar false (c ∷ b ∷ d ∷ e ∷ [])
  short : {q e : ℕ} → q ≡ b'\\' → is_short_escape e ≡ true → IsChar true (q ∷ e ∷ [])
  code_unit :
      {q v u : ℕ} {ds : Bytes}
      → q ≡ b'\\'
      → v ≡ b'u'
      → IsUnit u ds
      → (u < 0xD800) ⊎ (0xDFFF < u)
      → IsChar true (q ∷ v ∷ ds)
  surrogates :
      {q v q' v' high low : ℕ} {hs ls : Bytes}
      → q ≡ b'\\'
      → v ≡ b'u'
      → IsUnit high hs
      → In 0xD800 0xDBFF high
      → q' ≡ b'\\'
      → v' ≡ b'u'
      → IsUnit low ls
      → In 0xDC00 0xDFFF low
      → IsChar true (q ∷ v ∷ (hs ++ (q' ∷ v' ∷ ls)))

-- What stands between the quotes; the flag says that some character of it is an escape.
pub data IsBody : Bool → Bytes → Type 0 where
  done : IsBody false []
  char :
      {e f g : Bool} {p r s : Bytes}
      → IsChar e p
      → IsBody f r
      → g ≡ (e || f)
      → s ≡ p ++ r
      → IsBody g s
