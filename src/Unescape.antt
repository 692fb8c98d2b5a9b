-- ===== src/Unescape.antt =====
-- src/parser/unescape.c: parse_4hex, encode_utf8 and jsonv_unescape_string. What the code writes
-- at `dest + w` is the list of the bytes written; the NUL behind them is not in it.
pub mod Bounds
use jsonv.Base.{
  ℕ, zero, suc, ◌+◌, ◌-◌, ◌*◌, ◌/◌, ◌%◌, ◌^◌, Bool, ◌&&◌, ◌||◌, Option, none, some, List, [], ◌∷◌,
  ◌++◌, ◌==◌, leb, length, drop, get_or, if◌then◌else◌,
}
use jsonv.Token.{Bytes}
use jsonv.Lexer.Cursor.{longer, within}

-- The value of one hexadecimal digit.
unfoldable pub nibble : ℕ → Option ℕ
nibble c =
    if within b'0' b'9' c
    then some (c - b'0')
    else if within b'a' b'f' c
    then some (c - b'a' + 10)
    else if within b'A' b'F' c
    then some (c - b'A' + 10)
    else none

-- The loop over the four digits, with `v` in a uint16_t: the low four bits of `v << 4` are zero.
unfoldable pub parse_hex : ℕ → ℕ → Bytes → Option ℕ
parse_hex zero v p = some v
parse_hex (suc n) v p = elim (nibble (get_or p 0 0)) [
  | none ↦ none
  | some d ↦ parse_hex n ((v * 16 + d) % 2 ^ 16) (drop 1 p)
]

abbrev pub parse_4hex : Bytes → Option ℕ
parse_4hex = parse_hex 4 0

-- The operands of each `|` of the source share no bit, so `|` is `+`; `x & 0x3F` is `x % 64`.
unfoldable pub encode_utf8 : ℕ → Bytes
encode_utf8 cp =
    if leb cp 0x7F
    then cp ∷ []
    else if leb cp 0x7FF
    then (0xC0 + cp / 64) ∷ (0x80 + cp % 64) ∷ []
    else if leb cp 0xFFFF
    then (0xE0 + cp / 4096) ∷ (0x80 + cp / 64 % 64) ∷ (0x80 + cp % 64) ∷ []
    else (0xF0 + cp / 262144)
      ∷ (0x80 + cp / 4096 % 64)
      ∷ (0x80 + cp / 64 % 64)
      ∷ (0x80 + cp % 64)
      ∷ []

abbrev pub is_high : ℕ → Bool
is_high u = within 0xD800 0xDBFF u

abbrev pub is_low : ℕ → Bool
is_low u = within 0xDC00 0xDFFF u

-- The code point of a surrogate pair: the ten bits of each half do not overlap.
abbrev pub code_point : ℕ → ℕ → ℕ
code_point u₁ u₂ = 0x10000 + ((u₁ - 0xD800) * 1024 + (u₂ - 0xDC00))

-- What is written, and what is left to read.
abbrev pub Step : Type 0
Step = Bytes × Bytes

abbrev pub at_option {ℓ} : {A : Type ℓ} → (ℕ → A) → A → Option ℕ → A
at_option f d none = d
at_option f d (some u) = f u

-- A second code unit joins the first if it is a low surrogate.
unfoldable pub join_low : ℕ → Bytes → ℕ → Step
join_low u₁ s u₂ =
    if is_low u₂ then (encode_utf8 (code_point u₁ u₂), drop 6 s) else (encode_utf8 u₁, s)

-- Behind the first code unit, a high surrogate: `\u` and four digits may follow.
unfoldable pub unescape_low : ℕ → Bytes → Step
unescape_low u₁ s =
    if longer 5 s && (get_or s 0 0 == b'\\' && get_or s 1 0 == b'u')
    then at_option (join_low u₁ s) (encode_utf8 u₁, s) (parse_4hex (drop 2 s))
    else (encode_utf8 u₁, s)

-- The first code unit; `s` stands behind it.
unfoldable pub first_unit : Bytes → ℕ → Step
first_unit s u₁ = if is_high u₁ then unescape_low u₁ s else (encode_utf8 u₁, s)

-- `case 'u'`, behind the letter
unfoldable pub unescape_unit : Bytes → Step
unescape_unit s =
    if longer 3 s
    then at_option (first_unit (drop 4 s)) (b'u' ∷ [], s) (parse_4hex s)
    else (b'u' ∷ [], s)

-- The switch on the byte behind the backslash.
unfoldable pub unescape_char : ℕ → Bytes → Step
unescape_char e s =
    if e == b'b'
    then (8 ∷ [], s)
    else if e == b'f'
    then (12 ∷ [], s)
    else if e == b'n'
    then (10 ∷ [], s)
    else if e == b'r'
    then (13 ∷ [], s)
    else if e == b't'
    then (9 ∷ [], s)
    else if e == b'u'
    then unescape_unit s
    else (e ∷ [], s)

-- A backslash at the end writes nothing.
unfoldable pub unescape_escape : Bytes → Step
unescape_escape [] = ([], [])
unescape_escape (e ∷ s) = unescape_char e s

-- One turn of the loop.
unfoldable pub unescape_turn : ℕ → Bytes → Step
unescape_turn c s = if c == b'\\' then unescape_escape s else (c ∷ [], s)

unfoldable pub unescape_loop : ℕ → Bytes → Bytes
unescape_loop zero s = []
unescape_loop (suc f) [] = []
unescape_loop (suc f) (c ∷ s) = let (out, rest) = unescape_turn c s in out ++ unescape_loop f rest

-- `jsonv_unescape_string`: each turn reads a byte at least, so the length is enough fuel.
unfoldable pub unescape_string : Bytes → Bytes
unescape_string s = unescape_loop (length s) s
