-- ===== src/Serialize/Reads.antt =====
-- The texts that src/shape/serialize.c writes, against the lexer of src/parser/lexer.c.
use jsonv.Base.{
  ℕ, ◌/◌, ◌%◌, ◌≤◌, ◌<◌, ◌≡◌, ◌≢◌, refl, sym, ap, ◌∙◌, Bool, true, false, ◌||◌, [], ◌∷◌, ◌++◌,
  arith, inl, inr, ltb, Bool-cases, eq_or_ne, take-append,
}
use jsonv.Token.{Bytes, text}
use jsonv.Lexer.Cursor.{is_hex_digit}
use jsonv.Lexer.Strings.{hex_value, is_short_escape, parse_string}
use jsonv.Lexer.Strings.Grammar.{
  In, IsUnit, unit, IsSecondOfThree, IsSecondOfFour, IsChar, IsBody, done, char,
}
use jsonv.Lexer.Strings.Complete.{at, string_at, parse_string_complete}
use jsonv.Unescape.{unescape_string}
use jsonv.Serialize.{
  Writer, hex_digit, escape_char, write_char, write_str, write_escaped, write_escaped_str,
}
use jsonv.Serialize.Strings.{escape, unescape_string-escape}

-- Well-formed UTF-8 of RFC 3629, any ASCII byte included.
pub data IsUtf8 : Bytes → Type 0 where
  empty : IsUtf8 []
  ascii : {c : ℕ} {s : Bytes} → c < 0x80 → IsUtf8 s → IsUtf8 (c ∷ s)
  two : {c b : ℕ} {s : Bytes} → In 0xC2 0xDF c → In 0x80 0xBF b → IsUtf8 s → IsUtf8 (c ∷ b ∷ s)
  three :
      {c b d : ℕ} {s : Bytes}
      → In 0xE0 0xEF c
      → IsSecondOfThree c b
      → In 0x80 0xBF d
      → IsUtf8 s
      → IsUtf8 (c ∷ b ∷ d ∷ s)
  four :
      {c b d e : ℕ} {s : Bytes}
      → In 0xF0 0xF4 c
      → IsSecondOfFour c b
      → In 0x80 0xBF d
      → In 0x80 0xBF e
      → IsUtf8 s
      → IsUtf8 (c ∷ b ∷ d ∷ e ∷ s)

escape_char-high : (c : ℕ) → 0x80 ≤ c → escape_char c ≡ c ∷ []
unfolding escape_char
escape_char-high c h = ground arith

hex_value-digit : (d : ℕ) → d < 16 → hex_value (hex_digit d) ≡ d
unfolding hex_value
hex_value-digit d h = ground arith

-- The digits behind `\u` stand for the byte.
byte-IsUnit :
    (c : ℕ) → c < 0x20 → IsUnit c (b'0' ∷ b'0' ∷ hex_digit (c / 16) ∷ hex_digit (c % 16) ∷ [])
unfolding is_hex_digit hex_value
byte-IsUnit c h =
    unit refl refl (ground arith) (ground arith) (
      omega (arith, hex_value-digit (c / 16) (omega arith), hex_value-digit (c % 16) (omega arith)))

long-IsChar :
    (c : ℕ)
    → c < 0x80
    → c ≢ b'"'
    → c ≢ b'\\'
    → c ≢ 10
    → c ≢ 13
    → c ≢ 9
    → c ≢ 8
    → c ≢ 12
    → (e : Bool) × IsChar e (escape_char c)
unfolding escape_char
long-IsChar c h quote back n r t b f = elim (Bool-cases (ltb c 0x20)) [
  | inl control ↦
      let e : escape_char c
          ≡ b'\\' ∷ b'u' ∷ b'0' ∷ b'0' ∷ hex_digit (c / 16) ∷ hex_digit (c % 16) ∷ [] =
        ground arith in
      (true, rw e (IsChar.code_unit refl refl (byte-IsUnit c (ground arith)) (inl (omega arith))))
  | inr other ↦
      let e : escape_char c ≡ c ∷ [] = ground arith in
      (false, rw e (IsChar.ascii (ground arith) quote back))
]

escape_char-IsChar : (c : ℕ) → c < 0x80 → (e : Bool) × IsChar e (escape_char c)
unfolding escape_char is_short_escape
escape_char-IsChar c h = elim (eq_or_ne c b'"') [
  | inl e ↦ (true, rw e (IsChar.short refl refl))
  | inr quote ↦ elim (eq_or_ne c b'\\') [
    | inl e ↦ (true, rw e (IsChar.short refl refl))
    | inr back ↦ elim (eq_or_ne c 10) [
      | inl e ↦ (true, rw e (IsChar.short refl refl))
      | inr n ↦ elim (eq_or_ne c 13) [
        | inl e ↦ (true, rw e (IsChar.short refl refl))
        | inr r ↦ elim (eq_or_ne c 9) [
          | inl e ↦ (true, rw e (IsChar.short refl refl))
          | inr t ↦ elim (eq_or_ne c 8) [
            | inl e ↦ (true, rw e (IsChar.short refl refl))
            | inr b ↦ elim (eq_or_ne c 12) [
              | inl e ↦ (true, rw e (IsChar.short refl refl))
              | inr f ↦ long-IsChar c h quote back n r t b f
            ]
          ]
        ]
      ]
    ]
  ]
]

-- The escaped text is the body of a string of RFC 8259.
escape-IsBody : {s : Bytes} → IsUtf8 s → (g : Bool) × IsBody g (escape s)
unfolding escape
escape-IsBody empty = (false, done)
escape-IsBody (ascii {c = c} {s = s} h u) =
    let (e, p) = escape_char-IsChar c h in
    let (g, b) = escape-IsBody u in (e || g, char p b refl refl)
escape-IsBody (two {c = c} {b = d} {s = s} hc hd u) =
    let (g, b) = escape-IsBody u in
    (
      g,
      rw (escape_char-high c (omega arith), escape_char-high d (omega arith))
          (char (IsChar.two hc hd) b refl refl),
    )
escape-IsBody (three {c = c} {b = d} {d = e} {s = s} hc hd he u) =
    let (g, b) = escape-IsBody u in
    (
      g,
      rw
          (
            escape_char-high c (omega arith),
            escape_char-high d (omega arith),
            escape_char-high e (omega arith),
          )
          (char (IsChar.three hc hd he) b refl refl),
    )
escape-IsBody (four {c = c} {b = d} {d = e} {e = f} {s = s} hc hd he hf u) =
    let (g, b) = escape-IsBody u in
    (
      g,
      rw
          (
            escape_char-high c (omega arith),
            escape_char-high d (omega arith),
            escape_char-high e (omega arith),
            escape_char-high f (omega arith),
          )
          (char (IsChar.four hc hd he hf) b refl refl),
    )

pub write_str-append :
    (a b : Bytes) (w : Writer) → write_str (a ++ b) w ≡ write_str b (write_str a w)
unfolding write_str
write_str-append [] b w = refl
write_str-append (c ∷ a) b w = write_str-append a b (write_char c w)

pub write_escaped-escape : (s : Bytes) (w : Writer) → write_escaped s w ≡ write_str (escape s) w
unfolding write_escaped escape write_str
write_escaped-escape [] w = refl
write_escaped-escape (c ∷ s) w =
    write_escaped-escape s (write_str (escape_char c) w)
    ∙ sym (write_str-append (escape_char c) (escape s) w)

pub write_escaped_str-text :
    (s : Bytes) (w : Writer)
    → write_escaped_str s w ≡ write_str (b'"' ∷ (escape s ++ (b'"' ∷ []))) w
unfolding write_escaped_str write_str
write_escaped_str-text s w =
    ap (write_char b'"') (write_escaped-escape s (write_char b'"' w))
    ∙ sym (write_str-append (escape s) (b'"' ∷ []) (write_char b'"' w))

-- write_escaped_str writes a text in quotes, which parse_string reads as a string token over the escaped
-- text if the text is well-formed UTF-8; jsonv_unescape_string reads that token's text back as the text.
pub write_escaped_str_read :
    (s r : Bytes) (p : ℕ) (w : Writer)
    → IsUtf8 s
    → (write_escaped_str s w ≡ write_str (b'"' ∷ (escape s ++ (b'"' ∷ []))) w)
      × (g : Bool) × (parse_string (b'"' ∷ (escape s ++ (b'"' ∷ r))) (at (escape s ++ (b'"' ∷ r)) p)
          ≡ string_at g (escape s) r p)
      × (unescape_string (text (string_at g (escape s) r p).0) ≡ s)
write_escaped_str_read s r p w u =
    let (g, b) = escape-IsBody u in
    (
      write_escaped_str-text s w,
      g,
      parse_string_complete (escape s) r p b,
      ap unescape_string (take-append (escape s) (b'"' ∷ r)) ∙ unescape_string-escape s,
    )
