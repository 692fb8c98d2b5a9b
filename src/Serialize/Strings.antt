-- ===== src/Serialize/Strings.antt =====
-- Texts as src/shape/serialize.c escapes them, against the reader of src/parser/unescape.c.
use jsonv.Base.{
  ℕ, zero, suc, ◌+◌, ◌*◌, ◌/◌, ◌%◌, ◌^◌, ◌≤◌, ◌<◌, ◌≡◌, ◌≢◌, refl, ap, ◌∙◌, true, false, some, [],
  ◌∷◌, ◌++◌, arith, inl, inr, leb, ltb, length, Bool-cases, eq_or_ne, length-append,
}
use jsonv.Token.{Bytes}
use jsonv.Unescape.{
  nibble, parse_hex, parse_4hex, encode_utf8, is_high, first_unit, unescape_unit, unescape_char,
  unescape_escape, unescape_turn, unescape_loop, unescape_string,
}
use jsonv.Serialize.{hex_digit, escape_char}

-- The text between the quotes.
unfoldable pub escape : Bytes → Bytes
escape [] = []
escape (c ∷ s) = escape_char c ++ escape s

nibble-hex_digit : (d : ℕ) → d < 16 → nibble (hex_digit d) ≡ some d
unfolding nibble
nibble-hex_digit d h = ground arith

parse_hex-digit :
    (n v x d : ℕ) (p : Bytes)
    → nibble x ≡ some d
    → parse_hex (suc n) v (x ∷ p) ≡ parse_hex n ((v * 16 + d) % 2 ^ 16) p
unfolding parse_hex
parse_hex-digit n v x d p e = rw (parse_hex, e)

-- `\u00` and two digits are read back as the byte.
parse_4hex-byte :
    (c : ℕ) (rest : Bytes)
    → c < 0x20
    → parse_4hex (b'0' ∷ b'0' ∷ hex_digit (c / 16) ∷ hex_digit (c % 16) ∷ rest) ≡ some c
unfolding parse_hex
parse_4hex-byte c rest h =
    let zero_digit = nibble-hex_digit 0 (omega arith) in
    let high = nibble-hex_digit (c / 16) (omega arith) in
    let low = nibble-hex_digit (c % 16) (omega arith) in
    parse_hex-digit 3 0 b'0' 0 (b'0' ∷ hex_digit (c / 16) ∷ hex_digit (c % 16) ∷ rest) zero_digit
    ∙ parse_hex-digit 2 0 b'0' 0 (hex_digit (c / 16) ∷ hex_digit (c % 16) ∷ rest) zero_digit
    ∙ parse_hex-digit 1 0 (hex_digit (c / 16)) (c / 16) (hex_digit (c % 16) ∷ rest) high
    ∙ parse_hex-digit 0 ((0 * 16 + c / 16) % 2 ^ 16) (hex_digit (c % 16)) (c % 16) rest low
    ∙ ap some (omega arith)

unescape_unit-byte :
    (c : ℕ) (rest : Bytes)
    → c < 0x20
    → unescape_unit (b'0' ∷ b'0' ∷ hex_digit (c / 16) ∷ hex_digit (c % 16) ∷ rest) ≡ (c ∷ [], rest)
unfolding unescape_unit first_unit encode_utf8
unescape_unit-byte c rest h =
    let e = parse_4hex-byte c rest h in
    let not_high : is_high c ≡ false = ground arith in
    let one : leb c 0x7F ≡ true = ground arith in
    rw (unescape_unit, e) (rw (first_unit, not_high) (rw (encode_utf8, one)))

escape_char-pos : (c : ℕ) → 0 < length (escape_char c)
unfolding escape_char
escape_char-pos c = ground arith

-- What stands for a byte is read back in one turn, as that byte.
record ReadsBack (c : ℕ) (rest : Bytes) : Type 0 where
  head : ℕ
  tail : Bytes
  written : escape_char c ++ rest ≡ head ∷ tail
  turn : unescape_turn head tail ≡ (c ∷ [], rest)

pair-ReadsBack :
    (c e : ℕ) (rest : Bytes)
    → escape_char c ≡ b'\\' ∷ e ∷ []
    → unescape_char e rest ≡ (c ∷ [], rest)
    → ReadsBack c rest
unfolding unescape_turn unescape_escape
pair-ReadsBack c e rest h back = record {
  head = b'\\';
  tail = e ∷ rest;
  written = ap (λ p. p ++ rest) h;
  turn = back;
}

-- A byte that has no short escape.
long-ReadsBack :
    (c : ℕ) (rest : Bytes)
    → c ≢ b'"'
    → c ≢ b'\\'
    → c ≢ 10
    → c ≢ 13
    → c ≢ 9
    → c ≢ 8
    → c ≢ 12
    → ReadsBack c rest
unfolding escape_char unescape_turn unescape_escape unescape_char
long-ReadsBack c rest quote back n r t b f = elim (Bool-cases (ltb c 0x20)) [
  | inl control ↦ record {
    head = b'\\';
    tail = b'u' ∷ b'0' ∷ b'0' ∷ hex_digit (c / 16) ∷ hex_digit (c % 16) ∷ rest;
    written =
        ap (λ p. p ++ rest)
          (let e : escape_char c
                ≡ b'\\' ∷ b'u' ∷ b'0' ∷ b'0' ∷ hex_digit (c / 16) ∷ hex_digit (c % 16) ∷ [] =
              ground arith in
            e);
    turn = unescape_unit-byte c rest (ground arith);
  }
  | inr other ↦ record {
    head = c;
    tail = rest;
    written = ap (λ p. p ++ rest) (let e : escape_char c ≡ c ∷ [] = ground arith in e);
    turn = ground arith;
  }
]

escape_char-ReadsBack : (c : ℕ) (rest : Bytes) → ReadsBack c rest
unfolding escape_char unescape_char
escape_char-ReadsBack c rest = elim (eq_or_ne c b'"') [
  | inl e ↦ rw e (pair-ReadsBack b'"' b'"' rest refl refl)
  | inr quote ↦ elim (eq_or_ne c b'\\') [
    | inl e ↦ rw e (pair-ReadsBack b'\\' b'\\' rest refl refl)
    | inr back ↦ elim (eq_or_ne c 10) [
      | inl e ↦ rw e (pair-ReadsBack 10 b'n' rest refl refl)
      | inr n ↦ elim (eq_or_ne c 13) [
        | inl e ↦ rw e (pair-ReadsBack 13 b'r' rest refl refl)
        | inr r ↦ elim (eq_or_ne c 9) [
          | inl e ↦ rw e (pair-ReadsBack 9 b't' rest refl refl)
          | inr t ↦ elim (eq_or_ne c 8) [
            | inl e ↦ rw e (pair-ReadsBack 8 b'b' rest refl refl)
            | inr b ↦ elim (eq_or_ne c 12) [
              | inl e ↦ rw e (pair-ReadsBack 12 b'f' rest refl refl)
              | inr f ↦ long-ReadsBack c rest quote back n r t b f
            ]
          ]
        ]
      ]
    ]
  ]
]

length-escape : (s : Bytes) → length s ≤ length (escape s)
unfolding escape
length-escape [] = omega arith
length-escape (c ∷ s) =
    let r = escape_char-ReadsBack c (escape s) in
    let w = ap length r.written in
    let sum = length-append (escape_char c) (escape s) in
    let ih = length-escape s in let some_byte = escape_char-pos c in omega arith

unescape_loop-escape : (f : ℕ) (s : Bytes) → length s ≤ f → unescape_loop f (escape s) ≡ s
unfolding unescape_loop escape
unescape_loop-escape zero [] h = refl
unescape_loop-escape (suc f) [] h = refl
unescape_loop-escape zero (c ∷ s) h = absurd (omega arith)
unescape_loop-escape (suc f) (c ∷ s) h =
    let r = escape_char-ReadsBack c (escape s) in
    rw (escape, r.written)
      (rw (unescape_loop, r.turn) (ap (◌∷◌ c) (unescape_loop-escape f s (omega arith))))

-- What jsonv_unescape_string reads back from a text that write_escaped_str escaped is that text, whatever
-- its bytes.
pub unescape_string-escape : (s : Bytes) → unescape_string (escape s) ≡ s
unfolding unescape_string
unescape_string-escape s = unescape_loop-escape (length (escape s)) s (length-escape s)
