-- ===== src/Unescape/Bounds.antt =====
-- src/parser/unescape.c: the loop ends, and what it writes fits where its callers let it write.
use jsonv.Base.{
  ℕ, zero, suc, ◌+◌, ◌≤◌, ◌<◌, ◌≡◌, refl, ap, ◌∙◌, true, Option, none, some, [], ◌∷◌, ◌++◌, ◌==◌,
  arith, length, drop, length-append, length-drop, Bool-cases, inl, inr, not,
}
use jsonv.Token.{Bytes}
use jsonv.Lexer.Cursor.{longer}
use jsonv.Lexer.Reads.{AllPass}
use jsonv.Unescape.{
  at_option, join_low, first_unit, encode_utf8, parse_4hex, code_point, Step, unescape_low,
  unescape_unit, unescape_char, unescape_escape, unescape_turn, unescape_loop, unescape_string,
}

longer-lt : (k : ℕ) (cs : Bytes) → longer k cs ≡ true → k < length cs
longer-lt k [] h = cc
longer-lt zero (c ∷ cs) h = omega arith
longer-lt (suc k) (c ∷ cs) h = omega (arith, longer-lt k cs h)

length-encode_utf8 : (cp : ℕ) → length (encode_utf8 cp) ≤ 4
unfolding encode_utf8
length-encode_utf8 cp = ground arith

-- A step on `s`, with `k` bytes already read, writes no more than was read.
abbrev Fits : ℕ → Bytes → Step → Type 0
Fits k s step = (length step.0 + length step.1 ≤ k + length s) × (length step.1 ≤ length s)

at_option-Fits :
    (k : ℕ) (s : Bytes) (f : ℕ → Step) (d : Step) (o : Option ℕ)
    → ((u : ℕ) → Fits k s (f u))
    → Fits k s d
    → Fits k s (at_option f d o)
at_option-Fits k s f d none h h' = h'
at_option-Fits k s f d (some u) h h' = h u

join_low-Fits : (u : ℕ) (s : Bytes) (v : ℕ) → Fits 6 s (join_low u s v)
unfolding join_low
join_low-Fits u s v =
    ground (arith, length-encode_utf8 u, length-encode_utf8 (code_point u v), length-drop 6 s)

alone-Fits : (u : ℕ) (s : Bytes) → Fits 6 s (encode_utf8 u, s)
alone-Fits u s = omega (arith, length-encode_utf8 u)

unescape_low-Fits : (u : ℕ) (s : Bytes) → Fits 6 s (unescape_low u s)
unfolding unescape_low
unescape_low-Fits u s = ground (
  arith,
  at_option-Fits 6 s (join_low u s) (encode_utf8 u, s) (parse_4hex (drop 2 s)) (join_low-Fits u s)
      (alone-Fits u s),
  alone-Fits u s,
)

first_unit-Fits : (s : Bytes) (u : ℕ) → Fits 6 s (first_unit s u)
unfolding first_unit
first_unit-Fits s u = ground (arith, unescape_low-Fits u s, alone-Fits u s)

unescape_unit-Fits : (s : Bytes) → Fits 2 s (unescape_unit s)
unfolding unescape_unit
unescape_unit-Fits s = elim (Bool-cases (longer 3 s)) [
  | inr short ↦ rw short (omega arith)
  | inl enough ↦ rw enough (
      at_option-Fits 2 s (first_unit (drop 4 s)) (b'u' ∷ [], s) (parse_4hex s)
        (λ u. omega (arith, first_unit-Fits (drop 4 s) u, length-drop 4 s, longer-lt 3 s enough))
        (omega arith))
]

unescape_char-Fits : (e : ℕ) (s : Bytes) → Fits 2 s (unescape_char e s)
unfolding unescape_char
unescape_char-Fits e s = ground (arith, unescape_unit-Fits s)

unescape_turn-Fits : (c : ℕ) (s : Bytes) → Fits 1 s (unescape_turn c s)
unfolding unescape_turn unescape_escape
unescape_turn-Fits c [] = ground arith
unescape_turn-Fits c (e ∷ s) = ground (arith, unescape_char-Fits e s)

-- Enough fuel is the length: more changes nothing.
pub unescape_loop_fuel :
    (f g : ℕ) (s : Bytes) → length s ≤ f → length s ≤ g → unescape_loop f s ≡ unescape_loop g s
unfolding unescape_loop
unescape_loop_fuel zero zero s h k = refl
unescape_loop_fuel zero (suc g) [] h k = refl
unescape_loop_fuel zero (suc g) (c ∷ s) h k = absurd (omega arith)
unescape_loop_fuel (suc f) zero [] h k = refl
unescape_loop_fuel (suc f) zero (c ∷ s) h k = absurd (omega arith)
unescape_loop_fuel (suc f) (suc g) [] h k = refl
unescape_loop_fuel (suc f) (suc g) (c ∷ s) h k =
    let step = unescape_turn c s in
    let fits = unescape_turn-Fits c s in
    ap (λ t. step.0 ++ t) (unescape_loop_fuel f g step.1 (omega arith) (omega arith))

-- jsonv_unescape_string on a first byte and others writes what its turn on that byte writes, and
-- then what it writes for the bytes that the turn leaves: its fuel never runs out.
unescape_string-cons :
    (c : ℕ) (s : Bytes)
    → unescape_string (c ∷ s) ≡ (unescape_turn c s).0 ++ unescape_string (unescape_turn c s).1
unfolding unescape_string unescape_loop
unescape_string-cons c s =
    let step = unescape_turn c s in
    let fits = unescape_turn-Fits c s in
    ap (λ t. step.0 ++ t)
      (unescape_loop_fuel (length s) (length step.1) step.1 (omega arith) (omega arith))

length-unescape_loop : (f : ℕ) (s : Bytes) → length (unescape_loop f s) ≤ length s
unfolding unescape_loop
length-unescape_loop zero s = omega arith
length-unescape_loop (suc f) [] = omega arith
length-unescape_loop (suc f) (c ∷ s) =
    let step = unescape_turn c s in
    omega (
      arith,
      unescape_turn-Fits c s,
      length-unescape_loop f step.1,
      length-append step.0 (unescape_loop f step.1),
    )

-- Whatever the source holds, no more bytes are written than it has: a destination of `len + 1`
-- bytes has room for them and for the NUL.
pub length-unescape_string : (s : Bytes) → length (unescape_string s) ≤ length s
unfolding unescape_string
length-unescape_string s = length-unescape_loop (length s) s

plain_turn : (c : ℕ) (s : Bytes) → not (c == b'\\') ≡ true → unescape_turn c s ≡ (c ∷ [], s)
unfolding unescape_turn
plain_turn c s h = ground arith

-- Text with no backslash is copied.
unescape_string_plain : (s : Bytes) → AllPass (λ c. not (c == b'\\')) s → unescape_string s ≡ s
unescape_string_plain [] h = unfold unescape_string unescape_loop in refl
unescape_string_plain (c ∷ s) (h, all) =
    unescape_string-cons c s ∙ rw (plain_turn c s h) (ap (◌∷◌ c) (unescape_string_plain s all))
