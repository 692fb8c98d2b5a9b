-- ===== src/Lexer/Progress/Numbers.antt =====
-- src/parser/lexer.c: parse_number stays inside the source.
use jsonv.Base.{ℕ, ◌≡◌, refl, true, ◌||◌, ◌==◌, arith, Bool-cases, inl, inr}
use jsonv.Token.{Bytes}
use jsonv.Lexer.Cursor.{Lexer, advance, next_is, is_digit}
use jsonv.Lexer.Number.{
  Stage, good, bad, then_stage, sign_part, first_digit, integer_part, digits_part, fraction_part,
  exponent_sign, exponent_part, number_stages, parse_number,
}
use jsonv.Lexer.Progress.Moves.{
  Keeps, Keeps-refl, Keeps-trans, starts-lt, advance-Keeps, skip_digits-Keeps,
}

-- Where a stage leaves the lexer.
abbrev stage_lexer : Stage → Lexer
stage_lexer (good m) = m
stage_lexer (bad m) = m

digits_part-Keeps : (l : Lexer) → Keeps l (stage_lexer (digits_part l))
unfolding digits_part
digits_part-Keeps l = ground (arith, skip_digits-Keeps l)

fraction_part-Keeps : (l : Lexer) → Keeps l (stage_lexer (fraction_part l))
unfolding fraction_part
fraction_part-Keeps l = elim (Bool-cases (next_is (λ c. c == b'.') l)) [
  | inl point ↦
      rw point (
        Keeps-trans (advance-Keeps 1 l (starts-lt _ l.rest point))
          (digits_part-Keeps (advance 1 l)))
  | inr other ↦ rw other (Keeps-refl l)
]

exponent_sign-Keeps : (l : Lexer) → Keeps l (exponent_sign l)
exponent_sign-Keeps l = elim (Bool-cases (next_is (λ c. c == b'+' || c == b'-') l)) [
  | inl sign ↦ rw sign (advance-Keeps 1 l (starts-lt _ l.rest sign))
  | inr other ↦ rw other (Keeps-refl l)
]

exponent_part-Keeps : (l : Lexer) → Keeps l (stage_lexer (exponent_part l))
unfolding exponent_part
exponent_part-Keeps l = elim (Bool-cases (next_is (λ c. c == b'e' || c == b'E') l)) [
  | inl e ↦
      let m = advance 1 l in
      rw e (
        Keeps-trans (advance-Keeps 1 l (starts-lt _ l.rest e))
          (Keeps-trans (exponent_sign-Keeps m) (digits_part-Keeps (exponent_sign m))))
  | inr other ↦ rw other (Keeps-refl l)
]

integer_part-Keeps : (d : ℕ) (l : Lexer) → Keeps l (stage_lexer (integer_part (d, l)))
unfolding integer_part
integer_part-Keeps d l = ground (arith, skip_digits-Keeps l)

then_stage-Keeps :
    (l : Lexer) (s : Stage) (f : Lexer → Stage)
    → Keeps l (stage_lexer s)
    → ((m : Lexer) → s ≡ good m → Keeps m (stage_lexer (f m)))
    → Keeps l (stage_lexer (then_stage s f))
then_stage-Keeps l (good m) f h k = Keeps-trans h (k m refl)
then_stage-Keeps l (bad m) f h k = h

first_digit-Keeps :
    (c : ℕ) (l m : Lexer)
    → sign_part c l ≡ good m
    → Keeps m (stage_lexer (integer_part (first_digit c m)))
unfolding sign_part first_digit
first_digit-Keeps c l m h = elim (Bool-cases (c == b'-')) [
  | inl minus ↦
      let there : next_is is_digit m ≡ true = ground arith in
      rw minus (
        Keeps-trans (advance-Keeps 1 m (starts-lt _ m.rest there))
          (integer_part-Keeps _ (advance 1 m)))
  | inr other ↦ rw other (integer_part-Keeps c m)
]

sign_part-Keeps : (c : ℕ) (l : Lexer) → Keeps l (stage_lexer (sign_part c l))
unfolding sign_part
sign_part-Keeps c l = ground arith

abbrev number_tail : Lexer → Stage
number_tail l = then_stage (fraction_part l) exponent_part

abbrev number_digits : ℕ → Lexer → Stage
number_digits c l = then_stage (integer_part (first_digit c l)) number_tail

number_stages-Keeps : (c : ℕ) (l : Lexer) → Keeps l (stage_lexer (number_stages c l))
unfolding number_stages
number_stages-Keeps c l =
    then_stage-Keeps l (sign_part c l) (number_digits c) (sign_part-Keeps c l) λ l₁ h.
      then_stage-Keeps l₁ (integer_part (first_digit c l₁)) number_tail (first_digit-Keeps c l l₁ h)
        λ l₂ _.
          then_stage-Keeps l₂ (fraction_part l₂) exponent_part (fraction_part-Keeps l₂)
            λ l₃ _. exponent_part-Keeps l₃

pub parse_number-Keeps : (c : ℕ) (start : Bytes) (l : Lexer) → Keeps l (parse_number c start l).1
unfolding parse_number
parse_number-Keeps c start l = ground (arith, number_stages-Keeps c l)
