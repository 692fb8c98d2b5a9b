-- ===== src/Lexer/Number/Sound.antt =====
-- src/parser/lexer.c: every number token that parse_number returns is a number of RFC 8259.
use mathlib.Core.Path.{subst}
use jsonv.Base.{
  ℕ, ◌+◌, ◌-◌, ◌≡◌, refl, sym, ◌∙◌, true, false, ◌||◌, [], ◌∷◌, ◌++◌, ◌==◌, arith, take, length,
  take-append, Bool-cases, inl, inr,
}
use jsonv.Token.{Bytes, number, error, Token, text}
use jsonv.Lexer.Cursor.{Lexer, advance, peek, next_is, is_digit, skip, skip_digits, within}
use jsonv.Lexer.Reads.{Reads, Reads-refl, Reads-trans, AllPass, skip_lem}
use jsonv.Lexer.Number.{
  Stage, good, bad, sign_part, first_digit, integer_part, digits_part, fraction_part, exponent_part,
  number_stages, parse_number, exponent_sign, then_stage, at_stage, number_token,
}
use jsonv.Lexer.Number.Grammar.{
  IsDigits, digits, IsInteger, lone_zero, counting, IsFraction, none_of_it, point, is_e, is_sign,
  IsExponent, unsigned, signed, IsSigned, positive, negative, IsNumber,
}

-- The lexer at the bytes `cs` and position `p`.
abbrev at : Bytes → ℕ → Lexer
at cs p = record { rest = cs; current_pos = p }

good-injective : {l m : Lexer} → good l ≡ good m → l ≡ m
good-injective h = cc

stay : {l m : Lexer} → good l ≡ good m → Reads l [] m
stay {l} h = subst (Reads l []) (good-injective h) (Reads-refl l)

one-Reads : (c : ℕ) (cs : Bytes) (p : ℕ) → Reads (at (c ∷ cs) p) (c ∷ []) (at cs (p + 1))
one-Reads c cs p = record { split = refl; position = omega arith }

skip_digits_lem :
    (cs : Bytes) (p : ℕ)
    → (ds : Bytes) × Reads (at cs p) ds (skip_digits (at cs p))
      × AllPass is_digit ds
      × (next_is is_digit (skip_digits (at cs p)) ≡ false)
unfolding skip_digits
skip_digits_lem cs p = skip_lem is_digit cs p

skip_digits-cons :
    (c : ℕ) (cs : Bytes) (p : ℕ)
    → is_digit c ≡ true
    → skip_digits (at (c ∷ cs) p) ≡ skip_digits (at cs (p + 1))
unfolding skip_digits skip
skip_digits-cons c cs p h = ground arith

-- What the digits behind a first digit read.
run_digits :
    (c : ℕ) (cs : Bytes) (p : ℕ) {m : Lexer}
    → is_digit c ≡ true
    → skip_digits (at (c ∷ cs) p) ≡ m
    → (ds : Bytes) × Reads (at (c ∷ cs) p) (c ∷ ds) m
      × AllPass is_digit ds
      × (next_is is_digit m ≡ false)
run_digits c cs p h e =
    let (ds, r, all, stop) = skip_digits_lem cs (p + 1) in
    let e' = sym (skip_digits-cons c cs p h) ∙ e in
    (ds, Reads-trans (c ∷ []) ds (one-Reads c cs p) (rw e' at r), all, rw e' at stop)

digits_part_lem :
    (cs : Bytes) (p : ℕ) {m : Lexer}
    → digits_part (at cs p) ≡ good m
    → (ds : Bytes) × Reads (at cs p) ds m × IsDigits ds × (next_is is_digit m ≡ false)
unfolding digits_part
digits_part_lem [] p h = cc
digits_part_lem (c ∷ cs) p h = elim (Bool-cases (is_digit c)) [
  | inr fails ↦ cc (rw fails at h)
  | inl passes ↦
      let (ds, r, all, stop) = run_digits c cs p passes (good-injective (rw passes at h)) in
      (c ∷ ds, r, digits passes all, stop)
]

fraction_part_lem :
    (cs : Bytes) (p : ℕ) {m : Lexer}
    → fraction_part (at cs p) ≡ good m
    → (ds : Bytes) × Reads (at cs p) ds m × IsFraction ds
unfolding fraction_part
fraction_part_lem [] p h = ([], stay h, none_of_it)
fraction_part_lem (c ∷ cs) p h = elim (Bool-cases (c == b'.')) [
  | inr fails ↦ ([], stay (rw fails at h), none_of_it)
  | inl passes ↦
      let (ds, r, ok, _) = digits_part_lem cs (p + 1) (rw passes at h) in
      (c ∷ ds, Reads-trans (c ∷ []) ds (one-Reads c cs p) r, point passes ok)
]

exponent_body_lem :
    (c : ℕ) (cs : Bytes) (p : ℕ) {m : Lexer}
    → is_e c ≡ true
    → digits_part (exponent_sign (at cs p)) ≡ good m
    → (ds : Bytes) × Reads (at cs p) ds m × IsExponent (c ∷ ds)
exponent_body_lem c [] p e h = let (ds, r, ok, _) = digits_part_lem [] p h in (ds, r, unsigned e ok)
exponent_body_lem c (s ∷ cs) p e h = elim (Bool-cases (is_sign s)) [
  | inr fails ↦
      let (ds, r, ok, _) = digits_part_lem (s ∷ cs) p (rw fails at h) in (ds, r, unsigned e ok)
  | inl passes ↦
      let (ds, r, ok, _) = digits_part_lem cs (p + 1) (rw passes at h) in
      (s ∷ ds, Reads-trans (s ∷ []) ds (one-Reads s cs p) r, signed e passes ok)
]

exponent_part_lem :
    (cs : Bytes) (p : ℕ) {m : Lexer}
    → exponent_part (at cs p) ≡ good m
    → (ds : Bytes) × Reads (at cs p) ds m × IsExponent ds
unfolding exponent_part
exponent_part_lem [] p h = ([], stay h, none_of_it)
exponent_part_lem (c ∷ cs) p h = elim (Bool-cases (is_e c)) [
  | inr fails ↦ ([], stay (rw fails at h), none_of_it)
  | inl passes ↦
      let (ds, r, ok) = exponent_body_lem c cs (p + 1) passes (rw passes at h) in
      (c ∷ ds, Reads-trans (c ∷ []) ds (one-Reads c cs p) r, ok)
]

-- `integer_part` stands behind the first digit: what it reads completes an `int`.
integer_part_lem :
    (d : ℕ) (cs : Bytes) (p : ℕ) {m : Lexer}
    → integer_part (d, at cs p) ≡ good m
    → (ds : Bytes) × Reads (at cs p) ds m × IsInteger (d ∷ ds)
unfolding integer_part
integer_part_lem d cs p h = elim (Bool-cases (d == b'0')) [
  | inl leading ↦ elim (Bool-cases (next_is is_digit (at cs p))) [
    | inl more ↦ cc (rw (leading, more) at h)
    | inr alone ↦ ([], stay (rw (leading, alone) at h), lone_zero (ground arith))
  ]
  | inr other ↦ elim (Bool-cases (within b'1' b'9' d)) [
    | inl passes ↦
        let (ds, r, all, _) = skip_digits_lem cs p in
        let e = good-injective (rw (other, passes) at h) in (ds, rw e at r, counting passes all)
    | inr fails ↦ cc (rw (other, fails) at h)
  ]
]

sign_part_lem :
    (c : ℕ) (l : Lexer) {m : Lexer}
    → sign_part c l ≡ good m
    → (l ≡ m) × ((c == b'-') ≡ true → next_is is_digit l ≡ true)
unfolding sign_part
sign_part_lem c l h = ground arith

signed_at :
    (c : ℕ) (cs : Bytes) (p : ℕ) {m : Lexer}
    → ((c == b'-') ≡ true → next_is is_digit (at cs p) ≡ true)
    → integer_part (first_digit c (at cs p)) ≡ good m
    → (ds : Bytes) × Reads (at cs p) ds m × IsSigned (c ∷ ds)
unfolding first_digit
signed_at c cs p sign h = elim (Bool-cases (c == b'-')) [
  | inr plain ↦ let (ds, r, ok) = integer_part_lem c cs p (rw plain at h) in (ds, r, positive ok)
  | inl minus ↦ behind cs (sign minus) (rw minus at h) minus
]
  where
    behind :
        (cs : Bytes) {m : Lexer}
        → next_is is_digit (at cs p) ≡ true
        → integer_part (peek 0 (at cs p), advance 1 (at cs p)) ≡ good m
        → (c == b'-') ≡ true
        → (ds : Bytes) × Reads (at cs p) ds m × IsSigned (c ∷ ds)
    behind [] n h minus = cc
    behind (d ∷ ds) n h minus =
        let (es, r, ok) = integer_part_lem d ds (p + 1) h in
        (d ∷ es, Reads-trans (d ∷ []) es (one-Reads d ds p) r, negative minus ok)

then_stage-eq-good :
    (s : Stage) (f : Lexer → Stage) {m : Lexer}
    → then_stage s f ≡ good m
    → (l : Lexer) × (s ≡ good l) × (f l ≡ good m)
then_stage-eq-good (good l) f h = (l, refl, h)
then_stage-eq-good (bad l) f h = cc

pub number_stages-IsNumber :
    (c : ℕ) (cs : Bytes) (p : ℕ) {m : Lexer}
    → number_stages c (at cs p) ≡ good m
    → (ds : Bytes) × Reads (at cs p) ds m × IsNumber (c ∷ ds)
unfolding number_stages
number_stages-IsNumber c cs p h =
    let (l₁, h₁, k₁) = then_stage-eq-good _ _ h in
    let (l₂, h₂, k₂) = then_stage-eq-good _ _ k₁ in
    let (l₃, h₃, k₃) = then_stage-eq-good _ _ k₂ in
    let (same, sign) = sign_part_lem c (at cs p) h₁ in
    let (a, ra, sa) =
      signed_at c cs p sign (subst (λ l. integer_part (first_digit c l) ≡ good l₂) (sym same) h₂) in
    let (b, rb, sb) = fraction_part_lem l₂.rest l₂.current_pos h₃ in
    let (e, re, se) = exponent_part_lem l₃.rest l₃.current_pos k₃ in
    (
      a ++ (b ++ e),
      Reads-trans a (b ++ e) ra (Reads-trans b e rb re),
      record {
        integer = c ∷ a;
        fraction = b;
        exponent = e;
        splits = refl;
        integer_part = sa;
        fraction_part = sb;
        exponent_part = se;
      },
    )

abbrev finish : ℕ → Bytes → ℕ → Stage → Token × Lexer
finish c cs p =
    at_stage (number_token (c ∷ cs) (p + 1) number) (number_token (c ∷ cs) (p + 1) error)

-- Where parse_number returns a number token, the token's text is a number of RFC 8259, and
-- the lexer stands behind exactly that text.
pub parse_number-IsNumber :
    (c : ℕ) (cs : Bytes) (p : ℕ)
    → (parse_number c (c ∷ cs) (at cs (p + 1))).0.type ≡ number
    → IsNumber (text (parse_number c (c ∷ cs) (at cs (p + 1))).0)
      × Reads
          (at (c ∷ cs) p)
          (text (parse_number c (c ∷ cs) (at cs (p + 1))).0)
          (parse_number c (c ∷ cs) (at cs (p + 1))).1
unfolding parse_number
parse_number-IsNumber c cs p h = elim (Bool-cases (c == b'+' || c == b'.')) [
  | inl refused ↦ cc (rw refused at h)
  | inr other ↦ rw other (go (number_stages c (at cs (p + 1))) refl (rw other at h))
]
  where
    go :
        (s : Stage)
        → number_stages c (at cs (p + 1)) ≡ s
        → (finish c cs p s).0.type ≡ number
        → IsNumber (text (finish c cs p s).0)
          × Reads (at (c ∷ cs) p) (text (finish c cs p s).0) (finish c cs p s).1
    go (bad m) e t = cc
    go (good m) e t =
        let (ds, r, ok) = number_stages-IsNumber c cs (p + 1) e in
        let n : m.current_pos - (p + 1 - 1) ≡ length (c ∷ ds) = omega (arith, r.position) in
        let w : take (m.current_pos - (p + 1 - 1)) (c ∷ cs) ≡ c ∷ ds =
          rw (n, r.split) (take-append (c ∷ ds) m.rest) in
        rw w (ok, Reads-trans (c ∷ []) ds (one-Reads c cs p) r)
