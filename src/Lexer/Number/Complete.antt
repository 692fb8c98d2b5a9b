-- ===== src/Lexer/Number/Complete.antt =====
-- src/parser/lexer.c: parse_number reads every number of RFC 8259 whole.
use mathlib.Core.List.{append_assoc}
use jsonv.Base.{
  ℕ, ◌+◌, ◌≡◌, refl, ap, ◌∙◌, Bool, true, false, ◌||◌, [], ◌∷◌, ◌++◌, ◌==◌, arith, length,
  length-append,
}
use jsonv.Token.{Bytes, number, Token}
use jsonv.Lexer.Cursor.{Lexer, starts, is_digit, skip_digits}
use jsonv.Lexer.Reads.{skip-append}
use jsonv.Lexer.Number.{
  good, sign_part, first_digit, integer_part, digits_part, fraction_part, exponent_part,
  number_stages, parse_number,
}
use jsonv.Lexer.Number.Grammar.{
  IsDigits, digits, IsInteger, lone_zero, counting, IsFraction, none_of_it, point, is_e, is_sign,
  IsExponent, unsigned, signed, IsSigned, positive, negative, IsNumber,
}

abbrev at : Bytes → ℕ → Lexer
at cs p = record { rest = cs; current_pos = p }

-- A byte that could go on with a number: a digit, a point or an exponent's letter.
abbrev pub continues : ℕ → Bool
continues c = is_digit c || c == b'.' || is_e c

at_pos : (r : Bytes) {p q : ℕ} → p ≡ q → good (at r p) ≡ good (at r q)
at_pos r e = ap (λ (q : ℕ). good (at r q)) e

digits_part-IsDigits :
    {ds : Bytes} (r : Bytes) (p : ℕ)
    → IsDigits ds
    → starts is_digit r ≡ false
    → digits_part (at (ds ++ r) p) ≡ good (at r (p + length ds))
unfolding digits_part skip_digits
digits_part-IsDigits r p (digits {d} {ds} h all) stop =
    rw h (ap good (skip-append is_digit (d ∷ ds) r p (h, all) stop))

fraction_part-IsFraction :
    {f : Bytes} (r : Bytes) (p : ℕ)
    → IsFraction f
    → starts is_digit r ≡ false
    → starts (λ c. c == b'.') r ≡ false
    → fraction_part (at (f ++ r) p) ≡ good (at r (p + length f))
unfolding fraction_part
fraction_part-IsFraction [] p none_of_it d stop = at_pos [] (omega arith)
fraction_part-IsFraction (c ∷ r) p none_of_it d stop = rw stop (at_pos (c ∷ r) (omega arith))
fraction_part-IsFraction r p (point {c} {ds} e ok) d stop =
    rw e (digits_part-IsDigits r (p + 1) ok d ∙ at_pos r (omega arith))

sign-not-digit : (c : ℕ) → is_digit c ≡ true → is_sign c ≡ false
unfolding is_digit
sign-not-digit c h = ground arith

exponent_part-IsExponent :
    {e : Bytes} (r : Bytes) (p : ℕ)
    → IsExponent e
    → starts is_digit r ≡ false
    → starts is_e r ≡ false
    → exponent_part (at (e ++ r) p) ≡ good (at r (p + length e))
unfolding exponent_part
exponent_part-IsExponent [] p none_of_it d stop = at_pos [] (omega arith)
exponent_part-IsExponent (c ∷ r) p none_of_it d stop = rw stop (at_pos (c ∷ r) (omega arith))
exponent_part-IsExponent r p (unsigned {c} e (digits {d = x} {ds} h all)) d stop =
    rw (e, sign-not-digit x h)
      (digits_part-IsDigits r (p + 1) (digits h all) d ∙ at_pos r (omega arith))
exponent_part-IsExponent r p (signed {c} {s} {ds} e g ok) d stop =
    rw (e, g) (digits_part-IsDigits r (p + 1 + 1) ok d ∙ at_pos r (omega arith))

integer_part-IsInteger :
    {d : ℕ} {ds : Bytes} (r : Bytes) (p : ℕ)
    → IsInteger (d ∷ ds)
    → starts is_digit r ≡ false
    → integer_part (d, at (ds ++ r) p) ≡ good (at r (p + length ds))
unfolding integer_part skip_digits
integer_part-IsInteger r p (lone_zero e) stop = rw (e, stop) (at_pos r (omega arith))
integer_part-IsInteger r p (counting {d} {ds} e all) stop =
    let other : (d == b'0') ≡ false = ground arith in
    rw (other, e) (ap good (skip-append is_digit ds r p all stop))

IsInteger-digit :
    {d : ℕ} {ds : Bytes} → IsInteger (d ∷ ds) → (is_digit d ≡ true) × ((d == b'-') ≡ false)
unfolding is_digit
IsInteger-digit (lone_zero e) = ground arith
IsInteger-digit (counting e all) = ground arith

-- The sign and the integer, read in two stages.
signed-IsSigned :
    {c : ℕ} {ds : Bytes} (r : Bytes) (p : ℕ)
    → IsSigned (c ∷ ds)
    → starts is_digit r ≡ false
    → (sign_part c (at (ds ++ r) p) ≡ good (at (ds ++ r) p))
      × (integer_part (first_digit c (at (ds ++ r) p)) ≡ good (at r (p + length ds)))
unfolding sign_part first_digit
signed-IsSigned r p (positive i) stop =
    rw ((IsInteger-digit i).1) (refl, integer_part-IsInteger r p i stop)
signed-IsSigned r p (negative {i = []} e i) stop = elim i [ ]
signed-IsSigned r p (negative {i = d ∷ ds} e i) stop =
    rw (e, (IsInteger-digit i).0)
      (refl, integer_part-IsInteger r (p + 1) i stop ∙ at_pos r (omega arith))

-- A number begins with a sign or a digit, and what follows its integer does not go on with it.
IsExponent-starts :
    {e : Bytes} (r : Bytes)
    → IsExponent e
    → starts continues r ≡ false
    → (starts is_digit (e ++ r) ≡ false) × (starts (λ c. c == b'.') (e ++ r) ≡ false)
unfolding is_digit
IsExponent-starts [] none_of_it h = (refl, refl)
IsExponent-starts (c ∷ r) none_of_it h = ground arith
IsExponent-starts r (unsigned e _) h = ground arith
IsExponent-starts r (signed e _ _) h = ground arith

IsFraction-starts :
    {f : Bytes} (r : Bytes)
    → IsFraction f
    → starts is_digit r ≡ false
    → starts is_digit (f ++ r) ≡ false
unfolding is_digit
IsFraction-starts r none_of_it h = h
IsFraction-starts r (point e _) h = ground arith

starts_split :
    (r : Bytes) → starts continues r ≡ false → (starts is_digit r ≡ false) × (starts is_e r ≡ false)
starts_split [] h = (refl, refl)
starts_split (c ∷ r) h = ground arith

number_stages-at :
    {c : ℕ} {a f e : Bytes} (r : Bytes) (p : ℕ)
    → IsSigned (c ∷ a)
    → IsFraction f
    → IsExponent e
    → starts continues r ≡ false
    → number_stages c (at (a ++ (f ++ (e ++ r))) p)
      ≡ good (at r (p + length a + length f + length e))
unfolding number_stages
number_stages-at {c} {a} {f} {e} r p i fr ex stop =
    let (d, en) = starts_split r stop in
    let (ed, ep) = IsExponent-starts r ex stop in
    let (s, n) = signed-IsSigned (f ++ (e ++ r)) p i (IsFraction-starts (e ++ r) fr ed) in
    rw (s, n, fraction_part-IsFraction (e ++ r) (p + length a) fr ed ep)
      (exponent_part-IsExponent r (p + length a + length f) ex d en)

abbrev pub number_at : Bytes → Bytes → ℕ → Token × Lexer
number_at n r p = (
  record { start = n ++ r; len = length n; type = number; has_escape = false },
  at r (p + length n),
)

IsSigned-first : {c : ℕ} {a : Bytes} → IsSigned (c ∷ a) → (c == b'+' || c == b'.') ≡ false
IsSigned-first (positive (lone_zero e)) = ground arith
IsSigned-first (positive (counting e _)) = ground arith
IsSigned-first (negative e _) = ground arith

parse_number-at :
    {c : ℕ} {a f e : Bytes} (r : Bytes) (p : ℕ)
    → IsSigned (c ∷ a)
    → IsFraction f
    → IsExponent e
    → starts continues r ≡ false
    → parse_number c (c ∷ (a ++ (f ++ (e ++ r)))) (at (a ++ (f ++ (e ++ r))) (p + 1)) ≡ (
      record {
        start = c ∷ (a ++ (f ++ (e ++ r)));
        len = 1 + length a + length f + length e;
        type = number;
        has_escape = false;
      },
      at r (p + 1 + length a + length f + length e),
    )
unfolding parse_number
parse_number-at {c} {a} {f} {e} r p i fr ex stop =
    rw (IsSigned-first i, number_stages-at r (p + 1) i fr ex stop) (ground arith)

-- On a number of RFC 8259, with behind it no digit, point, `e` or `E`, parse_number returns a
-- number token over exactly that number, and the lexer stands behind it.
pub parse_number_complete :
    (c : ℕ) (cs r : Bytes) (p : ℕ)
    → IsNumber (c ∷ cs)
    → starts continues r ≡ false
    → parse_number c ((c ∷ cs) ++ r) (at (cs ++ r) (p + 1)) ≡ number_at (c ∷ cs) r p
parse_number_complete c cs r p n stop = go n.integer n.integer_part n.splits
  where
    go :
        (i : Bytes)
        → IsSigned i
        → c ∷ cs ≡ i ++ (n.fraction ++ n.exponent)
        → parse_number c ((c ∷ cs) ++ r) (at (cs ++ r) (p + 1)) ≡ number_at (c ∷ cs) r p
    go [] (positive i) e = elim i [ ]
    go (d ∷ a) s e =
        let f = n.fraction in
        let x = n.exponent in
        let head : c ≡ d = cc in
        let tail : cs ≡ a ++ (f ++ x) = cc in
        rw (head, tail)
          (simp append_assoc (
            parse_number-at r p s n.fraction_part n.exponent_part stop
            ∙ ground (arith, length-append a (f ++ x), length-append f x)))
