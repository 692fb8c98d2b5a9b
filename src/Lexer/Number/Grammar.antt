-- ===== src/Lexer/Number/Grammar.antt =====
-- The number grammar of RFC 8259, section 6, which parse_number of src/parser/lexer.c is held to.
use jsonv.Base.{ℕ, Bool, true, ◌||◌, ◌==◌, [], ◌∷◌, ◌++◌, ◌≡◌}
use jsonv.Token.{Bytes}
use jsonv.Lexer.Cursor.{within, is_digit}
use jsonv.Lexer.Reads.{AllPass}

-- one digit or more
pub data IsDigits : Bytes → Type 0 where
  digits : {d : ℕ} {ds : Bytes} → is_digit d ≡ true → AllPass is_digit ds → IsDigits (d ∷ ds)

-- `int`: no leading zero
pub data IsInteger : Bytes → Type 0 where
  lone_zero : {d : ℕ} → d ≡ b'0' → IsInteger (d ∷ [])
  counting :
      {d : ℕ} {ds : Bytes} → within b'1' b'9' d ≡ true → AllPass is_digit ds → IsInteger (d ∷ ds)

-- `[ frac ]`
pub data IsFraction : Bytes → Type 0 where
  none_of_it : IsFraction []
  point : {c : ℕ} {ds : Bytes} → (c == b'.') ≡ true → IsDigits ds → IsFraction (c ∷ ds)

abbrev pub is_e : ℕ → Bool
is_e c = c == b'e' || c == b'E'

abbrev pub is_sign : ℕ → Bool
is_sign c = c == b'+' || c == b'-'

-- `[ exp ]`
pub data IsExponent : Bytes → Type 0 where
  none_of_it : IsExponent []
  unsigned : {c : ℕ} {ds : Bytes} → is_e c ≡ true → IsDigits ds → IsExponent (c ∷ ds)
  signed :
      {c s : ℕ} {ds : Bytes}
      → is_e c ≡ true
      → is_sign s ≡ true
      → IsDigits ds
      → IsExponent (c ∷ s ∷ ds)

-- `[ minus ] int`
pub data IsSigned : Bytes → Type 0 where
  positive : {i : Bytes} → IsInteger i → IsSigned i
  negative : {c : ℕ} {i : Bytes} → (c == b'-') ≡ true → IsInteger i → IsSigned (c ∷ i)

-- `number = [ minus ] int [ frac ] [ exp ]`
pub record IsNumber (n : Bytes) : Type 0 where
  pub integer : Bytes
  pub fraction : Bytes
  pub exponent : Bytes
  pub splits : n ≡ integer ++ (fraction ++ exponent)
  pub integer_part : IsSigned integer
  pub fraction_part : IsFraction fraction
  pub exponent_part : IsExponent exponent
