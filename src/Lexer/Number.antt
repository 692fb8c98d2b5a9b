-- ===== src/Lexer/Number.antt =====
-- src/parser/lexer.c: parse_number, in the stages between its early returns.
pub mod Grammar
pub mod Sound
pub mod Complete
use jsonv.Base.{ℕ, ◌-◌, false, not, ◌&&◌, ◌||◌, ◌==◌, if◌then◌else◌}
use jsonv.Token.{Bytes, TokenType, error, number, Token}
use jsonv.Lexer.Cursor.{Lexer, advance, peek, next_is, within, is_digit, skip_digits}

-- A stage either goes on or leaves the lexer where the error token ends.
pub data Stage : Type 0 where
  good bad : Lexer → Stage

abbrev pub at_stage {ℓ} : {A : Type ℓ} → (Lexer → A) → (Lexer → A) → Stage → A
at_stage g b (good l) = g l
at_stage g b (bad l) = b l

abbrev pub then_stage : Stage → (Lexer → Stage) → Stage
then_stage s f = at_stage f bad s

-- after `-` a digit must follow
unfoldable pub sign_part : ℕ → Lexer → Stage
sign_part c l = if c == b'-' && not (next_is is_digit l) then bad l else good l

-- `first_digit`: past the sign, if there is one
unfoldable pub first_digit : ℕ → Lexer → ℕ × Lexer
first_digit c l = if c == b'-' then (peek 0 l, advance 1 l) else (c, l)

unfoldable pub integer_part : ℕ × Lexer → Stage
integer_part (d, l) =
    if d == b'0'
    then (if next_is is_digit l then bad l else good l)
    else if within b'1' b'9' d
    then good (skip_digits l)
    else bad l

-- at least one digit, then all that follow
unfoldable pub digits_part : Lexer → Stage
digits_part l = if not (next_is is_digit l) then bad l else good (skip_digits l)

unfoldable pub fraction_part : Lexer → Stage
fraction_part l = if next_is (λ c. c == b'.') l then digits_part (advance 1 l) else good l

abbrev pub exponent_sign : Lexer → Lexer
exponent_sign l = if next_is (λ c. c == b'+' || c == b'-') l then advance 1 l else l

unfoldable pub exponent_part : Lexer → Stage
exponent_part l =
    if next_is (λ c. c == b'e' || c == b'E') l
    then digits_part (exponent_sign (advance 1 l))
    else good l

unfoldable pub number_stages : ℕ → Lexer → Stage
number_stages c l = then_stage (sign_part c l) λ l₁.
    then_stage (integer_part (first_digit c l₁)) λ l₂. then_stage (fraction_part l₂) exponent_part

-- `length = current_pos - start_pos`, where `start_pos` is one before the position at entry.
abbrev pub number_token : Bytes → ℕ → TokenType → Lexer → Token × Lexer
number_token start pos type l =
    (record { start = start; len = l.current_pos - (pos - 1); type = type; has_escape = false }, l)

-- `c` is `token_start[0]`, and `l` stands behind it.
unfoldable pub parse_number : ℕ → Bytes → Lexer → Token × Lexer
parse_number c start l =
    if c == b'+' || c == b'.'
    then (record { start = start; len = 1; type = error; has_escape = false }, l)
    else at_stage (number_token start l.current_pos number) (number_token start l.current_pos error)
        (number_stages c l)
