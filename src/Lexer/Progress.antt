-- ===== src/Lexer/Progress.antt =====
-- src/parser/lexer.c: the lexer stays inside the source, and each token moves it forward.
pub mod Moves
pub mod Numbers
pub mod Strings
use jsonv.Base.{
  ℕ, zero, suc, ◌+◌, ◌-◌, ◌≤◌, ◌<◌, ◌≡◌, ◌≢◌, refl, ap, ◌∙◌, Bool, true, false, ◌&&◌, ◌||◌, List,
  [], ◌∷◌, ◌==◌, arith, drop, length, length-drop, Bool-cases, inl, inr, if◌then◌else◌,
}
use jsonv.Token.{Bytes, eof, Token}
use jsonv.Lexer.Cursor.{
  Lexer, longer, advance, has, peek, next_is, starts, is_digit, is_space, is_hex_digit, skip,
  skip_digits, skip_whitespace,
}
use jsonv.Lexer.Number.{
  Stage, good, bad, then_stage, sign_part, first_digit, integer_part, digits_part, fraction_part,
  exponent_sign, exponent_part, number_stages, parse_number,
}
use jsonv.Lexer.Strings.{
  Turn, closed, failed, going, Hex, hex_ok, hex_bad, read_hex, push_hex, low_surrogate,
  unicode_escape, is_short_escape, escape_turn, two_bytes, three_bytes, four_bytes, utf8_turn,
  string_turn, scan_string, string_token, parse_string,
}
use jsonv.Lexer.{bare_token, parse_literal, value_at, token_at, token_from, lexer_next_token}
use jsonv.Lexer.Progress.Moves.{
  Keeps, Keeps-refl, Keeps-trans, longer-lt, starts-lt, advance-Keeps, skip-Keeps,
  skip_digits-Keeps,
}
use jsonv.Lexer.Progress.Numbers.{parse_number-Keeps}
use jsonv.Lexer.Progress.Strings.{parse_string-Keeps}

parse_literal-Keeps : (c : ℕ) (start : Bytes) (l : Lexer) → Keeps l (parse_literal c start l).1
unfolding parse_literal
parse_literal-Keeps c start l =
    ground
      (arith, longer-lt 2 l.rest, longer-lt 3 l.rest, length-drop 3 l.rest, length-drop 4 l.rest)

value_at-Keeps : (c : ℕ) (start : Bytes) (l : Lexer) → Keeps l (value_at c start l).1
unfolding value_at
value_at-Keeps c start l =
    ground (
      arith,
      parse_string-Keeps start l,
      parse_number-Keeps c start l,
      parse_literal-Keeps c start l,
    )

token_at-Keeps : (c : ℕ) (start : Bytes) (l : Lexer) → Keeps l (token_at c start l).1
unfolding token_at
token_at-Keeps c start l = ground (arith, value_at-Keeps c start l)

token_from-Keeps : (l : Lexer) → Keeps l (token_from l).1
unfolding token_from
token_from-Keeps l = elim (Bool-cases (has 0 l)) [
  | inr empty ↦ rw empty (Keeps-refl l)
  | inl there ↦ rw there (
      Keeps-trans (advance-Keeps 1 l (longer-lt 0 l.rest there))
        (token_at-Keeps (peek 0 l) l.rest (advance 1 l)))
]

token_from-forward :
    (l : Lexer) → (token_from l).0.type ≢ eof → l.current_pos < (token_from l).1.current_pos
unfolding token_from
token_from-forward l h = elim (Bool-cases (has 0 l)) [
  | inr empty ↦ absurd ((rw empty at h) refl)
  | inl there ↦
      let k = token_at-Keeps (peek 0 l) l.rest (advance 1 l) in rw there (omega (arith, k.forward))
]

-- lexer_next_token keeps the lexer inside the source, whatever the token; and each token but
-- `eof` moves it forward.
pub lexer_next_token-Keeps :
    (l : Lexer)
    → Keeps l (lexer_next_token l).1
      × ((lexer_next_token l).0.type ≢ eof → l.current_pos < (lexer_next_token l).1.current_pos)
unfolding lexer_next_token skip_whitespace
lexer_next_token-Keeps l =
    let m = skip is_space l.rest l.current_pos in
    let s = skip-Keeps is_space l.rest l.current_pos in
    (Keeps-trans s (token_from-Keeps m), λ h. omega (arith, s.forward, token_from-forward m h))

string_token-ne-eof :
    (start : Bytes) (p : ℕ) (x : Bool × Turn) → (string_token start p x).0.type ≢ eof
string_token-ne-eof start p (esc, closed m) h = cc
string_token-ne-eof start p (esc, failed m) h = cc
string_token-ne-eof start p (esc, going e m) h = cc

parse_string-ne-eof : (start : Bytes) (l : Lexer) → (parse_string start l).0.type ≢ eof
unfolding parse_string
parse_string-ne-eof start l = string_token-ne-eof start l.current_pos _

parse_number-ne-eof : (c : ℕ) (start : Bytes) (l : Lexer) → (parse_number c start l).0.type ≢ eof
unfolding parse_number
parse_number-ne-eof c start l h = ground arith

parse_literal-ne-eof : (c : ℕ) (start : Bytes) (l : Lexer) → (parse_literal c start l).0.type ≢ eof
unfolding parse_literal
parse_literal-ne-eof c start l h = ground arith

value_at-ne-eof : (c : ℕ) (start : Bytes) (l : Lexer) → (value_at c start l).0.type ≢ eof
unfolding value_at
value_at-ne-eof c start l h = ground (
  arith,
  parse_string-ne-eof start l,
  parse_number-ne-eof c start l,
  parse_literal-ne-eof c start l,
)

token_at-ne-eof : (c : ℕ) (start : Bytes) (l : Lexer) → (token_at c start l).0.type ≢ eof
unfolding token_at
token_at-ne-eof c start l h = ground (arith, value_at-ne-eof c start l)

-- `token_from` returns `eof` only at the end.
token_from-eof :
    (l : Lexer) → (token_from l).0.type ≡ eof → (l.rest ≡ []) × (token_from l ≡ (bare_token eof, l))
unfolding token_from
token_from-eof l h = elim (Bool-cases (has 0 l)) [
  | inl there ↦ absurd (token_at-ne-eof (peek 0 l) l.rest (advance 1 l) (rw there at h))
  | inr empty ↦ (no_rest l.rest empty, rw empty refl)
]
  where
    no_rest : (cs : Bytes) → longer 0 cs ≡ false → cs ≡ []
    no_rest [] e = refl
    no_rest (c ∷ cs) e = cc

skip_end :
    (test : ℕ → Bool) (cs : Bytes) (p : ℕ)
    → cs ≡ []
    → skip test cs p ≡ record { rest = cs; current_pos = p }
unfolding skip
skip_end test [] p h = refl
skip_end test (c ∷ cs) p h = cc

-- Once the end is reached every later call returns `eof` and moves nothing.
pub lexer_next_token_eof :
    (l : Lexer)
    → (lexer_next_token l).0.type ≡ eof
    → ((lexer_next_token l).1.rest ≡ [])
      × (lexer_next_token (lexer_next_token l).1 ≡ (bare_token eof, (lexer_next_token l).1))
unfolding lexer_next_token skip_whitespace
lexer_next_token_eof l h =
    let m = skip is_space l.rest l.current_pos in
    let (none_left, at_end) = token_from-eof m h in
    rw at_end (none_left, ap token_from (skip_end is_space m.rest m.current_pos none_left) ∙ at_end)
