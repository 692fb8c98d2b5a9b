-- ===== src/Tests/LexerRuns.antt =====
-- src/parser/lexer.c: runs of the lexer.
use Prim.Native.Char.{code}
use Prim.Native.String.{String}
use jsonv.Base.{ℕ, zero, suc, ◌≡◌, refl, List, [], ◌∷◌}
use jsonv.Token.{
  Bytes, TokenType, colon, comma, brace_open, brace_close, string, number, true_lit, text,
}
use jsonv.Lexer.Cursor
use jsonv.Lexer.Number
use jsonv.Lexer.Strings
use jsonv.Lexer.Cursor.{Lexer}
use jsonv.Lexer.{
  lexer_init, lexer_next_token, token_from, token_at, value_at, starts_number, parse_literal,
}

-- The code points of a text, which are its bytes where it is ASCII.
abbrev pub codes : String → Bytes
codes String.[] = []
codes (String.◌∷◌ c s) = code c ∷ codes s

-- All that a run of the lexer computes with.
unfoldable pub lexer_code : Unit {0}
unfolding lexer_init lexer_next_token token_from token_at value_at starts_number parse_literal
    Cursor.is_digit Cursor.is_hex_digit Cursor.is_space Cursor.skip Cursor.skip_digits
    Cursor.skip_whitespace Number.sign_part Number.first_digit Number.integer_part
    Number.digits_part Number.fraction_part Number.exponent_part Number.number_stages
    Number.parse_number Strings.hex_value Strings.read_hex Strings.low_surrogate
    Strings.unicode_escape Strings.is_short_escape Strings.escape_turn Strings.second_of_three
    Strings.second_of_four Strings.two_bytes Strings.three_bytes Strings.four_bytes
    Strings.utf8_turn Strings.string_turn Strings.scan_string Strings.parse_string
lexer_code = tt

-- The types and texts of the first n tokens.
abbrev first_tokens : ℕ → Lexer → List (TokenType × Bytes)
first_tokens zero l = []
first_tokens (suc n) l = let (t, l₁) = lexer_next_token l in (t.type, text t) ∷ first_tokens n l₁

object_tokens :
    first_tokens 9 (lexer_init (codes "{\"a\\n\": -1.5e3, \"b\":true}"))
    ≡ (brace_open, codes "{")
      ∷ (string, codes "a\\n")
      ∷ (colon, codes ":")
      ∷ (number, codes "-1.5e3")
      ∷ (comma, codes ",")
      ∷ (string, codes "b")
      ∷ (colon, codes ":")
      ∷ (true_lit, [])
      ∷ (brace_close, codes "}")
      ∷ []
unfolding lexer_code
object_tokens = refl
