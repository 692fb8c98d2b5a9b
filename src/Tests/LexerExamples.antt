-- ===== src/Tests/LexerExamples.antt =====
-- src/parser/lexer.c, unescape.c and prescan.c: their theorems at concrete inputs.
use jsonv.Base.{ℕ, ◌≤◌, ◌≡◌, refl, true, false, some, [], ◌∷◌, ◌++◌, length, arith}
use jsonv.Token.{Bytes, eof, number, string, text}
use jsonv.Lexer.Cursor.{Lexer, starts}
use jsonv.Lexer.Reads.{Reads}
use jsonv.Lexer.{bare_token, lexer_next_token}
use jsonv.Lexer.Number.{parse_number}
use jsonv.Lexer.Number.Grammar.{digits, counting, point, unsigned, negative, IsNumber}
use jsonv.Lexer.Number.Sound.{parse_number-IsNumber}
use jsonv.Lexer.Number.Complete.{parse_number_complete, number_at, continues}
use jsonv.Lexer.Strings.{parse_string}
use jsonv.Lexer.Strings.Grammar.{ascii, short, IsBody, done, char}
use jsonv.Lexer.Strings.Sound.{parse_string-IsBody}
use jsonv.Lexer.Strings.Complete.{parse_string_complete, string_at}
use jsonv.Lexer.Progress.{lexer_next_token_eof}
use jsonv.Unescape.{unescape_string}
use jsonv.Unescape.Bounds.{length-unescape_string}
use jsonv.Prescan.{JsonEstimate, prescan, scan_loop, no_estimate, one_value}
use jsonv.Prescan
use jsonv.Prescan.Estimates.{IsEstimate, total, prescan-total}
use jsonv.Prescan.Strings.{scan_loop-string, outside, more_bytes}
use jsonv.Tests.LexerRuns.{codes, lexer_code}

-- A string with an escape.
abbrev a_string : Bytes
a_string = codes "a\\nb"

abbrev string_lexer : Lexer
string_lexer = record { rest = codes "a\\nb\"}"; current_pos = 1 }

string_type : (parse_string (codes "\"a\\nb\"}") string_lexer).0.type ≡ string
unfolding lexer_code
string_type = refl

parse_string-IsBody_example :
    IsBody
      (parse_string (codes "\"a\\nb\"}") string_lexer).0.has_escape
      (text (parse_string (codes "\"a\\nb\"}") string_lexer).0)
    × Reads string_lexer
        (text (parse_string (codes "\"a\\nb\"}") string_lexer).0 ++ b'"' ∷ [])
        (parse_string (codes "\"a\\nb\"}") string_lexer).1
parse_string-IsBody_example = parse_string-IsBody b'"' (codes "a\\nb\"}") 1 string_type

a-IsBody : IsBody true a_string
unfolding lexer_code
a-IsBody =
    char (ascii (omega arith) (λ h. omega arith) (λ h. omega arith))
      (char (short refl refl)
        (char (ascii (omega arith) (λ h. omega arith) (λ h. omega arith)) done refl refl) refl refl)
      refl refl

parse_string_complete_example :
    parse_string
      (b'"' ∷ (a_string ++ (b'"' ∷ codes "}")))
      (record { rest = a_string ++ (b'"' ∷ codes "}"); current_pos = 1 })
    ≡ string_at true a_string (codes "}") 1
parse_string_complete_example = parse_string_complete a_string (codes "}") 1 a-IsBody

number_type :
    (parse_number b'-' (codes "-1.5e3,") (record { rest = codes "1.5e3,"; current_pos = 1 })).0.type
    ≡ number
unfolding lexer_code
number_type = refl

parse_number-IsNumber_example :
    IsNumber (
      text
        (parse_number b'-' (codes "-1.5e3,") (record { rest = codes "1.5e3,"; current_pos = 1 })).0)
    × Reads
        (record { rest = codes "-1.5e3,"; current_pos = 0 })
        (text
          (parse_number b'-'
            (codes "-1.5e3,")
            (record { rest = codes "1.5e3,"; current_pos = 1 })).0)
        (parse_number b'-' (codes "-1.5e3,") (record { rest = codes "1.5e3,"; current_pos = 1 })).1
parse_number-IsNumber_example = parse_number-IsNumber b'-' (codes "1.5e3,") 0 number_type

a-IsNumber : IsNumber (codes "-1.5e3")
unfolding lexer_code
a-IsNumber = record {
  integer = codes "-1";
  fraction = codes ".5";
  exponent = codes "e3";
  splits = refl;
  integer_part = negative refl (counting refl tt);
  fraction_part = point refl (digits refl tt);
  exponent_part = unsigned refl (digits refl tt);
}

comma_stops : starts continues (codes ",") ≡ false
unfolding lexer_code
comma_stops = refl

parse_number_complete_example :
    parse_number b'-'
      (codes "-1.5e3" ++ codes ",")
      (record { rest = codes "1.5e3" ++ codes ","; current_pos = 1 })
    ≡ number_at (codes "-1.5e3") (codes ",") 0
parse_number_complete_example =
    parse_number_complete b'-' (codes "1.5e3") (codes ",") 0 a-IsNumber comma_stops

abbrev spaces : Lexer
spaces = record { rest = codes "  "; current_pos = 7 }

spaces_end : (lexer_next_token spaces).0.type ≡ eof
unfolding lexer_code
spaces_end = refl

lexer_next_token_eof_example :
    ((lexer_next_token spaces).1.rest ≡ [])
    × (lexer_next_token (lexer_next_token spaces).1 ≡ (bare_token eof, (lexer_next_token spaces).1))
lexer_next_token_eof_example = lexer_next_token_eof spaces spaces_end

length-unescape_string_example : length (unescape_string a_string) ≤ length a_string
length-unescape_string_example = length-unescape_string a_string

scan_loop-string_example :
    (k : ℕ) × (k ≤ length a_string)
    × (scan_loop (b'"' ∷ (a_string ++ (b'"' ∷ codes "}"))) (outside no_estimate)
        ≡ scan_loop (codes "}") (outside (one_value (more_bytes k no_estimate))))
scan_loop-string_example = scan_loop-string true a_string (codes "}") no_estimate a-IsBody

abbrev an_estimate : JsonEstimate
an_estimate = record {
  max_depth = 1;
  cur_depth = 0;
  value_count = 2;
  object_count = 0;
  array_count = 1;
  string_bytes = 2;
}

scanned : prescan (codes "[1,\"ab\"]") ≡ some an_estimate
unfolding lexer_code prescan scan_loop Prescan.scan_step Prescan.scan_byte Prescan.scan_string_byte
    Prescan.deeper Prescan.has_bom
scanned = refl

prescan-total_example : IsEstimate an_estimate × (total an_estimate ≤ length (codes "[1,\"ab\"]"))
prescan-total_example = prescan-total (codes "[1,\"ab\"]") scanned
