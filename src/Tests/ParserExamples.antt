-- ===== src/Tests/ParserExamples.antt =====
-- src/parser/parser.c and sax.c: their theorems at concrete inputs.
use jsonv.Base.{ℕ, suc, ◌≡◌, ◌≢◌, ◌⊎◌, refl, true, none, some, List, [], ◌∷◌}
use jsonv.Token.{Bytes, TokenType, eof, number, bracket_open, bracket_close}
use jsonv.Lexer.Cursor.{Lexer}
use jsonv.Lexer.{lexer_init, bare_token}
use jsonv.HashSet.{HashSet}
use jsonv.HashSet.Members.{IsHashSet}
use jsonv.HashSet.Inserts.{cleared, cleared-IsHashSet}
use jsonv.Ast.{KeyPool, key_tree_init}
use jsonv.Parser.Build.{same_type}
use jsonv.Parser.Grammar.{Value, leaf_value, full_array, last_element}
use jsonv.Parser.Tokens.{Feed, ended, token}
use jsonv.Parser.Accepts.{parse_ast-accepts}
use jsonv.Parser.Sound.{parse_ast-sound}
use jsonv.Parser.Decides.{Decided, parse_ast-decides}
use jsonv.Parser.Fuel.{parse_ast_total}
use jsonv.Parser.Scopes.{parse_ast-outcome}
use jsonv.Parser.{
  State, parsed, raised, is_leaf, malformed_json, maximum_nested_depth_reached, out_of_fuel,
  parse_ast,
}
use jsonv.Sax.{Callbacks, SaxParser, Outcome, accepted, exhausted, jsonv_parse_sax}
use jsonv.Sax
use jsonv.Sax.Sound.{jsonv_parse_sax-sound}
use jsonv.Sax.Fuel.{jsonv_parse_sax_total}
use jsonv.Tests.LexerRuns.{codes, lexer_code}

abbrev an_array : Bytes
an_array = codes "[1]"

abbrev array_lexer : Lexer
array_lexer = lexer_init an_array

abbrev array_types : List TokenType
array_types = bracket_open ∷ number ∷ bracket_close ∷ []

array_feed : Feed array_lexer array_types
unfolding lexer_code
array_feed = token refl (λ e. cc) (token refl (λ e. cc) (token refl (λ e. cc) (ended refl)))

array_value : Value 64 array_types
unfolding is_leaf same_type
array_value = full_array (last_element (leaf_value refl refl)) refl

abbrev some_keys : HashSet
some_keys = cleared 8

abbrev some_pool : KeyPool
some_pool = key_tree_init 8

array_run : (t : State) × (parse_ast array_lexer some_keys some_pool ≡ parsed t)
array_run = parse_ast-accepts array_lexer some_keys some_pool array_types array_feed array_value

parse_ast-accepts_example : (t : State) × (parse_ast array_lexer some_keys some_pool ≡ parsed t)
parse_ast-accepts_example =
    parse_ast-accepts array_lexer some_keys some_pool array_types array_feed array_value

parse_ast-sound_example : Value 64 array_types
parse_ast-sound_example =
    parse_ast-sound array_lexer some_keys some_pool array_types array_feed array_run.1

parse_ast-decides_example :
    (ts : List TokenType) × Feed array_lexer ts × Decided array_lexer some_keys some_pool ts
parse_ast-decides_example = parse_ast-decides array_lexer some_keys some_pool

parse_ast_total_example : parse_ast array_lexer some_keys some_pool ≢ raised out_of_fuel
parse_ast_total_example = parse_ast_total array_lexer some_keys some_pool

keys_IsHashSet : IsHashSet some_keys
keys_IsHashSet = (cleared-IsHashSet 8).0

parse_ast-outcome_example :
    ((t : State) × (parse_ast array_lexer some_keys some_pool ≡ parsed t)
      × IsHashSet t.builder.keys)
    ⊎ ((parse_ast array_lexer some_keys some_pool ≡ raised malformed_json)
        ⊎ (parse_ast array_lexer some_keys some_pool ≡ raised maximum_nested_depth_reached))
parse_ast-outcome_example = parse_ast-outcome array_lexer some_keys some_pool keys_IsHashSet

-- Callbacks that count the numbers.
abbrev count_numbers : Callbacks ℕ
count_numbers = record {
  on_begin_object = none;
  on_end_object = none;
  on_begin_array = none;
  on_end_array = none;
  on_object_key = none;
  on_string = none;
  on_number = some (λ text n. (true, suc n));
  on_boolean = none;
  on_null = none;
}

abbrev array_end : SaxParser ℕ
array_end = record {
  lexer = record { rest = []; current_pos = 3 };
  current_tok = bare_token eof;
  token_start = [];
  token_len = 0;
  user_data = 1;
}

array_events : jsonv_parse_sax an_array count_numbers 0 ≡ accepted array_end
unfolding lexer_code same_type jsonv_parse_sax Sax.sax_parse_value Sax.sax_parse_array
    Sax.sax_elements Sax.sax_scalar Sax.separator Sax.sax_advance Sax.sax_next_token Sax.sax_end
    Sax.sax_fuel
array_events = refl

jsonv_parse_sax-sound_example : Value 65 array_types
jsonv_parse_sax-sound_example =
    jsonv_parse_sax-sound an_array count_numbers 0 array_types array_feed array_events

jsonv_parse_sax_total_example : jsonv_parse_sax an_array count_numbers 0 ≢ exhausted
jsonv_parse_sax_total_example = jsonv_parse_sax_total an_array count_numbers 0
