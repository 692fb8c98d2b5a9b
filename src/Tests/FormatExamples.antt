-- ===== src/Tests/FormatExamples.antt =====
-- src/validation/validate_helpers.c and validate_opcodes.c: runs of the formats and of the applicators, and the
-- theorems on them at concrete inputs.
use jsonv.Base.{
  ℕ, zero, suc, inr, ◌%◌, ◌≤◌, ◌≡◌, ◌↔◌, refl, Bool, true, false, none, some, List, [], ◌∷◌, arith,
}
use jsonv.Token.{Bytes, string}
use jsonv.Lexer.Cursor
use jsonv.Formats
use jsonv.Formats.{validate_ipv4, validate_email, validate_uuid, validate_datetime}
use jsonv.Formats.Octets.{IsDotted}
use jsonv.Formats.Ipv4.{validate_ipv4-decides}
use jsonv.Formats.Dates.{IsDate, utc, stamp, suffix_text, validate_datetime-IsDate}
use jsonv.Ast.{leaf, AstNode, new_node}
use jsonv.Validate
use jsonv.Validate.Machine
use jsonv.Validate.Handlers
use jsonv.Validate.Run
use jsonv.Validate.Machine.{run, validate_bytecode}
use jsonv.Validate.{CLibrary, read_bytes}
use jsonv.Validate.Handlers.{
  Verdict, faulty, valid, invalid, Handled, stop, go_on, Vm, require, all_of_error, any_of_error,
  one_of_error,
}
use jsonv.Validate.Run.{read_offsets, passes, handle_all_of, handle_any_of, handle_one_of}
use jsonv.Validate.Applicators.{Outcomes, no_rules, a_rule, applicators_decide}
use jsonv.Tests.LexerRuns.{codes}

-- All that the formats compute with.
unfoldable format_code : Unit {0}
unfolding validate_ipv4 validate_email validate_uuid validate_datetime Formats.ipv4_loop
    Formats.find_at Formats.uuid_loop Formats.has_signs Formats.ipv4_turn Formats.at_turn
    Cursor.is_hex_digit Formats.has_digits Cursor.is_digit Formats.has_dot Formats.date_in_range
    Formats.is_leap Formats.time_in_range Formats.after_seconds Formats.is_zone
    Formats.skip_fraction Formats.is_offset
format_code = tt

abbrev accepts : List Bool
accepts =
    validate_ipv4 (codes "10.0.255.1")
    ∷ validate_email (codes "a@b.ch")
    ∷ validate_uuid (codes "12345678-abcd-ABCD-0000-0123456789ab")
    ∷ validate_datetime (codes "2024-02-29T23:59:60.5+01:30")
    ∷ []

abbrev refuses : List Bool
refuses =
    validate_ipv4 (codes "10.0.256.1")
    ∷ validate_ipv4 (codes "10.0.01.1")
    ∷ validate_email (codes "a@b")
    ∷ validate_uuid (codes "12345678-abcd-ABCD-0000_0123456789ab")
    ∷ validate_datetime (codes "2023-02-29T23:59:59Z")
    ∷ []

accepts_run : accepts ≡ true ∷ true ∷ true ∷ true ∷ []
unfolding format_code
accepts_run = refl

refuses_run : refuses ≡ false ∷ false ∷ false ∷ false ∷ false ∷ []
unfolding format_code
refuses_run = refl

validate_ipv4-decides_example :
    (validate_ipv4 (codes "10.0.255.1") ≡ true) ↔ IsDotted 3 (codes "10.0.255.1")
validate_ipv4-decides_example = validate_ipv4-decides (codes "10.0.255.1")

validate_datetime-IsDate_example :
    (validate_datetime
        (stamp b't' 2024 2 29 23 59 60 (suffix_text (some (5 ∷ [])) (utc b'z' (inr refl))))
      ≡ true)
    ↔ (IsDate 2024 2 29 × 23 ≤ 23 × 59 ≤ 59 × 60 ≤ 60)
validate_datetime-IsDate_example =
    validate_datetime-IsDate b't' 2024 2 29 23 59 60 (some (5 ∷ [])) (utc b'z' (inr refl))
      (inr refl) (omega arith) (omega arith) (omega arith) (omega arith) (omega arith) (omega arith)

abbrev if_even : ℕ → Verdict
if_even zero = valid
if_even (suc n) = invalid none

-- Rules at even offsets are kept, those at odd ones are not.
abbrev parity_vm : Vm
parity_vm = record {
  lib = record {
    matches = λ p s. some false;
    strtod = λ s. 0;
    less = λ a b. false;
    equal = λ a b. true;
    is_integral = λ a. true;
    add = λ a b. 0;
    subtract = λ a b. 0;
    divide = λ a b. 0;
    truncate = λ a. a;
    negate = λ a. a;
  };
  pool = [];
  constants = [];
  node_idx = 0;
  path = [];
  validate = λ offset node path. if_even (offset % 2);
}

abbrev two_rules : Bytes
two_rules = 2 ∷ 0 ∷ 0 ∷ 0 ∷ 20 ∷ 0 ∷ 0 ∷ 0 ∷ 31 ∷ 0 ∷ 0 ∷ 0 ∷ 0 ∷ []

two_rules-Outcomes : Outcomes parity_vm (20 ∷ 31 ∷ []) (true ∷ false ∷ [])
unfolding passes
two_rules-Outcomes =
    a_rule 20 (31 ∷ []) true (false ∷ []) refl (a_rule 31 [] false [] refl no_rules)

applicators_decide_example :
    (handle_all_of parity_vm two_rules ≡ require all_of_error false parity_vm (0 ∷ []))
    × (handle_any_of parity_vm two_rules ≡ require any_of_error true parity_vm (0 ∷ []))
    × (handle_one_of parity_vm two_rules ≡ require one_of_error true parity_vm (0 ∷ []))
unfolding read_bytes read_offsets
applicators_decide_example =
    applicators_decide parity_vm two_rules (20 ∷ 0 ∷ 0 ∷ 0 ∷ 31 ∷ 0 ∷ 0 ∷ 0 ∷ 0 ∷ []) (0 ∷ []) 2
      (20 ∷ 31 ∷ []) (true ∷ false ∷ []) refl refl two_rules-Outcomes

-- { "type": "number", "format": "email" } compiled, and the same for strings, on the text "a@b".
abbrev schema_for : ℕ → Bytes
schema_for mask =
    0x42
    ∷ 0x56
    ∷ 0x53
    ∷ 0x4A
    ∷ 1
    ∷ 0
    ∷ 0
    ∷ 0
    ∷ 15
    ∷ 0
    ∷ 0
    ∷ 0
    ∷ 5
    ∷ 0
    ∷ 0
    ∷ 0
    ∷ 2
    ∷ mask
    ∷ 0
    ∷ 0
    ∷ 0
    ∷ 26
    ∷ 0
    ∷ 0
    ∷ 0
    ∷ 0
    ∷ 5
    ∷ 0
    ∷ 0
    ∷ 0
    ∷ 0
    ∷ codes "email"

abbrev a_text : List AstNode
a_text =
    new_node leaf (record { start = codes "a@b"; len = 3; type = string; has_escape = false }) ∷ []

-- "anyOf" two rules, and the end.
abbrev any_of_code : Bytes
any_of_code = 22 ∷ two_rules

-- A rule that is not itself: the source does not return, and there is no verdict.
abbrev liar : Bytes
liar =
    0x42 ∷ 0x56 ∷ 0x53 ∷ 0x4A ∷ 1 ∷ 0 ∷ 0 ∷ 0 ∷ 6 ∷ 0 ∷ 0 ∷ 0 ∷ 0 ∷ 0 ∷ 0 ∷ 0 ∷ 20 ∷ 16 ∷ 0 ∷ 0 ∷ 0
    ∷ 0 ∷ []

liar_run : validate_bytecode 3 parity_vm.lib a_text liar 16 0 [] ≡ faulty
unfolding validate_bytecode Machine.read_header read_bytes Machine.run Machine.handle Run.handle_not
    passes
liar_run = refl
