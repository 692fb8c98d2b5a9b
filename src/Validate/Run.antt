-- ===== src/Validate/Run.antt =====
-- The handlers of src/validation/validate_opcodes.c that combine rules or look at texts.
use jsonv.Base.{
  ℕ, zero, suc, ◌+◌, ◌-◌, ◌^◌, Bool, true, false, not, Option, none, some, List, [], ◌∷◌, ◌==◌,
  if◌then◌else◌,
}
use jsonv.Token.{Bytes, text}
use jsonv.HashSet.{bytes_equal}
use jsonv.Formats.{validate_ipv4, validate_email, validate_uuid, validate_datetime}
use jsonv.Validate.{read_bytes, constant, c_string, unquote, unescaped, k_string, kind}
use jsonv.Validate.Handlers.{
  pattern_error, not_error, all_of_error, any_of_error, one_of_error, format_error,
  compile_regexp_failed, valid, faulty, Handled, stop, go_on, Vm, refuse, with_uint32, require,
  this_node, and_then,
}
use jsonv.Validate.Items.{require?}

-- The offsets of sub-rules, read one after another.
unfoldable pub read_offsets : ℕ → Bytes → Option (List ℕ × Bytes)
read_offsets zero pc = some ([], pc)
read_offsets (suc n) pc = elim (read_bytes 4 pc) [
  | none ↦ none
  | some (o, pc₁) ↦ elim (read_offsets n pc₁) [
    | none ↦ none
    | some (os, rest) ↦ some (o ∷ os, rest)
  ]
]

abbrev pub with_offsets : Bytes → (List ℕ → Bytes → Handled) → Handled
with_offsets pc k = with_uint32 pc (λ count pc₁. elim (read_offsets count pc₁) [
  | none ↦ stop faulty
  | some (os, rest) ↦ k os rest
])

-- A rule on the node itself, its error dropped.
unfoldable pub passes : Vm → ℕ → Option Bool
passes vm offset = elim (vm.validate offset vm.node_idx vm.path) [
  | valid ↦ some true
  | faulty ↦ none
  | _ ↦ some false
]

unfoldable pub handle_not : Vm → Bytes → Handled
handle_not vm pc = with_uint32 pc (λ o rest. elim (passes vm o) [
  | none ↦ stop faulty
  | some b ↦ require not_error (not b) vm rest
])

-- all_valid and any_valid: a rule is run as long as the outcome is open.
unfoldable pub all_pass : Vm → List ℕ → Option Bool
all_pass vm [] = some true
all_pass vm (o ∷ os) = elim (passes vm o) [ some true ↦ all_pass vm os | other ↦ other ]

unfoldable pub any_passes : Vm → List ℕ → Option Bool
any_passes vm [] = some false
any_passes vm (o ∷ os) = elim (passes vm o) [ some false ↦ any_passes vm os | other ↦ other ]

-- valid_count
unfoldable pub count_passes : Vm → ℕ → List ℕ → Option ℕ
count_passes vm n [] = some n
count_passes vm n (o ∷ os) = elim (passes vm o) [
  | none ↦ none
  | some b ↦ count_passes vm (if b then n + 1 else n) os
]

unfoldable pub handle_all_of : Vm → Bytes → Handled
handle_all_of vm pc = with_offsets pc (λ os rest. require? all_of_error (all_pass vm os) vm rest)

unfoldable pub handle_any_of : Vm → Bytes → Handled
handle_any_of vm pc = with_offsets pc (λ os rest. require? any_of_error (any_passes vm os) vm rest)

unfoldable pub handle_one_of : Vm → Bytes → Handled
handle_one_of vm pc = with_offsets pc (λ os rest. elim (count_passes vm 0 os) [
  | none ↦ stop faulty
  | some n ↦ require one_of_error (n == 1) vm rest
])

-- An offset of -1 is a branch that is missing.
unfoldable pub branch : Vm → ℕ → Bytes → Handled
branch vm offset rest =
    if offset == 2 ^ 32 - 1
    then go_on rest
    else and_then (vm.validate offset vm.node_idx vm.path) (go_on rest)

unfoldable pub handle_if_then_else : Vm → Bytes → Handled
handle_if_then_else vm pc = with_uint32 pc (λ if_offset pc₁. with_uint32 pc₁ (λ then_offset pc₂.
    with_uint32 pc₂ (λ else_offset rest. elim (passes vm if_offset) [
      | none ↦ stop faulty
      | some b ↦ branch vm (if b then then_offset else else_offset) rest
    ])))

-- A constant that a handler of texts reads, and the text of a string node.
abbrev pub on_text : Vm → Bytes → (Bytes → Bytes → Bytes → Handled) → Handled
on_text vm pc k = with_uint32 pc (λ offset pc₁. with_uint32 pc₁ (λ len rest.
    elim (kind (this_node vm)) [
      | k_string ↦ elim (constant vm.constants offset len) [
        | none ↦ stop faulty
        | some c ↦ k c (unquote (text (this_node vm).token)) rest
      ]
      | _ ↦ go_on rest
    ]))

unfoldable pub handle_pattern : Vm → Bytes → Handled
handle_pattern vm pc = on_text vm pc (λ pattern s rest.
    let target = c_string (unescaped (this_node vm).token.has_escape s) in
    elim (vm.lib.matches (c_string pattern) target) [
      | none ↦ refuse compile_regexp_failed vm
      | some b ↦ require pattern_error b vm rest
    ])

-- A format that is not known is taken.
unfoldable pub conforms : Bytes → Bytes → Bool
conforms format s =
    if bytes_equal format (b'i' ∷ b'p' ∷ b'v' ∷ b'4' ∷ [])
    then validate_ipv4 s
    else if bytes_equal format (b'e' ∷ b'm' ∷ b'a' ∷ b'i' ∷ b'l' ∷ [])
    then validate_email s
    else if bytes_equal format (b'u' ∷ b'u' ∷ b'i' ∷ b'd' ∷ [])
    then validate_uuid s
    else if bytes_equal format (b'd' ∷ b'a' ∷ b't' ∷ b'e' ∷ b'-' ∷ b't' ∷ b'i' ∷ b'm' ∷ b'e' ∷ [])
    then validate_datetime s
    else true

unfoldable pub handle_format : Vm → Bytes → Handled
handle_format vm pc =
    on_text vm pc (λ format s rest. require format_error (conforms format s) vm rest)
