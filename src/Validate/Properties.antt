-- ===== src/Validate/Properties.antt =====
-- handle_property_names and handle_properties of src/validation/validate_opcodes.c.
use jsonv.Base.{
  ℕ, zero, suc, ◌-◌, ◌^◌, Bool, true, false, Option, none, some, List, [], ◌∷◌, ◌++◌, ◌==◌, ltb,
  if◌then◌else◌,
}
use jsonv.Token.{Bytes, text}
use jsonv.HashSet.{bytes_equal}
use jsonv.Ast.{node_at}
use jsonv.Validate.{constant, c_string, Member, unquote, unescaped}
use jsonv.Validate.Handlers.{
  additional_properties_error, compile_regexp_failed, Verdict, valid, faulty, invalid, Handled,
  stop, go_on, Vm, with_uint32, and_then,
}
use jsonv.Validate.Items.{on_object}
use jsonv.Validate.Run.{read_offsets}

-- `path.key`, or the key at the root; snprintf copies up to a NUL.
abbrev pub key_path : Bytes → Bytes → Bytes
key_path [] key = c_string key
key_path (c ∷ path) key = (c ∷ path) ++ (b'.' ∷ c_string key)

unfoldable pub validate_names : Vm → ℕ → List Member → Verdict
validate_names vm offset [] = valid
validate_names vm offset ((k, v) ∷ ms) =
    elim (vm.validate offset k (key_path vm.path (unquote (text (node_at vm.pool k).token)))) [
      | valid ↦ validate_names vm offset ms
      | other ↦ other
    ]

unfoldable pub handle_property_names : Vm → Bytes → Handled
handle_property_names vm pc =
    with_uint32 pc
      (λ offset rest. on_object vm rest (λ ms. and_then (validate_names vm offset ms) (go_on rest)))

-- `DecodedPropertyRule`
pub record Rule : Type 0 where
  pub key : Bytes
  pub offset : ℕ

unfoldable pub read_rules : Bytes → ℕ → Bytes → Option (List Rule × Bytes)
read_rules constants zero pc = some ([], pc)
read_rules constants (suc n) pc = elim (read_offsets 3 pc) [
  | some (at ∷ len ∷ offset ∷ [], pc₁) ↦ elim (constant constants at len) [
    | none ↦ none
    | some key ↦ elim (read_rules constants n pc₁) [
      | none ↦ none
      | some (rules, rest) ↦ some (record { key = key; offset = offset } ∷ rules, rest)
    ]
  ]
  | other ↦ none
]

-- The value of a member against a rule.
abbrev pub on_value : Vm → ℕ → Bytes → Option ℕ → Verdict
on_value vm offset path none = valid
on_value vm offset path (some v) = vm.validate offset v path

-- The first rule of "properties" for a key; the flag is `matched`.
unfoldable pub match_properties : Vm → List Rule → Bytes → Bytes → Option ℕ → Bool × Verdict
match_properties vm [] key path v = (false, valid)
match_properties vm (r ∷ rs) key path v =
    if bytes_equal key r.key
    then (true, on_value vm r.offset path v)
    else match_properties vm rs key path v

-- Every rule of "patternProperties" for a key; a pattern that does not compile ends the validation.
unfoldable pub match_patterns : Vm → List Rule → Bool → Bytes → Bytes → Option ℕ → Bool × Verdict
match_patterns vm [] matched key path v = (matched, valid)
match_patterns vm (r ∷ rs) matched key path v =
    elim (vm.lib.matches (c_string r.key) (c_string key)) [
      | none ↦ (matched, invalid (some (compile_regexp_failed, vm.path)))
      | some false ↦ match_patterns vm rs matched key path v
      | some true ↦ elim (on_value vm r.offset path v) [
        | valid ↦ match_patterns vm rs true key path v
        | other ↦ (true, other)
      ]
    ]

-- -2 forbids what was not matched, another negative number leaves it, and an offset is a rule for it.
unfoldable pub additional : Vm → ℕ → Bytes → Option ℕ → Bool → Verdict
additional vm rule path v true = valid
additional vm rule path v false =
    if rule == 2 ^ 32 - 2
    then invalid (some (additional_properties_error, path))
    else if ltb rule (2 ^ 31)
    then on_value vm rule path v
    else valid

abbrev pub and_also : Bool × Verdict → (Bool → Verdict) → Verdict
and_also (b, valid) k = k b
and_also (b, other) k = other

unfoldable pub validate_member : Vm → List Rule → List Rule → ℕ → Member → Verdict
validate_member vm props patterns rule (k, v) =
    let t = (node_at vm.pool k).token in
    let key = unescaped t.has_escape (unquote (text t)) in
    let path = key_path vm.path key in
    and_also (match_properties vm props key path v) (λ matched.
      and_also (match_patterns vm patterns matched key path v) (additional vm rule path v))

unfoldable pub validate_members : Vm → List Rule → List Rule → ℕ → List Member → Verdict
validate_members vm props patterns rule [] = valid
validate_members vm props patterns rule (m ∷ ms) = elim (validate_member vm props patterns rule m) [
  | valid ↦ validate_members vm props patterns rule ms
  | other ↦ other
]

unfoldable pub handle_properties : Vm → Bytes → Handled
handle_properties vm pc = with_uint32 pc (λ prop_count pc₁. with_uint32 pc₁ (λ pattern_count pc₂.
    with_uint32 pc₂ (λ rule pc₃. elim (read_rules vm.constants prop_count pc₃) [
      | none ↦ stop faulty
      | some (props, pc₄) ↦ elim (read_rules vm.constants pattern_count pc₄) [
        | none ↦ stop faulty
        | some (patterns, rest) ↦
            on_object vm rest
              (λ ms. and_then (validate_members vm props patterns rule ms) (go_on rest))
      ]
    ])))
