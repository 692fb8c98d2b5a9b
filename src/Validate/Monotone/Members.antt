-- ===== src/Validate/Monotone/Members.antt =====
-- handle_property_names and handle_properties of src/validation/validate_opcodes.c do not depend on a verdict that is
-- not known either.
use mathlib.Core.Path.{subst}
use jsonv.Base.{
  ℕ, ◌-◌, ◌^◌, ◌⊎◌, inl, inr, ◌≡◌, refl, ap, Bool, true, false, Option, none, some, List, [], ◌∷◌,
  ◌==◌, Bool-cases, ltb,
}
use jsonv.Token.{Bytes, text}
use jsonv.HashSet.{bytes_equal}
use jsonv.Ast.{node_at}
use jsonv.Validate.{Member, c_string, unquote, unescaped}
use jsonv.Validate.Handlers.{
  Verdict, valid, faulty, malformed, invalid, stop, go_on, Vm, Validate, compile_regexp_failed,
}
use jsonv.Validate.Properties.{
  key_path, validate_names, handle_property_names, Rule, read_rules, on_value, match_properties,
  match_patterns, additional, and_also, validate_member, validate_members, handle_properties,
}
use jsonv.Validate.Below.{
  Below, with_rules, Below-operand, Below-with_uint32, Below-and_then, Below-on_object,
  Below-if_valid,
}

-- The same for a verdict with the flag `matched` beside it.
abbrev BelowPair : Bool × Verdict → Bool × Verdict → Type 0
BelowPair x y = (x.1 ≡ faulty) ⊎ (x ≡ y)

BelowPair-Below : (b : Bool) → {x y : Verdict} → Below faulty x y → BelowPair (b, x) (b, y)
BelowPair-Below b (inl e) = inl e
BelowPair-Below b (inr e) = inr (ap (λ z. (b, z)) e)

pair_if_valid :
    (a b : Bool × Verdict)
    → (z : Verdict) → BelowPair a b
    → BelowPair
        (elim z [ valid ↦ a | other ↦ (true, other) ])
        (elim z [ valid ↦ b | other ↦ (true, other) ])
pair_if_valid a b valid h = h
pair_if_valid a b faulty h = inr refl
pair_if_valid a b malformed h = inr refl
pair_if_valid a b (invalid e) h = inr refl

BelowPair-if_valid :
    (a b : Bool × Verdict)
    → {x y : Verdict} → Below faulty x y
    → BelowPair a b
    → BelowPair
        (elim x [ valid ↦ a | other ↦ (true, other) ])
        (elim y [ valid ↦ b | other ↦ (true, other) ])
BelowPair-if_valid a b (inl e) h = inl (
    ap (λ (z : Verdict). (elim z as (λ _. Bool × Verdict) [ valid ↦ a | other ↦ (true, other) ]).1)
      e)
BelowPair-if_valid a b {x = x} (inr e) h =
    subst
      (λ (y : Verdict).
        BelowPair (elim x [ valid ↦ a | other ↦ (true, other) ])
          (elim y [ valid ↦ b | other ↦ (true, other) ]))
      e (pair_if_valid a b x h)

same_pair :
    (x : Bool × Verdict)
    → (k l : Bool → Verdict) → ((b : Bool) → Below faulty (k b) (l b))
    → Below faulty (and_also x k) (and_also x l)
same_pair (b, valid) k l h = h b
same_pair (b, faulty) k l h = inr refl
same_pair (b, malformed) k l h = inr refl
same_pair (b, invalid e) k l h = inr refl

Below-and_also :
    (x y : Bool × Verdict)
    → (k l : Bool → Verdict) → BelowPair x y
    → ((b : Bool) → Below faulty (k b) (l b))
    → Below faulty (and_also x k) (and_also y l)
Below-and_also (b, z) y k l (inl e) h = inl (ap (λ r. and_also (b, r) k) e)
Below-and_also x y k l (inr e) h =
    subst (λ r. Below faulty (and_also x k) (and_also r l)) e (same_pair x k l h)

module _ (v w : Validate) (le : (o n : ℕ) → (p : Bytes) → Below faulty (v o n p) (w o n p))
    (vm : Vm) where
  abbrev before : Vm
  before = with_rules vm v

  abbrev after : Vm
  after = with_rules vm w

  Below-validate_names :
      (offset : ℕ)
      → (ms : List Member)
      → Below faulty (validate_names before offset ms) (validate_names after offset ms)
  unfolding validate_names
  Below-validate_names offset [] = inr refl
  Below-validate_names offset ((k, _) ∷ ms) =
      Below-if_valid (le offset k (key_path vm.path (unquote (text (node_at vm.pool k).token))))
        (Below-validate_names offset ms)

  pub Below-handle_property_names :
      (pc : Bytes)
      → Below (stop faulty) (handle_property_names before pc) (handle_property_names after pc)
  unfolding handle_property_names
  Below-handle_property_names pc = Below-with_uint32 pc _ _ (λ offset rest.
      Below-on_object vm v w rest _ _
        (λ ms. Below-and_then (go_on rest) (Below-validate_names offset ms)))

  Below-on_value :
      (offset : ℕ)
      → (path : Bytes) → (value : Option ℕ)
      → Below faulty (on_value before offset path value) (on_value after offset path value)
  Below-on_value offset path none = inr refl
  Below-on_value offset path (some n) = le offset n path

  BelowPair-match_properties :
      (rs : List Rule)
      → (key path : Bytes) → (value : Option ℕ)
      → BelowPair
          (match_properties before rs key path value)
          (match_properties after rs key path value)
  unfolding match_properties
  BelowPair-match_properties [] key path value = inr refl
  BelowPair-match_properties (r ∷ rs) key path value = elim (Bool-cases (bytes_equal key r.key)) [
    | inl e ↦ rw e (BelowPair-Below true (Below-on_value r.offset path value))
    | inr e ↦ rw e (BelowPair-match_properties rs key path value)
  ]

  matched_or_not :
      (matched : Bool)
      → (a b c d : Bool × Verdict) → {x y : Verdict} → Below faulty x y
      → BelowPair a b
      → BelowPair c d
      → (m : Option Bool)
      → BelowPair
          (elim m [
            | none ↦ (matched, invalid (some (compile_regexp_failed, vm.path)))
            | some false ↦ a
            | some true ↦ elim x [ valid ↦ c | other ↦ (true, other) ]
          ])
          (elim m [
            | none ↦ (matched, invalid (some (compile_regexp_failed, vm.path)))
            | some false ↦ b
            | some true ↦ elim y [ valid ↦ d | other ↦ (true, other) ]
          ])
  matched_or_not matched a b c d m h g none = inr refl
  matched_or_not matched a b c d m h g (some false) = h
  matched_or_not matched a b c d m h g (some true) = BelowPair-if_valid c d m g

  BelowPair-match_patterns :
      (rs : List Rule)
      → (matched : Bool) → (key path : Bytes) → (value : Option ℕ)
      → BelowPair
          (match_patterns before rs matched key path value)
          (match_patterns after rs matched key path value)
  unfolding match_patterns
  BelowPair-match_patterns [] matched key path value = inr refl
  BelowPair-match_patterns (r ∷ rs) matched key path value =
      matched_or_not matched _ _ _ _ (Below-on_value r.offset path value)
        (BelowPair-match_patterns rs matched key path value)
        (BelowPair-match_patterns rs true key path value)
        (vm.lib.matches (c_string r.key) (c_string key))

  Below-additional :
      (rule : ℕ)
      → (path : Bytes) → (value : Option ℕ) → (matched : Bool)
      → Below faulty
          (additional before rule path value matched)
          (additional after rule path value matched)
  unfolding additional
  Below-additional rule path value true = inr refl
  Below-additional rule path value false = elim (Bool-cases (rule == 2 ^ 32 - 2)) [
    | inl e ↦ rw e (inr refl)
    | inr e ↦ elim (Bool-cases (ltb rule (2 ^ 31))) [
      | inl f ↦ rw (e, f) (Below-on_value rule path value)
      | inr f ↦ rw (e, f) (inr refl)
    ]
  ]

  Below-validate_member :
      (props patterns : List Rule)
      → (rule : ℕ) → (m : Member)
      → Below faulty
          (validate_member before props patterns rule m)
          (validate_member after props patterns rule m)
  unfolding validate_member
  Below-validate_member props patterns rule (k, value) =
      let t = (node_at vm.pool k).token in
      let key = unescaped t.has_escape (unquote (text t)) in
      let path = key_path vm.path key in
      Below-and_also _ _ _ _ (BelowPair-match_properties props key path value) (λ matched.
        Below-and_also _ _ _ _ (BelowPair-match_patterns patterns matched key path value)
          (Below-additional rule path value))

  Below-validate_members :
      (props patterns : List Rule)
      → (rule : ℕ) → (ms : List Member)
      → Below faulty
          (validate_members before props patterns rule ms)
          (validate_members after props patterns rule ms)
  unfolding validate_members
  Below-validate_members props patterns rule [] = inr refl
  Below-validate_members props patterns rule (m ∷ ms) =
      Below-if_valid (Below-validate_member props patterns rule m)
        (Below-validate_members props patterns rule ms)

  pub Below-handle_properties :
      (pc : Bytes) → Below (stop faulty) (handle_properties before pc) (handle_properties after pc)
  unfolding handle_properties
  Below-handle_properties pc = Below-with_uint32 pc _ _ (λ a pc₁.
      Below-with_uint32 pc₁ _ _ (λ b pc₂. Below-with_uint32 pc₂ _ _ (λ rule pc₃.
        Below-operand _ _
          (λ props pc₄.
            Below-operand _ _
              (λ patterns rest.
                Below-on_object vm v w rest _ _ (λ ms.
                  Below-and_then (go_on rest) (Below-validate_members props patterns rule ms)))
              (read_rules vm.constants b pc₄))
          (read_rules vm.constants a pc₃))))
