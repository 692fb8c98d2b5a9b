-- ===== src/Validate/Tables.antt =====
-- handle_required and handle_properties of src/validation/validate_opcodes.c, which read tables, leave no more of the
-- code than they get.
use jsonv.Base.{
  ℕ, zero, suc, ◌*◌, ◌≤◌, Option, none, some, List, [], ◌∷◌, ◌≡◌, refl, arith, length, drop, inl,
  inr, Option-cases, length-drop,
}
use jsonv.Token.{Bytes}
use jsonv.Ast.{AstType, leaf, object, array, skipped}
use jsonv.Validate.{constant, c_string, find_property}
use jsonv.Validate.Handlers.{refuse, required_error, faulty, Handled, stop, go_on, Vm, this_node}
use jsonv.Validate.Items.{handle_required, required_loop}
use jsonv.Validate.Run.{read_offsets}
use jsonv.Validate.Properties.{handle_properties, read_rules, Rule}
use jsonv.Validate.Within.{
  Within, Within-with_uint32, Within-and_then, Within, Within-part, Within-on_object,
}
use jsonv.Validate.Advances.{Advances, read_offsets-shorter}

-- A key that was looked up.
Within-found :
    (n : ℕ)
    → (vm : Vm) → (h : Handled) → Within n h
    → (v : Option ℕ) → Within n (elim v [ none ↦ refuse required_error vm | some _ ↦ h ])
Within-found n vm h w none = tt
Within-found n vm h w (some v) = w

required_loop-Within :
    (n : ℕ) → (vm : Vm) → (k : ℕ) → (pc : Bytes) → length pc ≤ n → Within n (required_loop vm k pc)
unfolding required_loop
required_loop-Within n vm zero pc l = l
required_loop-Within n vm (suc k) pc l = Within-with_uint32 n pc l _ (λ offset pc₁ l₁.
    Within-with_uint32 n pc₁ l₁ _ (λ len pc₂ l₂.
      Within-part n _
        (λ key.
          Within-part n _
            (Within-found n vm (required_loop vm k pc₂) (required_loop-Within n vm k pc₂ l₂))
            (find_property vm.pool vm.node_idx (c_string key)))
        (constant vm.constants offset len)))

pub handle_required-Advances : Advances handle_required
unfolding handle_required
handle_required-Advances vm pc =
    Within-with_uint32 _ pc (omega arith) _
      (λ count rest l. by_type count rest l (this_node vm).type)
  where
    skipped_over :
        (count : ℕ)
        → (rest : Bytes) → length rest ≤ length pc
        → length (drop (count * 8) rest) ≤ length pc
    skipped_over count rest l = omega (arith, length-drop (count * 8) rest)

    by_type :
        (count : ℕ)
        → (rest : Bytes) → length rest ≤ length pc
        → (t : AstType)
        → Within
            (length pc)
            (elim t [ object ↦ required_loop vm count rest | _ ↦ go_on (drop (count * 8) rest) ])
    by_type count rest l object = required_loop-Within _ vm count rest l
    by_type count rest l leaf = skipped_over count rest l
    by_type count rest l array = skipped_over count rest l
    by_type count rest l skipped = skipped_over count rest l

read_rules-shorter :
    (constants : Bytes)
    → (n : ℕ) → (pc rest : Bytes) → (rules : List Rule)
    → read_rules constants n pc ≡ some (rules, rest)
    → length rest ≤ length pc
unfolding read_rules
read_rules-shorter constants zero pc rest rules h = ground arith
read_rules-shorter constants (suc n) pc rest rules h = elim (Option-cases (read_offsets 3 pc)) [
  | inl e ↦ absurd (ground arith)
  | inr ((at ∷ len ∷ offset ∷ [], pc₁), e) ↦ elim (Option-cases (constant constants at len)) [
    | inl e₁ ↦ absurd (ground arith)
    | inr (key, e₁) ↦ elim (Option-cases (read_rules constants n pc₁)) [
      | inl e₂ ↦ absurd (ground arith)
      | inr ((more, r), e₂) ↦
          let a = read_offsets-shorter 3 pc pc₁ (at ∷ len ∷ offset ∷ []) e in
          let b = read_rules-shorter constants n pc₁ r more e₂ in ground arith
    ]
  ]
  | inr ((_, pc₁), e) ↦ absurd (ground arith)
]

Within-rules :
    (n : ℕ)
    → (constants : Bytes) → (k : ℕ) → (pc : Bytes) → length pc ≤ n
    → (f : List Rule → Bytes → Handled)
    → ((rules : List Rule) → (rest : Bytes) → length rest ≤ n → Within n (f rules rest))
    → (r : Option (List Rule × Bytes)) → read_rules constants k pc ≡ r
    → Within n (elim r [ none ↦ stop faulty | some (rules, rest) ↦ f rules rest ])
Within-rules n constants k pc l f g none e = tt
Within-rules n constants k pc l f g (some (rules, rest)) e =
    g rules rest (omega (arith, read_rules-shorter constants k pc rest rules e))

pub handle_properties-Advances : Advances handle_properties
unfolding handle_properties
handle_properties-Advances vm pc = Within-with_uint32 _ pc (omega arith) _ (λ a pc₁ l₁.
    Within-with_uint32 _ pc₁ l₁ _ (λ b pc₂ l₂. Within-with_uint32 _ pc₂ l₂ _ (λ rule pc₃ l₃.
      Within-rules _ vm.constants a pc₃ l₃ _
        (λ props pc₄ l₄.
          Within-rules _ vm.constants b pc₄ l₄ _
            (λ patterns rest l.
              Within-on_object _ vm rest l _ (λ ms. Within-and_then _ _ (go_on rest) l))
            _ refl)
        _ refl)))
