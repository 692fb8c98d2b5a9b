-- ===== src/Validate/Monotone/Keys.antt =====
-- handle_unique_items and handle_required of src/validation/validate_opcodes.c, whose loops are handed the machine, do
-- not depend on the verdicts of rules.
use jsonv.Base.{
  ℕ, zero, suc, ◌*◌, inr, ◌≡◌, refl, ap, Bool, true, false, Option, none, some, List, [], ◌∷◌,
  length, drop,
}
use jsonv.Token.{Bytes}
use jsonv.Ast.{AstType, leaf, object, array, skipped}
use jsonv.Validate.{ast_nodes_equal, kept_items, c_string, constant, find_property}
use jsonv.Validate.Handlers.{
  faulty, Handled, stop, go_on, Vm, Validate, refuse, required_error, unique_items_error, this_node,
}
use jsonv.Validate.Items.{
  require?, handle_required, required_loop, handle_unique_items, all_unique, none_equal,
}
use jsonv.Validate.Below.{Below, with_rules, Below-part, Below-with_uint32, Below-on_array}

module _ (v w : Validate) (le : (o n : ℕ) → (p : Bytes) → Below faulty (v o n p) (w o n p))
    (vm : Vm) where
  none_equal-rules :
      (c : ℕ)
      → (ds : List ℕ) → none_equal (with_rules vm v) c ds ≡ none_equal (with_rules vm w) c ds
  unfolding none_equal
  none_equal-rules c [] = refl
  none_equal-rules c (d ∷ ds) =
      ap
        (λ z.
          elim (ast_nodes_equal vm.lib (suc (length vm.pool)) vm.pool c d) as (λ _. Option Bool) [
            | some false ↦ z
            | some true ↦ some false
            | none ↦ none
          ])
        (none_equal-rules c ds)

  all_unique-rules :
      (cs : List ℕ) → all_unique (with_rules vm v) cs ≡ all_unique (with_rules vm w) cs
  unfolding all_unique
  all_unique-rules [] = refl
  all_unique-rules (c ∷ cs) =
      rw (all_unique, none_equal-rules c cs)
        (ap
          (λ z. elim (none_equal (with_rules vm w) c cs) as (λ _. Option Bool) [
            | some true ↦ z
            | other ↦ other
          ])
          (all_unique-rules cs))

  pub Below-handle_unique_items :
      (pc : Bytes)
      → Below
          (stop faulty)
          (handle_unique_items (with_rules vm v) pc)
          (handle_unique_items (with_rules vm w) pc)
  unfolding handle_unique_items
  Below-handle_unique_items pc = Below-on_array vm v w pc _ _ (λ cs.
      inr
        (ap (λ b. require? unique_items_error b vm pc) (all_unique-rules (kept_items vm.pool cs))))

  -- A key that was looked up.
  same_found :
      (h k : Handled)
      → Below (stop faulty) h k
      → (n : Option ℕ)
      → Below
          (stop faulty)
          (elim n [ none ↦ refuse required_error vm | some _ ↦ h ])
          (elim n [ none ↦ refuse required_error vm | some _ ↦ k ])
  same_found h k m none = inr refl
  same_found h k m (some n) = m

  Below-required_loop :
      (n : ℕ)
      → (pc : Bytes)
      → Below
          (stop faulty)
          (required_loop (with_rules vm v) n pc)
          (required_loop (with_rules vm w) n pc)
  unfolding required_loop
  Below-required_loop zero pc = inr refl
  Below-required_loop (suc n) pc = Below-with_uint32 pc _ _ (λ offset pc₁.
      Below-with_uint32 pc₁ _ _ (λ len pc₂.
        Below-part _ _
          (λ key.
            Below-part _ _ (same_found _ _ (Below-required_loop n pc₂))
              (find_property vm.pool vm.node_idx (c_string key)))
          (constant vm.constants offset len)))

  pub Below-handle_required :
      (pc : Bytes)
      → Below
          (stop faulty)
          (handle_required (with_rules vm v) pc)
          (handle_required (with_rules vm w) pc)
  unfolding handle_required
  Below-handle_required pc =
      Below-with_uint32 pc _ _ (λ count rest. by_type count rest (this_node vm).type)
    where
      by_type :
          (count : ℕ)
          → (rest : Bytes) → (t : AstType)
          → Below
              (stop faulty)
              (elim t [
                | object ↦ required_loop (with_rules vm v) count rest
                | _ ↦ go_on (drop (count * 8) rest)
              ])
              (elim t [
                | object ↦ required_loop (with_rules vm w) count rest
                | _ ↦ go_on (drop (count * 8) rest)
              ])
      by_type count rest object = Below-required_loop count rest
      by_type count rest leaf = inr refl
      by_type count rest array = inr refl
      by_type count rest skipped = inr refl
