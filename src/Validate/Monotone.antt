-- ===== src/Validate/Monotone.antt =====
-- The handlers of src/validation/validate_opcodes.c that call rules: what they do does not depend on a verdict
-- that is not known.
pub mod Members
pub mod Keys
pub mod Table
use mathlib.Core.Path.{subst}
use jsonv.Base.{
  ℕ, zero, suc, ◌+◌, ◌-◌, ◌^◌, ◌⊎◌, inl, inr, ◌≡◌, refl, ◌∙◌, ap, Bool, true, false, not, Option,
  none, some, List, [], ◌∷◌, length, ◌==◌, if◌then◌else◌, Bool-cases,
}
use jsonv.Token.{Bytes}
use jsonv.Validate.{read_bytes, children, members, Member, kept_items}
use jsonv.Validate.Handlers.{
  Verdict, valid, faulty, malformed, invalid, Handled, stop, go_on, Vm, Validate, with_uint32,
  and_then, this_node, require, contains_error, not_error, all_of_error, any_of_error, one_of_error,
}
use jsonv.Validate.Items.{
  require?, validate_items, item_path, handle_items, contains_item, handle_contains,
}
use jsonv.Validate.Run.{
  passes, handle_not, read_offsets, with_offsets, all_pass, any_passes, count_passes, handle_all_of,
  handle_any_of, handle_one_of, branch, handle_if_then_else,
}
use jsonv.Validate.Below.{
  Below, Below-bind, with_rules, Below-part, Below-operand, Below-with_uint32, Below-and_then,
  Below-on_array, Below-on_object, Below-if_valid, Below-if_true, Below-if_false,
  Below-unless_valid, Below-with_some,
}

module _ (v w : Validate) (le : (o n : ℕ) → (p : Bytes) → Below faulty (v o n p) (w o n p))
    (vm : Vm) where
  abbrev before : Vm
  before = with_rules vm v

  abbrev after : Vm
  after = with_rules vm w

  pub Below-passes : (o : ℕ) → Below none (passes before o) (passes after o)
  unfolding passes
  Below-passes o =
      Below-bind (λ (z : Verdict). elim z [ valid ↦ some true | faulty ↦ none | _ ↦ some false ])
        (λ (z : Verdict). elim z [ valid ↦ some true | faulty ↦ none | _ ↦ some false ])
        (le o vm.node_idx vm.path) refl (λ z. inr refl)

  Below-validate_items :
      (offset i : ℕ)
      → (cs : List ℕ)
      → Below faulty (validate_items before offset i cs) (validate_items after offset i cs)
  unfolding validate_items
  Below-validate_items offset i [] = inr refl
  Below-validate_items offset i (c ∷ cs) =
      Below-if_valid (le offset c (item_path vm.path i)) (Below-validate_items offset (i + 1) cs)

  pub Below-handle_items :
      (pc : Bytes) → Below (stop faulty) (handle_items before pc) (handle_items after pc)
  unfolding handle_items
  Below-handle_items pc = Below-with_uint32 pc _ _ (λ offset rest.
      Below-on_array vm v w rest _ _
        (λ cs. Below-and_then (go_on rest) (Below-validate_items offset 0 cs)))

  Below-contains_item :
      (offset : ℕ)
      → (cs : List ℕ) → Below none (contains_item before offset cs) (contains_item after offset cs)
  unfolding contains_item
  Below-contains_item offset [] = inr refl
  Below-contains_item offset (c ∷ cs) =
      Below-unless_valid (le offset c vm.path) (Below-contains_item offset cs)

  pub Below-handle_contains :
      (pc : Bytes) → Below (stop faulty) (handle_contains before pc) (handle_contains after pc)
  unfolding handle_contains
  Below-handle_contains pc = Below-with_uint32 pc _ _ (λ offset rest.
      Below-on_array vm v w rest _ _ (λ cs.
        Below-with_some (stop faulty) (Below-contains_item offset (kept_items vm.pool cs)) _ _
          (λ b. inr refl)))

  pub Below-handle_not :
      (pc : Bytes) → Below (stop faulty) (handle_not before pc) (handle_not after pc)
  unfolding handle_not
  Below-handle_not pc =
      Below-with_uint32 pc _ _
        (λ o rest. Below-with_some (stop faulty) (Below-passes o) _ _ (λ b. inr refl))

  Below-all_pass : (os : List ℕ) → Below none (all_pass before os) (all_pass after os)
  unfolding all_pass
  Below-all_pass [] = inr refl
  Below-all_pass (o ∷ os) = Below-if_true (Below-passes o) (Below-all_pass os)

  Below-any_passes : (os : List ℕ) → Below none (any_passes before os) (any_passes after os)
  unfolding any_passes
  Below-any_passes [] = inr refl
  Below-any_passes (o ∷ os) = Below-if_false (Below-passes o) (Below-any_passes os)

  Below-count_passes :
      (n : ℕ) → (os : List ℕ) → Below none (count_passes before n os) (count_passes after n os)
  unfolding count_passes
  Below-count_passes n [] = inr refl
  Below-count_passes n (o ∷ os) =
      Below-with_some none (Below-passes o) (λ b. count_passes before (if b then n + 1 else n) os)
        (λ b. count_passes after (if b then n + 1 else n) os)
        (λ b. Below-count_passes (if b then n + 1 else n) os)

  Below-with_offsets :
      (pc : Bytes)
      → (f g : List ℕ → Bytes → Handled)
      → ((os : List ℕ) → (rest : Bytes) → Below (stop faulty) (f os rest) (g os rest))
      → Below (stop faulty) (with_offsets pc f) (with_offsets pc g)
  Below-with_offsets pc f g h =
      Below-with_uint32 pc _ _ (λ count pc₁. Below-operand f g h (read_offsets count pc₁))

  pub Below-handle_all_of :
      (pc : Bytes) → Below (stop faulty) (handle_all_of before pc) (handle_all_of after pc)
  unfolding handle_all_of
  Below-handle_all_of pc =
      Below-with_offsets pc _ _
        (λ os rest. Below-with_some (stop faulty) (Below-all_pass os) _ _ (λ b. inr refl))

  pub Below-handle_any_of :
      (pc : Bytes) → Below (stop faulty) (handle_any_of before pc) (handle_any_of after pc)
  unfolding handle_any_of
  Below-handle_any_of pc =
      Below-with_offsets pc _ _
        (λ os rest. Below-with_some (stop faulty) (Below-any_passes os) _ _ (λ b. inr refl))

  pub Below-handle_one_of :
      (pc : Bytes) → Below (stop faulty) (handle_one_of before pc) (handle_one_of after pc)
  unfolding handle_one_of
  Below-handle_one_of pc =
      Below-with_offsets pc _ _
        (λ os rest. Below-with_some (stop faulty) (Below-count_passes 0 os) _ _ (λ n. inr refl))

  Below-branch :
      (offset : ℕ)
      → (rest : Bytes) → Below (stop faulty) (branch before offset rest) (branch after offset rest)
  unfolding branch
  Below-branch offset rest = elim (Bool-cases (offset == 2 ^ 32 - 1)) [
    | inl e ↦ rw e (inr refl)
    | inr e ↦ rw e (Below-and_then (go_on rest) (le offset vm.node_idx vm.path))
  ]

  pub Below-handle_if_then_else :
      (pc : Bytes)
      → Below (stop faulty) (handle_if_then_else before pc) (handle_if_then_else after pc)
  unfolding handle_if_then_else
  Below-handle_if_then_else pc = Below-with_uint32 pc _ _ (λ c pc₁.
      Below-with_uint32 pc₁ _ _ (λ t pc₂. Below-with_uint32 pc₂ _ _ (λ e rest.
        Below-with_some (stop faulty) (Below-passes c) _ _
          (λ b. Below-branch (if b then t else e) rest))))
