-- ===== src/Validate/Monotone/Table.antt =====
-- The table of opcodes of src/validation/validate_opcodes.c and the loop over it do not depend on a verdict that is
-- not known.
use jsonv.Base.{ℕ, zero, suc, inr, refl, none, some, List, [], ◌∷◌, get_elem?}
use jsonv.Token.{Bytes}
use jsonv.Lexer.Reads.{All}
use jsonv.Validate.Handlers.{
  Verdict, faulty, invalid, Handled, stop, go_on, Vm, Validate, handle_fail, handle_type,
  handle_minimum, handle_maximum, handle_min_length, handle_max_length, handle_multiple_of,
  handle_exclusive_minimum, handle_exclusive_maximum,
}
use jsonv.Validate.Items.{
  handle_min_items, handle_max_items, handle_min_properties, handle_max_properties,
}
use jsonv.Validate.Run.{handle_pattern, handle_format}
use jsonv.Validate.Machine.{opcode_handlers, handle, run}
use jsonv.Validate.Below.{Below, Below-bind, with_rules}
use jsonv.Validate.Monotone.{
  Below-handle_items, Below-handle_contains, Below-handle_not, Below-handle_all_of,
  Below-handle_any_of, Below-handle_one_of, Below-handle_if_then_else,
}
use jsonv.Validate.Monotone.Members.{Below-handle_property_names, Below-handle_properties}
use jsonv.Validate.Monotone.Keys.{Below-handle_unique_items, Below-handle_required}

module _ (v w : Validate) (le : (o n : ℕ) → (p : Bytes) → Below faulty (v o n p) (w o n p))
    (vm : Vm) where
  -- A handler that comes to the same with both, if it does not lack a verdict.
  abbrev Monotone : (Vm → Bytes → Handled) → Type 0
  Monotone h = (pc : Bytes) → Below (stop faulty) (h (with_rules vm v) pc) (h (with_rules vm w) pc)

  All-opcode_handlers : All Monotone opcode_handlers
  unfolding handle_fail handle_type handle_minimum handle_maximum handle_min_length
      handle_max_length handle_min_items handle_max_items handle_multiple_of
      handle_exclusive_minimum handle_exclusive_maximum handle_min_properties handle_max_properties
      handle_pattern handle_format
  All-opcode_handlers = (
    (λ pc. inr refl),
    (
      (λ pc. inr refl),
      (
        (λ pc. inr refl),
        (
          (λ pc. inr refl),
          (
            (λ pc. inr refl),
            (
              (λ pc. inr refl),
              (
                (λ pc. inr refl),
                (
                  (λ pc. inr refl),
                  (
                    (Below-handle_items v w le vm),
                    (
                      Below-handle_required v w le vm,
                      (
                        (Below-handle_properties v w le vm),
                        (
                          (λ pc. inr refl),
                          (
                            (λ pc. inr refl),
                            (
                              (λ pc. inr refl),
                              (
                                (λ pc. inr refl),
                                (
                                  (λ pc. inr refl),
                                  (
                                    (λ pc. inr refl),
                                    (
                                      Below-handle_unique_items v w le vm,
                                      (
                                        (Below-handle_contains v w le vm),
                                        (
                                          (Below-handle_not v w le vm),
                                          (
                                            (Below-handle_all_of v w le vm),
                                            (
                                              (Below-handle_any_of v w le vm),
                                              (
                                                (Below-handle_one_of v w le vm),
                                                (
                                                  (Below-handle_if_then_else v w le vm),
                                                  (
                                                    (Below-handle_property_names v w le vm),
                                                    ((λ pc. inr refl), tt),
                                                  ),
                                                ),
                                              ),
                                            ),
                                          ),
                                        ),
                                      ),
                                    ),
                                  ),
                                ),
                              ),
                            ),
                          ),
                        ),
                      ),
                    ),
                  ),
                ),
              ),
            ),
          ),
        ),
      ),
    ),
  )

  All-Below :
      (hs : List (Vm → Bytes → Handled))
      → All Monotone hs
      → (o : ℕ) → (pc : Bytes)
      → Below
          (stop faulty)
          (elim (get_elem? hs o) [ none ↦ stop (invalid none) | some h ↦ h (with_rules vm v) pc ])
          (elim (get_elem? hs o) [ none ↦ stop (invalid none) | some h ↦ h (with_rules vm w) pc ])
  All-Below [] a o pc = inr refl
  All-Below (h ∷ hs) a zero pc = a.0 pc
  All-Below (h ∷ hs) a (suc o) pc = All-Below hs a.1 o pc

  Below-handle :
      (pc : Bytes) → Below (stop faulty) (handle (with_rules vm v) pc) (handle (with_rules vm w) pc)
  unfolding handle
  Below-handle [] = inr refl
  Below-handle (zero ∷ pc) = inr refl
  Below-handle (suc o ∷ pc) = All-Below opcode_handlers All-opcode_handlers o pc

  next_turn :
      {k l : Bytes → Verdict}
      → ((rest : Bytes) → Below faulty (k rest) (l rest))
      → (h : Handled)
      → Below faulty
          (elim h [ stop r ↦ r | go_on rest ↦ k rest ])
          (elim h [ stop r ↦ r | go_on rest ↦ l rest ])
  next_turn m (stop r) = inr refl
  next_turn m (go_on rest) = m rest

  pub Below-run :
      (f : ℕ)
      → (pc : Bytes) → Below faulty (run (with_rules vm v) f pc) (run (with_rules vm w) f pc)
  unfolding run
  Below-run zero pc = inr refl
  Below-run (suc f) pc =
      Below-bind
        (λ (h : Handled). elim h [ stop r ↦ r | go_on rest ↦ run (with_rules vm v) f rest ])
        (λ (h : Handled). elim h [ stop r ↦ r | go_on rest ↦ run (with_rules vm w) f rest ])
        (Below-handle pc) refl (next_turn (λ rest. Below-run f rest))
