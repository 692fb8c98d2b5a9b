-- ===== src/Validate/Forward.antt =====
-- The handlers of src/validation/validate_opcodes.c leave no more of the code than they get.
use jsonv.Base.{
  ℕ, ◌≤◌, Bool, not, Option, none, some, List, ◌≡◌, refl, arith, length, if◌then◌else◌, ◌==◌, inl,
  inr, Bool-cases, ◌-◌, ◌^◌,
}
use jsonv.Token.{Bytes}
use jsonv.Validate.{c_string, unescaped}
use jsonv.Validate.Handlers.{
  refuse, all_of_error, any_of_error, faulty, Handled, stop, go_on, Vm, require, this_node,
  pattern_error, format_error, compile_regexp_failed, not_error, one_of_error, handle_type,
  handle_minimum, handle_maximum, handle_min_length, handle_max_length, handle_multiple_of,
  handle_exclusive_minimum, handle_exclusive_maximum,
}
use jsonv.Validate.Items.{
  handle_min_items, handle_max_items, handle_items, handle_min_properties, handle_max_properties,
  handle_unique_items, handle_contains,
}
use jsonv.Validate.Run.{
  handle_pattern, handle_not, handle_all_of, handle_any_of, handle_one_of, handle_if_then_else,
  branch, passes, handle_format, with_offsets, all_pass, any_passes, read_offsets, count_passes,
  conforms,
}
use jsonv.Validate.Properties.{handle_property_names}
use jsonv.Validate.Within.{
  Within, Within-with_uint32, Within-require, Within-require?, Within-and_then, Within, Within-part,
  Within-on_array,
}
use jsonv.Validate.Advances.{
  Advances, test-Advances, handle_bound-Advances, array-Advances, object-Advances, text-Advances,
  read_offsets-shorter,
}

pub advance_tests : Advances handle_type × Advances handle_min_length × Advances handle_max_length
unfolding handle_type handle_min_length handle_max_length
advance_tests = (test-Advances _ _, test-Advances _ _, test-Advances _ _)

pub advance_bounds :
    Advances handle_minimum
    × Advances handle_maximum
    × Advances handle_exclusive_minimum
    × Advances handle_exclusive_maximum
    × Advances handle_multiple_of
unfolding handle_minimum handle_maximum handle_exclusive_minimum handle_exclusive_maximum
    handle_multiple_of
advance_bounds = (
  handle_bound-Advances _ _,
  handle_bound-Advances _ _,
  handle_bound-Advances _ _,
  handle_bound-Advances _ _,
  handle_bound-Advances _ _,
)

pub advance_arrays :
    Advances handle_min_items
    × Advances handle_max_items
    × Advances handle_items
    × Advances handle_contains
unfolding handle_min_items handle_max_items handle_items handle_contains
advance_arrays = (
  array-Advances _ (λ vm v rest cs n l. Within-require n _ _ vm rest l),
  array-Advances _ (λ vm v rest cs n l. Within-require n _ _ vm rest l),
  array-Advances _ (λ vm v rest cs n l. Within-and_then n _ (go_on rest) l),
  array-Advances _ (λ vm v rest cs n l. Within-require? n _ _ vm rest l),
)

pub handle_unique_items-Advances : Advances handle_unique_items
unfolding handle_unique_items
handle_unique_items-Advances vm pc =
    Within-on_array _ vm pc (omega arith) _ (λ cs. Within-require? _ _ _ vm pc (omega arith))

pub advance_objects :
    Advances handle_min_properties × Advances handle_max_properties × Advances handle_property_names
unfolding handle_min_properties handle_max_properties handle_property_names
advance_objects = (
  object-Advances _ (λ vm v rest ms n l. Within-require n _ _ vm rest l),
  object-Advances _ (λ vm v rest ms n l. Within-require n _ _ vm rest l),
  object-Advances _ (λ vm v rest ms n l. Within-and_then n _ (go_on rest) l),
)

pub handle_format-Advances : Advances handle_format
unfolding handle_format
handle_format-Advances =
    text-Advances (λ vm c s rest. require format_error (conforms c s) vm rest)
      (λ vm c s rest n l. Within-require n format_error (conforms c s) vm rest l)

-- What regcomp and regexec answer.
abbrev on_match : Vm → Option Bool → Bytes → Handled
on_match vm m rest = elim m [
  | none ↦ refuse compile_regexp_failed vm
  | some b ↦ require pattern_error b vm rest
]

Within-on_match :
    (n : ℕ)
    → (vm : Vm) → (m : Option Bool) → (rest : Bytes) → length rest ≤ n
    → Within n (on_match vm m rest)
Within-on_match n vm none rest l = tt
Within-on_match n vm (some b) rest l = Within-require n pattern_error b vm rest l

abbrev match_of : Vm → Bytes → Bytes → Option Bool
match_of vm c s =
    vm.lib.matches (c_string c) (c_string (unescaped (this_node vm).token.has_escape s))

pub handle_pattern-Advances : Advances handle_pattern
unfolding handle_pattern
handle_pattern-Advances =
    text-Advances (λ vm c s rest. on_match vm (match_of vm c s) rest)
      (λ vm c s rest n l. Within-on_match n vm (match_of vm c s) rest l)

pub handle_not-Advances : Advances handle_not
unfolding handle_not
handle_not-Advances vm pc =
    Within-with_uint32 _ pc (omega arith) _ (λ o rest l.
      Within-part _ _ (λ b. Within-require _ not_error (not b) vm rest l) (passes vm o))

Within-branch :
    (n : ℕ)
    → (vm : Vm) → (offset : ℕ) → (rest : Bytes) → length rest ≤ n
    → Within n (branch vm offset rest)
unfolding branch
Within-branch n vm offset rest l = elim (Bool-cases (offset == 2 ^ 32 - 1)) [
  | inl e ↦ rw e l
  | inr e ↦ rw e (Within-and_then n _ (go_on rest) l)
]

pub handle_if_then_else-Advances : Advances handle_if_then_else
unfolding handle_if_then_else
handle_if_then_else-Advances vm pc = Within-with_uint32 _ pc (omega arith) _ (λ c pc₁ l₁.
    Within-with_uint32 _ pc₁ l₁ _ (λ t pc₂ l₂. Within-with_uint32 _ pc₂ l₂ _ (λ e rest l.
      Within-part _ _ (λ b. Within-branch _ vm (if b then t else e) rest l) (passes vm c))))

with_offsets-Advances :
    (k : Vm → List ℕ → Bytes → Handled)
    → ((vm : Vm)
        → (os : List ℕ) → (rest : Bytes) → (n : ℕ) → length rest ≤ n
        → Within n (k vm os rest))
    → Advances (λ vm pc. with_offsets pc (k vm))
with_offsets-Advances k w vm pc =
    Within-with_uint32 _ pc (omega arith) _
      (λ count pc₁ l₁. with_read pc₁ l₁ (read_offsets count pc₁) (read_offsets-shorter count pc₁))
  where
    with_read :
        (pc₁ : Bytes)
        → length pc₁ ≤ length pc
        → (r : Option (List ℕ × Bytes))
        → ((rest : Bytes) → (os : List ℕ) → r ≡ some (os, rest) → length rest ≤ length pc₁)
        → Within (length pc) (elim r [ none ↦ stop faulty | some (os, rest) ↦ k vm os rest ])
    with_read pc₁ l₁ none short = tt
    with_read pc₁ l₁ (some (os, rest)) short =
        let s = short rest os refl in w vm os rest _ (omega arith)

pub advance_applicators : Advances handle_all_of × Advances handle_any_of × Advances handle_one_of
unfolding handle_all_of handle_any_of handle_one_of
advance_applicators = (
  with_offsets-Advances _
      (λ vm os rest n l. Within-require? n all_of_error (all_pass vm os) vm rest l),
  with_offsets-Advances _
      (λ vm os rest n l. Within-require? n any_of_error (any_passes vm os) vm rest l),
  with_offsets-Advances
      (λ vm os rest. elim (count_passes vm 0 os) [
        | none ↦ stop faulty
        | some m ↦ require one_of_error (m == 1) vm rest
      ])
      (λ vm os rest n l.
        Within-part n (λ m. require one_of_error (m == 1) vm rest)
          (λ m. Within-require n one_of_error (m == 1) vm rest l) (count_passes vm 0 os)),
)
