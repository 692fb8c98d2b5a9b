-- ===== src/Validate/Applicators.antt =====
-- What "allOf", "anyOf" and "oneOf" make of the verdicts on their rules: handle_all_of, handle_any_of and
-- handle_one_of of src/validation/validate_opcodes.c.
use jsonv.Base.{
  ℕ, suc, ◌+◌, Bool, true, false, some, List, [], ◌∷◌, ◌==◌, ◌≡◌, refl, ◌∙◌, arith, if◌then◌else◌,
}
use jsonv.Token.{Bytes}
use jsonv.Validate.{read_bytes}
use jsonv.Validate.Handlers.{all_of_error, any_of_error, one_of_error, Handled, Vm, require}
use jsonv.Validate.Run.{
  read_offsets, with_offsets, passes, all_pass, any_passes, count_passes, handle_all_of,
  handle_any_of, handle_one_of,
}

-- The outcome of each rule, run on its own.
pub data Outcomes (vm : Vm) : List ℕ → List Bool → Type 0 where
  no_rules : Outcomes vm [] []
  a_rule :
      (o : ℕ)
      → (os : List ℕ) → (b : Bool) → (bs : List Bool) → passes vm o ≡ some b
      → Outcomes vm os bs
      → Outcomes vm (o ∷ os) (b ∷ bs)

abbrev pub all_true : List Bool → Bool
all_true [] = true
all_true (b ∷ bs) = if b then all_true bs else false

abbrev pub any_true : List Bool → Bool
any_true [] = false
any_true (b ∷ bs) = if b then true else any_true bs

abbrev pub count_true : List Bool → ℕ
count_true [] = 0
count_true (true ∷ bs) = suc (count_true bs)
count_true (false ∷ bs) = count_true bs

all_pass-Outcomes :
    (vm : Vm)
    → (os : List ℕ) → (bs : List Bool) → Outcomes vm os bs
    → all_pass vm os ≡ some (all_true bs)
unfolding all_pass
all_pass-Outcomes vm _ _ no_rules = refl
all_pass-Outcomes vm _ _ (a_rule o os true bs p r) = rw (all_pass, p) (all_pass-Outcomes vm os bs r)
all_pass-Outcomes vm _ _ (a_rule o os false bs p r) = rw (all_pass, p)

any_passes-Outcomes :
    (vm : Vm)
    → (os : List ℕ) → (bs : List Bool) → Outcomes vm os bs
    → any_passes vm os ≡ some (any_true bs)
unfolding any_passes
any_passes-Outcomes vm _ _ no_rules = refl
any_passes-Outcomes vm _ _ (a_rule o os false bs p r) =
    rw (any_passes, p) (any_passes-Outcomes vm os bs r)
any_passes-Outcomes vm _ _ (a_rule o os true bs p r) = rw (any_passes, p)

count_passes-Outcomes :
    (vm : Vm)
    → (os : List ℕ) → (bs : List Bool) → Outcomes vm os bs
    → (n : ℕ) → count_passes vm n os ≡ some (count_true bs + n)
unfolding count_passes
count_passes-Outcomes vm _ _ no_rules n = ground arith
count_passes-Outcomes vm _ _ (a_rule o os true bs p r) n =
    rw (count_passes, p, count_passes-Outcomes vm os bs r (n + 1)) (ground arith)
count_passes-Outcomes vm _ _ (a_rule o os false bs p r) n =
    rw (count_passes, p) (count_passes-Outcomes vm os bs r n)

with_offsets-reads :
    (pc pc₁ rest : Bytes)
    → (count : ℕ) → (os : List ℕ) → read_bytes 4 pc ≡ some (count, pc₁)
    → read_offsets count pc₁ ≡ some (os, rest)
    → (k : List ℕ → Bytes → Handled) → with_offsets pc k ≡ k os rest
with_offsets-reads pc pc₁ rest count os h₁ h₂ k = ground arith

-- Where the operands of the opcode are a number of offsets and these offsets, and the rules there have the
-- outcomes `bs`, "allOf" goes on behind the operands if every outcome is true and refuses the node otherwise,
-- "anyOf" goes on if one is true, and "oneOf" if exactly one is.
pub applicators_decide :
    (vm : Vm)
    → (pc pc₁ rest : Bytes) → (count : ℕ) → (os : List ℕ) → (bs : List Bool)
    → read_bytes 4 pc ≡ some (count, pc₁)
    → read_offsets count pc₁ ≡ some (os, rest)
    → Outcomes vm os bs
    → (handle_all_of vm pc ≡ require all_of_error (all_true bs) vm rest)
      × (handle_any_of vm pc ≡ require any_of_error (any_true bs) vm rest)
      × (handle_one_of vm pc ≡ require one_of_error (count_true bs == 1) vm rest)
unfolding handle_all_of handle_any_of handle_one_of
applicators_decide vm pc pc₁ rest count os bs h₁ h₂ r =
    let go : (k : List ℕ → Bytes → Handled) → with_offsets pc k ≡ k os rest =
      with_offsets-reads pc pc₁ rest count os h₁ h₂ in
    (
      go _ ∙ rw (all_pass-Outcomes vm os bs r),
      go _ ∙ rw (any_passes-Outcomes vm os bs r),
      go _ ∙ rw (count_passes-Outcomes vm os bs r 0) (ground arith),
    )
