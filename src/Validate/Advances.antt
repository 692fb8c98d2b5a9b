-- ===== src/Validate/Advances.antt =====
-- Handlers of src/validation/validate_opcodes.c do not move the program counter back: their common forms.
use jsonv.Base.{
  ℕ, zero, suc, ◌≤◌, Bool, none, some, List, ◌≡◌, arith, length, inl, inr, Option-cases,
}
use jsonv.Token.{Bytes, text}
use jsonv.Validate.{
  read_bytes, Member, constant, kind, k_null, k_true, k_false, k_number, k_string, k_array,
  k_object, k_other, Kind, unquote,
}
use jsonv.Validate.Handlers.{
  faulty, ErrorType, Handled, stop, go_on, Vm, handle_bound, with_uint32, require, this_node,
}
use jsonv.Validate.Items.{on_array, on_object}
use jsonv.Validate.Run.{on_text, read_offsets}
use jsonv.Validate.Within.{
  Within, Within-with_uint32, Within-with_double, Within-require, Within-part, Within-on_array,
  Within-on_object, read_bytes-shorter,
}

-- A handler that leaves no more of the code than it gets.
abbrev pub Advances : (Vm → Bytes → Handled) → Type 0
Advances h = (vm : Vm) → (pc : Bytes) → Within (length pc) (h vm pc)

-- Handlers of one operand: a test of the node, of its children, of its members.
pub test-Advances :
    (e : ErrorType)
    → (b : Vm → ℕ → Bool) → Advances (λ vm pc. with_uint32 pc (λ v. require e (b vm v) vm))
test-Advances e b vm pc =
    Within-with_uint32 (length pc) pc (omega arith) _
      (λ v rest l. Within-require _ e (b vm v) vm rest l)

pub handle_bound-Advances :
    (e : ErrorType) → (test : Vm → ℕ → ℕ → Bool) → Advances (λ vm. handle_bound e (test vm) vm)
handle_bound-Advances e test vm pc =
    Within-with_double (length pc) pc (omega arith) _ (λ v rest l. Within-require _ e _ vm rest l)

pub array-Advances :
    (k : Vm → ℕ → Bytes → List ℕ → Handled)
    → ((vm : Vm)
        → (v : ℕ) → (rest : Bytes) → (cs : List ℕ) → (n : ℕ) → length rest ≤ n
        → Within n (k vm v rest cs))
    → Advances (λ vm pc. with_uint32 pc (λ v rest. on_array vm rest (k vm v rest)))
array-Advances k w vm pc =
    Within-with_uint32 (length pc) pc (omega arith) _
      (λ v rest l. Within-on_array _ vm rest l (k vm v rest) (λ cs. w vm v rest cs _ l))

pub object-Advances :
    (k : Vm → ℕ → Bytes → List Member → Handled)
    → ((vm : Vm)
        → (v : ℕ) → (rest : Bytes) → (ms : List Member) → (n : ℕ) → length rest ≤ n
        → Within n (k vm v rest ms))
    → Advances (λ vm pc. with_uint32 pc (λ v rest. on_object vm rest (k vm v rest)))
object-Advances k w vm pc =
    Within-with_uint32 (length pc) pc (omega arith) _
      (λ v rest l. Within-on_object _ vm rest l (k vm v rest) (λ ms. w vm v rest ms _ l))

pub text-Advances :
    (k : Vm → Bytes → Bytes → Bytes → Handled)
    → ((vm : Vm) → (c s rest : Bytes) → (n : ℕ) → length rest ≤ n → Within n (k vm c s rest))
    → Advances (λ vm pc. on_text vm pc (k vm))
text-Advances k w vm pc = Within-with_uint32 (length pc) pc (omega arith) _ (λ offset pc₁ l₁.
    Within-with_uint32 _ pc₁ l₁ _ (λ len rest l. by_kind offset len rest l (kind (this_node vm))))
  where
    by_kind :
        (offset len : ℕ)
        → (rest : Bytes) → length rest ≤ length pc
        → (t : Kind)
        → Within (length pc) (elim t [
          | k_string ↦ elim (constant vm.constants offset len) [
            | none ↦ stop faulty
            | some c ↦ k vm c (unquote (text (this_node vm).token)) rest
          ]
          | _ ↦ go_on rest
        ])
    by_kind offset len rest l k_string =
        Within-part _ _ (λ c. w vm c (unquote (text (this_node vm).token)) rest _ l)
          (constant vm.constants offset len)
    by_kind offset len rest l k_null = l
    by_kind offset len rest l k_true = l
    by_kind offset len rest l k_false = l
    by_kind offset len rest l k_number = l
    by_kind offset len rest l k_array = l
    by_kind offset len rest l k_object = l
    by_kind offset len rest l k_other = l

pub read_offsets-shorter :
    (n : ℕ)
    → (pc rest : Bytes) → (os : List ℕ) → read_offsets n pc ≡ some (os, rest)
    → length rest ≤ length pc
unfolding read_offsets
read_offsets-shorter zero pc rest os h = ground arith
read_offsets-shorter (suc n) pc rest os h = elim (Option-cases (read_bytes 4 pc)) [
  | inl e ↦ absurd (ground arith)
  | inr ((o, pc₁), e) ↦ elim (Option-cases (read_offsets n pc₁)) [
    | inl e₁ ↦ absurd (ground arith)
    | inr ((os₁, r), e₁) ↦
        let a = read_bytes-shorter 4 pc pc₁ o e in
        let b = read_offsets-shorter n pc₁ r os₁ e₁ in ground arith
  ]
]
