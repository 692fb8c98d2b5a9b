-- ===== src/Validate/Within.antt =====
-- The program counter in the handlers of src/validation/validate_opcodes.c: what their operands and tests leave
-- of the code.
use jsonv.Base.{
  ℕ, zero, suc, ◌≤◌, Bool, true, false, Option, none, some, List, [], ◌∷◌, ◌≡◌, refl, arith, length,
  inl, inr, Option-cases,
}
use jsonv.Token.{Bytes}
use jsonv.Ast.{AstType, leaf, object, array, skipped}
use jsonv.Validate.{read_bytes, children, members, Member}
use jsonv.Validate.Handlers.{
  ErrorType, Verdict, valid, faulty, malformed, invalid, Handled, stop, go_on, Vm, with_uint32,
  with_double, require, and_then, this_node,
}
use jsonv.Validate.Items.{on_array, on_object, require?}

-- What is left of the code is at most n bytes.
abbrev pub Within : ℕ → Handled → Type 0
Within n (stop v) = Unit {0}
Within n (go_on rest) = length rest ≤ n

pub read_bytes-shorter :
    (k : ℕ)
    → (pc rest : Bytes) → (v : ℕ) → read_bytes k pc ≡ some (v, rest)
    → length rest ≤ length pc
unfolding read_bytes
read_bytes-shorter zero pc rest v h = ground arith
read_bytes-shorter (suc k) [] rest v h = ground arith
read_bytes-shorter (suc k) (c ∷ pc) rest v h = elim (Option-cases (read_bytes k pc)) [
  | inl e ↦ absurd (ground arith)
  | inr ((w, s), e) ↦ let l = read_bytes-shorter k pc s w e in ground arith
]

pub Within-operand :
    (n k : ℕ)
    → (pc : Bytes) → length pc ≤ n
    → (f : ℕ → Bytes → Handled) → ((v : ℕ) → (rest : Bytes) → length rest ≤ n → Within n (f v rest))
    → (r : Option (ℕ × Bytes)) → read_bytes k pc ≡ r
    → Within n (elim r [ none ↦ stop faulty | some (v, rest) ↦ f v rest ])
Within-operand n k pc l f g none e = tt
Within-operand n k pc l f g (some (v, rest)) e =
    g v rest (omega (arith, read_bytes-shorter k pc rest v e))

pub Within-with_uint32 :
    (n : ℕ)
    → (pc : Bytes) → length pc ≤ n
    → (f : ℕ → Bytes → Handled) → ((v : ℕ) → (rest : Bytes) → length rest ≤ n → Within n (f v rest))
    → Within n (with_uint32 pc f)
Within-with_uint32 n pc l f g = Within-operand n 4 pc l f g (read_bytes 4 pc) refl

pub Within-with_double :
    (n : ℕ)
    → (pc : Bytes) → length pc ≤ n
    → (f : ℕ → Bytes → Handled) → ((v : ℕ) → (rest : Bytes) → length rest ≤ n → Within n (f v rest))
    → Within n (with_double pc f)
Within-with_double n pc l f g = Within-operand n 8 pc l f g (read_bytes 8 pc) refl

pub Within-require :
    (n : ℕ)
    → (e : ErrorType) → (b : Bool) → (vm : Vm) → (rest : Bytes) → length rest ≤ n
    → Within n (require e b vm rest)
Within-require n e true vm rest l = l
Within-require n e false vm rest l = tt

pub Within-require? :
    (n : ℕ)
    → (e : ErrorType) → (b : Option Bool) → (vm : Vm) → (rest : Bytes) → length rest ≤ n
    → Within n (require? e b vm rest)
Within-require? n e none vm rest l = tt
Within-require? n e (some b) vm rest l = Within-require n e b vm rest l

pub Within-and_then : (n : ℕ) → (v : Verdict) → (h : Handled) → Within n h → Within n (and_then v h)
Within-and_then n valid h w = w
Within-and_then n faulty h w = tt
Within-and_then n malformed h w = tt
Within-and_then n (invalid e) h w = tt

-- A part that may be missing, and a test of the type of a node.
pub Within-part :
    {A : Type 0}
    → (n : ℕ) → (f : A → Handled) → ((a : A) → Within n (f a))
    → (o : Option A) → Within n (elim o [ none ↦ stop faulty | some a ↦ f a ])
Within-part n f g none = tt
Within-part n f g (some a) = g a

pub Within-on_array :
    (n : ℕ)
    → (vm : Vm) → (rest : Bytes) → length rest ≤ n
    → (f : List ℕ → Handled) → ((cs : List ℕ) → Within n (f cs))
    → Within n (on_array vm rest f)
Within-on_array n vm rest l f g = by_type (this_node vm).type
  where
    by_type :
        (t : AstType)
        → Within n (elim t [
          | array ↦ elim (children vm.pool vm.node_idx) [ none ↦ stop faulty | some cs ↦ f cs ]
          | _ ↦ go_on rest
        ])
    by_type leaf = l
    by_type object = l
    by_type skipped = l
    by_type array = Within-part n f g (children vm.pool vm.node_idx)

pub Within-on_object :
    (n : ℕ)
    → (vm : Vm) → (rest : Bytes) → length rest ≤ n
    → (f : List Member → Handled) → ((ms : List Member) → Within n (f ms))
    → Within n (on_object vm rest f)
Within-on_object n vm rest l f g = by_type (this_node vm).type
  where
    by_type :
        (t : AstType)
        → Within n (elim t [
          | object ↦ elim (members vm.pool vm.node_idx) [ none ↦ stop faulty | some ms ↦ f ms ]
          | _ ↦ go_on rest
        ])
    by_type leaf = l
    by_type array = l
    by_type skipped = l
    by_type object = Within-part n f g (members vm.pool vm.node_idx)
