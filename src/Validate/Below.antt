-- ===== src/Validate/Below.antt =====
-- src/validation/validate.c: an outcome that is not known for want of fuel, `faulty`, and what comes of it.
use mathlib.Core.Path.{subst}
use jsonv.Base.{ℕ, ◌⊎◌, inl, inr, ◌≡◌, refl, ◌∙◌, ap, Bool, true, false, Option, none, some, List}
use jsonv.Token.{Bytes}
use jsonv.Ast.{AstType, leaf, object, array, skipped}
use jsonv.Validate.{read_bytes, children, members, Member}
use jsonv.Validate.Handlers.{
  Verdict, valid, faulty, malformed, invalid, Handled, stop, go_on, Vm, Validate, with_uint32,
  and_then, this_node,
}
use jsonv.Validate.Items.{on_array, on_object}

-- The first is the bottom, or both are the same.
abbrev pub Below : {A : Type 0} → A → A → A → Type 0
Below bottom x y = (x ≡ bottom) ⊎ (x ≡ y)

pub Below-bind :
    {A B : Type 0}
    → {a : A} → {b : B} → (f g : A → B) → {x y : A} → Below a x y
    → f a ≡ b
    → ((z : A) → Below b (f z) (g z))
    → Below b (f x) (g y)
Below-bind f g (inl e) p h = inl (ap f e ∙ p)
Below-bind {b = b} f g {x = x} (inr e) p h = subst (λ z. Below b (f x) (g z)) e (h x)

-- The same machine with other verdicts of the rules.
abbrev pub with_rules : Vm → Validate → Vm
with_rules vm v = record vm { validate = v }

pub Below-part :
    {A : Type 0}
    → (f g : A → Handled) → ((a : A) → Below (stop faulty) (f a) (g a))
    → (o : Option A)
    → Below
        (stop faulty)
        (elim o [ none ↦ stop faulty | some a ↦ f a ])
        (elim o [ none ↦ stop faulty | some a ↦ g a ])
Below-part f g h none = inr refl
Below-part f g h (some a) = h a

pub Below-operand :
    {A : Type 0}
    → (f g : A → Bytes → Handled)
    → ((a : A) → (rest : Bytes) → Below (stop faulty) (f a rest) (g a rest))
    → (o : Option (A × Bytes))
    → Below
        (stop faulty)
        (elim o [ none ↦ stop faulty | some (a, rest) ↦ f a rest ])
        (elim o [ none ↦ stop faulty | some (a, rest) ↦ g a rest ])
Below-operand f g h none = inr refl
Below-operand f g h (some (a, rest)) = h a rest

pub Below-with_uint32 :
    (pc : Bytes)
    → (f g : ℕ → Bytes → Handled)
    → ((a : ℕ) → (rest : Bytes) → Below (stop faulty) (f a rest) (g a rest))
    → Below (stop faulty) (with_uint32 pc f) (with_uint32 pc g)
Below-with_uint32 pc f g h = Below-operand f g h (read_bytes 4 pc)

pub Below-and_then :
    {v w : Verdict}
    → (h : Handled) → Below faulty v w
    → Below (stop faulty) (and_then v h) (and_then w h)
Below-and_then h m = Below-bind (λ z. and_then z h) (λ z. and_then z h) m refl (λ z. inr refl)

module _ (vm : Vm) (v w : Validate) (rest : Bytes) where
  pub Below-on_array :
      (f g : List ℕ → Handled)
      → ((cs : List ℕ) → Below (stop faulty) (f cs) (g cs))
      → Below (stop faulty) (on_array (with_rules vm v) rest f) (on_array (with_rules vm w) rest g)
  Below-on_array f g h = by_type (this_node vm).type
    where
      by_type :
          (t : AstType)
          → Below
              (stop faulty)
              (elim t [
                | array ↦ elim (children vm.pool vm.node_idx) [
                  | none ↦ stop faulty
                  | some cs ↦ f cs
                ]
                | _ ↦ go_on rest
              ])
              (elim t [
                | array ↦ elim (children vm.pool vm.node_idx) [
                  | none ↦ stop faulty
                  | some cs ↦ g cs
                ]
                | _ ↦ go_on rest
              ])
      by_type leaf = inr refl
      by_type object = inr refl
      by_type skipped = inr refl
      by_type array = Below-part f g h (children vm.pool vm.node_idx)

  pub Below-on_object :
      (f g : List Member → Handled)
      → ((ms : List Member) → Below (stop faulty) (f ms) (g ms))
      → Below
          (stop faulty)
          (on_object (with_rules vm v) rest f)
          (on_object (with_rules vm w) rest g)
  Below-on_object f g h = by_type (this_node vm).type
    where
      by_type :
          (t : AstType)
          → Below
              (stop faulty)
              (elim t [
                | object ↦ elim (members vm.pool vm.node_idx) [
                  | none ↦ stop faulty
                  | some ms ↦ f ms
                ]
                | _ ↦ go_on rest
              ])
              (elim t [
                | object ↦ elim (members vm.pool vm.node_idx) [
                  | none ↦ stop faulty
                  | some ms ↦ g ms
                ]
                | _ ↦ go_on rest
              ])
      by_type leaf = inr refl
      by_type array = inr refl
      by_type skipped = inr refl
      by_type object = Below-part f g h (members vm.pool vm.node_idx)

-- A step after an outcome that lets the loop go on.
if_valid :
    (a b z : Verdict)
    → Below faulty a b
    → Below faulty (elim z [ valid ↦ a | other ↦ other ]) (elim z [ valid ↦ b | other ↦ other ])
if_valid a b valid h = h
if_valid a b faulty h = inr refl
if_valid a b malformed h = inr refl
if_valid a b (invalid e) h = inr refl

pub Below-if_valid :
    {x y a b : Verdict}
    → Below faulty x y
    → Below faulty a b
    → Below faulty (elim x [ valid ↦ a | other ↦ other ]) (elim y [ valid ↦ b | other ↦ other ])
Below-if_valid {a = a} {b = b} m h =
    Below-bind (λ (z : Verdict). elim z [ valid ↦ a | other ↦ other ])
      (λ (z : Verdict). elim z [ valid ↦ b | other ↦ other ]) m refl (λ z. if_valid a b z h)

if_true :
    (a b z : Option Bool)
    → Below none a b
    → Below none
        (elim z [ some true ↦ a | other ↦ other ])
        (elim z [ some true ↦ b | other ↦ other ])
if_true a b none h = inr refl
if_true a b (some false) h = inr refl
if_true a b (some true) h = h

pub Below-if_true :
    {x y a b : Option Bool}
    → Below none x y
    → Below none a b
    → Below none
        (elim x [ some true ↦ a | other ↦ other ])
        (elim y [ some true ↦ b | other ↦ other ])
Below-if_true {a = a} {b = b} m h =
    Below-bind (λ (z : Option Bool). elim z [ some true ↦ a | other ↦ other ])
      (λ (z : Option Bool). elim z [ some true ↦ b | other ↦ other ]) m refl (λ z. if_true a b z h)

if_false :
    (a b z : Option Bool)
    → Below none a b
    → Below none
        (elim z [ some false ↦ a | other ↦ other ])
        (elim z [ some false ↦ b | other ↦ other ])
if_false a b none h = inr refl
if_false a b (some true) h = inr refl
if_false a b (some false) h = h

pub Below-if_false :
    {x y a b : Option Bool}
    → Below none x y
    → Below none a b
    → Below none
        (elim x [ some false ↦ a | other ↦ other ])
        (elim y [ some false ↦ b | other ↦ other ])
Below-if_false {a = a} {b = b} m h =
    Below-bind (λ (z : Option Bool). elim z [ some false ↦ a | other ↦ other ])
      (λ (z : Option Bool). elim z [ some false ↦ b | other ↦ other ]) m refl
      (λ z. if_false a b z h)

unless_valid :
    (a b : Option Bool)
    → (z : Verdict) → Below none a b
    → Below none
        (elim z [ valid ↦ some true | faulty ↦ none | _ ↦ a ])
        (elim z [ valid ↦ some true | faulty ↦ none | _ ↦ b ])
unless_valid a b valid h = inr refl
unless_valid a b faulty h = inr refl
unless_valid a b malformed h = h
unless_valid a b (invalid e) h = h

pub Below-unless_valid :
    {x y : Verdict}
    → {a b : Option Bool} → Below faulty x y
    → Below none a b
    → Below none
        (elim x [ valid ↦ some true | faulty ↦ none | _ ↦ a ])
        (elim y [ valid ↦ some true | faulty ↦ none | _ ↦ b ])
Below-unless_valid {a = a} {b = b} m h =
    Below-bind (λ (z : Verdict). elim z [ valid ↦ some true | faulty ↦ none | _ ↦ a ])
      (λ (z : Verdict). elim z [ valid ↦ some true | faulty ↦ none | _ ↦ b ]) m refl
      (λ z. unless_valid a b z h)

-- A result that a handler goes on with.
with_some :
    {A B : Type 0}
    → (b : B) → (f g : A → B) → ((a : A) → Below b (f a) (g a))
    → (z : Option A)
    → Below b (elim z [ none ↦ b | some a ↦ f a ]) (elim z [ none ↦ b | some a ↦ g a ])
with_some b f g h none = inr refl
with_some b f g h (some a) = h a

pub Below-with_some :
    {A B : Type 0}
    → (b : B) → {x y : Option A} → Below none x y
    → (f g : A → B) → ((a : A) → Below b (f a) (g a))
    → Below b (elim x [ none ↦ b | some a ↦ f a ]) (elim y [ none ↦ b | some a ↦ g a ])
Below-with_some {A = A} b m f g h =
    Below-bind (λ (z : Option A). elim z [ none ↦ b | some a ↦ f a ])
      (λ (z : Option A). elim z [ none ↦ b | some a ↦ g a ]) m refl (with_some b f g h)
