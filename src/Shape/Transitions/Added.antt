-- ===== src/Shape/Transitions/Added.antt =====
-- A transition added to the pool of src/shape/shape.c: the new child, and the invariant of the pool.
use mathlib.Core.Path.{subst}
use jsonv.Base.{
  ℕ, suc, ◌<◌, ◌≡◌, ◌⊎◌, refl, sym, ap, ◌∙◌, Bool, true, false, none, some, List, [], ◌∷◌, arith,
  inl, inr, length, Bool-cases, Option-cases, eq_or_ne, ltb, ltb→lt, get_or-beyond,
}
use jsonv.Token.{Bytes}
use jsonv.HashSet.Members.{bytes_equal_sound}
use jsonv.Shape.{
  Shape, Shapes, root_shape, shape_at, same_text, find_transition, link_child, add_child,
  shape_transition_add,
}
use jsonv.Shape.Chains.{slot_in, HasKeys, HasKeys-lt}
use jsonv.Shape.Transitions.{
  SameLinks, Extends, Extends-refl, HasKeys-Extends, Child, IsShapes, Child-HasKeys, Child-Extends,
  length-add_child, shape_at-add_child_other, shape_at-add_child_self, shape_at-add_child_new,
}

link_child-SameLinks :
    (link : Bool) (key : Bytes) (n : ℕ) (s : Shape) → SameLinks s (link_child link (some key) n s)
link_child-SameLinks true key n s = record {
  parent = refl;
  last_key = refl;
  last_slot = refl;
  slot_count = refl;
}
link_child-SameLinks false key n s = record {
  parent = refl;
  last_key = refl;
  last_slot = refl;
  slot_count = refl;
}

no_transition :
    (k : Bytes) (n : ℕ) (s : Shape) {t : Shape}
    → s ≡ t
    → t.transitions ≡ []
    → find_transition s.transitions (some k) ≡ some n
    → ⊥
unfolding find_transition
no_transition k n s e b h =
    let empty =
      ap (λ c. find_transition c.transitions (some k)) e
      ∙ ap (λ ts. find_transition ts (some k)) b in
    cc

module _ (link : Bool) (s : ℕ) (key : Bytes) (pool : List Shape) (valid : s < length pool) where
  add_child_same :
      (i : ℕ)
      → i < length pool
      → SameLinks (shape_at pool i) (shape_at (add_child link s (some key) pool) i)
  add_child_same i h = elim (eq_or_ne s i) [
    | inl e ↦
        subst (λ j. SameLinks (shape_at pool j) (shape_at (add_child link s (some key) pool) j)) e
          (rw (shape_at-add_child_self link s key pool valid)
            (link_child-SameLinks link key (length pool) (shape_at pool s)))
    | inr d ↦
        rw (shape_at-add_child_other link s key pool i h d)
          (record { parent = refl; last_key = refl; last_slot = refl; slot_count = refl })
  ]

  pub add_child-Extends : Extends pool (add_child link s (some key) pool)
  add_child-Extends = record {
    longer = omega (arith, length-add_child link s key pool);
    same = add_child_same;
  }

  pub add_child-Child : Child (add_child link s (some key) pool) s key (length pool)
  add_child-Child =
      let new = shape_at-add_child_new link s key pool in
      let count = (add_child_same s valid).slot_count in
      record {
        within = omega (arith, length-add_child link s key pool);
        older = valid;
        parent = ap (λ c. c.parent) new;
        last_key = ap (λ c. c.last_key) new;
        last_slot = ap (λ c. c.last_slot) new ∙ ap some (sym count);
        slot_count = ap (λ c. c.slot_count) new ∙ ap suc (sym count);
      }

  -- What the parent's list leads to.
  linked_child :
      (k : Bytes) (n : ℕ)
      → find_transition
          (link_child link (some key) (length pool) (shape_at pool s)).transitions
          (some k)
        ≡ some n
      → ((k ≡ key) × (n ≡ length pool))
        ⊎ (find_transition (shape_at pool s).transitions (some k) ≡ some n)
  unfolding find_transition
  linked_child k n h = elim (Bool-cases link) [
    | inl t ↦ elim (Bool-cases (same_text (some key) (some k))) [
      | inl same ↦ inl (let e = bytes_equal_sound key k (ground arith) in cc, ground arith)
      | inr other ↦ inr (ground arith)
    ]
    | inr f ↦ inr (ground arith)
  ]

  add_child_old :
      IsShapes pool
      → (i : ℕ) (k : Bytes) (n : ℕ)
      → find_transition (shape_at pool i).transitions (some k) ≡ some n
      → Child (add_child link s (some key) pool) i k n
  add_child_old v i k n h = Child-Extends add_child-Extends (v.leads i k n h)

  add_child_parent :
      IsShapes pool
      → (k : Bytes) (n : ℕ)
      → find_transition
          (link_child link (some key) (length pool) (shape_at pool s)).transitions
          (some k)
        ≡ some n
      → Child (add_child link s (some key) pool) s k n
  add_child_parent v k n h = elim (linked_child k n h) [
    | inl (ek, en) ↦ rw (ek, en) add_child-Child
    | inr old ↦ add_child_old v s k n old
  ]

  add_child_leads :
      IsShapes pool
      → (i : ℕ) (k : Bytes) (n : ℕ)
      → find_transition (shape_at (add_child link s (some key) pool) i).transitions (some k)
        ≡ some n
      → Child (add_child link s (some key) pool) i k n
  unfolding find_transition
  add_child_leads v i k n h = elim (Bool-cases (ltb i (length pool))) [
    | inl inside ↦ elim (eq_or_ne s i) [
      | inl e ↦
          let at_parent =
            subst
              (λ j.
                find_transition (shape_at (add_child link s (some key) pool) j).transitions (some k)
                ≡ some n)
              (sym e) h in
          subst (λ j. Child (add_child link s (some key) pool) j k n) e
            (add_child_parent v k n
              (rw (← shape_at-add_child_self link s key pool valid) at_parent))
      | inr d ↦
          add_child_old v i k n
            (rw (← shape_at-add_child_other link s key pool i (ltb→lt i _ inside) d) h)
    ]
    | inr outside ↦ elim (eq_or_ne i (length pool)) [
      | inl e ↦
          let new =
            ap (shape_at (add_child link s (some key) pool)) e
            ∙ shape_at-add_child_new link s key pool in
          absurd (no_transition k n _ new refl h)
      | inr d ↦
          let b =
            get_or-beyond (add_child link s (some key) pool) i root_shape
              (let l = length-add_child link s key pool in ground arith) in
          absurd (no_transition k n _ b refl h)
    ]
  ]

  pub add_child-IsShapes : IsShapes pool → IsShapes (add_child link s (some key) pool)
  add_child-IsShapes v = record { leads = add_child_leads v }

-- What shape_transition_add returns: a shape with one key more, in a later and well-formed pool.
pub record Grown (shapes later : Shapes) (ks : List Bytes) (key : Bytes) (n : ℕ) : Type 0 where
  pub keys : HasKeys later.pool n (key ∷ ks)
  pub extends : Extends shapes.pool later.pool
  pub valid : IsShapes later.pool
  pub root : later.root ≡ shapes.root

-- With memory for it, a shape gets its child for a key that it does not have, found or made.
pub shape_transition_add-Grown :
    (link : Bool) (s : ℕ) (key : Bytes) (shapes : Shapes) (ks : List Bytes)
    → IsShapes shapes.pool
    → HasKeys shapes.pool s ks
    → slot_in ks key ≡ none
    → (n : ℕ) × (later : Shapes) × (shape_transition_add true link s (some key) shapes
        ≡ (some n, later))
      × Grown shapes later ks key n
unfolding shape_transition_add
shape_transition_add-Grown link s key shapes ks v h new =
    elim (Option-cases (find_transition (shape_at shapes.pool s).transitions (some key))) [
      | inl missing ↦ (
        length shapes.pool,
        record shapes { pool = add_child link s (some key) shapes.pool },
        rw (missing, shape_transition_add),
        let x = add_child-Extends link s key shapes.pool (HasKeys-lt h) in
            record {
              keys =
                  Child-HasKeys (add_child-Child link s key shapes.pool (HasKeys-lt h))
                    (HasKeys-Extends x h) new;
              extends = x;
              valid = add_child-IsShapes link s key shapes.pool (HasKeys-lt h) v;
              root = refl;
            },
      )
      | inr (n, found) ↦ (
        n,
        shapes,
        rw (found, shape_transition_add),
        record {
          keys = Child-HasKeys (v.leads s key n found) h new;
          extends = Extends-refl shapes.pool;
          valid = v;
          root = refl;
        },
      )
    ]
