-- ===== src/Value/Counts.antt =====
-- value_retain and value_release of src/shape/value.c: what they leave alone, and the capacity loop.
use jsonv.Base.{
  ℕ, zero, suc, ◌*◌, ◌^◌, ◌≤◌, ◌<◌, ◌≡◌, refl, Bool, true, false, none, some, arith, inl, inr, ◌==◌,
  ltb, length, modify, if◌then◌else◌, Bool-cases, eq_or_ne, length-modify, get_or-modify_self,
  get_or-modify_ne, get_or-beyond,
}
use mathlib.Core.Path.{subst}
use jsonv.Value.{
  Value, val_obj, val_arr, val_undefined, val_int, val_ptr, val_double, val_null, val_bool, val_str,
  val_unresolvable, val_impossible, val_bignum, Obj, Arr, Heap, no_obj, no_arr, obj_at, arr_at,
  modify_obj, modify_arr, count_up, count_down, value_retain, value_release, obj_free, arr_free,
  grow_capacity, new_capacity,
}

pub record SameObj (a b : Obj) : Type 0 where
  pub shape : b.shape ≡ a.shape
  pub slots : b.slots ≡ a.slots
  pub capacity : b.capacity ≡ a.capacity

pub record SameArr (a b : Arr) : Type 0 where
  pub items : b.items ≡ a.items
  pub length : b.length ≡ a.length
  pub capacity : b.capacity ≡ a.capacity

-- Two heaps that differ in the counts of references at most.
pub record SameHeap (h later : Heap) : Type 0 where
  pub shapes : later.shapes ≡ h.shapes
  pub objs : length later.objs ≡ length h.objs
  pub arrs : length later.arrs ≡ length h.arrs
  pub obj : (o : ℕ) → SameObj (obj_at h o) (obj_at later o)
  pub arr : (a : ℕ) → SameArr (arr_at h a) (arr_at later a)

pub SameObj-refl : (a : Obj) → SameObj a a
SameObj-refl a = record { shape = refl; slots = refl; capacity = refl }

pub SameArr-refl : (a : Arr) → SameArr a a
SameArr-refl a = record { items = refl; length = refl; capacity = refl }

SameHeap-refl : (h : Heap) → SameHeap h h
SameHeap-refl h = record {
  shapes = refl;
  objs = refl;
  arrs = refl;
  obj = λ o. SameObj-refl (obj_at h o);
  arr = λ a. SameArr-refl (arr_at h a);
}

-- A change of a count, at one object or one array.
modify_obj_same :
    (o : ℕ) (g : ℕ → ℕ) (h : Heap) (i : ℕ)
    → SameObj (obj_at h i) (obj_at (modify_obj o (λ r. record r { refcount = g r.refcount }) h) i)
modify_obj_same o g h i = elim (eq_or_ne o i) [
  | inr d ↦
      rw (get_or-modify_ne h.objs o i (λ r. record r { refcount = g r.refcount }) no_obj d)
        (SameObj-refl (obj_at h i))
  | inl e ↦ elim (Bool-cases (ltb o (length h.objs))) [
    | inl inside ↦
        subst
          (λ j.
            SameObj (obj_at h j)
              (obj_at (modify_obj o (λ r. record r { refcount = g r.refcount }) h) j))
          e
          (rw
            (get_or-modify_self h.objs o (λ r. record r { refcount = g r.refcount }) no_obj
              (ground arith))
            (record { shape = refl; slots = refl; capacity = refl }))
    | inr outside ↦
        let l = length-modify h.objs o (λ r. record r { refcount = g r.refcount }) in
        rw
          (
            get_or-beyond (modify h.objs o (λ r. record r { refcount = g r.refcount })) i no_obj
                (ground arith),
            get_or-beyond h.objs i no_obj (ground arith),
          )
          (SameObj-refl no_obj)
  ]
]

modify_arr_same :
    (a : ℕ) (g : ℕ → ℕ) (h : Heap) (i : ℕ)
    → SameArr (arr_at h i) (arr_at (modify_arr a (λ r. record r { refcount = g r.refcount }) h) i)
modify_arr_same a g h i = elim (eq_or_ne a i) [
  | inr d ↦
      rw (get_or-modify_ne h.arrs a i (λ r. record r { refcount = g r.refcount }) no_arr d)
        (SameArr-refl (arr_at h i))
  | inl e ↦ elim (Bool-cases (ltb a (length h.arrs))) [
    | inl inside ↦
        subst
          (λ j.
            SameArr (arr_at h j)
              (arr_at (modify_arr a (λ r. record r { refcount = g r.refcount }) h) j))
          e
          (rw
            (get_or-modify_self h.arrs a (λ r. record r { refcount = g r.refcount }) no_arr
              (ground arith))
            (record { items = refl; length = refl; capacity = refl }))
    | inr outside ↦
        let l = length-modify h.arrs a (λ r. record r { refcount = g r.refcount }) in
        rw
          (
            get_or-beyond (modify h.arrs a (λ r. record r { refcount = g r.refcount })) i no_arr
                (ground arith),
            get_or-beyond h.arrs i no_arr (ground arith),
          )
          (SameArr-refl no_arr)
  ]
]

count_obj :
    (o : ℕ) (g : ℕ → ℕ) (h : Heap)
    → SameHeap h (modify_obj o (λ r. record r { refcount = g r.refcount }) h)
count_obj o g h = record {
  shapes = refl;
  objs = length-modify h.objs o (λ r. record r { refcount = g r.refcount });
  arrs = refl;
  obj = modify_obj_same o g h;
  arr = λ a. SameArr-refl (arr_at h a);
}

count_arr :
    (a : ℕ) (g : ℕ → ℕ) (h : Heap)
    → SameHeap h (modify_arr a (λ r. record r { refcount = g r.refcount }) h)
count_arr a g h = record {
  shapes = refl;
  objs = refl;
  arrs = length-modify h.arrs a (λ r. record r { refcount = g r.refcount });
  obj = λ o. SameObj-refl (obj_at h o);
  arr = modify_arr_same a g h;
}

pub value_retain-SameHeap : (v : Value) (h : Heap) → SameHeap h (value_retain v h)
unfolding value_retain
value_retain-SameHeap (val_obj (some o)) h = count_obj o count_up h
value_retain-SameHeap (val_arr (some a)) h = count_arr a count_up h
value_retain-SameHeap (val_obj none) h = SameHeap-refl h
value_retain-SameHeap (val_arr none) h = SameHeap-refl h
value_retain-SameHeap val_undefined h = SameHeap-refl h
value_retain-SameHeap (val_int n) h = SameHeap-refl h
value_retain-SameHeap (val_ptr n) h = SameHeap-refl h
value_retain-SameHeap (val_double n) h = SameHeap-refl h
value_retain-SameHeap val_null h = SameHeap-refl h
value_retain-SameHeap (val_bool n) h = SameHeap-refl h
value_retain-SameHeap (val_str n) h = SameHeap-refl h
value_retain-SameHeap val_unresolvable h = SameHeap-refl h
value_retain-SameHeap val_impossible h = SameHeap-refl h
value_retain-SameHeap (val_bignum n) h = SameHeap-refl h

-- Both branches of the test for 0 leave one heap.
either : (b : Bool) {h later : Heap} → SameHeap h later → SameHeap h (if b then later else later)
either true s = s
either false s = s

pub value_release-SameHeap : (v : Value) (h : Heap) → SameHeap h (value_release v h)
unfolding value_release obj_free arr_free
value_release-SameHeap (val_obj (some o)) h = either _ (count_obj o count_down h)
value_release-SameHeap (val_arr (some a)) h = either _ (count_arr a count_down h)
value_release-SameHeap (val_obj none) h = SameHeap-refl h
value_release-SameHeap (val_arr none) h = SameHeap-refl h
value_release-SameHeap val_undefined h = SameHeap-refl h
value_release-SameHeap (val_int n) h = SameHeap-refl h
value_release-SameHeap (val_ptr n) h = SameHeap-refl h
value_release-SameHeap (val_double n) h = SameHeap-refl h
value_release-SameHeap val_null h = SameHeap-refl h
value_release-SameHeap (val_bool n) h = SameHeap-refl h
value_release-SameHeap (val_str n) h = SameHeap-refl h
value_release-SameHeap val_unresolvable h = SameHeap-refl h
value_release-SameHeap val_impossible h = SameHeap-refl h
value_release-SameHeap (val_bignum n) h = SameHeap-refl h

abbrev doublings : ℕ → ℕ → ℕ
doublings zero c = c
doublings (suc f) c = doublings f (c * 2)

-- The loop ends at a capacity that is large enough, without an overflow, up to 2^30.
grow_capacity_enough :
    (f c needed : ℕ)
    → 0 < c
    → needed ≤ doublings f c
    → needed ≤ 2 ^ 30
    → (r : ℕ) × (grow_capacity (suc f) c needed ≡ some r) × (needed ≤ r) × (c ≤ r)
unfolding grow_capacity
grow_capacity_enough zero c needed p h b = (c, ground arith, h, omega arith)
grow_capacity_enough (suc f) c needed p h b = elim (Bool-cases (ltb c needed)) [
  | inl more ↦
      let (r, e, n, l) = grow_capacity_enough f (c * 2) needed (omega arith) h b in
      (r, ground arith, n, omega arith)
  | inr enough ↦ (c, ground arith, ground arith, omega arith)
]

pub new_capacity_enough :
    (capacity needed : ℕ)
    → needed ≤ 2 ^ 30
    → (r : ℕ) × (new_capacity capacity needed ≡ some r) × (needed ≤ r) × (capacity ≤ r)
unfolding new_capacity
new_capacity_enough capacity needed b = elim (Bool-cases (capacity == 0)) [
  | inl empty ↦
      let (r, e, n, l) = grow_capacity_enough 31 4 needed (omega arith) (omega arith) b in
      (r, rw empty e, n, ground arith)
  | inr other ↦
      let p : 0 < capacity = ground arith in
      let (r, e, n, l) = grow_capacity_enough 31 capacity needed p (omega arith) b in
      (r, rw other e, n, l)
]
