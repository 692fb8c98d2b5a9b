-- ===== src/Obj/News.antt =====
-- obj_new of src/shape/obj.c, shape_root of shape.c, and the invariant of the heap.
use jsonv.Base.{
  ℕ, zero, suc, ◌^◌, ◌≤◌, ◌<◌, ◌≡◌, refl, sym, ap, ◌∙◌, Bool, true, none, some, List, [], ◌∷◌, ◌++◌,
  arith, inl, inr, length, get_or, eq_or_ne, Option-cases, length-append, get_or-append_lt,
  get_or-append_length,
}
use mathlib.Core.Path.{subst}
use jsonv.Token.{Bytes}
use jsonv.Shape.{Shape, Shapes, root_shape, shape_at, shape_root}
use jsonv.Shape.Chains.{HasKeys, root}
use jsonv.Shape.Transitions.{Extends, IsShapes, HasKeys-Extends, Extends-refl, Child-Extends}
use jsonv.Value.{Value, Obj, Heap, no_obj, obj_at}
use jsonv.Value.Counts.{SameObj-refl}
use jsonv.Obj.{obj_new, push_obj, obj_set}
use jsonv.Obj.Fields.{Fields, put, HasFields, HasFields-same, none_held}
use jsonv.Obj.Sets.{obj_set-put, HasFields-WasSet}

-- The pool has its invariant, and the global root, once made, is a shape without keys.
pub record IsRooted (shapes : Shapes) : Type 0 where
  pub valid : IsShapes shapes.pool
  pub rooted : (r : ℕ) → shapes.root ≡ some r → HasKeys shapes.pool r []

-- Every object of the heap has fields.
pub record IsHeap (h : Heap) : Type 0 where
  pub shapes : IsRooted h.shapes
  pub objects : (o : ℕ) → o < length h.objs → (fs : Fields) × HasFields h o fs

get_or-append_default {ℓ} :
    {A : Type ℓ} (xs : List A) (i : ℕ) (d : A) → get_or (xs ++ d ∷ []) i d ≡ get_or xs i d
get_or-append_default [] zero d = refl
get_or-append_default [] (suc i) d = refl
get_or-append_default (x ∷ xs) zero d = refl
get_or-append_default (x ∷ xs) (suc i) d = get_or-append_default xs i d

module _ (pool : List Shape) where
  root_added : (i : ℕ) → shape_at (pool ++ root_shape ∷ []) i ≡ shape_at pool i
  root_added i = get_or-append_default pool i root_shape

  Extends-root : Extends pool (pool ++ root_shape ∷ [])
  Extends-root = record {
    longer = omega (arith, length-append pool (root_shape ∷ []));
    same = λ i h.
        rw (root_added i)
          (record { parent = refl; last_key = refl; last_slot = refl; slot_count = refl });
  }

  IsShapes-root : IsShapes pool → IsShapes (pool ++ root_shape ∷ [])
  IsShapes-root v = record {
    leads = λ i key n h. Child-Extends Extends-root (v.leads i key n (rw (← root_added i) h));
  }

  HasKeys-root : HasKeys (pool ++ root_shape ∷ []) (length pool) []
  HasKeys-root =
      let new = get_or-append_length pool root_shape root_shape in
      root (omega (arith, length-append pool (root_shape ∷ []))) (ap (λ s. s.parent) new)
        (ap (λ s. s.last_key) new) (ap (λ s. s.last_slot) new) (ap (λ s. s.slot_count) new)

-- The root of the shapes, found or made.
shape_root_lem :
    (shapes : Shapes)
    → IsRooted shapes
    → (r : ℕ) × (later : Shapes) × (shape_root true shapes ≡ (some r, later))
      × HasKeys later.pool r []
      × Extends shapes.pool later.pool
      × IsRooted later
unfolding shape_root
shape_root_lem shapes v = elim (Option-cases shapes.root) [
  | inr (r, there) ↦ (r, shapes, ground arith, v.rooted r there, Extends-refl shapes.pool, v)
  | inl missing ↦ (
    length shapes.pool,
    record { pool = shapes.pool ++ root_shape ∷ []; root = some (length shapes.pool) },
    rw (shape_root, missing),
    HasKeys-root shapes.pool,
    Extends-root shapes.pool,
    record {
      valid = IsShapes-root shapes.pool v.valid;
      rooted = λ r e.
          let same : length shapes.pool ≡ r = ground arith in
          subst (λ i. HasKeys (shapes.pool ++ root_shape ∷ []) i []) same
            (HasKeys-root shapes.pool);
    },
  )
]

-- An object without fields at the end, the others as they were.
module _ (r : ℕ) (shapes : Shapes) (h : Heap) (x : Extends h.shapes.pool shapes.pool) where
  push_old : (o : ℕ) (fs : Fields) → HasFields h o fs → HasFields (push_obj (some r, shapes) h) o fs
  push_old o fs f =
      let w = f.within in
      let new : Obj = record { refcount = 0; shape = some r; slots = []; capacity = 0 } in
      HasFields-same x (omega (arith, length-append h.objs (new ∷ [])))
        (rw (get_or-append_lt h.objs (new ∷ []) o no_obj w) (SameObj-refl (obj_at h o))) f

  push_new : HasKeys shapes.pool r [] → HasFields (push_obj (some r, shapes) h) (length h.objs) []
  push_new k =
      let new : Obj = record { refcount = 0; shape = some r; slots = []; capacity = 0 } in
      let e = get_or-append_length h.objs new no_obj in
      record {
        within = omega (arith, length-append h.objs (new ∷ []));
        shape_of = r;
        shaped = ap (λ b. b.shape) e;
        keys = k;
        size = ap (λ b. length b.slots) e ∙ sym (ap (λ b. b.capacity) e);
        room = omega arith;
        holds = none_held;
      }

  push-IsHeap :
      IsRooted shapes → HasKeys shapes.pool r [] → IsHeap h → IsHeap (push_obj (some r, shapes) h)
  push-IsHeap v k i = record {
    shapes = v;
    objects = λ o w. elim (eq_or_ne o (length h.objs)) [
      | inl e ↦ ([], rw e (push_new k))
      | inr d ↦
          let new : Obj = record { refcount = 0; shape = some r; slots = []; capacity = 0 } in
          let (fs, f) = i.objects o (omega (arith, length-append h.objs (new ∷ []))) in
          (fs, push_old o fs f)
    ];
  }

-- With memory, obj_new adds an object without fields at the global root; the objects there are keep
-- their fields, and the heap its invariant.
pub obj_new-IsHeap :
    (h : Heap)
    → IsHeap h
    → (later : Heap) × (obj_new true true none h ≡ (some (length h.objs), later))
      × HasFields later (length h.objs) []
      × ((o : ℕ) (fs : Fields) → HasFields h o fs → HasFields later o fs)
      × IsHeap later
unfolding obj_new
obj_new-IsHeap h i =
    let (r, shapes, e, k, x, v) = shape_root_lem h.shapes i.shapes in
    (
      push_obj (some r, shapes) h,
      rw (e),
      push_new r shapes h x k,
      push_old r shapes h x,
      push-IsHeap r shapes h x v k i,
    )

-- With memory, obj_set keeps the invariant of the heap: shapes whose chains and transitions agree, and
-- fields for every object.
pub obj_set-IsHeap :
    (link : Bool) (o : ℕ) (key : Bytes) (v : Value) (h : Heap) (fs : Fields)
    → IsHeap h
    → HasFields h o fs
    → suc (length fs) ≤ 2 ^ 30
    → (later : Heap) × (obj_set
          (record { shape = true; link = link; slots = true })
          o
          (some key)
          v
          h
        ≡ some later)
      × IsHeap later
obj_set-IsHeap link o key v h fs i f b =
    let (later, e, w) = obj_set-put link o key v h fs i.shapes.valid f b in
    let objs = w.objs in
    (
      later,
      e,
      record {
        shapes = record {
          valid = w.valid;
          rooted = λ r there. HasKeys-Extends w.extends (i.shapes.rooted r (sym w.root ∙ there));
        };
        objects = λ j within. elim (eq_or_ne o j) [
          | inl same ↦ (put key v fs, subst (λ k. HasFields later k (put key v fs)) same w.fields)
          | inr d ↦ let (gs, g) = i.objects j (omega arith) in (gs, HasFields-WasSet j gs d w g)
        ];
      },
    )
