-- ===== src/Tests/ShapeExamples.antt =====
-- Objects and arrays of src/shape at concrete heaps.
use jsonv.Base.{
  ℕ, zero, suc, ◌<◌, ◌≡◌, refl, pos, some, List, [], ◌∷◌, arith, inl, inr, length, get_elem?,
  replicate, Bool-cases,
}
use mathlib.Core.Path.{subst}
use jsonv.Token.{Bytes}
use jsonv.HashSet.Members.{bytes_equal_sound}
use jsonv.Shape.{Shape, Shapes, root_shape, shape_at, same_text, find_transition}
use jsonv.Shape.Chains.{slot_in, HasKeys, root, grown}
use jsonv.Shape.Transitions.{Child, IsShapes}
use jsonv.Value.{Value, val_undefined, val_int, val_arr, Heap, obj_at, arr_at}
use jsonv.Obj.Fields.{Fields, HasFields, none_held, held}
use jsonv.Obj.News.{IsHeap}
use jsonv.Arr.Elements.{HasElements}
use jsonv.Serialize.Total.{Leads, IsClosed}

abbrev pub key_a : Bytes
key_a = b'a' ∷ []

abbrev pub key_b : Bytes
key_b = b'b' ∷ []

abbrev pub shape_a : Shape
shape_a = record {
  parent = some 0;
  last_key = some key_a;
  last_slot = some 0;
  slot_count = 1;
  transitions = [];
}

-- The root, and its child for "a".
abbrev pub small_pool : Shapes
small_pool = record {
  pool =
      record root_shape { transitions = record { key = some key_a; next_shape = 1 } ∷ [] }
      ∷ shape_a
      ∷ [];
  root = some 0;
}

-- An object that holds an array under "a", and the array of 7.
abbrev pub small_heap : Heap
small_heap = record {
  shapes = small_pool;
  objs =
      record {
        refcount = 0;
        shape = some 1;
        slots = val_arr (some 0) ∷ replicate 3 val_undefined;
        capacity = 4;
      }
      ∷ [];
  arrs =
      record {
        refcount = 1;
        items = val_int (pos 7) ∷ replicate 3 val_undefined;
        length = 1;
        capacity = 4;
      }
      ∷ [];
}

abbrev pub fields_a : Fields
fields_a = (key_a, val_arr (some 0)) ∷ []

keys_a : HasKeys small_pool.pool 1 (key_a ∷ [])
unfolding slot_in
keys_a =
    grown (omega arith) refl (omega arith) refl refl refl refl
      (root (omega arith) refl refl refl refl)

Child-small_pool :
    (k : Bytes) (n : ℕ)
    → find_transition (record { key = some key_a; next_shape = 1 } ∷ []) (some k) ≡ some n
    → Child small_pool.pool 0 k n
unfolding find_transition
Child-small_pool k n h = elim (Bool-cases (same_text (some key_a) (some k))) [
  | inl same ↦
      let e : key_a ≡ k = bytes_equal_sound key_a k (ground arith) in
      let m : 1 ≡ n = ground arith in
      subst (λ j. Child small_pool.pool 0 k j) m
        (subst (λ l. Child small_pool.pool 0 l 1) e
          (record {
            within = omega arith;
            older = omega arith;
            parent = refl;
            last_key = refl;
            last_slot = refl;
            slot_count = refl;
          }))
  | inr other ↦ absurd (ground arith)
]

leads_small_pool :
    (i : ℕ) (k : Bytes) (n : ℕ)
    → find_transition (shape_at small_pool.pool i).transitions (some k) ≡ some n
    → Child small_pool.pool i k n
unfolding find_transition
leads_small_pool zero k n h = Child-small_pool k n h
leads_small_pool (suc zero) k n h = cc
leads_small_pool (suc (suc i)) k n h = cc

pub small_pool-IsShapes : IsShapes small_pool.pool
small_pool-IsShapes = record { leads = leads_small_pool }

pub small_heap-HasFields : HasFields small_heap 0 fields_a
small_heap-HasFields = record {
  within = omega arith;
  shape_of = 1;
  shaped = refl;
  keys = keys_a;
  size = refl;
  room = omega arith;
  holds = held refl none_held;
}

pub small_heap-HasElements : HasElements small_heap 0 (val_int (pos 7) ∷ [])
small_heap-HasElements = record {
  within = omega arith;
  items = refl;
  long = refl;
  room = omega arith;
}

small_heap-objects :
    (o : ℕ) → o < length small_heap.objs → (fs : Fields) × HasFields small_heap o fs
small_heap-objects zero b = (fields_a, small_heap-HasFields)
small_heap-objects (suc o) b = absurd (omega arith)

pub small_heap-IsHeap : IsHeap small_heap
small_heap-IsHeap = record {
  shapes = record {
    valid = small_pool-IsShapes;
    rooted = λ r e.
        let same : 0 ≡ r = cc in
        subst (λ i. HasKeys small_pool.pool i []) same (root (omega arith) refl refl refl refl);
  };
  objects = small_heap-objects;
}

Leads-some : (x y : Value) → some x ≡ some y → Leads small_heap x → Leads small_heap y
Leads-some x y e l = let same : x ≡ y = cc in subst (Leads small_heap) same l

small_heap-slots :
    (o i : ℕ) (x : Value) → get_elem? (obj_at small_heap o).slots i ≡ some x → Leads small_heap x
small_heap-slots zero zero x e = Leads-some (val_arr (some 0)) x e (omega arith)
small_heap-slots zero (suc zero) x e = Leads-some val_undefined x e tt
small_heap-slots zero (suc (suc zero)) x e = Leads-some val_undefined x e tt
small_heap-slots zero (suc (suc (suc zero))) x e = Leads-some val_undefined x e tt
small_heap-slots zero (suc (suc (suc (suc i)))) x e = cc
small_heap-slots (suc o) i x e = cc

small_heap-items :
    (a i : ℕ) (x : Value) → get_elem? (arr_at small_heap a).items i ≡ some x → Leads small_heap x
small_heap-items zero zero x e = Leads-some (val_int (pos 7)) x e tt
small_heap-items zero (suc zero) x e = Leads-some val_undefined x e tt
small_heap-items zero (suc (suc zero)) x e = Leads-some val_undefined x e tt
small_heap-items zero (suc (suc (suc zero))) x e = Leads-some val_undefined x e tt
small_heap-items zero (suc (suc (suc (suc i)))) x e = cc
small_heap-items (suc a) i x e = cc

small_heap-arrays :
    (a : ℕ) → a < length small_heap.arrs → (xs : List Value) × HasElements small_heap a xs
small_heap-arrays zero b = (val_int (pos 7) ∷ [], small_heap-HasElements)
small_heap-arrays (suc a) b = absurd (omega arith)

pub small_heap-IsClosed : IsClosed small_heap
small_heap-IsClosed = record {
  objects = small_heap-objects;
  slots = small_heap-slots;
  arrays = small_heap-arrays;
  items = small_heap-items;
}
