-- ===== src/Obj.antt =====
-- src/shape/obj.c: objects over shared shapes. An object is its index in the heap; whether each
-- allocation succeeds is a parameter, and `none` is a fault as in Value.
pub mod Fields
pub mod Frames
pub mod Slots
pub mod Room
pub mod Sets
pub mod News
pub mod Laws
use jsonv.Base.{
  ℕ, ◌+◌, ◌-◌, Bool, true, false, Option, none, some, List, [], ◌∷◌, ◌++◌, leb, ltb, length,
  get_elem?, get_or, take, replicate, set, if◌then◌else◌,
}
use jsonv.Token.{Bytes}
use jsonv.Shape.{
  Shapes, shape_at, shape_root, shape_lookup_slot, shape_transition_add, shape_get_key_at,
  shape_get_slot_count,
}
use jsonv.Value.{
  Value, val_undefined, Obj, Heap, obj_at, modify_obj, value_retain, value_release, new_capacity,
}

-- Whether there is memory for a new shape, for the link to it, and for slots.
pub record Memory : Type 0 where
  pub shape : Bool
  pub link : Bool
  pub slots : Bool

-- The given root, or the global one.
abbrev pub first_shape : Bool → Option ℕ → Shapes → Option ℕ × Shapes
first_shape root_succeeds root shapes = elim root [
  | some r ↦ (some r, shapes)
  | none ↦ shape_root root_succeeds shapes
]

abbrev pub push_obj : Option ℕ × Shapes → Heap → Heap
push_obj (shape, shapes) h = record h {
  shapes = shapes;
  objs = h.objs ++ record { refcount = 0; shape = shape; slots = []; capacity = 0 } ∷ [];
}

-- A new object at the end of the heap; without a root it takes the global one.
unfoldable pub obj_new : Bool → Bool → Option ℕ → Heap → Option ℕ × Heap
obj_new succeeds root_succeeds root h =
    if succeeds
    then (some (length h.objs), push_obj (first_shape root_succeeds root h.shapes) h)
    else (none, h)

-- The slots copied, and undefined behind them.
abbrev pub enlarge : ℕ → Obj → Obj
enlarge newcap ob = record ob {
  slots = take ob.capacity ob.slots ++ replicate (newcap - ob.capacity) val_undefined;
  capacity = newcap;
}

unfoldable pub obj_ensure_capacity : Bool → ℕ → ℕ → Heap → Option Heap
obj_ensure_capacity succeeds o needed h =
    if leb needed (obj_at h o).capacity
    then some h
    else elim (new_capacity (obj_at h o).capacity needed) [
      | none ↦ none
      | some newcap ↦ if succeeds then some (modify_obj o (enlarge newcap) h) else some h
    ]

-- `o->slots[slot] = v`
abbrev pub put_slot : ℕ → ℕ → Value → Heap → Heap
put_slot o slot v h = modify_obj o (λ ob. record ob { slots = set ob.slots slot v }) h

-- An existing property: the new reference is counted first.
unfoldable pub obj_overwrite : ℕ → ℕ → Value → Heap → Option Heap
obj_overwrite o slot v h = elim (get_elem? (obj_at h o).slots slot) [
  | none ↦ none
  | some old ↦ some (value_release old (put_slot o slot v (value_retain v h)))
]

-- A new property, at its slot.
unfoldable pub obj_fill : ℕ → ℕ → Value → Heap → Option Heap
obj_fill o slot v h = elim (get_elem? (obj_at h o).slots slot) [
  | none ↦ none
  | some _ ↦ some (put_slot o slot v (value_retain v (put_slot o slot val_undefined h)))
]

abbrev pub to_shape : ℕ → ℕ → Heap → Heap
to_shape o s h = modify_obj o (λ ob. record ob { shape = some s }) h

-- The object goes to its new shape.
unfoldable pub obj_adopt : Memory → ℕ → Option ℕ → Value → Heap → Option Heap
obj_adopt m o none v h = some h
obj_adopt m o (some s) v h =
    let needed = (shape_at h.shapes.pool s).slot_count in
    elim (obj_ensure_capacity m.slots o needed (to_shape o s h)) [
      | none ↦ none
      | some later ↦ obj_fill o (needed - 1) v later
    ]

-- A key that the shape does not have.
unfoldable pub obj_extend : Memory → ℕ → Option ℕ → Option Bytes → Value → Heap → Option Heap
obj_extend m o none key v h = none
obj_extend m o (some s) key v h =
    let (new, shapes) = shape_transition_add m.shape m.link s key h.shapes in
    obj_adopt m o new v (record h { shapes = shapes })

unfoldable pub obj_set : Memory → ℕ → Option Bytes → Value → Heap → Option Heap
obj_set m o key v h = elim (shape_lookup_slot h.shapes.pool (obj_at h o).shape key) [
  | some slot ↦ obj_overwrite o slot v h
  | none ↦ obj_extend m o (obj_at h o).shape key v h
]

-- What is found: nothing, a value, or a fault.
pub data Found : Type 0 where
  absent : Found
  found : Value → Found
  bad_slot : Found

unfoldable pub obj_get : ℕ → Option Bytes → Heap → Found
obj_get o key h = elim (shape_lookup_slot h.shapes.pool (obj_at h o).shape key) [
  | none ↦ absent
  | some slot ↦ elim (get_elem? (obj_at h o).slots slot) [ none ↦ bad_slot | some v ↦ found v ]
]

-- The getters below take NULL for an object, and an index that is not negative.
unfoldable pub obj_length : Option ℕ → Heap → ℕ
obj_length none h = 0
obj_length (some o) h = shape_get_slot_count h.shapes.pool (obj_at h o).shape

unfoldable pub obj_key_at : Option ℕ → ℕ → Heap → Option Bytes
obj_key_at none index h = none
obj_key_at (some o) index h =
    if ltb index (obj_length (some o) h)
    then shape_get_key_at h.shapes.pool (obj_at h o).shape index
    else none

-- `!o->slots` is a capacity of 0.
unfoldable pub obj_val_at : Option ℕ → ℕ → Heap → Option Value
obj_val_at none index h = some val_undefined
obj_val_at (some o) index h =
    if ltb index (obj_length (some o) h)
    then if leb (obj_at h o).capacity 0
      then some val_undefined
      else get_elem? (obj_at h o).slots index
    else some val_undefined
