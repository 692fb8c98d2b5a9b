-- ===== src/Arr.antt =====
-- src/shape/arr.c: arrays that grow. An array is its index in the heap; whether an allocation
-- succeeds is a parameter, and `none` is a fault as in Value.
pub mod Elements
pub mod Frames
pub mod Sets
pub mod Laws
use jsonv.Base.{
  ℕ, suc, ◌+◌, ◌-◌, ℤ, pos, negsuc, Bool, true, false, ◌||◌, Option, none, some, List, [], ◌∷◌,
  ◌++◌, leb, ltb, length, get_elem?, take, replicate, set, if◌then◌else◌,
}
use jsonv.Value.{
  Value, val_undefined, Arr, Heap, arr_at, modify_arr, value_retain, value_release, new_capacity,
}

-- A new array at the end of the heap.
unfoldable pub arr_new : Bool → Heap → Option ℕ × Heap
arr_new succeeds h =
    if succeeds
    then (
      some (length h.arrs),
      record h {
        arrs = h.arrs ++ record { refcount = 0; items = []; length = 0; capacity = 0 } ∷ [];
      },
    )
    else (none, h)

-- The items copied, and undefined behind them.
abbrev pub enlarge : ℕ → Arr → Arr
enlarge newcap r = record r {
  items = take r.capacity r.items ++ replicate (newcap - r.capacity) val_undefined;
  capacity = newcap;
}

unfoldable pub arr_ensure_capacity : Bool → ℕ → ℕ → Heap → Option Heap
arr_ensure_capacity succeeds a needed h =
    if leb needed (arr_at h a).capacity
    then some h
    else elim (new_capacity (arr_at h a).capacity needed) [
      | none ↦ none
      | some newcap ↦ if succeeds then some (modify_arr a (enlarge newcap) h) else some h
    ]

abbrev pub set_length : ℕ → ℕ → Heap → Heap
set_length a n h = modify_arr a (λ r. record r { length = n }) h

-- `a->items[index] = v`
abbrev pub put_item : ℕ → ℕ → Value → Heap → Heap
put_item a index v h = modify_arr a (λ r. record r { items = set r.items index v }) h

-- The length, with its capacity: it grows also where the memory did not.
unfoldable pub arr_extend : Bool → ℕ → ℕ → Heap → Option Heap
arr_extend succeeds a index h =
    if leb (arr_at h a).length index
    then elim (arr_ensure_capacity succeeds a (index + 1) h) [
      | none ↦ none
      | some later ↦ some (set_length a (index + 1) later)
    ]
    else some h

-- The new reference is counted first, then the old one released.
unfoldable pub arr_overwrite : ℕ → ℕ → Value → Heap → Option Heap
arr_overwrite a index v h = elim (get_elem? (arr_at h a).items index) [
  | none ↦ none
  | some old ↦ some (value_release old (put_item a index v (value_retain v h)))
]

unfoldable pub arr_set : Bool → ℕ → ℤ → Value → Heap → Option Heap
arr_set succeeds a (negsuc n) v h = some h
arr_set succeeds a (pos index) v h = elim (arr_extend succeeds a index h) [
  | none ↦ none
  | some later ↦ arr_overwrite a index v later
]

-- What is found: nothing, a value, or a fault.
pub data Found : Type 0 where
  absent : Found
  found : Value → Found
  bad_item : Found

unfoldable pub arr_get : ℕ → ℤ → Heap → Found
arr_get a (negsuc n) h = absent
arr_get a (pos index) h =
    if leb (arr_at h a).length index
    then absent
    else elim (get_elem? (arr_at h a).items index) [ none ↦ bad_item | some v ↦ found v ]

-- The getters take NULL for an array.
unfoldable pub arr_length : Option ℕ → Heap → ℕ
arr_length none h = 0
arr_length (some a) h = (arr_at h a).length

-- `!a->items` is a capacity of 0.
unfoldable pub arr_val_at : Option ℕ → ℤ → Heap → Option Value
arr_val_at none index h = some val_undefined
arr_val_at (some a) (negsuc n) h = some val_undefined
arr_val_at (some a) (pos index) h =
    if leb (arr_at h a).length index || leb (arr_at h a).capacity 0
    then some val_undefined
    else get_elem? (arr_at h a).items index
