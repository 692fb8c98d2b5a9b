-- ===== src/Path.antt =====
-- src/shape/path.c: jsonv_value_get_path. The variadic arguments are a list; one that is missing or of
-- the other type is a fault, `none`, as is an object or an array that is NULL or has lost an item.
pub mod Walks
use jsonv.Base.{ℕ, ℤ, Bool, true, false, Option, none, some, List, [], ◌∷◌, ◌==◌, if◌then◌else◌}
use jsonv.Token.{Bytes}
use jsonv.Value.{
  Value, val_undefined, val_int, val_ptr, val_double, val_obj, val_arr, val_null, val_bool, val_str,
  val_unresolvable, val_impossible, val_bignum, Heap,
}
use jsonv.Obj
use jsonv.Obj.{obj_get}
use jsonv.Arr
use jsonv.Arr.{arr_get}

-- What `va_arg` reads.
pub data Arg : Type 0 where
  key : Option Bytes → Arg
  index : ℤ → Arg

-- The loop ends with a value, or goes on with one and the arguments that are left.
pub data Turn : Type 0 where
  ends : Value → Turn
  goes_on : Value → List Arg → Turn
  faults : Turn

unfoldable pub after_key : List Arg → Obj.Found → Turn
after_key args Obj.Found.absent = ends val_unresolvable
after_key args (Obj.Found.found v) = goes_on v args
after_key args Obj.Found.bad_slot = faults

unfoldable pub after_index : List Arg → Arr.Found → Turn
after_index args Arr.Found.absent = ends val_unresolvable
after_index args (Arr.Found.found v) = goes_on v args
after_index args Arr.Found.bad_item = faults

-- The argument is read before the tag is tested.
unfoldable pub key_turn : List Arg → Value → Heap → Turn
key_turn (key k ∷ args) (val_obj (some o)) h = after_key args (obj_get o k h)
key_turn (key k ∷ args) (val_obj none) h = faults
key_turn (key k ∷ args) _ h = ends val_impossible
key_turn _ v h = faults

unfoldable pub index_turn : List Arg → Value → Heap → Turn
index_turn (index i ∷ args) (val_arr (some a)) h = after_index args (arr_get a i h)
index_turn (index i ∷ args) (val_arr none) h = faults
index_turn (index i ∷ args) _ h = ends val_impossible
index_turn _ v h = faults

unfoldable pub is_container : Value → Bool
is_container (val_obj p) = true
is_container (val_arr p) = true
is_container _ = false

-- One character of the format.
unfoldable pub path_turn : ℕ → List Arg → Value → Heap → Turn
path_turn c args v h =
    if is_container v
    then if c == b's'
      then key_turn args v h
      else if c == b'i'
      then index_turn args v h
      else ends val_impossible
    else ends val_impossible

unfoldable pub value_get_path : Bytes → List Arg → Value → Heap → Option Value
value_get_path [] args v h = some v
value_get_path (c ∷ fmt) args v h = elim (path_turn c args v h) [
  | faults ↦ none
  | ends w ↦ some w
  | goes_on w rest ↦ value_get_path fmt rest w h
]
