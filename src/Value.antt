-- ===== src/Value.antt =====
-- src/include/shape.h, src/shape/shape.internal.h and value.c: values, the objects and arrays that they
-- point to, and the counts of references. A pointer to an object or an array is its index in the
-- heap, NULL is `none`, a text is the bytes in front of its NUL, that of a bignum the bytes that the
-- length in front of it (`StringHeader`) counts, a double is its 64 bits, and a
-- refcount the 32 bits of the int. A result of `none` is a fault: an access out of bounds, through
-- NULL, or a signed overflow.
pub mod Counts
use jsonv.Base.{
  ℕ, zero, suc, ◌+◌, ◌-◌, ◌*◌, ◌%◌, ◌^◌, ℤ, Bool, true, false, Option, none, some, List, [], ◌==◌,
  leb, ltb, length, get_or, modify, if◌then◌else◌,
}
use jsonv.Token.{Bytes}
use jsonv.Shape.{Shapes}

-- `Jsonv_Value`: the tag and the member of the union that it selects.
pub data Value : Type 0 where
  val_undefined : Value
  val_int : ℤ → Value
  val_ptr : ℕ → Value
  val_double : ℕ → Value
  val_obj : Option ℕ → Value
  val_arr : Option ℕ → Value
  val_null : Value
  val_bool : Bool → Value
  val_str : Option Bytes → Value
  val_unresolvable val_impossible : Value
  val_bignum : Option Bytes → Value

-- `Jsonv_Obj`; `slots` has `capacity` values.
pub record Obj : Type 0 where
  pub refcount : ℕ
  pub shape : Option ℕ
  pub slots : List Value
  pub capacity : ℕ

-- `Jsonv_Arr`; `items` has `capacity` values.
pub record Arr : Type 0 where
  pub refcount : ℕ
  pub items : List Value
  pub length : ℕ
  pub capacity : ℕ

pub record Heap : Type 0 where
  pub shapes : Shapes
  pub objs : List Obj
  pub arrs : List Arr

abbrev pub no_obj : Obj
no_obj = record { refcount = 0; shape = none; slots = []; capacity = 0 }

abbrev pub no_arr : Arr
no_arr = record { refcount = 0; items = []; length = 0; capacity = 0 }

abbrev pub obj_at : Heap → ℕ → Obj
obj_at h o = get_or h.objs o no_obj

abbrev pub arr_at : Heap → ℕ → Arr
arr_at h a = get_or h.arrs a no_arr

abbrev pub modify_obj : ℕ → (Obj → Obj) → Heap → Heap
modify_obj o f h = record h { objs = modify h.objs o f }

abbrev pub modify_arr : ℕ → (Arr → Arr) → Heap → Heap
modify_arr a f h = record h { arrs = modify h.arrs a f }

-- `++` and `--` on an int of 32 bits.
abbrev pub count_up : ℕ → ℕ
count_up n = (n + 1) % 2 ^ 32

abbrev pub count_down : ℕ → ℕ
count_down n = (n + (2 ^ 32 - 1)) % 2 ^ 32

-- The memory of an object or an array belongs to the arena: these free nothing.
unfoldable pub obj_free : ℕ → Heap → Heap
obj_free o h = h

unfoldable pub arr_free : ℕ → Heap → Heap
arr_free a h = h

unfoldable pub value_retain : Value → Heap → Heap
value_retain (val_obj (some o)) h =
    modify_obj o (λ r. record r { refcount = count_up r.refcount }) h
value_retain (val_arr (some a)) h =
    modify_arr a (λ r. record r { refcount = count_up r.refcount }) h
value_retain _ h = h

unfoldable pub value_release : Value → Heap → Heap
value_release (val_obj (some o)) h =
    let later = modify_obj o (λ r. record r { refcount = count_down r.refcount }) h in
    if (obj_at later o).refcount == 0 then obj_free o later else later
value_release (val_arr (some a)) h =
    let later = modify_arr a (λ r. record r { refcount = count_down r.refcount }) h in
    if (arr_at later a).refcount == 0 then arr_free a later else later
value_release _ h = h

abbrev pub int_max : ℕ
int_max = 2 ^ 31 - 1

-- `while (newcap < needed) newcap *= 2` on an int, on fuel: 32 turns pass every int. `none` is an
-- overflow.
unfoldable pub grow_capacity : ℕ → ℕ → ℕ → Option ℕ
grow_capacity zero newcap needed = none
grow_capacity (suc f) newcap needed =
    let rest = grow_capacity f (newcap * 2) needed in
    if ltb newcap needed then if leb (newcap * 2) int_max then rest else none else some newcap

-- The loop as both ensure_capacity start it.
unfoldable pub new_capacity : ℕ → ℕ → Option ℕ
new_capacity capacity needed = grow_capacity 32 (if capacity == 0 then 4 else capacity) needed

-- jsonv_val_str_len: of anything but a text it is 0.
unfoldable pub val_str_len : Value → ℕ
val_str_len (val_str (some s)) = length s
val_str_len _ = 0

-- jsonv_val_get_raw_number: the text of a bignum and its length.
unfoldable pub val_get_raw_number : Value → Option (Bytes × ℕ)
val_get_raw_number (val_bignum (some s)) = some (s, length s)
val_get_raw_number _ = none
