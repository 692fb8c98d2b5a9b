-- ===== src/Stack.antt =====
-- src/comm/struct/stack.c and stack.h: the growing stack of values, `Stack`. Its memory is a list of
-- slots of one element each, and `count` is `top + 1`, an int: past 2^31 - 1 it overflows.
pub mod Contents
use jsonv.Base.{
  ℕ, zero, suc, ◌+◌, ◌-◌, ◌*◌, ◌/◌, ◌%◌, ◌^◌, Bool, true, false, not, ◌&&◌, Option, none, some,
  List, [], ◌∷◌, ◌++◌, ◌==◌, leb, ltb, length, get_elem?, set, take, replicate, if◌then◌else◌,
}

pub record Stack {ℓ} (A : Type ℓ) : Type ℓ where
  pub data_slots : List A
  pub extra : Bool
  pub elem_size : ℕ
  pub count : ℕ
  pub capacity : ℕ

-- What a push returns: the stack, no place for want of memory, or an overflow of `top`.
pub data Pushed {ℓ} (A : Type ℓ) : Type ℓ where
  pushed : Stack A → Pushed A
  null int_overflow : Pushed A

-- `top + 1` is an int; it overflows where `top` is the greatest one.
abbrev pub top_max : ℕ
top_max = 2 ^ 31 - 1

module _ {ℓ} {A : Type ℓ} where
  -- The asserts hold, or there is no stack.
  unfoldable pub stack_init : ℕ → List A → ℕ → Option (Stack A)
  stack_init elem_size slots data_size =
      if ltb 0 elem_size && leb elem_size data_size
      then some (record {
        data_slots = slots;
        extra = false;
        elem_size = elem_size;
        count = 0;
        capacity = data_size / elem_size;
      })
      else none

  unfoldable pub stack_destroy : Stack A → Stack A
  stack_destroy s = record s { elem_size = 0; capacity = 0; count = 0 }

  -- `calloc` gives `new_capacity` slots of zeros, or fails.
  unfoldable pub stack_grow : Bool → A → Stack A → Option (Stack A)
  stack_grow calloc_succeeds zeros s =
      let new_capacity = s.capacity * 2 % 2 ^ 64 in
      if calloc_succeeds
      then some (record s {
        extra = true;
        data_slots = take s.capacity s.data_slots ++ replicate (new_capacity - s.capacity) zeros;
        capacity = new_capacity;
      })
      else none

  abbrev pub write_top : A → Stack A → Stack A
  write_top elem s = record s { data_slots = set s.data_slots s.count elem; count = s.count + 1 }

  unfoldable pub stack_push : Bool → A → A → Stack A → Pushed A
  stack_push calloc_succeeds zeros elem s =
      if ltb top_max s.count
      then int_overflow
      else if leb s.capacity s.count
      then elim (stack_grow calloc_succeeds zeros s) [
        | none ↦ null
        | some grown ↦ pushed (write_top elem grown)
      ]
      else pushed (write_top elem s)

  -- The slot that was on top, and the stack without it; none where the assert fails.
  unfoldable pub stack_pop : Stack A → Option (A × Stack A)
  stack_pop s = if s.count == 0 then none else elim (get_elem? s.data_slots (s.count - 1)) [
    | none ↦ none
    | some elem ↦ some (elem, record s { count = s.count - 1 })
  ]

  unfoldable pub stack_peek : Stack A → ℕ → Option A
  stack_peek s index = if ltb index s.count then get_elem? s.data_slots index else none

  unfoldable pub stack_is_empty : Stack A → Bool
  stack_is_empty s = s.count == 0

  -- `top + 1`, or none on its overflow.
  unfoldable pub stack_size : Stack A → Option ℕ
  stack_size s = if ltb top_max s.count then none else some s.count
