-- ===== src/Shape.antt =====
-- src/shape/shape.c and shape.internal.h: the shapes that objects share. A shape is its index in the
-- pool; NULL and a slot of -1 are `none`. The global arena is a parameter: each allocation comes with
-- whether it succeeds. The mutex makes each operation one step.
pub mod Chains
pub mod Transitions
use jsonv.Base.{
  ℕ, zero, suc, Bool, false, ◌&&◌, Option, none, some, List, [], ◌∷◌, ◌++◌, ◌==◌, length, get_or,
  modify, if◌then◌else◌,
}
use jsonv.Token.{Bytes}
use jsonv.HashSet.{bytes_equal}

-- A link of the list of transitions.
pub record Transition : Type 0 where
  pub key : Option Bytes
  pub next_shape : ℕ

pub record Shape : Type 0 where
  pub parent : Option ℕ
  pub last_key : Option Bytes
  pub last_slot : Option ℕ
  pub slot_count : ℕ
  pub transitions : List Transition

-- The shapes made so far, and `root`.
pub record Shapes : Type 0 where
  pub pool : List Shape
  pub root : Option ℕ

abbrev pub root_shape : Shape
root_shape = record {
  parent = none;
  last_key = none;
  last_slot = none;
  slot_count = 0;
  transitions = [];
}

abbrev pub shape_at : List Shape → ℕ → Shape
shape_at pool i = get_or pool i root_shape

-- The bytes in front of the NUL; NULL counts as the empty text.
abbrev pub lstr : Option Bytes → Bytes
lstr none = []
lstr (some s) = s

abbrev pub lstr_len : Option Bytes → ℕ
lstr_len s = length (lstr s)

-- One length, and `memcmp` over it
abbrev pub same_text : Option Bytes → Option Bytes → Bool
same_text a b = lstr_len a == lstr_len b && bytes_equal (lstr a) (lstr b)

unfoldable pub find_transition : List Transition → Option Bytes → Option ℕ
find_transition [] key = none
find_transition (t ∷ ts) key =
    if same_text t.key key then some t.next_shape else find_transition ts key

abbrev pub child_of : List Shape → ℕ → Option Bytes → Shape
child_of pool s key = record {
  parent = some s;
  last_key = key;
  last_slot = some (shape_at pool s).slot_count;
  slot_count = suc (shape_at pool s).slot_count;
  transitions = [];
}

-- The list of transitions with the child in front, if there is memory for the link.
abbrev pub link_child : Bool → Option Bytes → ℕ → Shape → Shape
link_child link_succeeds key child s =
    if link_succeeds
    then record s { transitions = record { key = key; next_shape = child } ∷ s.transitions }
    else s

unfoldable pub add_child : Bool → ℕ → Option Bytes → List Shape → List Shape
add_child link_succeeds s key pool =
    modify pool s (link_child link_succeeds key (length pool)) ++ child_of pool s key ∷ []

-- The child for the key, made if there is none; NULL without memory.
unfoldable pub shape_transition_add : Bool → Bool → ℕ → Option Bytes → Shapes → Option ℕ × Shapes
shape_transition_add child_succeeds link_succeeds s key shapes =
    elim (find_transition (shape_at shapes.pool s).transitions key) [
      | some existing ↦ (some existing, shapes)
      | none ↦
          if child_succeeds
          then (
            some (length shapes.pool),
            record shapes { pool = add_child link_succeeds s key shapes.pool },
          )
          else (none, shapes)
    ]

unfoldable pub shape_find_transition : ℕ → Option Bytes → Shapes → Option ℕ
shape_find_transition s key shapes = find_transition (shape_at shapes.pool s).transitions key

-- The root, made at the first call.
unfoldable pub shape_root : Bool → Shapes → Option ℕ × Shapes
shape_root succeeds shapes = elim shapes.root [
  | some r ↦ (some r, shapes)
  | none ↦
      if succeeds
      then (
        some (length shapes.pool),
        record { pool = shapes.pool ++ root_shape ∷ []; root = some (length shapes.pool) },
      )
      else (none, shapes)
]

-- A shape without a key ends the loop; `rest` is what the loop finds from the parent on.
unfoldable pub lookup_step : Option ℕ → Option Bytes → Option ℕ → Bytes → Option ℕ
lookup_step rest none slot key = none
lookup_step rest (some k) slot key = if same_text (some k) (some key) then slot else rest

-- The loop from a shape towards the root, on fuel for the shapes of the pool.
unfoldable pub lookup_from : ℕ → List Shape → Option ℕ → Bytes → Option ℕ
lookup_from zero pool cur key = none
lookup_from (suc f) pool none key = none
lookup_from (suc f) pool (some cur) key =
    let s = shape_at pool cur in
    lookup_step (lookup_from f pool s.parent key) s.last_key s.last_slot key

unfoldable pub shape_lookup_slot : List Shape → Option ℕ → Option Bytes → Option ℕ
shape_lookup_slot pool s none = none
shape_lookup_slot pool s (some key) = lookup_from (length pool) pool s key

abbrev pub is_slot : ℕ → Option ℕ → Bool
is_slot slot last_slot = elim last_slot [ none ↦ false | some n ↦ n == slot ]

-- The key of a slot; past the root it is the text "?".
unfoldable pub key_from : ℕ → List Shape → Option ℕ → ℕ → Option Bytes
key_from zero pool cur slot = some (b'?' ∷ [])
key_from (suc f) pool none slot = some (b'?' ∷ [])
key_from (suc f) pool (some cur) slot =
    let s = shape_at pool cur in
    let rest = key_from f pool s.parent slot in
    if is_slot slot s.last_slot then s.last_key else rest

unfoldable pub shape_get_key_at : List Shape → Option ℕ → ℕ → Option Bytes
shape_get_key_at pool s slot = key_from (length pool) pool s slot

-- The getters; NULL has no slots.
unfoldable pub shape_get_parent : List Shape → Option ℕ → Option ℕ
shape_get_parent pool none = none
shape_get_parent pool (some s) = (shape_at pool s).parent

unfoldable pub shape_get_slot_count : List Shape → Option ℕ → ℕ
shape_get_slot_count pool none = 0
shape_get_slot_count pool (some s) = (shape_at pool s).slot_count

unfoldable pub shape_get_last_slot : List Shape → Option ℕ → Option ℕ
shape_get_last_slot pool none = none
shape_get_last_slot pool (some s) = (shape_at pool s).last_slot

unfoldable pub shape_get_last_key : List Shape → Option ℕ → Option Bytes
shape_get_last_key pool none = none
shape_get_last_key pool (some s) = (shape_at pool s).last_key
