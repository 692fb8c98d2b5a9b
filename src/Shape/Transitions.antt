-- ===== src/Shape/Transitions.antt =====
-- shape_transition_add of src/shape/shape.c: what it makes, and what it leaves to the shapes there are.
pub mod Added
use jsonv.Base.{
  ℕ, zero, suc, ◌+◌, ◌≤◌, ◌<◌, ◌≡◌, ◌≢◌, refl, sym, ap, ◌∙◌, Bool, true, false, ◌&&◌, Option, none,
  some, List, [], ◌∷◌, ◌++◌, arith, inl, inr, length, get_or, modify, ◌==◌, if◌then◌else◌,
  Bool-cases, Option-cases, length-append, length-modify, get_or-modify_self, get_or-modify_ne,
  get_or-append_lt, get_or-append_length, get_or-beyond,
}
use Prim.Native.Nat.{compare, Ordering}
use jsonv.Token.{Bytes}
use jsonv.HashSet.{bytes_equal}
use jsonv.HashSet.Members.{bytes_equal_sound}
use jsonv.Shape.{
  Transition, Shape, Shapes, root_shape, shape_at, lstr, same_text, find_transition, child_of,
  link_child, add_child, shape_transition_add, shape_root,
}
use jsonv.Shape.Chains.{slot_in, HasKeys, root, grown, HasKeys-lt, slot_count-length}

-- The fields of a shape that never change.
pub record SameLinks (s t : Shape) : Type 0 where
  pub parent : t.parent ≡ s.parent
  pub last_key : t.last_key ≡ s.last_key
  pub last_slot : t.last_slot ≡ s.last_slot
  pub slot_count : t.slot_count ≡ s.slot_count

-- A later pool: the shapes of the earlier one are there and keep those fields.
pub record Extends (pool later : List Shape) : Type 0 where
  pub longer : length pool ≤ length later
  pub same : (i : ℕ) → i < length pool → SameLinks (shape_at pool i) (shape_at later i)

pub Extends-refl : (pool : List Shape) → Extends pool pool
Extends-refl pool = record {
  longer = omega arith;
  same = λ i h. record { parent = refl; last_key = refl; last_slot = refl; slot_count = refl };
}

-- A shape keeps its keys in every later pool.
pub HasKeys-Extends :
    {pool later : List Shape} {i : ℕ} {ks : List Bytes}
    → Extends pool later
    → HasKeys pool i ks
    → HasKeys later i ks
HasKeys-Extends {i = i} x (root h a b c d) =
    let s = x.same i h in
    let l = x.longer in
    root (omega arith) (s.parent ∙ a) (s.last_key ∙ b) (s.last_slot ∙ c) (s.slot_count ∙ d)
HasKeys-Extends {i = i} x (grown h a b c d e f up) =
    let s = x.same i h in
    let l = x.longer in
    grown (omega arith) (s.parent ∙ a) b (s.last_key ∙ c) (s.last_slot ∙ d) (s.slot_count ∙ e) f
      (HasKeys-Extends x up)

-- Shape n is the child of shape i for a key.
pub record Child (pool : List Shape) (i : ℕ) (key : Bytes) (n : ℕ) : Type 0 where
  pub within : n < length pool
  pub older : i < n
  pub parent : (shape_at pool n).parent ≡ some i
  pub last_key : (shape_at pool n).last_key ≡ some key
  pub last_slot : (shape_at pool n).last_slot ≡ some (shape_at pool i).slot_count
  pub slot_count : (shape_at pool n).slot_count ≡ suc (shape_at pool i).slot_count

-- Every transition leads to the child for its key.
pub record IsShapes (pool : List Shape) : Type 0 where
  pub leads :
      (i : ℕ) (key : Bytes) (n : ℕ)
      → find_transition (shape_at pool i).transitions (some key) ≡ some n
      → Child pool i key n

pub Child-HasKeys :
    {pool : List Shape} {i n : ℕ} {key : Bytes} {ks : List Bytes}
    → Child pool i key n
    → HasKeys pool i ks
    → slot_in ks key ≡ none
    → HasKeys pool n (key ∷ ks)
Child-HasKeys c h new =
    let e = slot_count-length h in
    grown c.within c.parent c.older c.last_key (c.last_slot ∙ ap some e) (c.slot_count ∙ ap suc e)
      new h

pub Child-Extends :
    {pool later : List Shape} {i n : ℕ} {key : Bytes}
    → Extends pool later
    → Child pool i key n
    → Child later i key n
Child-Extends {i = i} {n = n} x c =
    let l = x.longer in
    let w = c.within in
    let o = c.older in
    let s = x.same n (omega arith) in
    let p = x.same i (omega arith) in
    record {
      within = omega arith;
      older = o;
      parent = s.parent ∙ c.parent;
      last_key = s.last_key ∙ c.last_key;
      last_slot = s.last_slot ∙ c.last_slot ∙ ap some (sym p.slot_count);
      slot_count = s.slot_count ∙ c.slot_count ∙ ap suc (sym p.slot_count);
    }

-- The pool that add_child leaves, shape by shape.
module _ (link : Bool) (s : ℕ) (key : Bytes) (pool : List Shape) where
  pub length-add_child : length (add_child link s (some key) pool) ≡ suc (length pool)
  unfolding add_child
  length-add_child = omega (
    arith,
    length-append (modify pool s (link_child link (some key) (length pool)))
        (child_of pool s (some key) ∷ []),
    length-modify pool s (link_child link (some key) (length pool)),
  )

  pub shape_at-add_child_old :
      (i : ℕ)
      → i < length pool
      → shape_at (add_child link s (some key) pool) i
        ≡ shape_at (modify pool s (link_child link (some key) (length pool))) i
  unfolding add_child
  shape_at-add_child_old i h =
      get_or-append_lt (modify pool s (link_child link (some key) (length pool)))
        (child_of pool s (some key) ∷ []) i root_shape
        (omega (arith, length-modify pool s (link_child link (some key) (length pool))))

  pub shape_at-add_child_new :
      shape_at (add_child link s (some key) pool) (length pool) ≡ child_of pool s (some key)
  unfolding add_child
  shape_at-add_child_new =
      let e = length-modify pool s (link_child link (some key) (length pool)) in
      ap (shape_at (add_child link s (some key) pool)) (sym e)
      ∙ get_or-append_length (modify pool s (link_child link (some key) (length pool)))
          (child_of pool s (some key)) root_shape

  pub shape_at-add_child_other :
      (i : ℕ)
      → i < length pool
      → s ≢ i
      → shape_at (add_child link s (some key) pool) i ≡ shape_at pool i
  shape_at-add_child_other i h d =
      shape_at-add_child_old i h
      ∙ get_or-modify_ne pool s i (link_child link (some key) (length pool)) root_shape d

  pub shape_at-add_child_self :
      s < length pool
      → shape_at (add_child link s (some key) pool) s
        ≡ link_child link (some key) (length pool) (shape_at pool s)
  shape_at-add_child_self h =
      shape_at-add_child_old s h
      ∙ get_or-modify_self pool s (link_child link (some key) (length pool)) root_shape h
