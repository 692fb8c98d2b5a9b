-- ===== src/Obj/Fields.antt =====
-- The abstract view of an object of src/shape/obj.c: its fields, the newest first.
use jsonv.Base.{
  ℕ, ◌≤◌, ◌<◌, ◌≡◌, ◌⊎◌, refl, sym, ap, ◌∙◌, Option, none, some, List, [], ◌∷◌, map, inl, inr,
  length, get_elem?, if◌then◌else◌, Bool-cases, length-map,
}
use jsonv.Token.{Bytes}
use jsonv.HashSet.{bytes_equal}
use jsonv.Shape.{shape_lookup_slot, shape_get_slot_count}
use jsonv.Shape.Chains.{slot_in, HasKeys, shape_lookup_slot-slot_in, slot_count-length}
use jsonv.Shape.Transitions.{Extends, HasKeys-Extends}
use jsonv.Value.{Value, Heap, obj_at}
use jsonv.Value.Counts.{SameObj}
use jsonv.Obj.{Found, absent, found, obj_get, obj_length}

abbrev pub Fields : Type 0
Fields = List (Bytes × Value)

abbrev pub names : Fields → List Bytes
names fs = map (λ f. f.0) fs

-- The value of a key.
unfoldable pub find_value : Bytes → Fields → Option Value
find_value key [] = none
find_value key ((k, v) ∷ fs) = if bytes_equal k key then some v else find_value key fs

unfoldable pub replace : Bytes → Value → Fields → Fields
replace key v [] = []
replace key v ((k, x) ∷ fs) = if bytes_equal k key then (k, v) ∷ fs else (k, x) ∷ replace key v fs

-- A key that is there keeps its place; a new one is the newest.
unfoldable pub put : Bytes → Value → Fields → Fields
put key v fs = elim (slot_in (names fs) key) [ none ↦ (key, v) ∷ fs | some _ ↦ replace key v fs ]

-- The slots hold the values, the oldest at slot 0.
pub data Holds (slots : List Value) : Fields → Type 0 where
  none_held : Holds slots []
  held :
      {k : Bytes} {v : Value} {fs : Fields}
      → get_elem? slots (length fs) ≡ some v
      → Holds slots fs
      → Holds slots ((k, v) ∷ fs)

-- Object o of the heap has the fields.
pub record HasFields (h : Heap) (o : ℕ) (fs : Fields) : Type 0 where
  pub within : o < length h.objs
  pub shape_of : ℕ
  pub shaped : (obj_at h o).shape ≡ some shape_of
  pub keys : HasKeys h.shapes.pool shape_of (names fs)
  pub size : length (obj_at h o).slots ≡ (obj_at h o).capacity
  pub room : length fs ≤ (obj_at h o).capacity
  pub holds : Holds (obj_at h o).slots fs

-- What keeps the fields of an object.
pub HasFields-same :
    {h later : Heap} {o : ℕ} {fs : Fields}
    → Extends h.shapes.pool later.shapes.pool
    → o < length later.objs
    → SameObj (obj_at h o) (obj_at later o)
    → HasFields h o fs
    → HasFields later o fs
HasFields-same {fs = fs} x w s f =
    let room = f.room in
    record {
      within = w;
      shape_of = f.shape_of;
      shaped = s.shape ∙ f.shaped;
      keys = HasKeys-Extends x f.keys;
      size = ap length s.slots ∙ f.size ∙ sym s.capacity;
      room = rw s.capacity room;
      holds = rw s.slots f.holds;
    }

pub HasFields-lookup :
    {h : Heap} {o : ℕ} {fs : Fields} (key : Bytes)
    → HasFields h o fs
    → shape_lookup_slot h.shapes.pool (obj_at h o).shape (some key) ≡ slot_in (names fs) key
HasFields-lookup key f = rw f.shaped (shape_lookup_slot-slot_in key f.keys)

-- The slot of a key holds its value.
slot_in-find_value :
    {slots : List Value} {fs : Fields} (key : Bytes)
    → Holds slots fs
    → ((slot_in (names fs) key ≡ none) × (find_value key fs ≡ none))
      ⊎ ((slot : ℕ) × (v : Value) × (slot_in (names fs) key ≡ some slot)
          × (find_value key fs ≡ some v)
          × (get_elem? slots slot ≡ some v))
unfolding slot_in find_value
slot_in-find_value key none_held = inl (refl, refl)
slot_in-find_value key (held {k = k} {v = v} {fs = fs} e hs) =
    elim (Bool-cases (bytes_equal k key)) [
      | inl same ↦ inr (length fs, v, rw (same, length-map fs (λ f. f.0)), rw same, e)
      | inr other ↦ elim (slot_in-find_value key hs) [
        | inl (a, b) ↦ inl (rw other a, rw other b)
        | inr (slot, w, a, b, c) ↦ inr (slot, w, rw other a, rw other b, c)
      ]
    ]

abbrev pub found_value : Option Value → Found
found_value none = absent
found_value (some v) = found v

-- obj_get finds exactly the value of the key.
pub obj_get-find_value :
    {h : Heap} {o : ℕ} {fs : Fields} (key : Bytes)
    → HasFields h o fs
    → obj_get o (some key) h ≡ found_value (find_value key fs)
unfolding obj_get
obj_get-find_value {h = h} {o = o} {fs = fs} key f = elim (slot_in-find_value key f.holds) [
  | inl (a, b) ↦ rw (obj_get, HasFields-lookup key f, a, b)
  | inr (slot, v, a, b, c) ↦ rw (obj_get, HasFields-lookup key f, a, b, c)
]

pub obj_length-fields :
    {h : Heap} {o : ℕ} {fs : Fields} → HasFields h o fs → obj_length (some o) h ≡ length fs
unfolding obj_length shape_get_slot_count
obj_length-fields {fs = fs} f = rw f.shaped (slot_count-length f.keys ∙ length-map fs (λ x. x.0))
