-- ===== src/Obj/Laws.antt =====
-- The operations of src/shape/obj.c together: what obj_get and the getters see after obj_set.
use mathlib.Core.Path.{subst}
use jsonv.Base.{
  ℕ, suc, ◌^◌, ◌≤◌, ◌<◌, ◌≡◌, ◌≢◌, sym, ap, ◌∙◌, Bool, true, false, Option, none, some, List, [],
  ◌∷◌, arith, inl, inr, leb, ltb, ◌==◌, length, get_elem?, if◌then◌else◌, eq_or_ne, length-map,
}
use jsonv.Token.{Bytes}
use jsonv.Shape.Chains.{key_in, shape_get_key_at-key_in}
use jsonv.Shape.Transitions.{IsShapes}
use jsonv.Value.{Value, val_undefined, Heap, obj_at}
use jsonv.Obj.{found, obj_get, obj_set, obj_length, obj_key_at, obj_val_at}
use jsonv.Obj.Fields.{
  Fields, names, Holds, none_held, held, HasFields, found_value, obj_get-find_value,
  obj_length-fields,
}
use jsonv.Obj.Slots.{find_value-put_same, find_value-put_other}
use jsonv.Obj.Sets.{obj_set-put, HasFields-WasSet}

-- With memory, after obj_set the key is found with the value that was set; every other key of the
-- object, and every key of every other object, is found as before.
pub obj_get-obj_set :
    (link : Bool) (o : ℕ) (key : Bytes) (v : Value) (h : Heap) (fs : Fields)
    → IsShapes h.shapes.pool
    → HasFields h o fs
    → suc (length fs) ≤ 2 ^ 30
    → (later : Heap) × (obj_set
          (record { shape = true; link = link; slots = true })
          o
          (some key)
          v
          h
        ≡ some later)
      × (obj_get o (some key) later ≡ found v)
      × ((other : Bytes) → key ≢ other → obj_get o (some other) later ≡ obj_get o (some other) h)
      × ((i : ℕ) (gs : Fields) (k : Bytes)
          → o ≢ i
          → HasFields h i gs
          → obj_get i (some k) later ≡ obj_get i (some k) h)
obj_get-obj_set link o key v h fs valid f b =
    let (later, e, w) = obj_set-put link o key v h fs valid f b in
    (
      later,
      e,
      obj_get-find_value key w.fields ∙ ap found_value (find_value-put_same key v fs),
      λ other d.
          obj_get-find_value other w.fields
          ∙ ap found_value (find_value-put_other key v fs other d)
          ∙ sym (obj_get-find_value other f),
      λ i gs k d g.
          obj_get-find_value k (HasFields-WasSet i gs d w g) ∙ sym (obj_get-find_value k g),
    )

-- The field at a slot, the oldest at slot 0.
unfoldable pub field_at : Fields → ℕ → Option (Bytes × Value)
field_at [] slot = none
field_at (f ∷ fs) slot = if length fs == slot then some f else field_at fs slot

field_held :
    {slots : List Value} {fs : Fields} (slot : ℕ)
    → Holds slots fs
    → slot < length fs
    → (k : Bytes) × (v : Value) × (field_at fs slot ≡ some (k, v))
      × (key_in (names fs) slot ≡ some k)
      × (get_elem? slots slot ≡ some v)
unfolding field_at key_in
field_held slot none_held h = absurd (omega arith)
field_held {slots = slots} slot (held {k = k} {v = v} {fs = fs} e hs) h =
    let m = length-map fs (λ f. f.0) in
    elim (eq_or_ne (length fs) slot) [
      | inl at_head ↦
          let t : (length fs == slot) ≡ true = ground arith in
          (k, v, rw t, rw (m, t), subst (λ i. get_elem? slots i ≡ some v) at_head e)
      | inr other ↦
          let t : (length fs == slot) ≡ false = ground arith in
          let (k', v', a, b, c) = field_held slot hs (omega arith) in
          let n : (length (names fs) == slot) ≡ false = ground arith in (k', v', rw t a, rw n b, c)
    ]

-- The getters list the fields in the order in which their keys came: the key and the value at an index
-- below the length are those of the field there, and from the length on there is no key and the value
-- is undefined.
pub obj_key_at-field_at :
    (h : Heap) (o : ℕ) (fs : Fields) (index : ℕ)
    → HasFields h o fs
    → (obj_length (some o) h ≡ length fs)
      × (index < length fs
          → (k : Bytes) × (v : Value) × (field_at fs index ≡ some (k, v))
            × (obj_key_at (some o) index h ≡ some k)
            × (obj_val_at (some o) index h ≡ some v))
      × (length fs ≤ index
          → (obj_key_at (some o) index h ≡ none)
            × (obj_val_at (some o) index h ≡ some val_undefined))
unfolding obj_key_at obj_val_at
obj_key_at-field_at h o fs index f =
    let len = obj_length-fields f in
    let room = f.room in
    (
      len,
      λ inside.
          let (k, v, a, b, c) = field_held index f.holds inside in
          let below : ltb index (length fs) ≡ true = ground arith in
          let some_slots : leb (obj_at h o).capacity 0 ≡ false = ground arith in
          let key = shape_get_key_at-key_in index f.keys in
          (k, v, a, rw (len, below) (rw f.shaped (key ∙ b)), rw (len, below) (rw some_slots c)),
      λ outside.
          let below : ltb index (length fs) ≡ false = ground arith in
          (rw (len, below), rw (len, below)),
    )
