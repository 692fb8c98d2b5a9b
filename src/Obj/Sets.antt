-- ===== src/Obj/Sets.antt =====
-- obj_set of src/shape/obj.c against the abstract view of an object.
use jsonv.Base.{
  ℕ, suc, ◌-◌, ◌^◌, ◌≤◌, ◌<◌, ◌≡◌, ◌≢◌, sym, ap, ◌∙◌, Bool, true, some, ◌∷◌, arith, inl, inr,
  length, set, Option-cases, get_elem?-set_self, length-map, length-set,
}
use jsonv.Token.{Bytes}
use jsonv.Shape.{Shapes, shape_at, shape_transition_add}
use jsonv.Shape.Chains.{slot_in, slot_in-lt, slot_count-length}
use jsonv.Shape.Transitions.{Extends, IsShapes, Extends-refl}
use jsonv.Shape.Transitions.Added.{Grown, shape_transition_add-Grown}
use jsonv.Value.{Value, val_undefined, Heap, obj_at, arr_at, value_retain, value_release}
use jsonv.Value.Counts.{SameObj, SameArr}
use jsonv.Obj.{
  Memory, obj_ensure_capacity, put_slot, obj_overwrite, obj_fill, to_shape, obj_adopt, obj_extend,
  obj_set,
}
use jsonv.Obj.Fields.{
  Fields, names, replace, put, held, HasFields, HasFields-same, HasFields-lookup,
}
use jsonv.Obj.Frames.{
  Apart-trans, Apart-modify, obj_at-modify, Rewrote, put_slot-Rewrote, put_retained, put_released,
}
use jsonv.Obj.Slots.{names-replace, length-replace, Holds-set, Holds-replace, get_elem?-some}
use jsonv.Obj.Room.{obj_ensure_capacity-Roomy}

-- What a set leaves: the fields of the object, and everything else.
pub record WasSet (o : ℕ) (h later : Heap) (fs : Fields) : Type 0 where
  pub fields : HasFields later o fs
  pub extends : Extends h.shapes.pool later.shapes.pool
  pub valid : IsShapes later.shapes.pool
  pub root : later.shapes.root ≡ h.shapes.root
  pub objs : length later.objs ≡ length h.objs
  pub obj : (i : ℕ) → o ≢ i → SameObj (obj_at h i) (obj_at later i)
  pub arr : (a : ℕ) → SameArr (arr_at h a) (arr_at later a)

-- The slot of a key that is there is written.
obj_overwrite-WasSet :
    (o : ℕ) (key : Bytes) (v : Value) (h : Heap) (fs : Fields) (slot : ℕ)
    → IsShapes h.shapes.pool
    → HasFields h o fs
    → slot_in (names fs) key ≡ some slot
    → (later : Heap) × (obj_overwrite o slot v h ≡ some later) × WasSet o h later (replace key v fs)
unfolding obj_overwrite
obj_overwrite-WasSet o key v h fs slot valid f there =
    let within = f.within in
    let room = f.room in
    let size = f.size in
    let b = slot_in-lt (names fs) key there in
    let m = length-map fs (λ x. x.0) in
    let (old, e) = get_elem?-some (obj_at h o).slots slot (omega arith) in
    let r = put_released o slot v old h within in
    let later = value_release old (put_slot o slot v (value_retain v h)) in
    let objs = r.apart.objs in
    let cap = r.capacity in
    let len = length-replace key v fs in
    (
      later,
      rw (obj_overwrite, e),
      record {
        fields = record {
          within = omega arith;
          shape_of = f.shape_of;
          shaped = r.shape ∙ f.shaped;
          keys = rw (names-replace key v fs, r.apart.shapes) f.keys;
          size = ap length r.slots_now ∙ length-set (obj_at h o).slots slot v ∙ size ∙ sym cap;
          room = omega arith;
          holds = rw r.slots_now (Holds-replace key v there (omega arith) f.holds);
        };
        extends = rw r.apart.shapes (Extends-refl h.shapes.pool);
        valid = rw r.apart.shapes valid;
        root = ap (λ t. t.root) r.apart.shapes;
        objs = objs;
        obj = r.apart.obj;
        arr = r.apart.arr;
      },
    )

-- A new slot is written twice: undefined, then the value.
obj_fill-Rewrote :
    (o slot : ℕ) (v : Value) (h : Heap)
    → o < length h.objs
    → slot < length (obj_at h o).slots
    → (later : Heap) × (obj_fill o slot v h ≡ some later)
      × Rewrote o h later (set (set (obj_at h o).slots slot val_undefined) slot v)
unfolding obj_fill
obj_fill-Rewrote o slot v h w b =
    let (old, e) = get_elem?-some (obj_at h o).slots slot b in
    let first = put_slot-Rewrote o slot val_undefined h w in
    let middle = put_slot o slot val_undefined h in
    let objs = first.apart.objs in
    let second = put_retained o slot v middle (omega arith) in
    (
      put_slot o slot v (value_retain v middle),
      rw (obj_fill, e),
      record {
        apart = Apart-trans first.apart second.apart;
        shape = second.shape ∙ first.shape;
        slots_now = second.slots_now ∙ ap (λ s. set s slot v) first.slots_now;
        capacity = second.capacity ∙ first.capacity;
      },
    )

-- The three steps of obj_adopt, each with its result.
obj_adopt_steps :
    (m : Memory) (o n : ℕ) (v : Value) (h later final : Heap) (k : ℕ)
    → (shape_at h.shapes.pool n).slot_count ≡ suc k
    → obj_ensure_capacity m.slots o (suc k) (to_shape o n h) ≡ some later
    → obj_fill o k v later ≡ some final
    → obj_adopt m o (some n) v h ≡ some final
unfolding obj_adopt
obj_adopt_steps m o n v h later final k count ensured filled =
    let e : (shape_at h.shapes.pool n).slot_count - 1 ≡ k = omega arith in
    rw (obj_adopt, count, ensured) (rw e filled)

-- The object at a shape with one key more.
obj_adopt-WasSet :
    (link : Bool) (o n : ℕ) (key : Bytes) (v : Value) (h : Heap) (shapes : Shapes) (fs : Fields)
    → HasFields h o fs
    → Grown h.shapes shapes (names fs) key n
    → suc (length fs) ≤ 2 ^ 30
    → (later : Heap) × (obj_adopt
          (record { shape = true; link = link; slots = true })
          o
          (some n)
          v
          (record h { shapes = shapes })
        ≡ some later)
      × WasSet o h later ((key, v) ∷ fs)
unfolding obj_adopt
obj_adopt-WasSet link o n key v h shapes fs f g b =
    let within = f.within in
    let room = f.room in
    let size = f.size in
    let h₁ = record h { shapes = shapes } in
    let h₂ = to_shape o n h₁ in
    let count : (shape_at shapes.pool n).slot_count ≡ suc (length fs) =
      slot_count-length g.keys ∙ ap suc (length-map fs (λ x. x.0)) in
    let at_o = obj_at-modify o (λ ob. record ob { shape = some n }) h₁ within in
    let apart₂ = Apart-modify o (λ ob. record ob { shape = some n }) h₁ in
    let objs₂ = apart₂.objs in
    let size₂ : length (obj_at h₂ o).slots ≡ (obj_at h₂ o).capacity =
      ap (λ r. length r.slots) at_o ∙ size ∙ sym (ap (λ r. r.capacity) at_o) in
    let (h₃, ensured, r) = obj_ensure_capacity-Roomy o (suc (length fs)) h₂ (omega arith) size₂ b in
    let objs₃ = r.apart.objs in
    let size₃ = r.size in
    let room₃ = r.room in
    let (h₄, filled, w) = obj_fill-Rewrote o (length fs) v h₃ (omega arith) (omega arith) in
    let apart = Apart-trans (Apart-trans apart₂ r.apart) w.apart in
    let objs = apart.objs in
    let cap = w.capacity in
    let held₂ =
      r.keeps fs (let c = ap (λ r. r.capacity) at_o in omega arith)
        (rw (ap (λ r. r.slots) at_o) f.holds) in
    (
      h₄,
      obj_adopt_steps (record { shape = true; link = link; slots = true }) o n v h₁ h₃ h₄
          (length fs) count ensured filled,
      record {
        fields = record {
          within = omega arith;
          shape_of = n;
          shaped = w.shape ∙ r.shape ∙ ap (λ r. r.shape) at_o;
          keys = rw apart.shapes g.keys;
          size =
              ap length w.slots_now
              ∙ length-set (set (obj_at h₃ o).slots (length fs) val_undefined) (length fs) v
              ∙ length-set (obj_at h₃ o).slots (length fs) val_undefined
              ∙ size₃
              ∙ sym cap;
          room = omega arith;
          holds = rw w.slots_now (
              held
                (get_elem?-set_self (set (obj_at h₃ o).slots (length fs) val_undefined) (length fs)
                  v (omega (arith, length-set (obj_at h₃ o).slots (length fs) val_undefined)))
                (Holds-set (length fs) v (omega arith)
                  (Holds-set (length fs) val_undefined (omega arith) held₂)));
        };
        extends = rw apart.shapes g.extends;
        valid = rw apart.shapes g.valid;
        root = ap (λ t. t.root) apart.shapes ∙ g.root;
        objs = objs;
        obj = apart.obj;
        arr = apart.arr;
      },
    )

obj_extend_steps :
    (m : Memory) (o s n : ℕ) (key : Bytes) (v : Value) (h later : Heap) (shapes : Shapes)
    → shape_transition_add m.shape m.link s (some key) h.shapes ≡ (some n, shapes)
    → obj_adopt m o (some n) v (record h { shapes = shapes }) ≡ some later
    → obj_extend m o (some s) (some key) v h ≡ some later
unfolding obj_extend
obj_extend_steps m o s n key v h later shapes grown adopted = rw (obj_extend, grown) adopted

-- With memory and room for a slot, obj_set does not fault: the object has the fields of `put`, with a
-- value that was there replaced and a new key behind the others. Every other object and array is as it
-- was, its count of references aside, and the pool of shapes keeps its shapes and its invariant.
pub obj_set-put :
    (link : Bool) (o : ℕ) (key : Bytes) (v : Value) (h : Heap) (fs : Fields)
    → IsShapes h.shapes.pool
    → HasFields h o fs
    → suc (length fs) ≤ 2 ^ 30
    → (later : Heap) × (obj_set
          (record { shape = true; link = link; slots = true })
          o
          (some key)
          v
          h
        ≡ some later)
      × WasSet o h later (put key v fs)
unfolding obj_set put
obj_set-put link o key v h fs valid f b =
    let look = HasFields-lookup key f in
    elim (Option-cases (slot_in (names fs) key)) [
      | inr (slot, there) ↦
          let (later, e, w) = obj_overwrite-WasSet o key v h fs slot valid f there in
          (later, rw (obj_set, look, there) e, rw (put, there) w)
      | inl new ↦
          let (n, shapes, grown, g) =
            shape_transition_add-Grown link f.shape_of key h.shapes (names fs) valid f.keys new in
          let (later, e, w) = obj_adopt-WasSet link o n key v h shapes fs f g b in
          let extended =
            obj_extend_steps (record { shape = true; link = link; slots = true }) o f.shape_of n key
              v h later shapes grown e in
          (later, rw (obj_set, look, new) (rw f.shaped extended), rw (put, new) w)
    ]

-- The fields of another object stay.
pub HasFields-WasSet :
    {o : ℕ} {h later : Heap} {fs : Fields} (i : ℕ) (gs : Fields)
    → o ≢ i
    → WasSet o h later fs
    → HasFields h i gs
    → HasFields later i gs
HasFields-WasSet i gs d w f =
    let objs = w.objs in
    let within = f.within in HasFields-same w.extends (omega arith) (w.obj i d) f
