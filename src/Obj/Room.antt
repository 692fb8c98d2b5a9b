-- ===== src/Obj/Room.antt =====
-- obj_ensure_capacity of src/shape/obj.c: the slots it makes room for, and those it keeps.
use jsonv.Base.{
  ℕ, ◌-◌, ◌^◌, ◌≤◌, ◌<◌, ◌≡◌, refl, sym, ap, ◌∙◌, true, some, ◌++◌, arith, inl, inr, length,
  replicate, leb, Bool-cases, length-append, length-replicate,
}
use jsonv.Value.{val_undefined, Obj, Heap, obj_at, modify_obj}
use jsonv.Value.Counts.{new_capacity_enough}
use jsonv.Obj.{enlarge, obj_ensure_capacity}
use jsonv.Obj.Fields.{Fields, Holds}
use jsonv.Obj.Frames.{Apart, Apart-refl, Apart-modify, obj_at-modify}
use jsonv.Obj.Slots.{Holds-append, take_all}

-- Object o has room, and holds what it held.
pub record Roomy (o needed : ℕ) (h later : Heap) : Type 0 where
  pub apart : Apart o h later
  pub shape : (obj_at later o).shape ≡ (obj_at h o).shape
  pub size : length (obj_at later o).slots ≡ (obj_at later o).capacity
  pub room : needed ≤ (obj_at later o).capacity
  pub keeps :
      (fs : Fields)
      → length fs ≤ (obj_at h o).capacity
      → Holds (obj_at h o).slots fs
      → Holds (obj_at later o).slots fs

length-enlarged :
    (ob : Obj) (r : ℕ)
    → length ob.slots ≡ ob.capacity
    → ob.capacity ≤ r
    → length (ob.slots ++ replicate (r - ob.capacity) val_undefined) ≡ r
length-enlarged ob r e l = omega (
  arith,
  length-append ob.slots (replicate (r - ob.capacity) val_undefined),
  length-replicate (r - ob.capacity) val_undefined,
)

enlarge-Roomy :
    (o needed r : ℕ) (h : Heap)
    → o < length h.objs
    → length (obj_at h o).slots ≡ (obj_at h o).capacity
    → needed ≤ r
    → (obj_at h o).capacity ≤ r
    → Roomy o needed h (modify_obj o (enlarge r) h)
enlarge-Roomy o needed r h w e n l =
    let at_o = obj_at-modify o (enlarge r) h w in
    let all = take_all (obj_at h o).capacity (obj_at h o).slots (omega arith) in
    let slots_now : (obj_at (modify_obj o (enlarge r) h) o).slots
        ≡ (obj_at h o).slots ++ replicate (r - (obj_at h o).capacity) val_undefined =
      ap (λ b. b.slots) at_o
      ∙ ap (λ s. s ++ replicate (r - (obj_at h o).capacity) val_undefined) all in
    let capacity_now : (obj_at (modify_obj o (enlarge r) h) o).capacity ≡ r =
      ap (λ b. b.capacity) at_o in
    record {
      apart = Apart-modify o (enlarge r) h;
      shape = ap (λ b. b.shape) at_o;
      size = ap length slots_now ∙ length-enlarged (obj_at h o) r e l ∙ sym capacity_now;
      room = omega arith;
      keeps = λ fs b hs.
          rw slots_now
            (Holds-append (replicate (r - (obj_at h o).capacity) val_undefined) (omega arith) hs);
    }

pub obj_ensure_capacity-Roomy :
    (o needed : ℕ) (h : Heap)
    → o < length h.objs
    → length (obj_at h o).slots ≡ (obj_at h o).capacity
    → needed ≤ 2 ^ 30
    → (later : Heap) × (obj_ensure_capacity true o needed h ≡ some later) × Roomy o needed h later
unfolding obj_ensure_capacity
obj_ensure_capacity-Roomy o needed h w e b = elim (Bool-cases (leb needed (obj_at h o).capacity)) [
  | inl enough ↦ (
    h,
    rw enough,
    record {
      apart = Apart-refl o h;
      shape = refl;
      size = e;
      room = ground arith;
      keeps = λ fs l hs. hs;
    },
  )
  | inr short ↦
      let (r, c, n, l) = new_capacity_enough (obj_at h o).capacity needed b in
      (modify_obj o (enlarge r) h, rw (short, c), enlarge-Roomy o needed r h w e n l)
]
