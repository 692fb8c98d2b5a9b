-- ===== src/Obj/Frames.antt =====
-- What a write to one object of src/shape/obj.c leaves alone.
use jsonv.Base.{
  ℕ, ◌<◌, ◌≡◌, ◌≢◌, refl, ap, ◌∙◌, List, arith, length, set, length-modify, get_or-modify_self,
  get_or-modify_ne,
}
use jsonv.Value.{Value, Obj, Heap, no_obj, obj_at, arr_at, modify_obj, value_retain, value_release}
use jsonv.Value.Counts.{
  SameObj, SameArr, SameHeap, SameObj-refl, SameArr-refl, value_retain-SameHeap,
  value_release-SameHeap,
}
use jsonv.Obj.{put_slot}

-- Everything but object o is as it was, counts of references aside.
pub record Apart (o : ℕ) (h later : Heap) : Type 0 where
  pub shapes : later.shapes ≡ h.shapes
  pub objs : length later.objs ≡ length h.objs
  pub arrs : length later.arrs ≡ length h.arrs
  pub obj : (i : ℕ) → o ≢ i → SameObj (obj_at h i) (obj_at later i)
  pub arr : (a : ℕ) → SameArr (arr_at h a) (arr_at later a)

pub SameObj-trans : {a b c : Obj} → SameObj a b → SameObj b c → SameObj a c
SameObj-trans p q = record {
  shape = q.shape ∙ p.shape;
  slots = q.slots ∙ p.slots;
  capacity = q.capacity ∙ p.capacity;
}

pub Apart-refl : (o : ℕ) (h : Heap) → Apart o h h
Apart-refl o h = record {
  shapes = refl;
  objs = refl;
  arrs = refl;
  obj = λ i d. SameObj-refl (obj_at h i);
  arr = λ a. SameArr-refl (arr_at h a);
}

pub Apart-trans : {o : ℕ} {h m l : Heap} → Apart o h m → Apart o m l → Apart o h l
Apart-trans p q = record {
  shapes = q.shapes ∙ p.shapes;
  objs = q.objs ∙ p.objs;
  arrs = q.arrs ∙ p.arrs;
  obj = λ i d. SameObj-trans (p.obj i d) (q.obj i d);
  arr = λ a.
      let s = p.arr a in
      let t = q.arr a in
      record {
        items = t.items ∙ s.items;
        length = t.length ∙ s.length;
        capacity = t.capacity ∙ s.capacity;
      };
}

pub Apart-same : {o : ℕ} {h m : Heap} → SameHeap h m → Apart o h m
Apart-same s = record {
  shapes = s.shapes;
  objs = s.objs;
  arrs = s.arrs;
  obj = λ i d. s.obj i;
  arr = s.arr;
}

pub Apart-modify : (o : ℕ) (f : Obj → Obj) (h : Heap) → Apart o h (modify_obj o f h)
Apart-modify o f h = record {
  shapes = refl;
  objs = length-modify h.objs o f;
  arrs = refl;
  obj = λ i d. rw (get_or-modify_ne h.objs o i f no_obj d) (SameObj-refl (obj_at h i));
  arr = λ a. SameArr-refl (arr_at h a);
}

pub obj_at-modify :
    (o : ℕ) (f : Obj → Obj) (h : Heap)
    → o < length h.objs
    → obj_at (modify_obj o f h) o ≡ f (obj_at h o)
obj_at-modify o f h w = get_or-modify_self h.objs o f no_obj w

-- Object o has the slots, and is otherwise as it was.
pub record Rewrote (o : ℕ) (h later : Heap) (slots : List Value) : Type 0 where
  pub apart : Apart o h later
  pub shape : (obj_at later o).shape ≡ (obj_at h o).shape
  pub slots_now : (obj_at later o).slots ≡ slots
  pub capacity : (obj_at later o).capacity ≡ (obj_at h o).capacity

pub put_slot-Rewrote :
    (o slot : ℕ) (v : Value) (h : Heap)
    → o < length h.objs
    → Rewrote o h (put_slot o slot v h) (set (obj_at h o).slots slot v)
put_slot-Rewrote o slot v h w =
    let e = obj_at-modify o (λ ob. record ob { slots = set ob.slots slot v }) h w in
    record {
      apart = Apart-modify o (λ ob. record ob { slots = set ob.slots slot v }) h;
      shape = ap (λ r. r.shape) e;
      slots_now = ap (λ r. r.slots) e;
      capacity = ap (λ r. r.capacity) e;
    }

Rewrote-before :
    {o : ℕ} {h m l : Heap} {slots : List Value}
    → SameHeap h m
    → Rewrote o m l slots
    → Rewrote o h l slots
Rewrote-before {o = o} s r =
    let a = s.obj o in
    record {
      apart = Apart-trans (Apart-same s) r.apart;
      shape = r.shape ∙ a.shape;
      slots_now = r.slots_now;
      capacity = r.capacity ∙ a.capacity;
    }

Rewrote-behind :
    {o : ℕ} {h m l : Heap} {slots : List Value}
    → Rewrote o h m slots
    → SameHeap m l
    → Rewrote o h l slots
Rewrote-behind {o = o} r s =
    let a = s.obj o in
    record {
      apart = Apart-trans r.apart (Apart-same s);
      shape = a.shape ∙ r.shape;
      slots_now = a.slots ∙ r.slots_now;
      capacity = a.capacity ∙ r.capacity;
    }

-- A slot written after the new reference is counted.
pub put_retained :
    (o slot : ℕ) (v : Value) (h : Heap)
    → o < length h.objs
    → Rewrote o h (put_slot o slot v (value_retain v h)) (set (obj_at h o).slots slot v)
put_retained o slot v h w =
    let s = value_retain-SameHeap v h in
    let a = s.obj o in
    let e = s.objs in
    rw (← a.slots) (Rewrote-before s (put_slot-Rewrote o slot v (value_retain v h) (omega arith)))

pub put_released :
    (o slot : ℕ) (v old : Value) (h : Heap)
    → o < length h.objs
    → Rewrote o h
        (value_release old (put_slot o slot v (value_retain v h)))
        (set (obj_at h o).slots slot v)
put_released o slot v old h w =
    Rewrote-behind (put_retained o slot v h w)
      (value_release-SameHeap old (put_slot o slot v (value_retain v h)))
