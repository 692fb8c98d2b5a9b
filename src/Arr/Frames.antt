-- ===== src/Arr/Frames.antt =====
-- What a write to one array of src/shape/arr.c leaves alone.
use jsonv.Base.{
  ℕ, ◌<◌, ◌≡◌, ◌≢◌, refl, ap, ◌∙◌, List, arith, length, set, length-modify, get_or-modify_self,
  get_or-modify_ne,
}
use jsonv.Value.{Value, Arr, Heap, no_arr, obj_at, arr_at, modify_arr, value_retain, value_release}
use jsonv.Value.Counts.{
  SameObj, SameArr, SameHeap, SameObj-refl, SameArr-refl, value_retain-SameHeap,
  value_release-SameHeap,
}
use jsonv.Obj.Frames.{SameObj-trans}
use jsonv.Arr.{put_item}

-- Everything but array a is as it was, counts of references aside.
pub record Apart (a : ℕ) (h later : Heap) : Type 0 where
  pub shapes : later.shapes ≡ h.shapes
  pub objs : length later.objs ≡ length h.objs
  pub arrs : length later.arrs ≡ length h.arrs
  pub obj : (o : ℕ) → SameObj (obj_at h o) (obj_at later o)
  pub arr : (i : ℕ) → a ≢ i → SameArr (arr_at h i) (arr_at later i)

pub SameArr-trans : {a b c : Arr} → SameArr a b → SameArr b c → SameArr a c
SameArr-trans p q = record {
  items = q.items ∙ p.items;
  length = q.length ∙ p.length;
  capacity = q.capacity ∙ p.capacity;
}

pub Apart-refl : (a : ℕ) (h : Heap) → Apart a h h
Apart-refl a h = record {
  shapes = refl;
  objs = refl;
  arrs = refl;
  obj = λ o. SameObj-refl (obj_at h o);
  arr = λ i d. SameArr-refl (arr_at h i);
}

pub Apart-trans : {a : ℕ} {h m l : Heap} → Apart a h m → Apart a m l → Apart a h l
Apart-trans p q = record {
  shapes = q.shapes ∙ p.shapes;
  objs = q.objs ∙ p.objs;
  arrs = q.arrs ∙ p.arrs;
  obj = λ o. SameObj-trans (p.obj o) (q.obj o);
  arr = λ i d. SameArr-trans (p.arr i d) (q.arr i d);
}

Apart-same : {a : ℕ} {h m : Heap} → SameHeap h m → Apart a h m
Apart-same s = record {
  shapes = s.shapes;
  objs = s.objs;
  arrs = s.arrs;
  obj = s.obj;
  arr = λ i d. s.arr i;
}

pub Apart-modify : (a : ℕ) (f : Arr → Arr) (h : Heap) → Apart a h (modify_arr a f h)
Apart-modify a f h = record {
  shapes = refl;
  objs = refl;
  arrs = length-modify h.arrs a f;
  obj = λ o. SameObj-refl (obj_at h o);
  arr = λ i d. rw (get_or-modify_ne h.arrs a i f no_arr d) (SameArr-refl (arr_at h i));
}

pub arr_at-modify :
    (a : ℕ) (f : Arr → Arr) (h : Heap)
    → a < length h.arrs
    → arr_at (modify_arr a f h) a ≡ f (arr_at h a)
arr_at-modify a f h w = get_or-modify_self h.arrs a f no_arr w

-- Array a has the items, and is otherwise as it was.
pub record Rewrote (a : ℕ) (h later : Heap) (items : List Value) : Type 0 where
  pub apart : Apart a h later
  pub items_now : (arr_at later a).items ≡ items
  pub long : (arr_at later a).length ≡ (arr_at h a).length
  pub capacity : (arr_at later a).capacity ≡ (arr_at h a).capacity

-- An item written between the two changes of counts.
pub put_released :
    (a index : ℕ) (v old : Value) (h : Heap)
    → a < length h.arrs
    → Rewrote a h
        (value_release old (put_item a index v (value_retain v h)))
        (set (arr_at h a).items index v)
put_released a index v old h w =
    let h₁ = value_retain v h in
    let h₂ = put_item a index v h₁ in
    let kept = value_retain-SameHeap v h in
    let s = kept.arr a in
    let arrs = kept.arrs in
    let freed = value_release-SameHeap old h₂ in
    let t = freed.arr a in
    let e = arr_at-modify a (λ r. record r { items = set r.items index v }) h₁ (omega arith) in
    record {
      apart =
          Apart-trans
            (Apart-trans (Apart-same kept)
              (Apart-modify a (λ r. record r { items = set r.items index v }) h₁))
            (Apart-same freed);
      items_now = t.items ∙ ap (λ r. r.items) e ∙ ap (λ i. set i index v) s.items;
      long = t.length ∙ ap (λ r. r.length) e ∙ s.length;
      capacity = t.capacity ∙ ap (λ r. r.capacity) e ∙ s.capacity;
    }
