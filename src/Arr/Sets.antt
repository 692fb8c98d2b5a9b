-- ===== src/Arr/Sets.antt =====
-- arr_set of src/shape/arr.c against the abstract view of an array.
use mathlib.Core.List.{append_assoc}
use jsonv.Base.{
  ℕ, zero, suc, ◌+◌, ◌-◌, ◌^◌, ◌≤◌, ◌<◌, ◌≡◌, sym, ap, ◌∙◌, pos, true, false, some, List, ◌∷◌, ◌++◌,
  arith, inl, inr, leb, length, set, Bool-cases, length-append, length-replicate,
}
use jsonv.Value.{Value, val_undefined, Heap, arr_at, modify_arr, value_retain, value_release}
use jsonv.Value.Counts.{new_capacity_enough}
use jsonv.Obj.Slots.{take_all, get_elem?-some}
use jsonv.Arr.{
  enlarge, arr_ensure_capacity, set_length, put_item, arr_extend, arr_overwrite, arr_set,
}
use jsonv.Arr.Elements.{blank, HasElements, put_at, length-put_at, set-put_at}
use jsonv.Arr.Frames.{Apart, Apart-refl, Apart-trans, Apart-modify, arr_at-modify, put_released}

blank-append : (m n : ℕ) → blank m ++ blank n ≡ blank (m + n)
blank-append zero n = let e : 0 + n ≡ n = omega arith in rw e
blank-append (suc m) n =
    let e : suc m + n ≡ suc (m + n) = omega arith in
    rw e (ap (◌∷◌ val_undefined) (blank-append m n))

pub length-items :
    {h : Heap} {a : ℕ} {xs : List Value}
    → HasElements h a xs
    → length (arr_at h a).items ≡ (arr_at h a).capacity
length-items {h = h} {a = a} {xs = xs} e =
    let room = e.room in
    rw e.items (
      omega (
        arith,
        length-append xs (blank ((arr_at h a).capacity - length xs)),
        length-replicate ((arr_at h a).capacity - length xs) val_undefined,
      ))

-- More capacity: more undefined items.
enlarge-HasElements :
    (h : Heap) (a r : ℕ) (xs : List Value)
    → HasElements h a xs
    → (arr_at h a).capacity ≤ r
    → HasElements (modify_arr a (enlarge r) h) a xs
enlarge-HasElements h a r xs e b =
    let w = e.within in
    let room = e.room in
    let c = (arr_at h a).capacity in
    let at_a = arr_at-modify a (enlarge r) h w in
    let all = take_all c (arr_at h a).items (omega (arith, length-items e)) in
    let apart = Apart-modify a (enlarge r) h in
    let arrs = apart.arrs in
    let cap : (arr_at (modify_arr a (enlarge r) h) a).capacity ≡ r = ap (λ x. x.capacity) at_a in
    let sum : (c - length xs) + (r - c) ≡ r - length xs = omega arith in
    record {
      within = omega arith;
      items =
          ap (λ x. x.items) at_a
          ∙ ap (λ s. s ++ blank (r - c)) (all ∙ e.items)
          ∙ append_assoc xs (blank (c - length xs)) (blank (r - c))
          ∙ ap (λ s. xs ++ s) (blank-append (c - length xs) (r - c) ∙ ap blank sum)
          ∙ ap (λ n. xs ++ blank (n - length xs)) (sym cap);
      long = ap (λ x. x.length) at_a ∙ e.long;
      room = omega arith;
    }

arr_ensure_capacity-HasElements :
    (h : Heap) (a needed : ℕ) (xs : List Value)
    → HasElements h a xs
    → needed ≤ 2 ^ 30
    → (later : Heap) × (arr_ensure_capacity true a needed h ≡ some later)
      × Apart a h later
      × HasElements later a xs
      × (needed ≤ (arr_at later a).capacity)
unfolding arr_ensure_capacity
arr_ensure_capacity-HasElements h a needed xs e b =
    elim (Bool-cases (leb needed (arr_at h a).capacity)) [
      | inl enough ↦ (h, rw enough, Apart-refl a h, e, ground arith)
      | inr short ↦
          let (r, c, n, l) = new_capacity_enough (arr_at h a).capacity needed b in
          let cap = ap (λ x. x.capacity) (arr_at-modify a (enlarge r) h e.within) in
          (
            modify_arr a (enlarge r) h,
            rw (short, c),
            Apart-modify a (enlarge r) h,
            enlarge-HasElements h a r xs e l,
            omega arith,
          )
    ]

-- An item written where there is one, the length already right.
arr_overwrite-HasElements :
    (h : Heap) (a i : ℕ) (v : Value) (xs : List Value)
    → a < length h.arrs
    → (arr_at h a).items ≡ xs ++ blank ((arr_at h a).capacity - length xs)
    → length xs ≤ (arr_at h a).capacity
    → i < (arr_at h a).capacity
    → (arr_at h a).length ≡ length (put_at i v xs)
    → (later : Heap) × (arr_overwrite a i v h ≡ some later)
      × Apart a h later
      × HasElements later a (put_at i v xs)
unfolding arr_overwrite
arr_overwrite-HasElements h a i v xs w items room b long =
    let n = (arr_at h a).capacity - length xs in
    let sum : length xs + n ≡ (arr_at h a).capacity = omega arith in
    let size : length (arr_at h a).items ≡ (arr_at h a).capacity =
      ap length items
      ∙ length-append xs (blank n)
      ∙ ap (λ k. length xs + k) (length-replicate n val_undefined)
      ∙ sum in
    let (old, there) = get_elem?-some (arr_at h a).items i (omega arith) in
    let r = put_released a i v old h w in
    let cap = r.capacity in
    let arrs = r.apart.arrs in
    let put = length-put_at i v xs in
    (
      value_release old (put_item a i v (value_retain v h)),
      rw (arr_overwrite, there),
      r.apart,
      record {
        within = omega arith;
        items =
            r.items_now
            ∙ ap (λ s. set s i v) items
            ∙ set-put_at xs n i v (omega arith)
            ∙ ap (λ k. put_at i v xs ++ blank (k - length (put_at i v xs))) (sum ∙ sym cap);
        long = r.long ∙ long;
        room = ground arith;
      },
    )

arr_extend-grown :
    (h : Heap) (a i : ℕ) (xs : List Value)
    → HasElements h a xs
    → suc i ≤ 2 ^ 30
    → length xs ≤ i
    → (later : Heap) × (arr_extend true a i h ≡ some later)
      × Apart a h later
      × ((arr_at later a).items ≡ xs ++ blank ((arr_at later a).capacity - length xs))
      × (length xs ≤ (arr_at later a).capacity)
      × (i < (arr_at later a).capacity)
      × ((arr_at later a).length ≡ suc i)
unfolding arr_extend
arr_extend-grown h a i xs e b beyond =
    let long = e.long in
    let test : leb (arr_at h a).length i ≡ true = ground arith in
    let next : i + 1 ≡ suc i = omega arith in
    let (h₁, ensured, apart, e₁, n) = arr_ensure_capacity-HasElements h a (suc i) xs e b in
    let room₁ = e₁.room in
    let at_a = arr_at-modify a (λ r. record r { length = suc i }) h₁ e₁.within in
    let cap = ap (λ r. r.capacity) at_a in
    (
      set_length a (suc i) h₁,
      rw (test, next, ensured) (rw next),
      Apart-trans apart (Apart-modify a (λ r. record r { length = suc i }) h₁),
      ap (λ r. r.items) at_a ∙ e₁.items ∙ ap (λ k. xs ++ blank (k - length xs)) (sym cap),
      omega arith,
      omega arith,
      ap (λ r. r.length) at_a,
    )

arr_set_steps :
    (a i : ℕ) (v : Value) (h middle later : Heap)
    → arr_extend true a i h ≡ some middle
    → arr_overwrite a i v middle ≡ some later
    → arr_set true a (pos i) v h ≡ some later
unfolding arr_set
arr_set_steps a i v h middle later extended written = rw (arr_set, extended) written

-- With memory, arr_set at an index below 2^30 does not fault: the array has the elements with that one
-- replaced, or put behind them with undefined ones between. Every other array and every object is as it
-- was, its count of references aside.
pub arr_set-put_at :
    (h : Heap) (a i : ℕ) (v : Value) (xs : List Value)
    → HasElements h a xs
    → suc i ≤ 2 ^ 30
    → (later : Heap) × (arr_set true a (pos i) v h ≡ some later)
      × HasElements later a (put_at i v xs)
      × Apart a h later
unfolding arr_extend
arr_set-put_at h a i v xs e b =
    let long = e.long in
    let room = e.room in
    let put = length-put_at i v xs in
    elim (Bool-cases (leb (length xs) i)) [
      | inl beyond ↦
          let (h₁, extended, apart₁, items, room₁, within, long₁) =
            arr_extend-grown h a i xs e b (ground arith) in
          let w = e.within in
          let arrs = apart₁.arrs in
          let (h₂, written, apart₂, e₂) =
            arr_overwrite-HasElements h₁ a i v xs (omega arith) items room₁ within (ground arith) in
          (h₂, arr_set_steps a i v h h₁ h₂ extended written, e₂, Apart-trans apart₁ apart₂)
      | inr inside ↦
          let test : leb (arr_at h a).length i ≡ false = ground arith in
          let (h₂, written, apart₂, e₂) =
            arr_overwrite-HasElements h a i v xs e.within e.items room (ground arith)
              (ground arith) in
          (h₂, arr_set_steps a i v h h h₂ (rw test) written, e₂, apart₂)
    ]
