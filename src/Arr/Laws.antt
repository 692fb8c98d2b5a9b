-- ===== src/Arr/Laws.antt =====
-- The operations of src/shape/arr.c together: arr_get after arr_set, and a set without memory.
use jsonv.Base.{
  ℕ, suc, ◌+◌, ◌-◌, ◌^◌, ◌≤◌, ◌<◌, ◌≡◌, ◌≢◌, refl, sym, ap, ◌∙◌, pos, negsuc, true, false, none,
  some, List, [], ◌∷◌, ◌++◌, arith, inl, inr, leb, ltb, length, get_elem?, set, if◌then◌else◌,
  Bool-cases, length-append, get_or-append_lt, get_or-append_length,
}
use jsonv.Value.{Value, val_undefined, Arr, Heap, no_arr, arr_at}
use jsonv.Value.Counts.{new_capacity_enough}
use jsonv.Arr.{
  set_length, absent, found, arr_new, arr_ensure_capacity, arr_extend, arr_overwrite, arr_set,
  arr_get,
}
use jsonv.Arr.Elements.{
  blank, HasElements, found_value, arr_get-elements, get_elem?-put_at_same, get_elem?-put_at_other,
  get_elem?-beyond,
}
use jsonv.Arr.Frames.{arr_at-modify}
use jsonv.Arr.Sets.{arr_set-put_at, length-items}

-- With memory, after arr_set at an index below 2^30 the index is found with the value; every other
-- index below the old length as before, one between the old length and the index undefined, and a later
-- one absent. A negative index is absent, and a set there changes nothing.
pub arr_get-arr_set :
    (h : Heap) (a i : ℕ) (v : Value) (xs : List Value)
    → HasElements h a xs
    → suc i ≤ 2 ^ 30
    → (later : Heap) × (arr_set true a (pos i) v h ≡ some later)
      × (arr_get a (pos i) later ≡ found v)
      × ((j : ℕ)
          → i ≢ j
          → arr_get a (pos j) later ≡ (
              if ltb j (length xs)
              then arr_get a (pos j) h
              else if ltb j i
              then found val_undefined
              else absent))
      × ((n : ℕ)
          → (arr_get a (negsuc n) later ≡ absent)
            × (arr_set true a (negsuc n) v later ≡ some later))
unfolding arr_set arr_get
arr_get-arr_set h a i v xs e b =
    let (later, set, e', apart) = arr_set-put_at h a i v xs e b in
    (
      later,
      set,
      arr_get-elements i e' ∙ ap found_value (get_elem?-put_at_same i v xs),
      λ j d.
          let after = arr_get-elements j e' ∙ ap found_value (get_elem?-put_at_other i v xs j d) in
          let before = arr_get-elements j e in
          elim (Bool-cases (ltb j (length xs))) [
            | inl inside ↦ rw inside (after ∙ rw inside (sym before))
            | inr outside ↦ rw outside (elim (Bool-cases (ltb j i)) [
              | inl between ↦ rw between (after ∙ rw (outside, between))
              | inr behind ↦ rw behind (after ∙ rw (outside, behind))
            ])
          ],
      λ n. (refl, refl),
    )

ensure_without_memory :
    (a needed : ℕ) (h : Heap)
    → (arr_at h a).capacity < needed
    → needed ≤ 2 ^ 30
    → arr_ensure_capacity false a needed h ≡ some h
unfolding arr_ensure_capacity
ensure_without_memory a needed h b small =
    let test : leb needed (arr_at h a).capacity ≡ false = ground arith in
    let (r, grown, enough, more) = new_capacity_enough (arr_at h a).capacity needed small in
    rw (test, grown)

-- Without memory, a set at an index from the capacity on and below 2^30: arr_extend returns with the length
-- grown over the index and the items as they were, so there is no item at the index, and arr_set, which goes on
-- to read it, faults.
pub arr_set-out_of_memory :
    (h : Heap) (a i : ℕ) (v : Value) (xs : List Value)
    → HasElements h a xs
    → (arr_at h a).capacity ≤ i
    → suc i ≤ 2 ^ 30
    → (later : Heap) × (arr_extend false a i h ≡ some later)
      × ((arr_at later a).length ≡ suc i)
      × ((arr_at later a).items ≡ (arr_at h a).items)
      × (get_elem? (arr_at later a).items i ≡ none)
      × (arr_set false a (pos i) v h ≡ none)
unfolding arr_set arr_extend arr_overwrite
arr_set-out_of_memory h a i v xs e beyond small =
    let long = e.long in
    let room = e.room in
    let test : leb (arr_at h a).length i ≡ true = ground arith in
    let same = ensure_without_memory a (i + 1) h (omega arith) (omega arith) in
    let at_a = arr_at-modify a (λ r. record r { length = i + 1 }) h e.within in
    let none_there = get_elem?-beyond (arr_at h a).items i (omega (arith, length-items e)) in
    let no_item = ap (λ r. get_elem? r.items i) at_a ∙ none_there in
    let extended : arr_extend false a i h ≡ some (set_length a (i + 1) h) =
      rw (arr_extend, test, same) in
    (
      set_length a (i + 1) h,
      extended,
      ap (λ r. r.length) at_a ∙ omega arith,
      ap (λ r. r.items) at_a,
      no_item,
      rw (arr_set, test, same) (rw (arr_overwrite, no_item)),
    )

-- A new array is empty, and the arrays there are keep their elements.
pub arr_new-elements :
    (h : Heap)
    → (later : Heap) × (arr_new true h ≡ (some (length h.arrs), later))
      × HasElements later (length h.arrs) []
      × ((a : ℕ) (xs : List Value) → HasElements h a xs → HasElements later a xs)
unfolding arr_new
arr_new-elements h =
    let new : Arr = record { refcount = 0; items = []; length = 0; capacity = 0 } in
    let size = length-append h.arrs (new ∷ []) in
    let e = get_or-append_length h.arrs new no_arr in
    (
      record h { arrs = h.arrs ++ new ∷ [] },
      refl,
      record {
        within = omega arith;
        items = ap (λ r. r.items) e ∙ ap (λ k. blank (k - 0)) (sym (ap (λ r. r.capacity) e));
        long = ap (λ r. r.length) e;
        room = omega arith;
      },
      λ a xs f.
          let w = f.within in
          let old = get_or-append_lt h.arrs (new ∷ []) a no_arr w in
          record {
            within = omega arith;
            items = rw old f.items;
            long = rw old f.long;
            room = rw old f.room;
          },
    )
