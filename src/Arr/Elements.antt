-- ===== src/Arr/Elements.antt =====
-- The abstract view of an array of src/shape/arr.c: the list of its elements.
use jsonv.Base.{
  ℕ, zero, suc, ◌+◌, ◌-◌, ◌≤◌, ◌<◌, ◌≡◌, ◌≢◌, refl, ap, pos, Option, none, some, List, [], ◌∷◌,
  ◌++◌, arith, inl, inr, leb, ltb, length, get_elem?, replicate, set, if◌then◌else◌, Bool-cases,
  length-append, length-replicate,
}
use jsonv.Value.{Value, val_undefined, Heap, arr_at}
use jsonv.Arr.{Found, absent, found, arr_get}

-- n times undefined.
abbrev pub blank : ℕ → List Value
blank n = replicate n val_undefined

-- Array a of the heap has the elements; the items behind them are undefined.
pub record HasElements (h : Heap) (a : ℕ) (xs : List Value) : Type 0 where
  pub within : a < length h.arrs
  pub items : (arr_at h a).items ≡ xs ++ blank ((arr_at h a).capacity - length xs)
  pub long : (arr_at h a).length ≡ length xs
  pub room : length xs ≤ (arr_at h a).capacity

-- A write behind the end leaves undefined elements between.
unfoldable pub put_at : ℕ → Value → List Value → List Value
put_at i v [] = blank i ++ v ∷ []
put_at zero v (x ∷ xs) = v ∷ xs
put_at (suc i) v (x ∷ xs) = x ∷ put_at i v xs

abbrev pub max : ℕ → ℕ → ℕ
max m n = if leb m n then n else m

pub length-put_at :
    (i : ℕ) (v : Value) (xs : List Value) → length (put_at i v xs) ≡ max (length xs) (suc i)
unfolding put_at
length-put_at i v [] =
    let n = length-replicate i val_undefined in
    let l = length-append (blank i) (v ∷ []) in ground arith
length-put_at zero v (x ∷ xs) = ground arith
length-put_at (suc i) v (x ∷ xs) = let ih = length-put_at i v xs in ground arith

set-blank :
    (n i : ℕ) (v : Value) → i < n → set (blank n) i v ≡ (blank i ++ v ∷ []) ++ blank (n - suc i)
set-blank zero i v h = elim h [ ]
set-blank (suc n) zero v h = let e : suc n - 1 ≡ n = omega arith in rw e
set-blank (suc n) (suc i) v h =
    let e : suc n - suc (suc i) ≡ n - suc i = omega arith in
    rw e (ap (◌∷◌ val_undefined) (set-blank n i v (omega arith)))

-- A write among the items is a write among the elements, or behind them.
pub set-put_at :
    (xs : List Value) (n i : ℕ) (v : Value)
    → i < length xs + n
    → set (xs ++ blank n) i v ≡ put_at i v xs ++ blank (length xs + n - length (put_at i v xs))
unfolding put_at
set-put_at [] n i v h =
    let l : length (blank i ++ v ∷ []) ≡ suc i =
      omega (arith, length-append (blank i) (v ∷ []), length-replicate i val_undefined) in
    let e : 0 + n - length (blank i ++ v ∷ []) ≡ n - suc i = omega arith in
    rw e (set-blank n i v (omega arith))
set-put_at (x ∷ xs) n zero v h =
    let e : suc (length xs) + n - suc (length xs) ≡ n = omega arith in
    rw e (ap (λ k. v ∷ (xs ++ blank k)) refl)
set-put_at (x ∷ xs) n (suc i) v h =
    let e : suc (length xs) + n - suc (length (put_at i v xs))
        ≡ length xs + n - length (put_at i v xs) =
      omega arith in
    rw e (ap (◌∷◌ x) (set-put_at xs n i v (omega arith)))

pub get_elem?-append_front :
    (xs ys : List Value) (i : ℕ) → i < length xs → get_elem? (xs ++ ys) i ≡ get_elem? xs i
get_elem?-append_front [] ys i h = elim h [ ]
get_elem?-append_front (x ∷ xs) ys zero h = refl
get_elem?-append_front (x ∷ xs) ys (suc i) h = get_elem?-append_front xs ys i (omega arith)

pub get_elem?-inside :
    (xs : List Value) (i : ℕ) → i < length xs → (x : Value) × (get_elem? xs i ≡ some x)
get_elem?-inside [] i h = elim h [ ]
get_elem?-inside (x ∷ xs) zero h = (x, refl)
get_elem?-inside (x ∷ xs) (suc i) h = get_elem?-inside xs i (omega arith)

pub get_elem?-beyond : (xs : List Value) (i : ℕ) → length xs ≤ i → get_elem? xs i ≡ none
get_elem?-beyond [] i h = refl
get_elem?-beyond (x ∷ xs) zero h = absurd (omega arith)
get_elem?-beyond (x ∷ xs) (suc i) h = get_elem?-beyond xs i (omega arith)

pub get_elem?-put_at_same :
    (i : ℕ) (v : Value) (xs : List Value) → get_elem? (put_at i v xs) i ≡ some v
unfolding put_at
get_elem?-put_at_same zero v [] = refl
get_elem?-put_at_same (suc i) v [] = get_elem?-put_at_same i v []
get_elem?-put_at_same zero v (x ∷ xs) = refl
get_elem?-put_at_same (suc i) v (x ∷ xs) = get_elem?-put_at_same i v xs

pub get_elem?-put_at_other :
    (i : ℕ) (v : Value) (xs : List Value) (j : ℕ)
    → i ≢ j
    → get_elem? (put_at i v xs) j
      ≡ (if ltb j (length xs) then get_elem? xs j else if ltb j i then some val_undefined else none)
unfolding put_at
get_elem?-put_at_other zero v [] zero d = absurd (d refl)
get_elem?-put_at_other zero v [] (suc j) d = ground arith
get_elem?-put_at_other (suc i) v [] zero d = ground arith
get_elem?-put_at_other (suc i) v [] (suc j) d =
    let ih = get_elem?-put_at_other i v [] j (λ e. d (ap suc e)) in ground arith
get_elem?-put_at_other zero v (x ∷ xs) zero d = absurd (d refl)
get_elem?-put_at_other zero v (x ∷ xs) (suc j) d = ground (arith, get_elem?-beyond xs j)
get_elem?-put_at_other (suc i) v (x ∷ xs) zero d = ground arith
get_elem?-put_at_other (suc i) v (x ∷ xs) (suc j) d =
    let ih = get_elem?-put_at_other i v xs j (λ e. d (ap suc e)) in ground arith

abbrev pub found_value : Option Value → Found
found_value none = absent
found_value (some v) = found v

-- arr_get finds exactly the elements, by index.
pub arr_get-elements :
    {h : Heap} {a : ℕ} {xs : List Value} (i : ℕ)
    → HasElements h a xs
    → arr_get a (pos i) h ≡ found_value (get_elem? xs i)
unfolding arr_get
arr_get-elements {h = h} {a = a} {xs = xs} i e =
    let long = e.long in
    elim (Bool-cases (leb (length xs) i)) [
      | inl beyond ↦ rw (long, beyond) (rw (get_elem?-beyond xs i (ground arith)))
      | inr inside ↦
          let front =
            get_elem?-append_front xs (blank ((arr_at h a).capacity - length xs)) i
              (ground arith) in
          let (x, there) = get_elem?-inside xs i (ground arith) in
          rw (long, inside) (rw (e.items, front, there))
    ]
