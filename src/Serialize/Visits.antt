-- ===== src/Serialize/Visits.antt =====
-- The list of those visited in src/shape/serialize.c bounds the nesting: each level visits one object or
-- array more.
use jsonv.Base.{
  ℕ, zero, suc, ◌+◌, ◌≤◌, ◌<◌, ◌≡◌, refl, sym, ap, ◌∙◌, Bool, true, false, List, ◌∷◌, arith, inl,
  inr, ◌==◌, length, if◌then◌else◌, eq_or_ne,
}
use jsonv.Value.{Heap}
use jsonv.Serialize.{Visit, object, array, visited_contains}

-- How many of the first n are not visited.
unfoldable pub unvisited : ℕ → (ℕ → Bool) → ℕ
unvisited zero seen = 0
unvisited (suc n) seen = (if seen n then 0 else 1) + unvisited n seen

abbrev pub see : ℕ → (ℕ → Bool) → ℕ → Bool
see o seen i = if o == i then true else seen i

unvisited-see_beyond :
    (n o : ℕ) (seen : ℕ → Bool) → n ≤ o → unvisited n (see o seen) ≡ unvisited n seen
unfolding unvisited
unvisited-see_beyond zero o seen h = refl
unvisited-see_beyond (suc n) o seen h =
    let ih = unvisited-see_beyond n o seen (omega arith) in ground arith

unvisited-see :
    (n o : ℕ) (seen : ℕ → Bool)
    → o < n
    → seen o ≡ false
    → suc (unvisited n (see o seen)) ≡ unvisited n seen
unfolding unvisited
unvisited-see zero o seen h e = elim h [ ]
unvisited-see (suc n) o seen h e = elim (eq_or_ne o n) [
  | inl same ↦
      let ih = unvisited-see_beyond n o seen (omega arith) in
      let at_n : seen n ≡ false = ap seen (sym same) ∙ e in ground arith
  | inr other ↦ let ih = unvisited-see n o seen (omega arith) e in ground arith
]

unfoldable pub free : Heap → List Visit → ℕ
free h vs =
    unvisited (length h.objs) (λ i. visited_contains vs (object i))
    + unvisited (length h.arrs) (λ i. visited_contains vs (array i))

pub free-object :
    (h : Heap) (vs : List Visit) (o : ℕ)
    → o < length h.objs
    → visited_contains vs (object o) ≡ false
    → suc (free h (object o ∷ vs)) ≡ free h vs
unfolding free visited_contains
free-object h vs o b new =
    let e = unvisited-see (length h.objs) o (λ i. visited_contains vs (object i)) b new in
    omega arith

pub free-array :
    (h : Heap) (vs : List Visit) (a : ℕ)
    → a < length h.arrs
    → visited_contains vs (array a) ≡ false
    → suc (free h (array a ∷ vs)) ≡ free h vs
unfolding free visited_contains
free-array h vs a b new =
    let e = unvisited-see (length h.arrs) a (λ i. visited_contains vs (array i)) b new in
    omega arith

unvisited-le : (n : ℕ) (seen : ℕ → Bool) → unvisited n seen ≤ n
unfolding unvisited
unvisited-le zero seen = omega arith
unvisited-le (suc n) seen = let ih = unvisited-le n seen in ground arith

pub free-le : (h : Heap) (vs : List Visit) → free h vs ≤ length h.objs + length h.arrs
unfolding free
free-le h vs = omega (
  arith,
  unvisited-le (length h.objs) (λ i. visited_contains vs (object i)),
  unvisited-le (length h.arrs) (λ i. visited_contains vs (array i)),
)
