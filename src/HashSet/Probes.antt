-- ===== src/HashSet/Probes.antt =====
-- src/comm/struct/set.c: what the probe loop finds, and what a slot that it fills leaves in reach.
use Prim.Native.Nat.{min, digits, bit_and-bitwise}
use jsonv.Base.{
  ℕ, zero, suc, ◌+◌, ◌-◌, ◌/◌, ◌≤◌, ◌<◌, ◌≡◌, ◌≢◌, ◌⊎◌, ◌∙◌, refl, ap, true, false, List, arith,
  inl, inr, set, Bool-cases,
}
use jsonv.Token.{Bytes}
use jsonv.HashSet.{
  InsertResult, key_is_uniq, table_is_full, key_already_exist, Entry, HashSet, same_key, next_index,
  filled_entry, probe, home, hash_str,
}
use jsonv.HashSet.Members.{
  slot, Member, Reach, found, onward, IsHashSet, same_key_iff, slot-set, slot-set_ne,
}

-- The index stays inside the table.
digits_le : (n a b : ℕ) → digits (λ b. zero) min n a b ≤ b
digits_le zero a b = omega arith
digits_le (suc n) zero b = omega arith
digits_le (suc n) (suc a) b = omega (arith, digits_le n (suc a / 2) (b / 2))

pub home-lt : (capacity : ℕ) (key : Bytes) → 0 < capacity → home capacity key < capacity
unfolding home
home-lt capacity key h =
    let m = capacity - 1 in
    omega (arith, bit_and-bitwise (hash_str key) m, digits_le (hash_str key) (hash_str key) m)

pub next_index-lt : (capacity idx : ℕ) → idx < capacity → next_index capacity idx < capacity
next_index-lt capacity idx h = ground arith

-- Filling a free slot keeps in reach what was.
pub Reach-set :
    (entries : List Entry) (capacity : ℕ) (key : Bytes) (i : ℕ) (e : Entry) (left idx : ℕ)
    → (slot entries i).used ≡ false
    → Reach entries capacity key left idx
    → Reach (set entries i e) capacity key left idx
Reach-set entries capacity key i e zero idx free r = elim r [ ]
Reach-set entries capacity key i e (suc left) idx free (found u k h) =
    let same = slot-set_ne entries i idx e (λ r. cc (ap (λ (j : ℕ). (slot entries j).used) r)) in
    found (ap (λ (x : Entry). x.used) same ∙ u) (ap (λ (x : Entry). x.key) same ∙ k) h
Reach-set entries capacity key i e (suc left) idx free (onward u r) =
    let same = slot-set_ne entries i idx e (λ r. cc (ap (λ (j : ℕ). (slot entries j).used) r)) in
    onward (ap (λ (x : Entry). x.used) same ∙ u)
      (Reach-set entries capacity key i e left (next_index capacity idx) free r)

-- A reach begins at a slot in use.
Reach-used :
    (entries : List Entry) (capacity : ℕ) (key : Bytes) (left idx : ℕ)
    → Reach entries capacity key left idx
    → (slot entries idx).used ≡ true
Reach-used entries capacity key zero idx r = elim r [ ]
Reach-used entries capacity key (suc left) idx (found u k h) = u
Reach-used entries capacity key (suc left) idx (onward u r) = u

-- It goes on from a slot of another key.
Reach-next :
    (entries : List Entry) (capacity : ℕ) (key : Bytes) (left idx : ℕ)
    → (slot entries idx).key ≢ key
    → Reach entries capacity key (suc left) idx
    → Reach entries capacity key left (next_index capacity idx)
Reach-next entries capacity key left idx other (found u k h) = absurd (other k)
Reach-next entries capacity key left idx other (onward u r) = r

-- The three ways in which the probe loop ends.
abbrev pub Probed : HashSet → Bytes → ℕ → ℕ → InsertResult × HashSet → Type 0
Probed s key left idx r =
    ((r ≡ (key_already_exist, s)) × Member s key)
    ⊎ ((r ≡ (table_is_full, s)) × (¬ Reach s.entries s.capacity key left idx))
    ⊎ ((i : ℕ) × (i < s.capacity)
        × ((slot s.entries i).used ≡ false)
        × (r ≡ (
          key_is_uniq,
          record s { length = s.length + 1; entries = set s.entries i (filled_entry key) },
        ))
        × (¬ Reach s.entries s.capacity key left idx)
        × Reach (set s.entries i (filled_entry key)) s.capacity key left idx)

-- The three ways of one probe.
module _ (left idx : ℕ) (key : Bytes) (s : HashSet) where
  probe_free :
      (slot s.entries idx).used ≡ false
      → probe (suc left) idx key s ≡ (
        key_is_uniq,
        record s { length = s.length + 1; entries = set s.entries idx (filled_entry key) },
      )
  unfolding probe
  probe_free free = rw (probe, free) refl

  probe_hit :
      (slot s.entries idx).used ≡ true
      → same_key (slot s.entries idx) key ≡ true
      → probe (suc left) idx key s ≡ (key_already_exist, s)
  unfolding probe
  probe_hit used same = rw (probe, used, same) refl

  probe_on :
      (slot s.entries idx).used ≡ true
      → same_key (slot s.entries idx) key ≡ false
      → probe (suc left) idx key s ≡ probe left (next_index s.capacity idx) key s
  unfolding probe
  probe_on used other = rw (probe, used, other) refl

probe-zero : (idx : ℕ) (key : Bytes) (s : HashSet) → probe zero idx key s ≡ (table_is_full, s)
unfolding probe
probe-zero idx key s = refl

filled :
    (key : Bytes) (s : HashSet) (left idx : ℕ)
    → IsHashSet s
    → idx < s.capacity
    → Reach (set s.entries idx (filled_entry key)) s.capacity key (suc left) idx
filled key s left idx inv h =
    let same = slot-set s.entries idx (filled_entry key) (omega (arith, inv.size)) in
    found (ap (λ (x : Entry). x.used) same) (ap (λ (x : Entry). x.key) same) h

pub probe-Probed :
    (left idx : ℕ) (key : Bytes) (s : HashSet)
    → IsHashSet s
    → idx < s.capacity
    → Probed s key left idx (probe left idx key s)
probe-Probed zero idx key s inv h = inr (inl (probe-zero idx key s, λ r. elim r [ ]))
probe-Probed (suc left) idx key s inv h = elim (Bool-cases (slot s.entries idx).used) [
  | inr free ↦ inr (
      inr (
        idx,
        h,
        free,
        probe_free left idx key s free,
        (λ r. cc (Reach-used s.entries s.capacity key (suc left) idx r)),
        filled key s left idx inv h,
      ))
  | inl used ↦
      let (sound, complete) = same_key_iff (slot s.entries idx) key (inv.lengths idx) in
      elim (Bool-cases (same_key (slot s.entries idx) key)) [
        | inl same ↦ inl (
          probe_hit left idx key s used same,
          record { index = idx; bound = h; in_use = used; holds = sound same },
        )
        | inr other ↦
            let go = Reach-next s.entries s.capacity key left idx (λ k. cc (complete k)) in
            let on = probe_on left idx key s used other in
            elim (probe-Probed left (next_index s.capacity idx) key s inv
              (next_index-lt s.capacity idx h)) [
                | inl (e, m) ↦ inl (on ∙ e, m)
                | inr (inl (e, n)) ↦ inr (inl (on ∙ e, λ r. n (go r)))
                | inr (inr (i, b, free, e, n, r)) ↦ inr (
                    inr (
                      i,
                      b,
                      free,
                      on ∙ e,
                      (λ r. n (go r)),
                      onward
                          (ap (λ (x : Entry). x.used)
                              (slot-set_ne s.entries i idx (filled_entry key)
                                (λ q. cc (ap (λ (j : ℕ). (slot s.entries j).used) q)))
                            ∙ used)
                          r,
                    ))
              ]
      ]
]
