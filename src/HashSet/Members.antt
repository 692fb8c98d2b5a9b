-- ===== src/HashSet/Members.antt =====
-- src/comm/struct/set.c: what it is for a key to be in the set, and the order that the probes rely on.
use jsonv.Base.{
  ℕ, zero, suc, ◌≤◌, ◌<◌, ◌≡◌, ◌≢◌, refl, ap, true, List, [], ◌∷◌, arith, inl, inr, length, get_or,
  set, Bool-cases,
}
use jsonv.Token.{Bytes}
use jsonv.HashSet.{
  max_key_len, Entry, HashSet, empty_entry, bytes_equal, same_key, next_index, home,
}

-- `set->__entries[i]`
abbrev pub slot : List Entry → ℕ → Entry
slot entries i = get_or entries i empty_entry

-- A key is a member if a slot in use holds it.
pub record Member (s : HashSet) (key : Bytes) : Type 0 where
  pub index : ℕ
  pub bound : index < s.capacity
  pub in_use : (slot s.entries index).used ≡ true
  pub holds : (slot s.entries index).key ≡ key

-- The probes from `idx` on, at most `left` of them, come to the key over slots in use.
pub data Reach (entries : List Entry) (capacity : ℕ) (key : Bytes) : ℕ → ℕ → Type 0 where
  found :
      {left idx : ℕ}
      → (slot entries idx).used ≡ true
      → (slot entries idx).key ≡ key
      → idx < capacity
      → Reach entries capacity key (suc left) idx
  onward :
      {left idx : ℕ}
      → (slot entries idx).used ≡ true
      → Reach entries capacity key left (next_index capacity idx)
      → Reach entries capacity key (suc left) idx

-- The set is well formed: every key in use is short enough, has its length beside it, and is
-- reached by the probes for it.
pub record IsHashSet (s : HashSet) : Type 0 where
  pub size : length s.entries ≡ s.capacity
  pub lengths : (i : ℕ) → (slot s.entries i).len ≡ length (slot s.entries i).key
  pub short : (i : ℕ) → length (slot s.entries i).key ≤ max_key_len
  pub reached :
      (i : ℕ)
      → i < s.capacity
      → (slot s.entries i).used ≡ true
      → (key : Bytes) → (slot s.entries i).key ≡ key
      → Reach s.entries s.capacity key s.capacity (home s.capacity key)

pub bytes_equal_sound : (a b : Bytes) → bytes_equal a b ≡ true → a ≡ b
unfolding bytes_equal
bytes_equal_sound [] [] h = refl
bytes_equal_sound [] (y ∷ b) h = cc
bytes_equal_sound (x ∷ a) [] h = cc
bytes_equal_sound (x ∷ a) (y ∷ b) h = grind (arith, bytes_equal_sound a b)

pub bytes_equal_refl : (a : Bytes) → bytes_equal a a ≡ true
unfolding bytes_equal
bytes_equal_refl [] = refl
bytes_equal_refl (x ∷ a) = grind (arith, bytes_equal_refl a)

same_key_sound : (e : Entry) (key : Bytes) → same_key e key ≡ true → e.key ≡ key
same_key_sound e key h = elim (Bool-cases (bytes_equal e.key key)) [
  | inl same ↦ bytes_equal_sound e.key key same
  | inr other ↦ absurd (ground arith)
]

same_key_refl :
    (e : Entry) (key : Bytes) → e.len ≡ length e.key → e.key ≡ key → same_key e key ≡ true
same_key_refl e key h k = let b = bytes_equal_refl key in rw (h, k, b) (ground arith)

pub same_key_iff :
    (e : Entry) (key : Bytes)
    → e.len ≡ length e.key
    → (same_key e key ≡ true → e.key ≡ key) × (e.key ≡ key → same_key e key ≡ true)
same_key_iff e key h = (λ b. same_key_sound e key b, λ k. same_key_refl e key h k)

-- A slot that was written, and the others.
pub slot-set :
    (entries : List Entry) (i : ℕ) (e : Entry) → i < length entries → slot (set entries i e) i ≡ e
slot-set [] i e h = absurd (omega arith)
slot-set (x ∷ entries) zero e h = refl
slot-set (x ∷ entries) (suc i) e h = slot-set entries i e (omega arith)

pub slot-set_ne :
    (entries : List Entry) (i j : ℕ) (e : Entry) → i ≢ j → slot (set entries i e) j ≡ slot entries j
slot-set_ne [] i j e h = refl
slot-set_ne (x ∷ entries) zero zero e h = absurd (h refl)
slot-set_ne (x ∷ entries) zero (suc j) e h = refl
slot-set_ne (x ∷ entries) (suc i) zero e h = refl
slot-set_ne (x ∷ entries) (suc i) (suc j) e h = slot-set_ne entries i j e (λ k. h (ap suc k))
