-- ===== src/Shape/Chains.antt =====
-- The keys that a shape stands for, and what the two walks of src/shape/shape.c find among them.
use jsonv.Base.{
  ℕ, zero, suc, ◌<◌, ◌≡◌, Option, none, some, List, [], ◌∷◌, arith, inl, inr, ◌==◌, length,
  if◌then◌else◌, Bool-cases,
}
use jsonv.Token.{Bytes}
use jsonv.HashSet.{bytes_equal}
use jsonv.HashSet.Members.{bytes_equal_refl, bytes_equal_sound}
use jsonv.Shape.{
  Shape, shape_at, same_text, lookup_step, lookup_from, shape_lookup_slot, key_from,
  shape_get_key_at,
}

-- The slot of a key among keys that stand with the newest first.
unfoldable pub slot_in : List Bytes → Bytes → Option ℕ
slot_in [] key = none
slot_in (k ∷ ks) key = if bytes_equal k key then some (length ks) else slot_in ks key

-- The key of a slot, among the same.
unfoldable pub key_in : List Bytes → ℕ → Option Bytes
key_in [] slot = some (b'?' ∷ [])
key_in (k ∷ ks) slot = if length ks == slot then some k else key_in ks slot

-- Shape i stands for the keys, the newest first: each key is new to its parent, has the next slot,
-- and the parent is older.
pub data HasKeys (pool : List Shape) : ℕ → List Bytes → Type 0 where
  root :
      {i : ℕ}
      → i < length pool
      → (shape_at pool i).parent ≡ none
      → (shape_at pool i).last_key ≡ none
      → (shape_at pool i).last_slot ≡ none
      → (shape_at pool i).slot_count ≡ 0
      → HasKeys pool i []
  grown :
      {i p : ℕ} {k : Bytes} {ks : List Bytes}
      → i < length pool
      → (shape_at pool i).parent ≡ some p
      → p < i
      → (shape_at pool i).last_key ≡ some k
      → (shape_at pool i).last_slot ≡ some (length ks)
      → (shape_at pool i).slot_count ≡ suc (length ks)
      → slot_in ks k ≡ none
      → HasKeys pool p ks
      → HasKeys pool i (k ∷ ks)

pub HasKeys-lt : {pool : List Shape} {i : ℕ} {ks : List Bytes} → HasKeys pool i ks → i < length pool
HasKeys-lt (root h a b c d) = h
HasKeys-lt (grown h a b c d e f g) = h

pub slot_count-length :
    {pool : List Shape} {i : ℕ} {ks : List Bytes}
    → HasKeys pool i ks
    → (shape_at pool i).slot_count ≡ length ks
slot_count-length (root h a b c d) = d
slot_count-length (grown h a b c d e f g) = e

same_text-bytes_equal : (k key : Bytes) → same_text (some k) (some key) ≡ bytes_equal k key
same_text-bytes_equal k key = elim (Bool-cases (bytes_equal k key)) [
  | inl same ↦ rw (bytes_equal_sound k key same) (let r = bytes_equal_refl key in ground arith)
  | inr other ↦ ground arith
]

lookup_step-child :
    (k key : Bytes) (slot : ℕ) (rest s t : Option ℕ) (last : Option Bytes)
    → last ≡ some k
    → s ≡ some slot
    → rest ≡ t
    → lookup_step rest last s key ≡ (if bytes_equal k key then some slot else t)
unfolding lookup_step
lookup_step-child k key slot rest s t last hk hs hr =
    rw (hk, hs, hr, lookup_step) (rw (same_text-bytes_equal k key))

pub lookup_from-slot_in :
    (f : ℕ) {pool : List Shape} {i : ℕ} {ks : List Bytes} (key : Bytes)
    → HasKeys pool i ks
    → i < f
    → lookup_from f pool (some i) key ≡ slot_in ks key
unfolding lookup_from slot_in lookup_step
lookup_from-slot_in zero key h g = absurd (omega arith)
lookup_from-slot_in (suc f) key (root h a b c d) g = rw (b, lookup_step)
lookup_from-slot_in (suc f) {ks = k ∷ ks} key (grown {p = p} h a b c d e new up) g =
    let ih = lookup_from-slot_in f key up (omega arith) in
    rw a (lookup_step-child k key (length ks) _ _ _ _ c d ih)

-- The walk finds the slot of a key exactly where the keys of the shape have it.
pub shape_lookup_slot-slot_in :
    {pool : List Shape} {i : ℕ} {ks : List Bytes} (key : Bytes)
    → HasKeys pool i ks
    → shape_lookup_slot pool (some i) (some key) ≡ slot_in ks key
unfolding shape_lookup_slot
shape_lookup_slot-slot_in {pool = pool} key h =
    lookup_from-slot_in (length pool) key h (HasKeys-lt h)

key_from-key_in :
    (f : ℕ) {pool : List Shape} {i : ℕ} {ks : List Bytes} (slot : ℕ)
    → HasKeys pool i ks
    → i < f
    → key_from f pool (some i) slot ≡ key_in ks slot
unfolding key_from key_in
key_from-key_in zero slot h g = absurd (omega arith)
key_from-key_in (suc zero) slot (root h a b c d) g = rw c
key_from-key_in (suc (suc f)) slot (root h a b c d) g = rw (a, c)
key_from-key_in (suc f) {ks = k ∷ ks} slot (grown {p = p} h a b c d e new up) g =
    let ih = key_from-key_in f slot up (omega arith) in rw (a, c, d, ih)

pub shape_get_key_at-key_in :
    {pool : List Shape} {i : ℕ} {ks : List Bytes} (slot : ℕ)
    → HasKeys pool i ks
    → shape_get_key_at pool (some i) slot ≡ key_in ks slot
unfolding shape_get_key_at
shape_get_key_at-key_in {pool = pool} slot h = key_from-key_in (length pool) slot h (HasKeys-lt h)

-- A slot that is found is one of the slots, and a key that has a slot is found there.
pub slot_in-lt :
    (ks : List Bytes) (key : Bytes) {slot : ℕ} → slot_in ks key ≡ some slot → slot < length ks
unfolding slot_in
slot_in-lt [] key h = cc
slot_in-lt (k ∷ ks) key {slot} h = elim (Bool-cases (bytes_equal k key)) [
  | inl same ↦ ground arith
  | inr other ↦ let ih = slot_in-lt ks key {slot = slot} (ground arith) in omega arith
]

-- The key at the slot that a key has is that key.
pub key_in-slot_in :
    (ks : List Bytes) (key : Bytes) {slot : ℕ}
    → slot_in ks key ≡ some slot
    → key_in ks slot ≡ some key
unfolding slot_in key_in
key_in-slot_in [] key h = cc
key_in-slot_in (k ∷ ks) key {slot} h = elim (Bool-cases (bytes_equal k key)) [
  | inl same ↦ let e = bytes_equal_sound k key same in ground arith
  | inr other ↦
      let s = slot_in-lt ks key {slot = slot} (ground arith) in
      let ih = key_in-slot_in ks key {slot = slot} (ground arith) in ground arith
]
