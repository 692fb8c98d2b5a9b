-- ===== src/Obj/Slots.antt =====
-- The slots of an object of src/shape/obj.c and its fields: a slot written, and the slots enlarged.
use jsonv.Base.{
  ℕ, zero, suc, ◌≤◌, ◌<◌, ◌≡◌, ◌≢◌, refl, sym, ap, ◌∙◌, false, some, List, [], ◌∷◌, ◌++◌, arith,
  inl, inr, length, get_elem?, set, take, if◌then◌else◌, Bool-cases, Option-cases,
  get_elem?-set_self, get_elem?-set_ne, length-map,
}
use jsonv.Token.{Bytes}
use jsonv.HashSet.{bytes_equal}
use jsonv.HashSet.Members.{bytes_equal_sound, bytes_equal_refl}
use jsonv.Shape.Chains.{slot_in, slot_in-lt}
use jsonv.Value.{Value}
use jsonv.Obj.Fields.{Fields, names, find_value, replace, put, Holds, none_held, held}

pub names-replace : (key : Bytes) (v : Value) (fs : Fields) → names (replace key v fs) ≡ names fs
unfolding replace
names-replace key v [] = refl
names-replace key v ((k, x) ∷ fs) = elim (Bool-cases (bytes_equal k key)) [
  | inl same ↦ rw same
  | inr other ↦ rw other (ap (◌∷◌ k) (names-replace key v fs))
]

pub length-replace : (key : Bytes) (v : Value) (fs : Fields) → length (replace key v fs) ≡ length fs
unfolding replace
length-replace key v [] = refl
length-replace key v ((k, x) ∷ fs) = elim (Bool-cases (bytes_equal k key)) [
  | inl same ↦ rw same
  | inr other ↦ rw other (ap suc (length-replace key v fs))
]

-- A write at a later slot.
pub Holds-set :
    {slots : List Value} {fs : Fields} (slot : ℕ) (v : Value)
    → length fs ≤ slot
    → Holds slots fs
    → Holds (set slots slot v) fs
Holds-set slot v h none_held = none_held
Holds-set {slots = slots} slot v h (held {fs = fs} e hs) =
    held (get_elem?-set_ne slots v (omega arith) ∙ e) (Holds-set slot v (omega arith) hs)

-- A write at the slot of a key.
pub Holds-replace :
    {slots : List Value} {fs : Fields} (key : Bytes) (v : Value) {slot : ℕ}
    → slot_in (names fs) key ≡ some slot
    → length fs ≤ length slots
    → Holds slots fs
    → Holds (set slots slot v) (replace key v fs)
unfolding replace slot_in
Holds-replace key v h l none_held = cc
Holds-replace {slots = slots} key v {slot = slot} h l (held {k = k} {v = x} {fs = fs} e hs) =
    elim (Bool-cases (bytes_equal k key)) [
      | inl same ↦
          let at_head : slot ≡ length fs = let m = length-map fs (λ f. f.0) in ground arith in
          rw (same, at_head)
            (held (get_elem?-set_self slots (length fs) v (omega arith))
              (Holds-set (length fs) v (omega arith) hs))
      | inr other ↦
          let deep : slot_in (names fs) key ≡ some slot = ground arith in
          let m = length-map fs (λ f. f.0) in
          let b : slot < length (names fs) = slot_in-lt (names fs) key deep in
          let r = length-replace key v fs in
          rw other (
            held (rw r (get_elem?-set_ne slots v (omega arith) ∙ e))
              (Holds-replace key v deep (omega arith) hs))
    ]

get_elem?-append_lt {ℓ} :
    {A : Type ℓ} (xs ys : List A) (i : ℕ) → i < length xs → get_elem? (xs ++ ys) i ≡ get_elem? xs i
get_elem?-append_lt [] ys i h = elim h [ ]
get_elem?-append_lt (x ∷ xs) ys zero h = refl
get_elem?-append_lt (x ∷ xs) ys (suc i) h = get_elem?-append_lt xs ys i (omega arith)

pub take_all {ℓ} : {A : Type ℓ} (n : ℕ) (xs : List A) → length xs ≤ n → take n xs ≡ xs
take_all zero [] h = refl
take_all zero (x ∷ xs) h = absurd (omega arith)
take_all (suc n) [] h = refl
take_all (suc n) (x ∷ xs) h = ap (◌∷◌ x) (take_all n xs (omega arith))

pub Holds-append :
    {slots : List Value} {fs : Fields} (more : List Value)
    → length fs ≤ length slots
    → Holds slots fs
    → Holds (slots ++ more) fs
Holds-append more h none_held = none_held
Holds-append {slots = slots} more h (held {fs = fs} e hs) =
    held (get_elem?-append_lt slots more (length fs) (omega arith) ∙ e)
      (Holds-append more (omega arith) hs)

pub get_elem?-some {ℓ} :
    {A : Type ℓ} (xs : List A) (i : ℕ) → i < length xs → (x : A) × (get_elem? xs i ≡ some x)
get_elem?-some [] i h = elim h [ ]
get_elem?-some (x ∷ xs) zero h = (x, refl)
get_elem?-some (x ∷ xs) (suc i) h = get_elem?-some xs i (omega arith)

bytes_equal-ne : (a b : Bytes) → a ≢ b → bytes_equal a b ≡ false
bytes_equal-ne a b d = elim (Bool-cases (bytes_equal a b)) [
  | inl same ↦ absurd (d (bytes_equal_sound a b same))
  | inr other ↦ other
]

find_value-replace_same :
    (key : Bytes) (v : Value) (fs : Fields) {slot : ℕ}
    → slot_in (names fs) key ≡ some slot
    → find_value key (replace key v fs) ≡ some v
unfolding find_value replace slot_in
find_value-replace_same key v [] h = cc
find_value-replace_same key v ((k, x) ∷ fs) {slot = slot} h =
    elim (Bool-cases (bytes_equal k key)) [
      | inl same ↦ rw same (rw same)
      | inr d ↦ rw d (rw d (find_value-replace_same key v fs {slot = slot} (ground arith)))
    ]

find_value-replace_other :
    (key : Bytes) (v : Value) (fs : Fields) (other : Bytes)
    → key ≢ other
    → find_value other (replace key v fs) ≡ find_value other fs
unfolding find_value replace
find_value-replace_other key v [] other d = refl
find_value-replace_other key v ((k, x) ∷ fs) other d = elim (Bool-cases (bytes_equal k key)) [
  | inl same ↦
      let e = bytes_equal_sound k key same in
      let n = bytes_equal-ne k other (λ q. d (sym e ∙ q)) in rw same (rw (n))
  | inr no_key ↦ rw no_key (
      ap (if◌then◌else◌ (bytes_equal k other) (some x)) (find_value-replace_other key v fs other d))
]

-- The laws of a map: what is found after a put.
pub find_value-put_same :
    (key : Bytes) (v : Value) (fs : Fields) → find_value key (put key v fs) ≡ some v
unfolding put find_value
find_value-put_same key v fs = elim (Option-cases (slot_in (names fs) key)) [
  | inl new ↦ rw (put, new) (rw (bytes_equal_refl key))
  | inr (slot, there) ↦ rw (put, there) (find_value-replace_same key v fs there)
]

pub find_value-put_other :
    (key : Bytes) (v : Value) (fs : Fields) (other : Bytes)
    → key ≢ other
    → find_value other (put key v fs) ≡ find_value other fs
unfolding put find_value
find_value-put_other key v fs other d = elim (Option-cases (slot_in (names fs) key)) [
  | inl new ↦ rw (put, new) (rw (bytes_equal-ne key other d))
  | inr (slot, there) ↦ rw (put, there) (find_value-replace_other key v fs other d)
]
