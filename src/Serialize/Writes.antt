-- ===== src/Serialize/Writes.antt =====
-- write_char and write_str of src/shape/serialize.c: what the buffer holds, and that what is written does
-- not depend on it.
use mathlib.Core.Path.{subst₂}
use jsonv.Base.{
  ℕ, suc, ◌+◌, ◌-◌, ◌^◌, ◌≤◌, ◌<◌, ◌≡◌, ◌≢◌, ◌⊎◌, refl, ap, ◌∙◌, false, none, some, [], ◌∷◌, arith,
  inl, inr, ltb, length, get_or, Bool-cases, eq_or_ne,
}
use jsonv.Token.{Bytes}
use jsonv.Arena.{sub_wrapped}
use jsonv.Serialize.{Writer, store_at, store_char, write_char, write_str}

-- The buffer after some bytes: those that fit stand at their offsets, all else is as it was.
pub record Filled (size from : ℕ) (text : Bytes) (memory later : ℕ → ℕ) : Type 0 where
  pub inside :
      (j : ℕ)
      → from ≤ j
      → j < from + length text
      → suc j < size
      → later j ≡ get_or text (j - from) 0
  pub before : (j : ℕ) → j < from → later j ≡ memory j
  pub behind : (j : ℕ) → from + length text ≤ j → later j ≡ memory j
  pub beyond : (j : ℕ) → size ≤ suc j → later j ≡ memory j

-- What write_str leaves of a writer without an error.
pub record Wrote (text : Bytes) (w later : Writer) : Type 0 where
  pub error : later.error ≡ false
  pub size : later.buf_sz ≡ w.buf_sz
  pub written : later.written ≡ w.written + length text

pub write_str-Wrote :
    (text : Bytes) (w : Writer) → w.error ≡ false → Wrote text w (write_str text w)
unfolding write_str write_char
write_str-Wrote [] w e = record { error = e; size = refl; written = omega arith }
write_str-Wrote (c ∷ text) w e =
    let next : Writer = record w { buf = store_char c w; written = w.written + 1 } in
    let step : write_char c w ≡ next = rw (write_char, e) in
    let ih = write_str-Wrote text next e in
    let n = ih.written in
    rw step (record { error = ih.error; size = ih.size; written = omega arith })

write_char-some :
    (c : ℕ) (w : Writer) (memory : ℕ → ℕ)
    → w.error ≡ false
    → w.buf ≡ some memory
    → 0 < w.buf_sz
    → w.buf_sz < 2 ^ 64
    → (later : ℕ → ℕ) × ((write_char c w).buf ≡ some later)
      × ((suc w.written < w.buf_sz × (later ≡ store_at w.written c memory))
          ⊎ (w.buf_sz ≤ suc w.written × (later ≡ memory)))
unfolding write_char
write_char-some c w memory e b p q = elim (Bool-cases (ltb w.written (sub_wrapped w.buf_sz 1))) [
  | inl fits ↦ (store_at w.written c memory, rw (e, b, fits), inl (ground arith, refl))
  | inr full ↦ (memory, rw (e, b, full), inr (ground arith, refl))
]

store_at_head :
    (from c : ℕ) (text : Bytes) (memory : ℕ → ℕ)
    → store_at from c memory from ≡ get_or (c ∷ text) (from - from) 0
store_at_head from c text memory = let e : from - from ≡ 0 = omega arith in rw e (ground arith)

get_or-later :
    (from j c : ℕ) (text : Bytes)
    → from < j
    → get_or text (j - suc from) 0 ≡ get_or (c ∷ text) (j - from) 0
get_or-later from j c text h = let e : j - from ≡ suc (j - suc from) = omega arith in rw e

store_at_other : (from c j : ℕ) (memory : ℕ → ℕ) → j ≢ from → store_at from c memory j ≡ memory j
store_at_other from c j memory h = ground arith

-- One byte in front of more.
Filled-cons :
    (size from c : ℕ) (text : Bytes) (memory middle later : ℕ → ℕ)
    → (suc from < size × (middle ≡ store_at from c memory)) ⊎ (size ≤ suc from × (middle ≡ memory))
    → Filled size (suc from) text middle later
    → Filled size from (c ∷ text) memory later
Filled-cons size from c text memory middle later (inl (fits, m)) f = record {
  inside = λ j a b d. elim (eq_or_ne j from) [
    | inl e ↦
        rw e (f.before from (omega arith) ∙ ap (λ g. g from) m ∙ store_at_head from c text memory)
    | inr n ↦ f.inside j (omega arith) (omega arith) d ∙ get_or-later from j c text (omega arith)
  ];
  before = λ j a.
      f.before j (omega arith) ∙ ap (λ g. g j) m ∙ store_at_other from c j memory (omega arith);
  behind = λ j a.
      f.behind j (omega arith) ∙ ap (λ g. g j) m ∙ store_at_other from c j memory (omega arith);
  beyond = λ j a. f.beyond j a ∙ ap (λ g. g j) m ∙ store_at_other from c j memory (omega arith);
}
Filled-cons size from c text memory middle later (inr (full, m)) f = record {
  inside = λ j a b d. absurd (omega arith);
  before = λ j a. f.before j (omega arith) ∙ ap (λ g. g j) m;
  behind = λ j a. f.behind j (omega arith) ∙ ap (λ g. g j) m;
  beyond = λ j a. f.beyond j a ∙ ap (λ g. g j) m;
}

-- A buffer with room for a byte holds what was written, as far as it fits.
pub write_str-Filled :
    (text : Bytes) (w : Writer) (memory : ℕ → ℕ)
    → w.error ≡ false
    → w.buf ≡ some memory
    → 0 < w.buf_sz
    → w.buf_sz < 2 ^ 64
    → (later : ℕ → ℕ) × ((write_str text w).buf ≡ some later)
      × Filled w.buf_sz w.written text memory later
unfolding write_str
write_str-Filled [] w memory e b p q = (
  memory,
  b,
  record {
    inside = λ j a c d. absurd (omega arith);
    before = λ j a. refl;
    behind = λ j a. refl;
    beyond = λ j a. refl;
  },
)
write_str-Filled (c ∷ text) w memory e b p q =
    let (middle, m, how) = write_char-some c w memory e b p q in
    let wrote = write_str-Wrote (c ∷ []) w e in
    let written : (write_char c w).written ≡ suc w.written = let n = wrote.written in omega arith in
    let size = wrote.size in
    let (later, l, f) =
      write_str-Filled text (write_char c w) middle wrote.error m (omega arith) (omega arith) in
    (
      later,
      l,
      Filled-cons w.buf_sz w.written c text memory middle later how
          (subst₂ (λ s n. Filled s n text middle later) size written f),
    )

pub write_str-none : (text : Bytes) (w : Writer) → w.buf ≡ none → (write_str text w).buf ≡ none
unfolding write_str write_char
write_str-none [] w b = b
write_str-none (c ∷ text) w b = write_str-none text (write_char c w) (ground arith)
