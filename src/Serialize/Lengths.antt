-- ===== src/Serialize/Lengths.antt =====
-- jsonv_serialize as src/include/shape.h documents it: the length without a buffer, and what a buffer gets.
use mathlib.Core.Path.{subst}
use jsonv.Base.{
  ℕ, suc, ◌-◌, ◌^◌, ◌≤◌, ◌<◌, ◌≡◌, ◌⊎◌, refl, ap, ◌∙◌, negsuc, Bool, true, false, Option, none,
  some, [], arith, inl, inr, ◌==◌, leb, ltb, length, get_or, if◌then◌else◌, Bool-cases,
}
use jsonv.Token.{Bytes}
use jsonv.Value.{Value, Heap}
use jsonv.Serialize.{
  Writer, store_at, write_str, serialize_val, serialize_fuel, to_int, finish, serialize,
}
use jsonv.Serialize.Writes.{Filled, write_str-Wrote, write_str-Filled, write_str-none}
use jsonv.Serialize.Buffers.{Pair, Both, both_none, both_some}
use jsonv.Serialize.Contract.{serialize_val-Both}
use jsonv.Serialize.Visits.{free-le}
use jsonv.Serialize.Total.{Leads, IsClosed, serialize_val-Returns}

abbrev min : ℕ → ℕ → ℕ
min a b = if leb a b then a else b

-- The buffer of a call that failed: nothing from its last byte on.
pub record Failed (size : ℕ) (memory later : ℕ → ℕ) : Type 0 where
  pub behind : (j : ℕ) → size ≤ suc j → later j ≡ memory j

-- The buffer of a call that wrote a text: as much as fits, a NUL, and nothing behind it.
pub record Holds (size : ℕ) (text : Bytes) (memory later : ℕ → ℕ) : Type 0 where
  pub text_at : (j : ℕ) → j < length text → suc j < size → later j ≡ get_or text j 0
  pub nul_at : later (min (length text) (size - 1)) ≡ 0
  pub behind : (j : ℕ) → min (length text) (size - 1) < j → later j ≡ memory j

module _ (u v : Writer) (fresh_u : u.error ≡ false) (fresh_v : v.error ≡ false) where
  Both-some :
      {x y : Option Writer} {a : Writer}
      → Both u v fresh_u fresh_v x y
      → x ≡ some a
      → (b : Writer) × (y ≡ some b) × Pair u v fresh_u fresh_v a b
  Both-some both_none e = cc
  Both-some (both_some {a = c} {b = b} p) e =
      let same : c ≡ _ = cc in (b, refl, subst (λ w. Pair u v fresh_u fresh_v w b) same p)

abbrev no_buffer : Writer
no_buffer = record { buf = none; buf_sz = 0; written = 0; error = false }

abbrev buffer : (ℕ → ℕ) → ℕ → Writer
buffer memory size = record { buf = some memory; buf_sz = size; written = 0; error = false }

-- What is returned without a buffer.
finish-no_buffer :
    (log : Bytes) (bad : Bool)
    → finish (record (write_str log no_buffer) { error = bad })
      ≡ ((if bad then negsuc 0 else to_int (length log)), none)
finish-no_buffer log true = let b = write_str-none log no_buffer refl in rw b
finish-no_buffer log false =
    let b = write_str-none log no_buffer refl in
    let n : (write_str log no_buffer).written ≡ length log =
      let w = (write_str-Wrote log no_buffer refl).written in omega arith in
    rw (b, n)

-- What is returned with one.
finish-bad :
    (log : Bytes) (memory : ℕ → ℕ) (size : ℕ)
    → 0 < size
    → size < 2 ^ 64
    → (later : ℕ → ℕ) × (finish (record (write_str log (buffer memory size)) { error = true })
        ≡ (negsuc 0, some later))
      × Failed size memory later
finish-bad log memory size p q =
    let (later, b, f) = write_str-Filled log (buffer memory size) memory refl refl p q in
    (later, rw b, record { behind = f.beyond })

Filled-Holds :
    (text : Bytes) (memory later : ℕ → ℕ) (size : ℕ)
    → 0 < size
    → Filled size 0 text memory later
    → Holds size text memory (store_at (min (length text) (size - 1)) 0 later)
Filled-Holds text memory later size p f = record {
  text_at = λ j a b.
      let zero_off : j - 0 ≡ j = omega arith in
      let inside : later j ≡ get_or text (j - 0) 0 = f.inside j (omega arith) (omega arith) b in
      let other : (j == min (length text) (size - 1)) ≡ false = ground arith in
      rw other (inside ∙ ap (λ k. get_or text k 0) zero_off);
  nul_at = ground arith;
  behind = λ j a.
      let other : (j == min (length text) (size - 1)) ≡ false = ground arith in
      rw other (elim (Bool-cases (leb (length text) j)) [
        | inl past ↦ f.behind j (ground arith)
        | inr within ↦ f.beyond j (ground arith)
      ]);
}

finish-good :
    (log : Bytes) (memory : ℕ → ℕ) (size : ℕ)
    → 0 < size
    → size < 2 ^ 64
    → (later : ℕ → ℕ) × (finish (record (write_str log (buffer memory size)) { error = false })
        ≡ (to_int (length log), some later))
      × Holds size log memory later
finish-good log memory size p q =
    let (later, b, f) = write_str-Filled log (buffer memory size) memory refl refl p q in
    let w = write_str-Wrote log (buffer memory size) refl in
    let n : (write_str log (buffer memory size)).written ≡ length log =
      let m = w.written in omega arith in
    let s : (write_str log (buffer memory size)).buf_sz ≡ size = w.size in
    let room : ltb 0 size ≡ true = ground arith in
    let at_nul : (if ltb (length log) size then length log else size - 1)
        ≡ min (length log) (size - 1) =
      ground arith in
    (
      store_at (min (length log) (size - 1)) 0 later,
      rw (b, n, s, room, at_nul),
      Filled-Holds log memory later size p f,
    )

-- Where the text goes: NULL, or a buffer with room for a byte.
pub data Target : Type 0 where
  null : Target
  into : (memory : ℕ → ℕ) (size : ℕ) → 0 < size → size < 2 ^ 64 → Target

abbrev pub buf_of : Target → Option (ℕ → ℕ)
buf_of null = none
buf_of (into memory size p q) = some memory

abbrev pub size_of : Target → ℕ
size_of null = 0
size_of (into memory size p q) = size

-- The buffer after a text, and after a failure.
abbrev pub HasText : Target → Bytes → Option (ℕ → ℕ) → Type 0
HasText null text buf = buf ≡ none
HasText (into memory size p q) text buf =
    (later : ℕ → ℕ) × (buf ≡ some later) × Holds size text memory later

abbrev pub HasFailed : Target → Option (ℕ → ℕ) → Type 0
HasFailed null buf = buf ≡ none
HasFailed (into memory size p q) buf =
    (later : ℕ → ℕ) × (buf ≡ some later) × Failed size memory later

abbrev start : Target → Writer
start t = record { buf = buf_of t; buf_sz = size_of t; written = 0; error = false }

finish-HasFailed :
    (t : Target) (log : Bytes)
    → (buf : Option (ℕ → ℕ)) × (finish (record (write_str log (start t)) { error = true })
        ≡ (negsuc 0, buf))
      × HasFailed t buf
finish-HasFailed null log = (none, finish-no_buffer log true, refl)
finish-HasFailed (into memory size p q) log =
    let (later, e, f) = finish-bad log memory size p q in (some later, e, (later, refl, f))

finish-HasText :
    (t : Target) (log : Bytes)
    → (buf : Option (ℕ → ℕ)) × (finish (record (write_str log (start t)) { error = false })
        ≡ (to_int (length log), buf))
      × HasText t log buf
finish-HasText null log = (none, finish-no_buffer log false, refl)
finish-HasText (into memory size p q) log =
    let (later, e, f) = finish-good log memory size p q in (some later, e, (later, refl, f))

write_nothing : (t : Target) → start t ≡ record (write_str [] (start t)) { error = false }
unfolding write_str
write_nothing t = refl

with_error :
    (t : Target) (log : Bytes) {b c : Bool}
    → b ≡ c
    → record (write_str log (start t)) { error = b }
      ≡ record (write_str log (start t)) { error = c }
with_error t log e = ap (λ (b : Bool). record (write_str log (start t)) { error = b }) e

module _ (print_double : ℕ → Bytes) (h : Heap) (x : Value) where
  serialize-finish :
      (t : Target) (w : Writer)
      → serialize_val print_double (serialize_fuel h) h [] x (start t) ≡ some w
      → serialize print_double h x (buf_of t) (size_of t) ≡ some (finish w)
  unfolding serialize
  serialize-finish t w e = rw (serialize, e)

  -- On a closed heap, two calls of jsonv_serialize for one value, each with NULL or with a buffer of any
  -- size above 0, either both fail and leave what stands from the last byte of their buffers on, or there
  -- is one text: both return its length, and each buffer has as much of it as fits in front of a NUL, and
  -- nothing of it behind.
  pub serialize-HasText :
      (s t : Target)
      → IsClosed h
      → Leads h x
      → ((c : Option (ℕ → ℕ)) × (d : Option (ℕ → ℕ)) × (serialize print_double h x
              (buf_of s)
              (size_of s)
            ≡ some (negsuc 0, c))
          × HasFailed s c
          × (serialize print_double h x (buf_of t) (size_of t) ≡ some (negsuc 0, d))
          × HasFailed t d)
        ⊎ ((text : Bytes) × (c : Option (ℕ → ℕ)) × (d : Option (ℕ → ℕ)) × (serialize print_double h
                x
                (buf_of s)
                (size_of s)
              ≡ some (to_int (length text), c))
            × HasText s text c
            × (serialize print_double h x (buf_of t) (size_of t) ≡ some (to_int (length text), d))
            × HasText t text d)
  serialize-HasText s t closed l =
      let (a, e) =
        serialize_val-Returns print_double h closed (serialize_fuel h) [] x (start s)
          (omega (arith, free-le h [])) l in
      let fresh : Pair (start s) (start t) refl refl (start s) (start t) = record {
        log = [];
        bad = false;
        left = write_nothing s;
        right = write_nothing t;
      } in
      let (b, f, p) =
        Both-some (start s) (start t) refl refl
          (serialize_val-Both print_double (start s) (start t) refl refl (serialize_fuel h) h [] x
            (start s) (start t) fresh)
          e in
      let left = serialize-finish s a e in
      let right = serialize-finish t b f in
      elim (Bool-cases p.bad) [
        | inl bad ↦
            let (c, g, fc) = finish-HasFailed s p.log in
            let (d, k, fd) = finish-HasFailed t p.log in
            inl (
              c,
              d,
              left ∙ ap some (ap finish (p.left ∙ with_error s p.log bad) ∙ g),
              fc,
              right ∙ ap some (ap finish (p.right ∙ with_error t p.log bad) ∙ k),
              fd,
            )
        | inr good ↦
            let (c, g, tc) = finish-HasText s p.log in
            let (d, k, td) = finish-HasText t p.log in
            inr (
              p.log,
              c,
              d,
              left ∙ ap some (ap finish (p.left ∙ with_error s p.log good) ∙ g),
              tc,
              right ∙ ap some (ap finish (p.right ∙ with_error t p.log good) ∙ k),
              td,
            )
      ]
