-- ===== src/Serialize/Buffers.antt =====
-- serialize_val of src/shape/serialize.c does not look at the buffer: from two writers it writes one text.
use jsonv.Base.{
  ℕ, zero, suc, ◌≡◌, refl, ap, ◌∙◌, Bool, true, false, Option, none, some, List, [], ◌∷◌, ◌++◌,
  arith, inl, inr, ltb, get_elem?, if◌then◌else◌, Bool-cases, Option-cases,
}
use jsonv.Token.{Bytes}
use jsonv.Shape.{shape_get_key_at}
use jsonv.Value.{Value, Obj, Heap}
use jsonv.Serialize.{
  Writer, write_char, write_str, write_escaped_str, is_gap, null_text, fail, Writes, write_field,
  write_fields, write_item, write_items, close,
}
use jsonv.Serialize.Strings.{escape}
use jsonv.Serialize.Reads.{write_str-append, write_escaped_str-text}
use jsonv.Serialize.Writes.{write_str-Wrote}

write_char-clean :
    (c : ℕ) (w : Writer)
    → w.error ≡ false
    → write_char c (record w { error = false }) ≡ record (write_char c w) { error = false }
unfolding write_char
write_char-clean c w e =
    let n : write_char c w ≡ write_char c (record w { error = false }) = ground arith in rw n

module _ (u v : Writer) (fresh_u : u.error ≡ false) (fresh_v : v.error ≡ false) where
  -- The writers that one text, and maybe an error, have made of the two.
  pub record Pair (a b : Writer) : Type 0 where
    pub log : Bytes
    pub bad : Bool
    pub left : a ≡ record (write_str log u) { error = bad }
    pub right : b ≡ record (write_str log v) { error = bad }

  pub data Both : Option Writer → Option Writer → Type 0 where
    both_none : Both none none
    both_some : {a b : Writer} → Pair a b → Both (some a) (some b)

  -- A byte, on a writer with a text and maybe an error.
  write_char-logged :
      (w : Writer) (log : Bytes) (bad : Bool) (c : ℕ)
      → w.error ≡ false
      → write_char c (record (write_str log w) { error = bad })
        ≡ record (write_str (if bad then log else log ++ c ∷ []) w) { error = bad }
  unfolding write_char write_str
  write_char-logged w log true c e = refl
  write_char-logged w log false c e =
      let fresh = (write_str-Wrote log w e).error in
      let same : write_str (log ++ c ∷ []) w ≡ write_char c (write_str log w) =
        write_str-append log (c ∷ []) w in
      rw same (write_char-clean c (write_str log w) fresh)

  pub Pair-write_char : (c : ℕ) {a b : Writer} → Pair a b → Pair (write_char c a) (write_char c b)
  Pair-write_char c p = record {
    log = if p.bad then p.log else p.log ++ c ∷ [];
    bad = p.bad;
    left = ap (write_char c) p.left ∙ write_char-logged u p.log p.bad c fresh_u;
    right = ap (write_char c) p.right ∙ write_char-logged v p.log p.bad c fresh_v;
  }

  pub Pair-write_str : (s : Bytes) {a b : Writer} → Pair a b → Pair (write_str s a) (write_str s b)
  unfolding write_str
  Pair-write_str [] p = p
  Pair-write_str (c ∷ s) p = Pair-write_str s (Pair-write_char c p)

  pub Pair-write_escaped_str :
      (s : Bytes) {a b : Writer} → Pair a b → Pair (write_escaped_str s a) (write_escaped_str s b)
  Pair-write_escaped_str s {a = a} {b = b} p =
      rw (write_escaped_str-text s a, write_escaped_str-text s b)
        (Pair-write_str (b'"' ∷ (escape s ++ (b'"' ∷ []))) p)

  pub Pair-fail : {a b : Writer} → Pair a b → Pair (fail a) (fail b)
  Pair-fail p = record { log = p.log; bad = true; left = ap fail p.left; right = ap fail p.right }

  pub Both-close :
      (c : ℕ) {x y : Option Writer}
      → Both x y
      → Both (close (write_char c) x) (close (write_char c) y)
  Both-close c both_none = both_none
  Both-close c (both_some p) = both_some (Pair-write_char c p)

  -- A nested value is written alike.
  abbrev pub Alike : Writes → Type 0
  Alike ser = (x : Value) (a b : Writer) → Pair a b → Both (ser x a) (ser x b)

  Pair-comma :
      (first : Bool) {a b : Writer}
      → Pair a b
      → Pair (if first then a else write_char b',' a) (if first then b else write_char b',' b)
  Pair-comma true p = p
  Pair-comma false p = Pair-write_char b',' p

  write_field-Both :
      (ser : Writes) (key : Option Bytes) (x : Value) (first : Bool) {a b : Writer}
      → Alike ser
      → Pair a b
      → Both (write_field ser key x first a) (write_field ser key x first b)
  unfolding write_field
  write_field-Both ser none x first alike p = both_none
  write_field-Both ser (some key) x first {a = a} {b = b} alike p =
      alike x (write_char b':' (write_escaped_str key (if first then a else write_char b',' a)))
        (write_char b':' (write_escaped_str key (if first then b else write_char b',' b)))
        (Pair-write_char b':' (Pair-write_escaped_str key (Pair-comma first p)))

  -- The two results go on alike.
  Both-then :
      (f g : Writer → Option Writer) {x y : Option Writer}
      → ((a b : Writer) → Pair a b → Both (f a) (g b))
      → Both x y
      → Both (elim x [ none ↦ none | some w ↦ f w ]) (elim y [ none ↦ none | some w ↦ g w ])
  Both-then f g next both_none = both_none
  Both-then f g next (both_some {a} {b} p) = next a b p

  pub write_fields-Both :
      (ser : Writes) (h : Heap) (ob : Obj) (n i : ℕ) (first : Bool) (a b : Writer)
      → Alike ser
      → Pair a b
      → Both (write_fields ser h ob n i first a) (write_fields ser h ob n i first b)
  unfolding write_fields
  write_fields-Both ser h ob zero i first a b alike p = both_some p
  write_fields-Both ser h ob (suc n) i first a b alike p =
      elim (Option-cases (get_elem? ob.slots i)) [
        | inl out ↦ rw (write_fields, out) both_none
        | inr (x, there) ↦ elim (Bool-cases (is_gap x)) [
          | inl gap ↦
              rw (write_fields, there)
                (rw gap (write_fields-Both ser h ob n (suc i) first a b alike p))
          | inr value ↦
              rw (write_fields, there)
                (rw value (
                  Both-then (λ w. write_fields ser h ob n (suc i) false w)
                    (λ w. write_fields ser h ob n (suc i) false w)
                    (λ c d q. write_fields-Both ser h ob n (suc i) false c d alike q)
                    (write_field-Both ser (shape_get_key_at h.shapes.pool ob.shape i) x first alike
                      p)))
        ]
      ]

  Pair-item :
      (i : ℕ) {a b : Writer}
      → Pair a b
      → Pair (if ltb 0 i then write_char b',' a else a) (if ltb 0 i then write_char b',' b else b)
  Pair-item i p = elim (Bool-cases (ltb 0 i)) [
    | inl later ↦ rw later (Pair-write_char b',' p)
    | inr first ↦ rw first p
  ]

  write_item-Both :
      (ser : Writes) (i : ℕ) (x : Value) (a b : Writer)
      → Alike ser
      → Pair a b
      → Both (write_item ser i x a) (write_item ser i x b)
  unfolding write_item
  write_item-Both ser i x a b alike p =
      let q = Pair-item i p in
      elim (Bool-cases (is_gap x)) [
        | inl gap ↦ rw (write_item, gap) (both_some (Pair-write_str null_text q))
        | inr value ↦
            rw (write_item, value)
              (alike x (if ltb 0 i then write_char b',' a else a)
                (if ltb 0 i then write_char b',' b else b) q)
      ]

  pub write_items-Both :
      (ser : Writes) (items : List Value) (n i : ℕ) (a b : Writer)
      → Alike ser
      → Pair a b
      → Both (write_items ser items n i a) (write_items ser items n i b)
  unfolding write_items
  write_items-Both ser items zero i a b alike p = both_some p
  write_items-Both ser items (suc n) i a b alike p = elim (Option-cases (get_elem? items i)) [
    | inl out ↦ rw (write_items, out) both_none
    | inr (x, there) ↦
        rw (write_items, there)
          (Both-then (λ w. write_items ser items n (suc i) w)
            (λ w. write_items ser items n (suc i) w)
            (λ c d q. write_items-Both ser items n (suc i) c d alike q)
            (write_item-Both ser i x a b alike p))
  ]
