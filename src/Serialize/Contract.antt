-- ===== src/Serialize/Contract.antt =====
-- The contract of jsonv_serialize in src/include/shape.h: the length it returns and what the buffer holds.
use jsonv.Base.{
  ℕ, zero, suc, ◌≡◌, ap, ◌∙◌, true, false, none, some, List, [], ◌∷◌, arith, inl, inr, Bool-cases,
  Option-cases,
}
use jsonv.Token.{Bytes}
use jsonv.Shape.{shape_get_slot_count}
use jsonv.Value.{
  Value, val_undefined, val_int, val_ptr, val_double, val_obj, val_arr, val_null, val_bool, val_str,
  val_unresolvable, val_impossible, val_bignum, Obj, Arr, Heap, obj_at, arr_at,
}
use jsonv.Serialize.{
  Writer, Visit, object, array, visited_contains, write_char, null_text, true_text, false_text,
  int_text, is_special, Writes, write_object, write_array, write_value, serialize_val,
}
use jsonv.Serialize.Buffers.{
  Pair, Both, both_none, both_some, Pair-write_char, Pair-write_str, Pair-write_escaped_str,
  Pair-fail, Both-close, Alike, write_fields-Both, write_items-Both,
}

module _ (print_double : ℕ → Bytes) where
  -- After an error nothing more is written.
  pub serialize_val-error :
      (f : ℕ) (h : Heap) (vs : List Visit) (x : Value) (w : Writer)
      → w.error ≡ true
      → serialize_val print_double (suc f) h vs x w ≡ some w
  unfolding serialize_val
  serialize_val-error f h vs x w e = ground arith

  pub serialize_val-clean :
      (f : ℕ) (h : Heap) (vs : List Visit) (x : Value) (w : Writer)
      → w.error ≡ false
      → serialize_val print_double (suc f) h vs x w
        ≡ write_value print_double (λ ws y. serialize_val print_double f h ws y) h vs x w
  unfolding serialize_val
  serialize_val-clean f h vs x w e = ground arith

module _ (print_double : ℕ → Bytes) (u v : Writer) (fresh_u : u.error ≡ false)
    (fresh_v : v.error ≡ false) where
  write_object-Both :
      (ser : Writes) (h : Heap) (ob : Obj) {a b : Writer}
      → Alike u v fresh_u fresh_v ser
      → Pair u v fresh_u fresh_v a b
      → Both u v fresh_u fresh_v (write_object ser h ob a) (write_object ser h ob b)
  unfolding write_object
  write_object-Both ser h ob {a = a} {b = b} alike p = elim (Option-cases ob.shape) [
    | inl null ↦ rw (write_object, null) (both_none)
    | inr (s, there) ↦
        rw (write_object, there)
          (Both-close u v fresh_u fresh_v b'}' (
            write_fields-Both u v fresh_u fresh_v ser h ob
              (shape_get_slot_count h.shapes.pool (some s)) 0 true (write_char b'{' a)
              (write_char b'{' b) alike (Pair-write_char u v fresh_u fresh_v b'{' p)))
  ]

  write_array-Both :
      (ser : Writes) (r : Arr) {a b : Writer}
      → Alike u v fresh_u fresh_v ser
      → Pair u v fresh_u fresh_v a b
      → Both u v fresh_u fresh_v (write_array ser r a) (write_array ser r b)
  unfolding write_array
  write_array-Both ser r {a = a} {b = b} alike p = Both-close u v fresh_u fresh_v b']' (
      write_items-Both u v fresh_u fresh_v ser r.items r.length 0 (write_char b'[' a)
        (write_char b'[' b) alike (Pair-write_char u v fresh_u fresh_v b'[' p))

  write_value-Both :
      (ser : List Visit → Writes) (h : Heap) (visited : List Visit) (x : Value) {a b : Writer}
      → ((vs : List Visit) → Alike u v fresh_u fresh_v (ser vs))
      → Pair u v fresh_u fresh_v a b
      → Both u v fresh_u fresh_v
          (write_value print_double ser h visited x a)
          (write_value print_double ser h visited x b)
  unfolding write_value
  write_value-Both ser h vs val_null alike p =
      both_some (Pair-write_str u v fresh_u fresh_v null_text p)
  write_value-Both ser h vs (val_bool true) alike p =
      both_some (Pair-write_str u v fresh_u fresh_v true_text p)
  write_value-Both ser h vs (val_bool false) alike p =
      both_some (Pair-write_str u v fresh_u fresh_v false_text p)
  write_value-Both ser h vs (val_int n) alike p =
      both_some (Pair-write_str u v fresh_u fresh_v (int_text n) p)
  write_value-Both ser h vs (val_double bits) alike p = elim (Bool-cases (is_special bits)) [
    | inl special ↦ rw (write_value, special) (both_some (Pair-fail u v fresh_u fresh_v p))
    | inr finite ↦
        rw (write_value, finite)
          (both_some (Pair-write_str u v fresh_u fresh_v (print_double bits) p))
  ]
  write_value-Both ser h vs (val_bignum (some s)) alike p =
      both_some (Pair-write_str u v fresh_u fresh_v s p)
  write_value-Both ser h vs (val_bignum none) alike p =
      both_some (Pair-write_str u v fresh_u fresh_v (b'0' ∷ []) p)
  write_value-Both ser h vs (val_str (some s)) alike p =
      both_some (Pair-write_escaped_str u v fresh_u fresh_v s p)
  write_value-Both ser h vs (val_str none) alike p =
      both_some (Pair-write_escaped_str u v fresh_u fresh_v [] p)
  write_value-Both ser h vs (val_obj none) alike p =
      both_some (Pair-write_str u v fresh_u fresh_v null_text p)
  write_value-Both ser h vs (val_obj (some o)) alike p =
      elim (Bool-cases (visited_contains vs (object o))) [
        | inl cycle ↦ rw (write_value, cycle) (both_some (Pair-fail u v fresh_u fresh_v p))
        | inr new ↦
            rw (write_value, new)
              (write_object-Both (ser (object o ∷ vs)) h (obj_at h o) (alike (object o ∷ vs)) p)
      ]
  write_value-Both ser h vs (val_arr none) alike p =
      both_some (Pair-write_str u v fresh_u fresh_v null_text p)
  write_value-Both ser h vs (val_arr (some a)) alike p =
      elim (Bool-cases (visited_contains vs (array a))) [
        | inl cycle ↦ rw (write_value, cycle) (both_some (Pair-fail u v fresh_u fresh_v p))
        | inr new ↦
            rw (write_value, new)
              (write_array-Both (ser (array a ∷ vs)) (arr_at h a) (alike (array a ∷ vs)) p)
      ]
  write_value-Both ser h vs val_undefined alike p = both_some (Pair-fail u v fresh_u fresh_v p)
  write_value-Both ser h vs (val_ptr n) alike p = both_some (Pair-fail u v fresh_u fresh_v p)
  write_value-Both ser h vs val_unresolvable alike p = both_some (Pair-fail u v fresh_u fresh_v p)
  write_value-Both ser h vs val_impossible alike p = both_some (Pair-fail u v fresh_u fresh_v p)

  pub serialize_val-Both :
      (f : ℕ) (h : Heap) (vs : List Visit) (x : Value) (a b : Writer)
      → Pair u v fresh_u fresh_v a b
      → Both u v fresh_u fresh_v
          (serialize_val print_double f h vs x a)
          (serialize_val print_double f h vs x b)
  unfolding serialize_val
  serialize_val-Both zero h vs x a b p = both_none
  serialize_val-Both (suc f) h vs x a b p =
      let left : a.error ≡ p.bad = ap (λ w. w.error) p.left in
      let right : b.error ≡ p.bad = ap (λ w. w.error) p.right in
      elim (Bool-cases p.bad) [
        | inl bad ↦
            let l : a.error ≡ true = left ∙ bad in
            let r : b.error ≡ true = right ∙ bad in
            rw
              (
                serialize_val-error print_double f h vs x a l,
                serialize_val-error print_double f h vs x b r,
              )
              (both_some p)
        | inr good ↦
            let l : a.error ≡ false = left ∙ good in
            let r : b.error ≡ false = right ∙ good in
            rw
              (
                serialize_val-clean print_double f h vs x a l,
                serialize_val-clean print_double f h vs x b r,
              )
              (write_value-Both (λ ws y. serialize_val print_double f h ws y) h vs x
                (λ ws y c d q. serialize_val-Both f h ws y c d q) p)
      ]
