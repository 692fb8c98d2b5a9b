-- ===== src/Serialize/Total.antt =====
-- serialize_val of src/shape/serialize.c ends without a fault on a heap whose pointers lead somewhere.
use jsonv.Base.{
  ℕ, zero, suc, ◌+◌, ◌≤◌, ◌<◌, ◌≡◌, refl, ap, ◌∙◌, ℤ, Bool, true, false, Option, none, some, List,
  [], ◌∷◌, arith, inl, inr, ltb, ◌==◌, length, get_elem?, if◌then◌else◌, Bool-cases, length-map,
}
use jsonv.Token.{Bytes}
use jsonv.Shape.{shape_get_slot_count, shape_get_key_at, shape_at}
use jsonv.Shape.Chains.{key_in, shape_get_key_at-key_in, slot_count-length}
use jsonv.Value.{
  Value, val_undefined, val_int, val_ptr, val_double, val_obj, val_arr, val_null, val_bool, val_str,
  val_unresolvable, val_impossible, val_bignum, Obj, Heap, obj_at, arr_at,
}
use jsonv.Obj.Fields.{Fields, names, HasFields}
use jsonv.Obj.Slots.{get_elem?-some}
use jsonv.Arr.Elements.{HasElements}
use jsonv.Arr.Sets.{length-items}
use jsonv.Serialize.{
  Writer, Visit, object, array, visited_contains, write_char, write_str, write_escaped_str, is_gap,
  null_text, fail, Writes, write_field, write_fields, write_item, write_items, write_object,
  write_array, write_value, serialize_val, serialize_fuel, finish, serialize,
}
use jsonv.Serialize.Contract.{serialize_val-error, serialize_val-clean}
use jsonv.Serialize.Visits.{free, free-object, free-array, free-le}

-- A pointer to an object or an array leads to one, or is NULL.
abbrev pub Leads : Heap → Value → Type 0
Leads h (val_obj (some o)) = o < length h.objs
Leads h (val_arr (some a)) = a < length h.arrs
Leads h _ = Unit {0}

-- Every object has fields, every array elements, and every pointer in them leads somewhere.
pub record IsClosed (h : Heap) : Type 0 where
  pub objects : (o : ℕ) → o < length h.objs → (fs : Fields) × HasFields h o fs
  pub slots : (o i : ℕ) (x : Value) → get_elem? (obj_at h o).slots i ≡ some x → Leads h x
  pub arrays : (a : ℕ) → a < length h.arrs → (xs : List Value) × HasElements h a xs
  pub items : (a i : ℕ) (x : Value) → get_elem? (arr_at h a).items i ≡ some x → Leads h x

abbrev pub Returns : Option Writer → Type 0
Returns r = (w : Writer) × (r ≡ some w)

-- Nested values that lead somewhere are written without a fault.
abbrev Serves : Heap → Writes → Type 0
Serves h ser = (x : Value) (w : Writer) → Leads h x → Returns (ser x w)

key_in-some : (ks : List Bytes) (slot : ℕ) → (k : Bytes) × (key_in ks slot ≡ some k)
unfolding key_in
key_in-some [] slot = (b'?' ∷ [], refl)
key_in-some (k ∷ ks) slot =
    let (more, e) = key_in-some ks slot in
    elim (Bool-cases (length ks == slot)) [
      | inl here ↦ (k, rw here)
      | inr there ↦ (more, rw there e)
    ]

module _ (h : Heap) (ser : Writes) (serves : Serves h ser) where
  write_fields-Returns :
      (ob : Obj) (n i : ℕ) (first : Bool) (w : Writer)
      → n + i ≤ length ob.slots
      → ((i : ℕ) (x : Value) → get_elem? ob.slots i ≡ some x → Leads h x)
      → ((i : ℕ) → (k : Bytes) × (shape_get_key_at h.shapes.pool ob.shape i ≡ some k))
      → Returns (write_fields ser h ob n i first w)
  unfolding write_fields write_field
  write_fields-Returns ob zero i first w b leads keys = (w, refl)
  write_fields-Returns ob (suc n) i first w b leads keys =
      let (x, there) = get_elem?-some ob.slots i (omega arith) in
      elim (Bool-cases (is_gap x)) [
        | inl gap ↦
            let (r, e) = write_fields-Returns ob n (suc i) first w (omega arith) leads keys in
            (r, rw (write_fields, there) (rw gap e))
        | inr value ↦
            let (k, key) = keys i in
            let w₁ =
              write_char b':' (write_escaped_str k (if first then w else write_char b',' w)) in
            let (w₂, written) = serves x w₁ (leads i x there) in
            let (r, e) = write_fields-Returns ob n (suc i) false w₂ (omega arith) leads keys in
            (r, rw (write_fields, there) (rw value (rw key (rw written e))))
      ]

  write_items-Returns :
      (items : List Value) (n i : ℕ) (w : Writer)
      → n + i ≤ length items
      → ((i : ℕ) (x : Value) → get_elem? items i ≡ some x → Leads h x)
      → Returns (write_items ser items n i w)
  unfolding write_items write_item
  write_items-Returns items zero i w b leads = (w, refl)
  write_items-Returns items (suc n) i w b leads =
      let (x, there) = get_elem?-some items i (omega arith) in
      let w₁ = if ltb 0 i then write_char b',' w else w in
      elim (Bool-cases (is_gap x)) [
        | inl gap ↦
            let (r, e) =
              write_items-Returns items n (suc i) (write_str null_text w₁) (omega arith) leads in
            (r, rw (write_items, there) (rw (write_item, gap) e))
        | inr value ↦
            let (w₂, written) = serves x w₁ (leads i x there) in
            let (r, e) = write_items-Returns items n (suc i) w₂ (omega arith) leads in
            (r, rw (write_items, there) (rw (write_item, value) (rw written e)))
      ]

  write_object_steps :
      (ob : Obj) (s n : ℕ) (w r : Writer)
      → ob.shape ≡ some s
      → (shape_at h.shapes.pool s).slot_count ≡ n
      → write_fields ser h ob n 0 true (write_char b'{' w) ≡ some r
      → write_object ser h ob w ≡ some (write_char b'}' r)
  unfolding write_object shape_get_slot_count
  write_object_steps ob s n w r shaped count e = rw (write_object, shaped) (rw (count, e))

  write_object-Returns :
      IsClosed h
      → (o : ℕ) (w : Writer) → o < length h.objs
      → Returns (write_object ser h (obj_at h o) w)
  write_object-Returns closed o w b =
      let (fs, f) = closed.objects o b in
      let room = f.room in
      let size = f.size in
      let count : (shape_at h.shapes.pool f.shape_of).slot_count ≡ length fs =
        slot_count-length f.keys ∙ length-map fs (λ x. x.0) in
      let shaped = f.shaped in
      let (r, e) =
        write_fields-Returns (obj_at h o) (length fs) 0 true (write_char b'{' w) (omega arith)
          (closed.slots o)
          (λ i.
            let (k, found) = key_in-some (names fs) i in
            (
              k,
              ap (λ s. shape_get_key_at h.shapes.pool s i) shaped
                  ∙ shape_get_key_at-key_in i f.keys
                  ∙ found,
            )) in
      (write_char b'}' r, write_object_steps (obj_at h o) f.shape_of (length fs) w r shaped count e)

  write_array-Returns :
      IsClosed h
      → (a : ℕ) (w : Writer) → a < length h.arrs
      → Returns (write_array ser (arr_at h a) w)
  unfolding write_array
  write_array-Returns closed a w b =
      let (xs, f) = closed.arrays a b in
      let room = f.room in
      let long = f.long in
      let (r, e) =
        write_items-Returns (arr_at h a).items (arr_at h a).length 0 (write_char b'[' w)
          (omega (arith, length-items f)) (closed.items a) in
      (write_char b']' r, rw (write_array, e))

module _ (print_double : ℕ → Bytes) (h : Heap) (closed : IsClosed h) where
  write_value-Returns :
      (ser : List Visit → Writes) (vs : List Visit) (x : Value) (w : Writer)
      → ((o : ℕ)
          → o < length h.objs
          → visited_contains vs (object o) ≡ false
          → Serves h (ser (object o ∷ vs)))
      → ((a : ℕ)
          → a < length h.arrs
          → visited_contains vs (array a) ≡ false
          → Serves h (ser (array a ∷ vs)))
      → Leads h x
      → Returns (write_value print_double ser h vs x w)
  unfolding write_value
  write_value-Returns ser vs (val_obj (some o)) w objs arrs l =
      elim (Bool-cases (visited_contains vs (object o))) [
        | inl cycle ↦ (fail w, rw (write_value, cycle))
        | inr new ↦
            rw (write_value, new)
              (write_object-Returns h (ser (object o ∷ vs)) (objs o l new) closed o w l)
      ]
  write_value-Returns ser vs (val_arr (some a)) w objs arrs l =
      elim (Bool-cases (visited_contains vs (array a))) [
        | inl cycle ↦ (fail w, rw (write_value, cycle))
        | inr new ↦
            rw (write_value, new)
              (write_array-Returns h (ser (array a ∷ vs)) (arrs a l new) closed a w l)
      ]
  write_value-Returns ser vs (val_obj none) w objs arrs l = (_, refl)
  write_value-Returns ser vs (val_arr none) w objs arrs l = (_, refl)
  write_value-Returns ser vs val_undefined w objs arrs l = (_, refl)
  write_value-Returns ser vs (val_int n) w objs arrs l = (_, refl)
  write_value-Returns ser vs (val_ptr n) w objs arrs l = (_, refl)
  write_value-Returns ser vs (val_double n) w objs arrs l = (_, refl)
  write_value-Returns ser vs val_null w objs arrs l = (_, refl)
  write_value-Returns ser vs (val_bool b) w objs arrs l = (_, refl)
  write_value-Returns ser vs (val_str none) w objs arrs l = (_, refl)
  write_value-Returns ser vs (val_str (some s)) w objs arrs l = (_, refl)
  write_value-Returns ser vs val_unresolvable w objs arrs l = (_, refl)
  write_value-Returns ser vs val_impossible w objs arrs l = (_, refl)
  write_value-Returns ser vs (val_bignum none) w objs arrs l = (_, refl)
  write_value-Returns ser vs (val_bignum (some s)) w objs arrs l = (_, refl)

  pub serialize_val-Returns :
      (f : ℕ) (vs : List Visit) (x : Value) (w : Writer)
      → free h vs < f
      → Leads h x
      → Returns (serialize_val print_double f h vs x w)
  unfolding serialize_val
  serialize_val-Returns zero vs x w b l = elim b [ ]
  serialize_val-Returns (suc f) vs x w b l = elim (Bool-cases w.error) [
    | inl bad ↦ (w, serialize_val-error print_double f h vs x w bad)
    | inr good ↦ rw (serialize_val-clean print_double f h vs x w good) (
        write_value-Returns (λ ws y. serialize_val print_double f h ws y) vs x w
          (λ o in_range new y v k.
            serialize_val-Returns f (object o ∷ vs) y v
              (omega (arith, free-object h vs o in_range new)) k)
          (λ a in_range new y v k.
            serialize_val-Returns f (array a ∷ vs) y v
              (omega (arith, free-array h vs a in_range new)) k)
          l)
  ]

  -- On a closed heap, jsonv_serialize of a value that leads somewhere returns, for every buffer: a cycle of
  -- objects and arrays is found before the nesting passes their number.
  pub serialize_total :
      (x : Value) (buf : Option (ℕ → ℕ)) (buf_sz : ℕ)
      → Leads h x
      → (r : ℤ × Option (ℕ → ℕ)) × (serialize print_double h x buf buf_sz ≡ some r)
  unfolding serialize
  serialize_total x buf buf_sz l =
      let w : Writer = record { buf = buf; buf_sz = buf_sz; written = 0; error = false } in
      let (r, e) =
        serialize_val-Returns (serialize_fuel h) [] x w (omega (arith, free-le h [])) l in
      (finish r, rw (serialize, e))
