-- ===== src/Serialize.antt =====
-- src/shape/serialize.c: values as JSON text. The buffer is what stands from its address on, by offset, and
-- NULL is `none`; how snprintf prints a double is a parameter. A result of `none` is a fault as in Value,
-- or that the fuel ran out.
pub mod Strings
pub mod Reads
pub mod Writes
pub mod Buffers
pub mod Contract
pub mod Visits
pub mod Total
pub mod Lengths
use jsonv.Base.{
  ℕ, zero, suc, ◌+◌, ◌-◌, ◌*◌, ◌/◌, ◌%◌, ◌^◌, ℤ, pos, negsuc, Bool, true, false, ◌&&◌, Option, none,
  some, List, [], ◌∷◌, ◌++◌, ◌==◌, leb, ltb, length, get_elem?, if◌then◌else◌,
}
use jsonv.Token.{Bytes}
use jsonv.Arena.{sub_wrapped}
use jsonv.Parser.Build.{print_index}
use jsonv.Shape.{shape_get_slot_count, shape_get_key_at}
use jsonv.Value.{
  Value, val_undefined, val_int, val_ptr, val_double, val_obj, val_arr, val_null, val_bool, val_str,
  val_unresolvable, val_impossible, val_bignum, Obj, Arr, Heap, obj_at, arr_at,
}

-- `JsonWriter`
pub record Writer : Type 0 where
  pub buf : Option (ℕ → ℕ)
  pub buf_sz : ℕ
  pub written : ℕ
  pub error : Bool

-- A pointer on the list of those visited.
pub data Visit : Type 0 where
  object array : ℕ → Visit

abbrev pub same_visit : Visit → Visit → Bool
same_visit (object a) (object b) = a == b
same_visit (array a) (array b) = a == b
same_visit _ _ = false

unfoldable pub visited_contains : List Visit → Visit → Bool
visited_contains [] p = false
visited_contains (v ∷ vs) p = if same_visit v p then true else visited_contains vs p

abbrev pub store_at : ℕ → ℕ → (ℕ → ℕ) → ℕ → ℕ
store_at i c memory j = if j == i then c else memory j

abbrev pub store_char : ℕ → Writer → Option (ℕ → ℕ)
store_char c w = elim w.buf [
  | none ↦ none
  | some memory ↦
      if ltb w.written (sub_wrapped w.buf_sz 1)
      then some (store_at w.written c memory)
      else some memory
]

unfoldable pub write_char : ℕ → Writer → Writer
write_char c w = if w.error then w else record w { buf = store_char c w; written = w.written + 1 }

-- The test for an error is made again for each character.
unfoldable pub write_str : Bytes → Writer → Writer
write_str [] w = w
write_str (c ∷ s) w = write_str s (write_char c w)

-- `%x` of a digit.
abbrev pub hex_digit : ℕ → ℕ
hex_digit d = if ltb d 10 then b'0' + d else b'a' + (d - 10)

-- What stands for a byte; `\u%04x` of a byte has two zeros first.
unfoldable pub escape_char : ℕ → Bytes
escape_char c =
    if c == b'"'
    then b'\\' ∷ b'"' ∷ []
    else if c == b'\\'
    then b'\\' ∷ b'\\' ∷ []
    else if c == 10
    then b'\\' ∷ b'n' ∷ []
    else if c == 13
    then b'\\' ∷ b'r' ∷ []
    else if c == 9
    then b'\\' ∷ b't' ∷ []
    else if c == 8
    then b'\\' ∷ b'b' ∷ []
    else if c == 12
    then b'\\' ∷ b'f' ∷ []
    else if ltb c 0x20
    then b'\\' ∷ b'u' ∷ b'0' ∷ b'0' ∷ hex_digit (c / 16) ∷ hex_digit (c % 16) ∷ []
    else c ∷ []

unfoldable pub write_escaped : Bytes → Writer → Writer
write_escaped [] w = w
write_escaped (c ∷ s) w = write_escaped s (write_str (escape_char c) w)

unfoldable pub write_escaped_str : Bytes → Writer → Writer
write_escaped_str s w = write_char b'"' (write_escaped s (write_char b'"' w))

-- A value that an object leaves out, and an array shows as null.
unfoldable pub is_gap : Value → Bool
is_gap val_undefined = true
is_gap val_unresolvable = true
is_gap val_impossible = true
is_gap _ = false

abbrev pub null_text : Bytes
null_text = b'n' ∷ b'u' ∷ b'l' ∷ b'l' ∷ []

abbrev pub true_text : Bytes
true_text = b't' ∷ b'r' ∷ b'u' ∷ b'e' ∷ []

abbrev pub false_text : Bytes
false_text = b'f' ∷ b'a' ∷ b'l' ∷ b's' ∷ b'e' ∷ []

-- `%lld`
unfoldable pub int_text : ℤ → Bytes
int_text (pos n) = print_index n
int_text (negsuc n) = b'-' ∷ print_index (n + 1)

-- Not a number, or infinite: all eleven bits of the exponent are set.
unfoldable pub is_special : ℕ → Bool
is_special bits = bits / 2 ^ 52 % 2 ^ 11 == 2 ^ 11 - 1

abbrev pub fail : Writer → Writer
fail w = record w { error = true }

-- How a nested value is written.
abbrev pub Writes : Type 0
Writes = Value → Writer → Option Writer

-- One slot of an object; `first` says that nothing was written yet.
unfoldable pub write_field : Writes → Option Bytes → Value → Bool → Writer → Option Writer
write_field ser none v first w = none
write_field ser (some key) v first w =
    let w₁ = if first then w else write_char b',' w in
    ser v (write_char b':' (write_escaped_str key w₁))

-- What is left of an object from slot i on.
unfoldable pub write_fields : Writes → Heap → Obj → ℕ → ℕ → Bool → Writer → Option Writer
write_fields ser h ob zero i first w = some w
write_fields ser h ob (suc n) i first w = elim (get_elem? ob.slots i) [
  | none ↦ none
  | some v ↦ elim (is_gap v) [
    | true ↦ write_fields ser h ob n (suc i) first w
    | false ↦ elim (write_field ser (shape_get_key_at h.shapes.pool ob.shape i) v first w) [
      | none ↦ none
      | some next ↦ write_fields ser h ob n (suc i) false next
    ]
  ]
]

-- One item of an array.
unfoldable pub write_item : Writes → ℕ → Value → Writer → Option Writer
write_item ser i v w =
    let w₁ = if ltb 0 i then write_char b',' w else w in
    if is_gap v then some (write_str null_text w₁) else ser v w₁

unfoldable pub write_items : Writes → List Value → ℕ → ℕ → Writer → Option Writer
write_items ser items zero i w = some w
write_items ser items (suc n) i w = elim (get_elem? items i) [
  | none ↦ none
  | some v ↦ elim (write_item ser i v w) [
    | none ↦ none
    | some next ↦ write_items ser items n (suc i) next
  ]
]

abbrev pub close {ℓ} : {A : Type ℓ} → (A → A) → Option A → Option A
close f none = none
close f (some w) = some (f w)

-- `o->shape` is NULL only for an object that was made without memory for the root.
unfoldable pub write_object : Writes → Heap → Obj → Writer → Option Writer
write_object ser h ob w = elim ob.shape [
  | none ↦ none
  | some s ↦ close (write_char b'}') (
      write_fields ser h ob (shape_get_slot_count h.shapes.pool (some s)) 0 true
        (write_char b'{' w))
]

unfoldable pub write_array : Writes → Arr → Writer → Option Writer
write_array ser r w =
    close (write_char b']') (write_items ser r.items r.length 0 (write_char b'[' w))

-- Each level of nesting visits one object or array more.
abbrev pub serialize_fuel : Heap → ℕ
serialize_fuel h = suc (length h.objs + length h.arrs)

abbrev pub nul_index : Writer → ℕ
nul_index w = if ltb w.written w.buf_sz then w.written else w.buf_sz - 1

abbrev pub terminate : Writer → Option (ℕ → ℕ)
terminate w = elim w.buf [
  | none ↦ none
  | some memory ↦ if ltb 0 w.buf_sz then some (store_at (nul_index w) 0 memory) else some memory
]

-- A size_t as an int of 32 bits.
abbrev pub to_int : ℕ → ℤ
to_int n = let low = n % 2 ^ 32 in if ltb low (2 ^ 31) then pos low else negsuc (2 ^ 32 - 1 - low)

-- The result of the call and the buffer after it.
abbrev pub finish : Writer → ℤ × Option (ℕ → ℕ)
finish w = if w.error then (negsuc 0, w.buf) else (to_int w.written, terminate w)

module _ (print_double : ℕ → Bytes) where
  -- The switch on the tag; `ser` writes a nested value with a longer list of those visited.
  unfoldable pub write_value :
      (List Visit → Writes) → Heap → List Visit → Value → Writer → Option Writer
  write_value ser h visited val_null w = some (write_str null_text w)
  write_value ser h visited (val_bool b) w =
      some (write_str (if b then true_text else false_text) w)
  write_value ser h visited (val_int n) w = some (write_str (int_text n) w)
  write_value ser h visited (val_double bits) w =
      some (if is_special bits then fail w else write_str (print_double bits) w)
  write_value ser h visited (val_bignum (some s)) w = some (write_str s w)
  write_value ser h visited (val_bignum none) w = some (write_str (b'0' ∷ []) w)
  write_value ser h visited (val_str (some s)) w = some (write_escaped_str s w)
  write_value ser h visited (val_str none) w = some (write_escaped_str [] w)
  write_value ser h visited (val_obj none) w = some (write_str null_text w)
  write_value ser h visited (val_obj (some o)) w =
      if visited_contains visited (object o)
      then some (fail w)
      else write_object (ser (object o ∷ visited)) h (obj_at h o) w
  write_value ser h visited (val_arr none) w = some (write_str null_text w)
  write_value ser h visited (val_arr (some a)) w =
      if visited_contains visited (array a)
      then some (fail w)
      else write_array (ser (array a ∷ visited)) (arr_at h a) w
  write_value ser h visited _ w = some (fail w)

  unfoldable pub serialize_val : ℕ → Heap → List Visit → Value → Writer → Option Writer
  serialize_val zero h visited v w = none
  serialize_val (suc f) h visited v w =
      if w.error then some w else write_value (λ vs x. serialize_val f h vs x) h visited v w

  unfoldable pub serialize : Heap → Value → Option (ℕ → ℕ) → ℕ → Option (ℤ × Option (ℕ → ℕ))
  serialize h v buf buf_sz =
      let w : Writer = record { buf = buf; buf_sz = buf_sz; written = 0; error = false } in
      elim (serialize_val (serialize_fuel h) h [] v w) [ none ↦ none | some r ↦ some (finish r) ]
