-- ===== src/Tests/ShapeWitnesses.antt =====
-- The theorems on src/shape at the heap of ShapeExamples.
use jsonv.Base.{
  ℕ, ◌≤◌, ◌<◌, ◌≡◌, ◌≢◌, ◌⊎◌, refl, ℤ, pos, negsuc, Bool, true, false, Option, none, some, List, [],
  ◌∷◌, ◌++◌, arith, get_elem?, ltb, length, if◌then◌else◌,
}
use jsonv.Token.{Bytes, text}
use jsonv.HashSet.{bytes_equal}
use jsonv.Lexer.Strings.{parse_string}
use jsonv.Lexer.Strings.Complete.{at, string_at}
use jsonv.Unescape.{unescape_string}
use jsonv.Value.{arr_at, Value, val_undefined, val_int, val_obj, val_arr, Heap}
use jsonv.Obj.{obj_set, obj_length, obj_key_at, obj_val_at}
use jsonv.Obj.Fields.{find_value, put}
use jsonv.Obj.Sets.{WasSet, obj_set-put}
use jsonv.Obj.News.{IsHeap, obj_set-IsHeap}
use jsonv.Obj.Laws.{obj_key_at-field_at, field_at}
use jsonv.Arr.{arr_extend, arr_set, arr_get, found, absent}
use jsonv.Arr.Laws.{arr_get-arr_set, arr_set-out_of_memory}
use jsonv.Path.{Arg, key, index, value_get_path}
use jsonv.Path.Walks.{Walk, here, by_key, by_index, Stops, format, value_get_path_lem}
use jsonv.Serialize.{Writer, serialize, to_int, write_str, write_escaped_str}
use jsonv.Serialize.Strings.{escape}
use jsonv.Serialize.Reads.{empty, ascii, two, write_escaped_str_read}
use jsonv.Serialize.Total.{serialize_total}
use jsonv.Serialize.Lengths.{Target, null, into, HasText, HasFailed, serialize-HasText}
use jsonv.Tests.ShapeExamples.{
  key_a, key_b, small_heap, fields_a, small_pool-IsShapes, small_heap-HasFields,
  small_heap-HasElements, small_heap-IsHeap, small_heap-IsClosed,
}

obj_set-put_example :
    (later : Heap) × (obj_set
        (record { shape = true; link = true; slots = true })
        0
        (some key_b)
        (val_int (pos 3))
        small_heap
      ≡ some later)
    × WasSet 0 small_heap later (put key_b (val_int (pos 3)) fields_a)
obj_set-put_example =
    obj_set-put true 0 key_b (val_int (pos 3)) small_heap fields_a small_pool-IsShapes
      small_heap-HasFields (omega arith)

obj_set-IsHeap_example :
    (later : Heap) × (obj_set
        (record { shape = true; link = true; slots = true })
        0
        (some key_b)
        (val_int (pos 3))
        small_heap
      ≡ some later)
    × IsHeap later
obj_set-IsHeap_example =
    obj_set-IsHeap true 0 key_b (val_int (pos 3)) small_heap fields_a small_heap-IsHeap
      small_heap-HasFields (omega arith)

obj_key_at-field_at_example :
    (obj_length (some 0) small_heap ≡ 1)
    × (0 < 1
        → (k : Bytes) × (v : Value) × (field_at fields_a 0 ≡ some (k, v))
          × (obj_key_at (some 0) 0 small_heap ≡ some k)
          × (obj_val_at (some 0) 0 small_heap ≡ some v))
    × (1 ≤ 0
        → (obj_key_at (some 0) 0 small_heap ≡ none)
          × (obj_val_at (some 0) 0 small_heap ≡ some val_undefined))
obj_key_at-field_at_example = obj_key_at-field_at small_heap 0 fields_a 0 small_heap-HasFields

arr_get-arr_set_example :
    (later : Heap) × (arr_set true 0 (pos 5) (val_int (pos 9)) small_heap ≡ some later)
    × (arr_get 0 (pos 5) later ≡ found (val_int (pos 9)))
    × ((j : ℕ)
        → 5 ≢ j
        → arr_get 0 (pos j) later ≡ (
            if ltb j 1
            then arr_get 0 (pos j) small_heap
            else if ltb j 5
            then found val_undefined
            else absent))
    × ((n : ℕ)
        → (arr_get 0 (negsuc n) later ≡ absent)
          × (arr_set true 0 (negsuc n) (val_int (pos 9)) later ≡ some later))
arr_get-arr_set_example =
    arr_get-arr_set small_heap 0 5 (val_int (pos 9)) (val_int (pos 7) ∷ []) small_heap-HasElements
      (omega arith)

arr_set-out_of_memory_example :
    (later : Heap) × (arr_extend false 0 5 small_heap ≡ some later)
    × ((arr_at later 0).length ≡ 6)
    × ((arr_at later 0).items ≡ (arr_at small_heap 0).items)
    × (get_elem? (arr_at later 0).items 5 ≡ none)
    × (arr_set false 0 (pos 5) (val_int (pos 9)) small_heap ≡ none)
arr_set-out_of_memory_example =
    arr_set-out_of_memory small_heap 0 5 (val_int (pos 9)) (val_int (pos 7) ∷ [])
      small_heap-HasElements (omega arith) (omega arith)

Walk-small_heap :
    Walk small_heap (val_obj (some 0)) (key (some key_a) ∷ index (pos 0) ∷ []) (val_int (pos 7))
unfolding find_value bytes_equal
Walk-small_heap =
    by_key {k = key_a} {v = val_arr (some 0)} small_heap-HasFields refl
      (by_index {v = val_int (pos 7)} small_heap-HasElements refl here)

value_get_path_example :
    (value_get_path
        (format (key (some key_a) ∷ index (pos 0) ∷ []))
        (key (some key_a) ∷ index (pos 0) ∷ [])
        (val_obj (some 0))
        small_heap
      ≡ some (val_int (pos 7)))
    × ((rest : List Arg) (x : Value)
        → Stops small_heap (val_int (pos 7)) rest x
        → value_get_path
            (format (key (some key_a) ∷ index (pos 0) ∷ rest))
            (key (some key_a) ∷ index (pos 0) ∷ rest)
            (val_obj (some 0))
            small_heap
          ≡ some x)
value_get_path_example = value_get_path_lem Walk-small_heap

-- The text é"
abbrev quoted : Bytes
quoted = 0xC3 ∷ 0xA9 ∷ b'"' ∷ []

abbrev plain_writer : Writer
plain_writer = record { buf = none; buf_sz = 0; written = 0; error = false }

write_escaped_str_example :
    (write_escaped_str quoted plain_writer
      ≡ write_str (b'"' ∷ (escape quoted ++ (b'"' ∷ []))) plain_writer)
    × (g : Bool) × (parse_string
          (b'"' ∷ (escape quoted ++ (b'"' ∷ [])))
          (at (escape quoted ++ (b'"' ∷ [])) 1)
        ≡ string_at g (escape quoted) [] 1)
    × (unescape_string (text (string_at g (escape quoted) [] 1).0) ≡ quoted)
write_escaped_str_example =
    write_escaped_str_read quoted [] 1 plain_writer
      (two (omega arith) (omega arith) (ascii (omega arith) empty))

abbrev zeros : ℕ → ℕ
zeros j = 0

abbrev no_double : ℕ → Bytes
no_double bits = b'0' ∷ []

serialize_total_example :
    (r : ℤ × Option (ℕ → ℕ)) × (serialize no_double small_heap (val_obj (some 0)) (some zeros) 4
      ≡ some r)
serialize_total_example =
    serialize_total no_double small_heap small_heap-IsClosed (val_obj (some 0)) (some zeros) 4
      (omega arith)

abbrev four_bytes : Target
four_bytes = into zeros 4 (omega arith) (omega arith)

serialize-HasText_example :
    ((c : Option (ℕ → ℕ)) × (d : Option (ℕ → ℕ)) × (serialize no_double small_heap
          (val_obj (some 0))
          none
          0
        ≡ some (negsuc 0, c))
      × HasFailed null c
      × (serialize no_double small_heap (val_obj (some 0)) (some zeros) 4 ≡ some (negsuc 0, d))
      × HasFailed four_bytes d)
    ⊎ ((text : Bytes) × (c : Option (ℕ → ℕ)) × (d : Option (ℕ → ℕ)) × (serialize no_double
            small_heap
            (val_obj (some 0))
            none
            0
          ≡ some (to_int (length text), c))
        × HasText null text c
        × (serialize no_double small_heap (val_obj (some 0)) (some zeros) 4
            ≡ some (to_int (length text), d))
        × HasText four_bytes text d)
serialize-HasText_example =
    serialize-HasText no_double small_heap (val_obj (some 0)) null four_bytes small_heap-IsClosed
      (omega arith)
