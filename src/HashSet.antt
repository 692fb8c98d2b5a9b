-- ===== src/HashSet.antt =====
-- src/comm/struct/set.c and set.h: the open-addressing set of keys, `set_t`.
pub mod Members
pub mod Probes
pub mod Inserts
use jsonv.Base.{
  ℕ, zero, suc, ◌+◌, ◌-◌, ◌*◌, ◌%◌, ◌/◌, ◌^◌, Bool, true, false, ◌&&◌, List, [], ◌∷◌, ◌==◌, leb,
  ltb, Option, none, some, length, get_or, set, take, bit_and, bit_or, bit_xor, if◌then◌else◌,
}
use jsonv.Token.{Bytes}

abbrev pub max_key_len : ℕ
max_key_len = 64

-- The codes that set_insert returns.
pub data InsertResult : Type 0 where
  key_is_uniq table_is_full key_already_exist key_too_long : InsertResult

-- `entry_t`; `key` holds the `len` bytes that were copied.
pub record Entry : Type 0 where
  pub used : Bool
  pub len : ℕ
  pub key : Bytes

-- `set_t`; `__entries` has `capacity` slots.
pub record HashSet : Type 0 where
  pub capacity : ℕ
  pub length : ℕ
  pub entries : List Entry

abbrev pub empty_entry : Entry
empty_entry = record { used = false; len = 0; key = [] }

-- A shift to the right, OR'ed in.
abbrev pub smear : ℕ → ℕ → ℕ
smear k n = bit_or n (n / 2 ^ k)

-- All bits below the highest one, set.
abbrev pub smear_all : ℕ → ℕ
smear_all n = smear 32 (smear 16 (smear 8 (smear 4 (smear 2 (smear 1 n)))))

unfoldable pub floor_power_of_two : ℕ → ℕ
floor_power_of_two n = if n == 0 then 0 else let m = smear_all n in m - m / 2

-- `capacity++` wraps on a 64-bit size_t.
unfoldable pub set_next_power_of_two : ℕ → ℕ
set_next_power_of_two capacity =
    if capacity == 0 then 1 else (smear_all (capacity - 1) + 1) % 2 ^ 64

-- FNV-1a over 32 bits
unfoldable pub hash_from : ℕ → Bytes → ℕ
hash_from h [] = h
hash_from h (c ∷ s) = hash_from (bit_xor h c * 16777619 % 2 ^ 32) s

unfoldable pub hash_str : Bytes → ℕ
hash_str s = hash_from 2166136261 s

-- `memcmp(a, b, n) == 0` on keys of one length
unfoldable pub bytes_equal : Bytes → Bytes → Bool
bytes_equal [] [] = true
bytes_equal (x ∷ a) (y ∷ b) = x == y && bytes_equal a b
bytes_equal _ _ = false

-- `memset(entries, 0, sizeof(entry_t) * n)`
unfoldable pub clear_entries : ℕ → List Entry → List Entry
clear_entries zero entries = entries
clear_entries (suc n) [] = []
clear_entries (suc n) (e ∷ entries) = empty_entry ∷ clear_entries n entries

-- On the caller's array, of which the set has the first slots; none where memset writes behind its end.
unfoldable pub set_init : List Entry → ℕ → Option HashSet
set_init entries capacity =
    let p = floor_power_of_two capacity in
    if ltb (length entries) p
    then none
    else some (record { capacity = p; length = 0; entries = take p (clear_entries p entries) })

-- `e->len == len && memcmp(e->key, key, len) == 0`
abbrev pub same_key : Entry → Bytes → Bool
same_key e key = e.len == length key && bytes_equal e.key key

abbrev pub next_index : ℕ → ℕ → ℕ
next_index capacity idx = if leb capacity (idx + 1) then 0 else idx + 1

abbrev pub filled_entry : Bytes → Entry
filled_entry key = record { used = true; len = length key; key = key }

-- The probe loop, with the number of probes left.
unfoldable pub probe : ℕ → ℕ → Bytes → HashSet → InsertResult × HashSet
probe zero idx key s = (table_is_full, s)
probe (suc left) idx key s =
    let e = get_or s.entries idx empty_entry in
    elim e.used [
      | false ↦ (
        key_is_uniq,
        record s { length = s.length + 1; entries = set s.entries idx (filled_entry key) },
      )
      | true ↦ elim (same_key e key) [
        | true ↦ (key_already_exist, s)
        | false ↦ probe left (next_index s.capacity idx) key s
      ]
    ]

-- The index at which the probes begin: `capacity` is a power of two.
unfoldable pub home : ℕ → Bytes → ℕ
home capacity key = bit_and (hash_str key) (capacity - 1)

unfoldable pub set_insert : HashSet → Bytes → InsertResult × HashSet
set_insert s key =
    if ltb max_key_len (length key)
    then (key_too_long, s)
    else if s.capacity == 0
    then (table_is_full, s)
    else probe s.capacity (home s.capacity key) key s

-- `memset(set, 0, sizeof(T))`
unfoldable pub set_clear : HashSet → HashSet
set_clear s = record { capacity = 0; length = 0; entries = [] }
