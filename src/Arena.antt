-- ===== src/Arena.antt =====
-- src/comm/struct/arena.c: the arena on its own memory, without the operations of a custom one. Its
-- list of blocks is taken at `current`: the blocks before it, the nearest first, and those behind it.
-- A pointer is its offset in the data of `current`; that ALLOC succeeds is a parameter.
pub mod Bounds
pub mod Lifetime
pub mod Raises
use jsonv.Base.{
  ℕ, ◌+◌, ◌-◌, ◌*◌, ◌/◌, ◌%◌, ◌^◌, Bool, true, false, ◌&&◌, Option, none, some, List, [], ◌∷◌, ◌==◌,
  leb, ltb, if◌then◌else◌,
}

-- `Jsonv_Arena_Error`
pub data ArenaError : Type 0 where
  arena_ok err_alloc err_limit_reached err_overflow err_invalid_arg : ArenaError

-- `Jsonv_ArenaBlock`, without its data
pub record ArenaBlock : Type 0 where
  pub capacity : ℕ
  pub used : ℕ

pub record Arena : Type 0 where
  pub earlier : List ArenaBlock
  pub current : ArenaBlock
  pub later : List ArenaBlock
  pub default_block_size : ℕ
  pub max_limit : ℕ
  pub shrink_at : ℕ
  pub total_reserved : ℕ

abbrev pub size_max : ℕ
size_max = 2 ^ 64 - 1

-- `sizeof(Jsonv_ArenaBlock)` with 64-bit pointers: three words, and the data aligned to 16.
abbrev pub block_header : ℕ
block_header = 32

-- `a - b` on size_t, for a and b below 2^64
abbrev pub sub_wrapped : ℕ → ℕ → ℕ
sub_wrapped a b = (a + 2 ^ 64 - b) % 2 ^ 64

-- `& ~15` clears the low four bits.
unfoldable pub align_up : ℕ → ℕ
align_up size = if ltb (size_max - 15) size then 0 else (size + 15) / 16 * 16

unfoldable pub arena_create_block : Bool → ℕ → Option ArenaBlock
arena_create_block alloc_succeeds capacity =
    if ltb (size_max - block_header) capacity
    then none
    else if alloc_succeeds
    then some (record { capacity = capacity; used = 0 })
    else none

-- The error and, without one, the arena; the two results of ALLOC are for the arena and its block.
unfoldable pub jsonv_arena_new : Bool → Bool → ℕ → ℕ → ℕ → ArenaError × Option Arena
jsonv_arena_new arena_succeeds block_succeeds default_block_size max_limit shrink_at =
    if arena_succeeds
    then if ltb (size_max - block_header) default_block_size
      then (err_overflow, none)
      else if ltb max_limit (block_header + default_block_size)
      then (err_limit_reached, none)
      else elim (arena_create_block block_succeeds default_block_size) [
        | none ↦ (err_alloc, none)
        | some block ↦ (
          arena_ok,
          some (record {
            earlier = [];
            current = block;
            later = [];
            default_block_size = default_block_size;
            max_limit = max_limit;
            shrink_at = shrink_at;
            total_reserved = block_header + default_block_size;
          }),
        )
      ]
    else (err_alloc, none)

abbrev pub Allocated : Type 0
Allocated = ArenaError × Option ℕ × Arena

-- 5. Advance, and overwrite `used`.
abbrev pub arena_advance : ℕ → ArenaBlock → List ArenaBlock → Arena → Arena
arena_advance aligned_size block rest a = record a {
  earlier = a.current ∷ a.earlier;
  current = record block { used = aligned_size };
  later = rest;
}

-- A new block in front of those behind `current`.
unfoldable pub arena_append : Bool → ℕ → ℕ → Arena → Allocated
arena_append alloc_succeeds aligned_size new_capacity a =
    elim (arena_create_block alloc_succeeds new_capacity) [
      | none ↦ (err_alloc, none, a)
      | some block ↦
          let reserved = (a.total_reserved + (block_header + new_capacity)) % 2 ^ 64 in
          (
            arena_ok,
            some 0,
            arena_advance aligned_size block a.later (record a { total_reserved = reserved }),
          )
    ]

-- 4. Recycle or create.
unfoldable pub arena_recycle : Bool → ℕ → ℕ → List ArenaBlock → Arena → Allocated
arena_recycle alloc_succeeds aligned_size new_capacity [] a =
    arena_append alloc_succeeds aligned_size new_capacity a
arena_recycle alloc_succeeds aligned_size new_capacity (next ∷ rest) a =
    if ltb next.capacity aligned_size
    then arena_append alloc_succeeds aligned_size new_capacity a
    else (arena_ok, some 0, arena_advance aligned_size next rest a)

abbrev pub block_capacity : ℕ → Arena → ℕ
block_capacity aligned_size a =
    if ltb a.default_block_size aligned_size then aligned_size else a.default_block_size

-- 2. and 3. A new block is needed: the limits.
unfoldable pub arena_grow : Bool → ℕ → Arena → Allocated
arena_grow alloc_succeeds aligned_size a =
    let new_capacity = block_capacity aligned_size a in
    if ltb (size_max - block_header) new_capacity
    then (err_overflow, none, a)
    else if ltb (sub_wrapped a.max_limit (block_header + new_capacity)) a.total_reserved
    then (err_limit_reached, none, a)
    else arena_recycle alloc_succeeds aligned_size new_capacity a.later a

abbrev pub has_room : ℕ → ArenaBlock → Bool
has_room n block = leb n block.capacity && leb block.used (block.capacity - n)

unfoldable pub jsonv_arena_alloc : Bool → ℕ → Arena → Allocated
jsonv_arena_alloc alloc_succeeds size a =
    let aligned_size = align_up size in
    if aligned_size == 0 && ltb 0 size
    then (err_overflow, none, a)
    else if has_room aligned_size a.current
    then (
      arena_ok,
      some a.current.used,
      record a { current = record a.current { used = a.current.used + aligned_size } },
    )
    else arena_grow alloc_succeeds aligned_size a

-- Back to the head: it, and the blocks behind it.
unfoldable pub rewind :
    List ArenaBlock → ArenaBlock → List ArenaBlock → ArenaBlock × List ArenaBlock
rewind [] block later = (block, later)
rewind (previous ∷ earlier) block later = rewind earlier previous (block ∷ later)

abbrev pub at_head : ℕ → ArenaBlock → List ArenaBlock → ℕ → Arena → Arena
at_head keep_size head rest reserved a =
    let aligned = align_up keep_size in
    record a {
      earlier = [];
      current = record head { used = if ltb head.capacity aligned then head.capacity else aligned };
      later = rest;
      total_reserved = reserved;
    }

unfoldable pub jsonv_arena_reset_to : ℕ → Arena → Arena
jsonv_arena_reset_to keep_size a =
    let (head, rest) = rewind a.earlier a.current a.later in
    if ltb a.shrink_at a.total_reserved
    then at_head keep_size head [] ((block_header + head.capacity) % 2 ^ 64) a
    else at_head keep_size head rest a.total_reserved a

unfoldable pub jsonv_arena_reset : Arena → Arena
jsonv_arena_reset a = jsonv_arena_reset_to 0 a

-- The getters. arena_get_max_limit returns the size of a block.
unfoldable pub arena_get_head : Arena → ArenaBlock
arena_get_head a = (rewind a.earlier a.current a.later).0

unfoldable pub arena_get_current : Arena → ArenaBlock
arena_get_current a = a.current

unfoldable pub arena_get_default_block_size : Arena → ℕ
arena_get_default_block_size a = a.default_block_size

unfoldable pub arena_get_max_limit : Arena → ℕ
arena_get_max_limit a = a.default_block_size

unfoldable pub arena_get_shrink_at : Arena → ℕ
arena_get_shrink_at a = a.shrink_at

unfoldable pub arena_get_total_reserved : Arena → ℕ
arena_get_total_reserved a = a.total_reserved

-- The exceptions that arena_new and arena_alloc raise for an error.
pub data ArenaFault : Type 0 where
  mem_failed arena_overflow arena_limit_reached arena_invalid_arg : ArenaFault

-- The switch on `jsonv_last_arena_error`
unfoldable pub fault_of : ArenaError → Option ArenaFault
fault_of arena_ok = none
fault_of err_alloc = some mem_failed
fault_of err_overflow = some arena_overflow
fault_of err_limit_reached = some arena_limit_reached
fault_of err_invalid_arg = some arena_invalid_arg

-- A result, or the exception
pub data Raised {ℓ} (A : Type ℓ) : Type ℓ where
  returned : A → Raised A
  raised_fault : ArenaFault → Raised A

abbrev pub or_raise {ℓ} : {A : Type ℓ} → Option ArenaFault → A → Raised A
or_raise none a = returned a
or_raise (some e) a = raised_fault e

unfoldable pub arena_new : Bool → Bool → ℕ → ℕ → ℕ → Raised (Option Arena)
arena_new arena_succeeds block_succeeds default_block_size max_limit shrink_at =
    let (err, a) =
      jsonv_arena_new arena_succeeds block_succeeds default_block_size max_limit shrink_at in
    or_raise (fault_of err) a

unfoldable pub arena_alloc : Bool → ℕ → Arena → Raised (Option ℕ × Arena)
arena_alloc alloc_succeeds size a =
    let (err, offset, b) = jsonv_arena_alloc alloc_succeeds size a in
    or_raise (fault_of err) (offset, b)
