-- ===== src/Arena/Bounds.antt =====
-- src/comm/struct/arena.c: what is handed out lies inside a block, and what is reserved is accounted
-- for and stays below the limit.
use mathlib.Core.Path.{subst}
use jsonv.Base.{
  ℕ, ◌+◌, ◌-◌, ◌^◌, ◌≤◌, ◌<◌, ◌≡◌, ◌⊎◌, refl, ap, Bool, false, ◌%◌, ◌&&◌, none, some, List, [], ◌∷◌,
  ◌==◌, ltb, arith, inl, inr, Bool-cases,
}
use jsonv.Lexer.Reads.{All}
use jsonv.Arena.{
  ArenaError, err_alloc, err_limit_reached, err_overflow, err_invalid_arg, arena_ok, ArenaBlock,
  Arena, size_max, block_header, sub_wrapped, align_up, arena_create_block, Allocated, arena_append,
  arena_recycle, block_capacity, arena_grow, has_room, jsonv_arena_alloc,
}

-- What the blocks take, with their headers.
abbrev pub reserved : List ArenaBlock → ℕ
reserved [] = 0
reserved (b ∷ bs) = block_header + b.capacity + reserved bs

abbrev pub Fits : ArenaBlock → Type 0
Fits b = b.used ≤ b.capacity

pub record IsArena (a : Arena) : Type 0 where
  pub current_fits : Fits a.current
  pub earlier_fit : All Fits a.earlier
  pub later_fit : All Fits a.later
  pub accounted :
      a.total_reserved ≡ reserved a.earlier + (block_header + a.current.capacity + reserved a.later)
  pub limited : a.total_reserved ≤ a.max_limit
  pub default_fits : block_header + a.default_block_size ≤ a.max_limit
  pub machine : a.max_limit < 2 ^ 64

abbrev pub SameSettings : Arena → Arena → Type 0
SameSettings a b =
    (b.default_block_size ≡ a.default_block_size)
    × (b.max_limit ≡ a.max_limit)
    × (b.shrink_at ≡ a.shrink_at)

-- Where the bytes lie that an allocation hands out: in the same block behind all that was handed out of it, or
-- at the start of another, which becomes the current one. That is a block behind the old one that had room, or
-- a new one; no other block changes.
pub data Place (n : ℕ) (a : Arena) : ℕ → Arena → Type 0 where
  in_current :
      {b : Arena}
      → b.earlier ≡ a.earlier
      → b.later ≡ a.later
      → b.current.capacity ≡ a.current.capacity
      → b.total_reserved ≡ a.total_reserved
      → Place n a a.current.used b
  in_next :
      {b : Arena} {next : ArenaBlock}
      → b.earlier ≡ a.current ∷ a.earlier
      → a.later ≡ next ∷ b.later
      → b.current.capacity ≡ next.capacity
      → b.total_reserved ≡ a.total_reserved
      → Place n a 0 b
  in_new :
      {b : Arena}
      → b.earlier ≡ a.current ∷ a.earlier
      → b.later ≡ a.later
      → b.current.capacity ≡ block_capacity n a
      → b.total_reserved ≡ a.total_reserved + (block_header + block_capacity n a)
      → Place n a 0 b

pub record Given (n : ℕ) (a : Arena) (offset : ℕ) (b : Arena) : Type 0 where
  pub well : IsArena b
  pub ends : b.current.used ≡ offset + n
  pub place : Place n a offset b
  pub settings : SameSettings a b

-- Why an allocation of `size` bytes fails.
abbrev pub Refuses : Bool → ℕ → Arena → ArenaError → Type 0
Refuses ok size a arena_ok = ⊥
Refuses ok size a err_alloc = ok ≡ false
Refuses ok size a err_limit_reached =
    a.max_limit < a.total_reserved + (block_header + block_capacity (align_up size) a)
Refuses ok size a err_overflow = (align_up size ≡ 0) × (0 < size)
Refuses ok size a err_invalid_arg = ⊥

-- What an allocation of `size` bytes leaves.
abbrev pub Serves : Bool → ℕ → Arena → Allocated → Type 0
Serves ok size a (err, some offset, b) = (err ≡ arena_ok) × Given (align_up size) a offset b
Serves ok size a (err, none, b) = Refuses ok size a err × (b ≡ a)

pub arena_create_block-cases :
    (ok : Bool) (cap : ℕ)
    → (arena_create_block ok cap ≡ none)
      ⊎ (arena_create_block ok cap ≡ some (record { capacity = cap; used = 0 }))
unfolding arena_create_block
arena_create_block-cases ok cap = elim (Bool-cases (ltb (size_max - block_header) cap)) [
  | inl big ↦ rw big (inl refl)
  | inr small ↦ elim (Bool-cases ok) [
    | inr failed ↦ rw (small, failed) (inl refl)
    | inl there ↦ rw (small, there) (inr refl)
  ]
]

-- With a size that does not overflow only ALLOC fails.
arena_create_block-fits :
    (ok : Bool) (cap : ℕ)
    → cap ≤ size_max - block_header
    → ((arena_create_block ok cap ≡ none) × (ok ≡ false))
      ⊎ (arena_create_block ok cap ≡ some (record { capacity = cap; used = 0 }))
unfolding arena_create_block
arena_create_block-fits ok cap small =
    let b : ltb (size_max - block_header) cap ≡ false = ground arith in
    elim (Bool-cases ok) [
      | inr failed ↦ inl (rw (b, failed), failed)
      | inl there ↦ inr (rw (b, there))
    ]

append-Serves :
    (ok : Bool) (size : ℕ) (a : Arena)
    → IsArena a
    → align_up size ≤ block_capacity (align_up size) a
    → a.total_reserved + (block_header + block_capacity (align_up size) a) ≤ a.max_limit
    → Serves ok size a (arena_append ok (align_up size) (block_capacity (align_up size) a) a)
unfolding arena_append
append-Serves ok size a inv fits room =
    let cap = block_capacity (align_up size) a in
    let small : cap ≤ size_max - block_header = omega (arith, inv.machine) in
    elim (arena_create_block-fits ok cap small) [
      | inl (failed, no_memory) ↦ rw (arena_append, failed) (no_memory, refl)
      | inr there ↦
          let total : (a.total_reserved + (block_header + cap)) % 2 ^ 64
              ≡ a.total_reserved + (block_header + cap) =
            omega (arith, inv.machine) in
          rw (arena_append, there)
            (
              refl,
              record {
                well = record {
                  current_fits = fits;
                  earlier_fit = (inv.current_fits, inv.earlier_fit);
                  later_fit = inv.later_fit;
                  accounted = omega (arith, inv.accounted, inv.machine);
                  limited = omega (arith, inv.machine);
                  default_fits = inv.default_fits;
                  machine = inv.machine;
                };
                ends = omega arith;
                place = in_new refl refl refl total;
                settings = (refl, refl, refl);
              },
            )
    ]

recycle-Serves :
    (ok : Bool) (size : ℕ) (later : List ArenaBlock) (a : Arena)
    → IsArena a
    → a.later ≡ later
    → align_up size ≤ block_capacity (align_up size) a
    → a.total_reserved + (block_header + block_capacity (align_up size) a) ≤ a.max_limit
    → Serves ok size a (arena_recycle ok (align_up size) (block_capacity (align_up size) a) later a)
unfolding arena_recycle
recycle-Serves ok size [] a inv e fits room = append-Serves ok size a inv fits room
recycle-Serves ok size (next ∷ rest) a inv e fits room =
    elim (Bool-cases (ltb next.capacity (align_up size))) [
      | inl small ↦ rw (arena_recycle, small) (append-Serves ok size a inv fits room)
      | inr large ↦
          let later = subst (All Fits) e inv.later_fit in
          rw (arena_recycle, large)
            (
              refl,
              record {
                well = record {
                  current_fits = ground arith;
                  earlier_fit = (inv.current_fits, inv.earlier_fit);
                  later_fit = later.1;
                  accounted = omega (arith, inv.accounted, ap reserved e);
                  limited = inv.limited;
                  default_fits = inv.default_fits;
                  machine = inv.machine;
                };
                ends = omega arith;
                place = in_next {next = next} refl e refl refl;
                settings = (refl, refl, refl);
              },
            )
    ]

grow-Serves :
    (ok : Bool) (size : ℕ) (a : Arena)
    → IsArena a
    → block_header + align_up size ≤ a.max_limit
    → Serves ok size a (arena_grow ok (align_up size) a)
unfolding arena_grow
grow-Serves ok size a inv h =
    let n = align_up size in
    let cap = block_capacity n a in
    let fits : n ≤ cap = ground arith in
    let whole : block_header + cap ≤ a.max_limit = ground (arith, inv.default_fits) in
    let small : ltb (size_max - block_header) cap ≡ false = ground (arith, inv.machine) in
    elim (Bool-cases (ltb (sub_wrapped a.max_limit (block_header + cap)) a.total_reserved)) [
      | inl full ↦ rw (arena_grow, small, full) (ground (arith, whole, inv.machine), refl)
      | inr room ↦
          rw (arena_grow, small, room)
            (recycle-Serves ok size a.later a inv refl fits (ground (arith, whole, inv.machine)))
    ]

-- On a well-formed arena, if a block for the aligned size is within the limit: either jsonv_arena_alloc
-- hands out that many bytes and keeps the arena well formed, so they end within the block, and what is
-- reserved is accounted for and at most the limit. The bytes lie behind all that was handed out of the
-- current block, or at the start of another, the next one or a new one, and no other block changes. Or
-- it changes nothing and returns an error: one of ALLOC only where ALLOC fails, that of the limit only
-- where a new block would pass it, and that of an overflow only where aligning the size wraps.
pub jsonv_arena_alloc-Serves :
    (alloc_succeeds : Bool) (size : ℕ) (a : Arena)
    → IsArena a
    → block_header + align_up size ≤ a.max_limit
    → Serves alloc_succeeds size a (jsonv_arena_alloc alloc_succeeds size a)
unfolding jsonv_arena_alloc
jsonv_arena_alloc-Serves ok size a inv h =
    let n = align_up size in
    elim (Bool-cases (n == 0 && ltb 0 size)) [
      | inl over ↦ rw (jsonv_arena_alloc, over) ((ground arith, ground arith), refl)
      | inr sized ↦ elim (Bool-cases (has_room n a.current)) [
        | inr full ↦ rw (jsonv_arena_alloc, sized, full) (grow-Serves ok size a inv h)
        | inl room ↦
            rw (jsonv_arena_alloc, sized, room)
              (
                refl,
                record {
                  well = record {
                    current_fits = ground arith;
                    earlier_fit = inv.earlier_fit;
                    later_fit = inv.later_fit;
                    accounted = inv.accounted;
                    limited = inv.limited;
                    default_fits = inv.default_fits;
                    machine = inv.machine;
                  };
                  ends = refl;
                  place = in_current refl refl refl refl;
                  settings = (refl, refl, refl);
                },
              )
      ]
    ]
