-- ===== src/Arena/Lifetime.antt =====
-- src/comm/struct/arena.c: jsonv_arena_new and jsonv_arena_reset_to, and the alignment.
use jsonv.Base.{
  ℕ, ◌+◌, ◌-◌, ◌%◌, ◌^◌, ◌≤◌, ◌<◌, ◌≡◌, ◌⊎◌, refl, Bool, true, false, Option, none, some, List, [],
  ◌∷◌, if◌then◌else◌, ltb, arith, inl, inr, Bool-cases,
}
use jsonv.Lexer.Reads.{All}
use jsonv.Arena.{
  ArenaError, arena_ok, ArenaBlock, Arena, size_max, block_header, align_up, jsonv_arena_new,
  rewind, jsonv_arena_reset_to,
}
use jsonv.Arena.Bounds.{SameSettings, reserved, Fits, IsArena, arena_create_block-cases}

-- The aligned size has room for the size and is a multiple of 16, unless it is 0 on an overflow.
align_up_bounds :
    (size : ℕ)
    → ((size_max - 15 < size) × (align_up size ≡ 0))
      ⊎ ((size ≤ align_up size) × (align_up size < size + 16) × (align_up size % 16 ≡ 0))
unfolding align_up
align_up_bounds size = elim (Bool-cases (ltb (size_max - 15) size)) [
  | inl over ↦ rw over (inl (ground arith, refl))
  | inr fits ↦ rw fits (inr (omega arith, omega arith, omega arith))
]

-- Rewinding keeps the blocks.
rewind-kept :
    (earlier : List ArenaBlock) (block : ArenaBlock) (later : List ArenaBlock)
    → All Fits earlier
    → Fits block
    → All Fits later
    → Fits (rewind earlier block later).0
      × All Fits (rewind earlier block later).1
      × (block_header
            + (rewind earlier block later).0.capacity
            + reserved (rewind earlier block later).1
          ≡ reserved earlier + (block_header + block.capacity + reserved later))
unfolding rewind
rewind-kept [] block later e c l = (c, l, omega arith)
rewind-kept (previous ∷ earlier) block later e c l =
    let (x, y, z) = rewind-kept earlier previous (block ∷ later) e.1 e.0 (c, l) in
    (x, y, omega (arith, z))

-- The blocks of an arena in their order, the head first.
unfoldable pub onto : List ArenaBlock → List ArenaBlock → List ArenaBlock
onto [] later = later
onto (previous ∷ earlier) later = onto earlier (previous ∷ later)

abbrev pub blocks : Arena → List ArenaBlock
blocks a = onto a.earlier (a.current ∷ a.later)

rewind-onto :
    (earlier : List ArenaBlock) (block : ArenaBlock) (later : List ArenaBlock)
    → onto earlier (block ∷ later) ≡ (rewind earlier block later).0 ∷ (rewind earlier block later).1
unfolding rewind onto
rewind-onto [] block later = refl
rewind-onto (previous ∷ earlier) block later = rewind-onto earlier previous (block ∷ later)

-- What a reset that keeps `keep` bytes leaves of an arena whose blocks are the head and `rest`.
pub record IsReset (keep : ℕ) (a : Arena) (head : ArenaBlock) (rest : List ArenaBlock) (b : Arena)
    : Type 0 where
  pub chain : blocks a ≡ head ∷ rest
  pub well : IsArena b
  pub at_front : b.earlier ≡ []
  pub same_head : b.current.capacity ≡ head.capacity
  pub kept : b.current.used ≡ (if ltb keep head.capacity then keep else head.capacity)
  pub left : b.later ≡ (if ltb a.shrink_at a.total_reserved then [] else rest)
  pub settings : SameSettings a b

-- On a well-formed arena jsonv_arena_reset_to makes the head the current block, with the aligned size used of
-- it, or all where that is more. Above `shrink_at` every other block is freed, and else they all stay behind the
-- head. The arena stays well formed, so what is reserved is that of the blocks that are left.
pub jsonv_arena_reset_to-IsReset :
    (keep_size : ℕ) (a : Arena)
    → IsArena a
    → (head : ArenaBlock) × (rest : List ArenaBlock) × IsReset
        (align_up keep_size)
        a
        head
        rest
        (jsonv_arena_reset_to keep_size a)
unfolding jsonv_arena_reset_to
jsonv_arena_reset_to-IsReset keep_size a inv =
    let (head_fits, rest_fit, same) =
      rewind-kept a.earlier a.current a.later inv.earlier_fit inv.current_fits inv.later_fit in
    let (head, rest) = rewind a.earlier a.current a.later in
    let chain = rewind-onto a.earlier a.current a.later in
    (
      head,
      rest,
      elim (Bool-cases (ltb a.shrink_at a.total_reserved)) [
        | inl large ↦
            rw (jsonv_arena_reset_to, large)
              (record {
                chain = chain;
                well = record {
                  current_fits = ground arith;
                  earlier_fit = tt;
                  later_fit = tt;
                  accounted = omega (arith, same, inv.accounted, inv.limited, inv.machine);
                  limited = omega (arith, same, inv.accounted, inv.limited, inv.machine);
                  default_fits = inv.default_fits;
                  machine = inv.machine;
                };
                at_front = refl;
                same_head = refl;
                kept = ground arith;
                left = rw large;
                settings = (refl, refl, refl);
              })
        | inr small ↦
            rw (jsonv_arena_reset_to, small)
              (record {
                chain = chain;
                well = record {
                  current_fits = ground arith;
                  earlier_fit = tt;
                  later_fit = rest_fit;
                  accounted = omega (arith, same, inv.accounted);
                  limited = inv.limited;
                  default_fits = inv.default_fits;
                  machine = inv.machine;
                };
                at_front = refl;
                same_head = refl;
                kept = ground arith;
                left = rw small;
                settings = (refl, refl, refl);
              })
      ],
    )

-- What jsonv_arena_new returns.
abbrev pub IsNew : ArenaError × Option Arena → Type 0
IsNew (arena_ok, some a) = IsArena a
IsNew (arena_ok, none) = ⊥
IsNew (err, some a) = ⊥
IsNew (err, none) = Unit

-- With a limit below 2^64 jsonv_arena_new returns a well-formed arena, or an error and none.
pub jsonv_arena_new-IsNew :
    (arena_succeeds block_succeeds : Bool) (default_block_size max_limit shrink_at : ℕ)
    → max_limit < 2 ^ 64
    → IsNew (jsonv_arena_new arena_succeeds block_succeeds default_block_size max_limit shrink_at)
unfolding jsonv_arena_new
jsonv_arena_new-IsNew false ok size limit shrink h = tt
jsonv_arena_new-IsNew true ok size limit shrink h =
    elim (Bool-cases (ltb (size_max - block_header) size)) [
      | inl big ↦ rw (jsonv_arena_new, big) tt
      | inr small ↦ elim (Bool-cases (ltb limit (block_header + size))) [
        | inl over ↦ rw (jsonv_arena_new, small, over) tt
        | inr within ↦ elim (arena_create_block-cases ok size) [
          | inl failed ↦ rw (jsonv_arena_new, small, within, failed) tt
          | inr there ↦
              let room : block_header + size ≤ limit = ground arith in
              rw (jsonv_arena_new, small, within, there)
                (record {
                  current_fits = omega arith;
                  earlier_fit = tt;
                  later_fit = tt;
                  accounted = omega arith;
                  limited = room;
                  default_fits = room;
                  machine = h;
                })
        ]
      ]
    ]
