-- ===== src/Arena/Raises.antt =====
-- src/comm/struct/arena.c: the allocation that raises.
use jsonv.Base.{Option, ℕ, ◌+◌, ◌≤◌, Bool, none, some, arith}
use jsonv.Arena.{
  Raised, returned, raised_fault, mem_failed, arena_overflow, arena_limit_reached,
  arena_invalid_arg, or_raise, fault_of, arena_alloc, err_alloc, err_limit_reached, err_overflow,
  err_invalid_arg, arena_ok, Arena, block_header, align_up, Allocated, jsonv_arena_alloc,
}
use jsonv.Arena.Bounds.{IsArena, Given, Refuses, Serves, jsonv_arena_alloc-Serves}

-- What arena_alloc comes to: bytes of the arena, or an exception that tells the cause.
abbrev pub Answers : Bool → ℕ → Arena → Raised (Option ℕ × Arena) → Type 0
Answers ok size a (returned (some offset, b)) = Given (align_up size) a offset b
Answers ok size a (returned (none, b)) = ⊥
Answers ok size a (raised_fault mem_failed) = Refuses ok size a err_alloc
Answers ok size a (raised_fault arena_limit_reached) = Refuses ok size a err_limit_reached
Answers ok size a (raised_fault arena_overflow) = Refuses ok size a err_overflow
Answers ok size a (raised_fault arena_invalid_arg) = ⊥

Serves-Answers :
    (ok : Bool) (size : ℕ) (a : Arena) (r : Allocated)
    → Serves ok size a r
    → Answers ok size a (or_raise (fault_of r.0) (r.1, r.2))
unfolding fault_of
Serves-Answers ok size a (arena_ok, some offset, b) h = h.1
Serves-Answers ok size a (err_alloc, some offset, b) h = absurd (ground arith)
Serves-Answers ok size a (err_limit_reached, some offset, b) h = absurd (ground arith)
Serves-Answers ok size a (err_overflow, some offset, b) h = absurd (ground arith)
Serves-Answers ok size a (err_invalid_arg, some offset, b) h = absurd (ground arith)
Serves-Answers ok size a (arena_ok, none, b) h = absurd h.0
Serves-Answers ok size a (err_alloc, none, b) h = h.0
Serves-Answers ok size a (err_limit_reached, none, b) h = h.0
Serves-Answers ok size a (err_overflow, none, b) h = h.0
Serves-Answers ok size a (err_invalid_arg, none, b) h = absurd h.0

-- On a well-formed arena, if a block for the aligned size is within the limit: arena_alloc returns no null
-- pointer. It returns that many bytes behind all that was handed out of their block and keeps the arena
-- well formed, or raises Mem_Failed, and that only where ALLOC fails, ARENA_LIMIT_REACHED, only where a new
-- block would pass the limit, or ARENA_OVERFLOW, only where aligning the size wraps.
pub arena_alloc-Answers :
    (alloc_succeeds : Bool) (size : ℕ) (a : Arena)
    → IsArena a
    → block_header + align_up size ≤ a.max_limit
    → Answers alloc_succeeds size a (arena_alloc alloc_succeeds size a)
unfolding arena_alloc
arena_alloc-Answers ok size a inv h =
    Serves-Answers ok size a (jsonv_arena_alloc ok size a)
      (jsonv_arena_alloc-Serves ok size a inv h)
