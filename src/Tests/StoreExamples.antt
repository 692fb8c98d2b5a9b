-- ===== src/Tests/StoreExamples.antt =====
-- src/comm/struct/set.c, stack.c and arena.c: their theorems at concrete inputs.
use jsonv.Base.{◌+◌, ◌≤◌, ℕ, ◌≡◌, refl, true, false, replicate, some, List, [], ◌∷◌, ◌++◌, arith}
use jsonv.HashSet.{Entry, filled_entry, floor_power_of_two, clear_entries, set_init, set_insert}
use jsonv.HashSet.Inserts.{Inserts, cleared, cleared-IsHashSet, set_insert-Inserts}
use jsonv.Stack.{Stack, stack_push, stack_pop}
use jsonv.Stack.Contents.{IsStack, contents, Pushes, stack_push-contents, stack_pop-contents}
use jsonv.Arena.{
  arena_alloc, Arena, ArenaBlock, block_header, align_up, jsonv_arena_new, jsonv_arena_alloc,
  jsonv_arena_reset_to,
}
use jsonv.Arena.Bounds.{IsArena, Serves, jsonv_arena_alloc-Serves}
use jsonv.Arena.Raises.{Answers, arena_alloc-Answers}
use jsonv.Arena.Lifetime.{IsNew, IsReset, jsonv_arena_reset_to-IsReset, jsonv_arena_new-IsNew}
use jsonv.Tests.LexerRuns.{codes}

-- An array of six slots that were used before: four of them make a set.
abbrev old_entries : List Entry
old_entries = replicate 6 (filled_entry (codes "old"))

set_init_run : set_init old_entries 6 ≡ some (cleared 4)
unfolding set_init floor_power_of_two clear_entries
set_init_run = refl

set_insert-Inserts_example :
    Inserts (cleared 4) (codes "0:a") (set_insert (cleared 4) (codes "0:a"))
set_insert-Inserts_example = set_insert-Inserts (cleared 4) (codes "0:a") (cleared-IsHashSet 4).0

-- A full stack of two slots.
abbrev two_slots : Stack ℕ
two_slots = record {
  data_slots = 7 ∷ 8 ∷ [];
  extra = false;
  elem_size = 4;
  count = 2;
  capacity = 2;
}

two_slots-IsStack : IsStack two_slots
two_slots-IsStack = record { size = refl; bound = omega arith; room = omega arith }

stack_push-contents_example : Pushes true 9 two_slots (stack_push true 0 9 two_slots)
stack_push-contents_example = stack_push-contents true 0 9 two_slots two_slots-IsStack (omega arith)

stack_pop-contents_example :
    (elem : ℕ) × (t : Stack ℕ) × (stack_pop two_slots ≡ some (elem, t))
    × IsStack t
    × (contents two_slots ≡ contents t ++ (elem ∷ []))
stack_pop-contents_example = stack_pop-contents two_slots two_slots-IsStack (omega arith)

-- An arena of blocks of 64 bytes, with 16 handed out.
abbrev an_arena : Arena
an_arena = record {
  earlier = [];
  current = record { capacity = 64; used = 16 };
  later = [];
  default_block_size = 64;
  max_limit = 200;
  shrink_at = 150;
  total_reserved = 96;
}

an_arena-IsArena : IsArena an_arena
an_arena-IsArena = record {
  current_fits = omega arith;
  earlier_fit = tt;
  later_fit = tt;
  accounted = omega arith;
  limited = omega arith;
  default_fits = omega arith;
  machine = omega arith;
}

aligned_50 : block_header + align_up 50 ≤ an_arena.max_limit
unfolding align_up
aligned_50 = omega arith

jsonv_arena_alloc-Serves_example : Serves true 50 an_arena (jsonv_arena_alloc true 50 an_arena)
jsonv_arena_alloc-Serves_example =
    jsonv_arena_alloc-Serves true 50 an_arena an_arena-IsArena aligned_50

jsonv_arena_reset_to-IsReset_example :
    (head : ArenaBlock) × (rest : List ArenaBlock) × IsReset
      (align_up 20)
      an_arena
      head
      rest
      (jsonv_arena_reset_to 20 an_arena)
jsonv_arena_reset_to-IsReset_example = jsonv_arena_reset_to-IsReset 20 an_arena an_arena-IsArena

jsonv_arena_new-IsNew_example : IsNew (jsonv_arena_new true true 64 200 150)
jsonv_arena_new-IsNew_example = jsonv_arena_new-IsNew true true 64 200 150 (omega arith)

arena_alloc-Answers_example : Answers true 50 an_arena (arena_alloc true 50 an_arena)
arena_alloc-Answers_example = arena_alloc-Answers true 50 an_arena an_arena-IsArena aligned_50
