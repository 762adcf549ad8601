-- ===== src/Tests/AllocatorWitnesses.antt =====
-- The theorems on the allocators at concrete inputs.
use orta_vm.Prelude.{ℕ, ◌+◌, ◌≡◌, ◌≢◌, refl, arith, some, none, true, false, List, [], ◌∷◌}
use mathlib.Core.List.{Mem}
use orta_vm.Result.{ok}
use orta_vm.Result.Ensures.{Ensures}
use orta_vm.Allocator.{no_stats, guard_size, count_allocation}
use orta_vm.Allocator.Arena.{
  AArena, put_block, write, aarena_alloc, aarena_check_memory, aarena_alloc_size,
}
use orta_vm.Allocator.Arena.Blocks.{Allocated, aarena_alloc-Allocated}
use orta_vm.Allocator.Arena.Guards.{in_guard, aarena_check_memory-aarena_alloc}
use orta_vm.Allocator.Region.{ARegion, region_at, region_free_to, region_marker}
use orta_vm.Allocator.Region.Bounds.{
  IsRegion, Apart, allocate, allocate-Apart, allocate-region_free_to,
}
use orta_vm.Allocator.Pool.{APool, pool_at, apool_alloc}
use orta_vm.Allocator.Pool.Chains.{blocks}
use orta_vm.Allocator.Pool.Moves.{Holds, pool_at-Holds}
use orta_vm.Allocator.Pool.Owners.{Owns, begins, taken, Owns-Holds, apool_alloc-fresh}

abbrev memory : ℕ → ℕ
memory i = 0

abbrev empty_arena : AArena
empty_arena = record { buffer = memory; size = 0; stats = no_stats }

aarena_alloc-Allocated_example :
    Ensures (Allocated empty_arena 100) (aarena_alloc 4096 empty_arena 100)
aarena_alloc-Allocated_example =
    aarena_alloc-Allocated 4096 empty_arena 100 (omega arith) (omega arith) (omega arith)

-- The arena after an allocation of 100 bytes.
abbrev used_arena : AArena
used_arena = record {
  buffer = put_block 0 100 112 memory;
  size = 16 + 112 + guard_size;
  stats = count_allocation 100 no_stats;
}

gives_block : aarena_alloc 4096 empty_arena 100 ≡ ok (some 16, used_arena)
unfolding aarena_alloc orta_vm.Allocator.Arena.padding orta_vm.Allocator.align_up
gives_block = refl

overflow : 5 ≢ used_arena.buffer 128
unfolding orta_vm.Allocator.Arena.write
overflow h = cc

aarena_check_memory-aarena_alloc_example :
    (aarena_alloc_size used_arena.buffer 16 ≡ 100)
    × (aarena_check_memory (write 20 (1 ∷ 2 ∷ []) used_arena.buffer) (some 16) ≡ ok true)
    × (aarena_check_memory (write 128 (5 ∷ []) used_arena.buffer) (some 16) ≡ ok false)
aarena_check_memory-aarena_alloc_example =
    aarena_check_memory-aarena_alloc 4096 empty_arena used_arena 100 16 20 (1 ∷ 2 ∷ []) 128 5
      (omega arith) (omega arith) (omega arith) gives_block (omega arith) (omega arith)
      (in_guard (omega arith) (omega arith)) overflow

abbrev region : ARegion
region = region_at (some 64) 256

region-IsRegion : IsRegion 64 region
region-IsRegion = record { starts = refl; used = omega arith; inside = omega arith }

allocate-Apart_example : Apart (64 + 0) (64 + 256) (allocate region (10 ∷ 300 ∷ 40 ∷ [])).0
allocate-Apart_example =
    allocate-Apart 64 region (10 ∷ 300 ∷ 40 ∷ []) region-IsRegion
      (omega arith, (omega arith, (omega arith, tt)))

allocate-region_free_to_example :
    (allocate
      (region_free_to (allocate region (10 ∷ 20 ∷ [])).1 (region_marker region))
      (10 ∷ [])).0
    ≡ (allocate region (10 ∷ [])).0
allocate-region_free_to_example =
    allocate-region_free_to 64 region (10 ∷ 20 ∷ []) (10 ∷ []) region-IsRegion
      (omega arith, (omega arith, tt))

-- Two blocks of 16 bytes.
abbrev small_pool : APool
small_pool = pool_at 16 16 2

-- One of them is taken.
one_taken : Owns small_pool (apool_alloc small_pool).1 (128 ∷ [])
unfolding apool_alloc orta_vm.Allocator.Pool.thread_blocks
one_taken = taken small_pool [] 128 begins refl

Owns-Holds_example : (free : List ℕ) × Holds (apool_alloc small_pool).1 (128 ∷ []) free
Owns-Holds_example =
    Owns-Holds small_pool (blocks 112 16 2) (pool_at-Holds 16 16 2 (omega arith) (omega arith))
      (apool_alloc small_pool).1 (128 ∷ []) one_taken

apool_alloc-fresh_example :
    ((b : ℕ) → (apool_alloc (apool_alloc small_pool).1).0 ≡ some b → ¬ Mem b (128 ∷ []))
    × ((apool_alloc (apool_alloc small_pool).1).0 ≡ none
        → 1 ≡ (apool_alloc small_pool).1.total_blocks)
apool_alloc-fresh_example =
    apool_alloc-fresh 16 16 2 (omega arith) (omega arith) (apool_alloc small_pool).1 (128 ∷ [])
      one_taken
