-- ===== src/Allocator.antt =====
-- The allocators of src/libs/allocator.h. Sizes are of 64 bits, and their sums and differences wrap.
pub mod Arena
pub mod Region
pub mod Pool
use orta_vm.Prelude.{ℕ, ◌+◌, ◌-◌, ◌*◌, ◌/◌, ◌%◌, ◌^◌, ltb, if◌then◌else◌}

abbrev pub size_t : ℕ
size_t = 2 ^ 64

abbrev pub add_size : ℕ → ℕ → ℕ
add_size a b = (a + b) % size_t

abbrev pub sub_size : ℕ → ℕ → ℕ
sub_size a b = (a + size_t - b) % size_t

-- `ARENA_CAPACITY`, `BLOCK_ALIGN`, `GUARD_SIZE`, `sizeof(AllocationHeader)`, `sizeof(APool)`
abbrev pub arena_capacity : ℕ
arena_capacity = 4194304

abbrev pub guard_size : ℕ
guard_size = 8

abbrev pub header_size : ℕ
header_size = 16

abbrev pub pool_size : ℕ
pool_size = 96

-- `(n + (align - 1)) & ~(align - 1)` for an `align` that is a power of 2.
unfoldable pub align_up : ℕ → ℕ → ℕ
align_up align n = add_size n (align - 1) / align * align

-- For `BLOCK_ALIGN`.
abbrev pub aligned : ℕ → ℕ
aligned n = add_size n 15 / 16 * 16

pub record ArenaStats : Type 0 where
  pub total_allocated : ℕ
  pub current_allocated : ℕ
  pub peak_allocated : ℕ
  pub allocation_count : ℕ
  pub deallocation_count : ℕ
  pub failed_allocations : ℕ

abbrev pub no_stats : ArenaStats
no_stats = record {
  total_allocated = 0;
  current_allocated = 0;
  peak_allocated = 0;
  allocation_count = 0;
  deallocation_count = 0;
  failed_allocations = 0;
}

abbrev pub peak : ℕ → ℕ → ℕ
peak now highest = if ltb highest now then now else highest

-- The stats after an allocation of `size` bytes that failed, and after one that did not.
unfoldable pub count_failure : ArenaStats → ArenaStats
count_failure s = record s { failed_allocations = add_size s.failed_allocations 1 }

unfoldable pub count_allocation : ℕ → ArenaStats → ArenaStats
count_allocation size s =
    let now = add_size s.current_allocated size in
    record s {
      total_allocated = add_size s.total_allocated size;
      current_allocated = now;
      peak_allocated = peak now s.peak_allocated;
      allocation_count = add_size s.allocation_count 1;
    }

-- After `size` bytes were given back, and after all were.
unfoldable pub count_freed : ℕ → ArenaStats → ArenaStats
count_freed size s = record s {
  current_allocated = sub_size s.current_allocated size;
  deallocation_count = add_size s.deallocation_count 1;
}

unfoldable pub count_reset : ArenaStats → ArenaStats
count_reset s = record s {
  current_allocated = 0;
  deallocation_count = add_size s.deallocation_count 1;
}

-- `aarena_reset_stats`, `region_reset_stats` and `apool_reset_stats`
unfoldable pub reset_stats : ArenaStats → ArenaStats
reset_stats s = record {
  total_allocated = s.current_allocated;
  current_allocated = s.current_allocated;
  peak_allocated = s.current_allocated;
  allocation_count = 0;
  deallocation_count = 0;
  failed_allocations = 0;
}
