-- ===== src/Allocator/Region.antt =====
-- `ARegion` of src/libs/allocator.h: a part of an arena that is filled from its start. Pointers are offsets
-- in the arena's buffer, which stands at the address `base`. What is copied into a block is not modelled here.
pub mod Bounds
use orta_vm.Prelude.{
  ℕ, ◌+◌, ◌-◌, ◌*◌, ◌/◌, ◌%◌, Bool, true, false, ◌&&◌, Option, none, some, ltb, leb, if◌then◌else◌,
  Str, length,
}
use orta_vm.Allocator.{
  size_t, add_size, sub_size, arena_capacity, align_up, aligned, ArenaStats, no_stats,
  count_failure, count_allocation, count_freed, count_reset, reset_stats,
}
use orta_vm.Allocator.Arena.{AArena}

-- `start` is `none` for the region that could not be made.
pub record ARegion : Type 0 where
  pub stats : ArenaStats
  pub start : Option ℕ
  pub size : ℕ
  pub offset : ℕ

abbrev pub no_region : ARegion
no_region = record { stats = no_stats; start = none; size = 0; offset = 0 }

abbrev pub region_at : Option ℕ → ℕ → ARegion
region_at start size = record { stats = no_stats; start = start; size = size; offset = 0 }

unfoldable pub create_region : AArena → ℕ → ARegion × AArena
unfolding count_failure
create_region a region_size =
    let size = aligned region_size in
    if ltb arena_capacity (add_size a.size size)
    then (no_region, record a { stats = count_failure a.stats })
    else (region_at (some a.size) size, record a { size = add_size a.size size })

-- `region->start + offset`, which is null for no region, whose offset is 0.
abbrev pub from_start : Option ℕ → ℕ → Option ℕ
from_start none offset = none
from_start (some start) offset = some (start + offset)

unfoldable pub region_alloc : ARegion → ℕ → Option ℕ × ARegion
unfolding count_failure count_allocation
region_alloc r size =
    if ltb r.size (add_size r.offset (aligned size))
    then (none, record r { stats = count_failure r.stats })
    else (
      from_start r.start r.offset,
      record r { offset = add_size r.offset (aligned size); stats = count_allocation size r.stats },
    )

-- The address of `region->start + offset`.
abbrev pub address : ℕ → Option ℕ → ℕ → ℕ
address base none offset = offset
address base (some start) offset = base + start + offset

-- `base` is the address of the buffer.
unfoldable pub region_alloc_aligned : ℕ → ARegion → ℕ → ℕ → Option ℕ × ARegion
unfolding region_alloc align_up
region_alloc_aligned base r size align =
    let current = address base r.start r.offset in
    let padding = sub_size (align_up align current) current in
    if ltb r.size (add_size (add_size r.offset (aligned size)) padding)
    then (none, record r { stats = count_failure r.stats })
    else region_alloc (record r { offset = add_size r.offset padding }) size

-- The allocations of `region_calloc`, `region_strdup` and `region_memdup`.
unfoldable pub region_calloc : ARegion → ℕ → ℕ → Option ℕ × ARegion
unfolding region_alloc
region_calloc r count size = region_alloc r (count * size % size_t)

unfoldable pub region_strdup : ARegion → Str → Option ℕ × ARegion
unfolding region_alloc
region_strdup r str = region_alloc r (length str + 1)

unfoldable pub region_reset : ARegion → ARegion
unfolding count_reset
region_reset r = record r { offset = 0; stats = count_reset r.stats }

unfoldable pub region_free_to : ARegion → ℕ → ARegion
unfolding count_freed
region_free_to r marker =
    if leb marker r.offset
    then (record r { offset = marker; stats = count_freed (r.offset - marker) r.stats })
    else r

unfoldable pub region_marker : ARegion → ℕ
region_marker r = r.offset

unfoldable pub region_remaining : ARegion → ℕ
region_remaining r = sub_size r.size r.offset

unfoldable pub region_contains : ℕ → ARegion → ℕ → Bool
region_contains base r ptr =
    leb (address base r.start 0) ptr && ltb ptr (address base r.start r.size)

unfoldable pub create_subregion : ARegion → ℕ → ARegion × ARegion
unfolding count_failure
create_subregion parent subregion_size =
    let size = aligned subregion_size in
    if ltb parent.size (add_size parent.offset size)
    then (no_region, record parent { stats = count_failure parent.stats })
    else (
      region_at (from_start parent.start parent.offset) size,
      record parent { offset = add_size parent.offset size },
    )

unfoldable pub region_reset_stats : ARegion → ARegion
unfolding reset_stats
region_reset_stats r = record r { stats = reset_stats r.stats }
