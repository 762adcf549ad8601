-- ===== src/Allocator/Pool.antt =====
-- `APool` of src/libs/allocator.h: blocks of one size, at offsets in the arena's buffer. A `PoolBlock` is the
-- pointer at the start of a free block; `links` holds these.
pub mod Chains
pub mod Moves
pub mod Owners
use orta_vm.Prelude.{
  ℕ, zero, suc, ◌+◌, ◌-◌, ◌*◌, ◌/◌, ◌%◌, Bool, true, false, not, ◌&&◌, ◌||◌, Option, none, some,
  ltb, leb, ◌==◌, if◌then◌else◌,
}
use orta_vm.Result.{Result, ok, exit, undefined, ◌>>=◌}
use orta_vm.Allocator.{
  size_t, add_size, sub_size, pool_size, aligned, ArenaStats, no_stats, count_failure,
  count_allocation, count_freed, count_reset, reset_stats,
}
use orta_vm.Allocator.Arena.{AArena, aarena_alloc}

pub record APool : Type 0 where
  pub stats : ArenaStats
  pub free_list : Option ℕ
  pub links : ℕ → Option ℕ
  pub memory : ℕ
  pub block_size : ℕ
  pub capacity : ℕ
  pub used_blocks : ℕ
  pub total_blocks : ℕ

abbrev pub Links : Type 0
Links = ℕ → Option ℕ

-- `block->next = next`
unfoldable pub set_next : ℕ → Option ℕ → Links → Links
set_next block next links b = if b == block then next else links b

-- The first of the free blocks and their links, after `n` rounds of the loop that threads them.
unfoldable pub thread_blocks : ℕ → ℕ → Links → ℕ → Option ℕ × Links
unfolding set_next
thread_blocks memory block_size links zero = (none, links)
thread_blocks memory block_size links (suc n) =
    let (first, before) = thread_blocks memory block_size links n in
    (some (memory + n * block_size), set_next (memory + n * block_size) first before)

abbrev pub no_links : Links
no_links b = none

abbrev pub pool_at : ℕ → ℕ → ℕ → APool
pool_at p block_size num_blocks = record {
  stats = no_stats;
  free_list = (thread_blocks (p + pool_size) block_size no_links num_blocks).0;
  links = (thread_blocks (p + pool_size) block_size no_links num_blocks).1;
  memory = p + pool_size;
  block_size = block_size;
  capacity = block_size * num_blocks % size_t;
  used_blocks = 0;
  total_blocks = num_blocks;
}

-- `sizeof(PoolBlock)` is 8.
abbrev pub at_least_link : ℕ → ℕ
at_least_link n = if ltb n 8 then 8 else n

-- The pool in its block of the arena. If the size of all blocks wraps, links are written outside of it.
abbrev pub pool_in : ℕ → ℕ → Option ℕ × AArena → Result (Option APool × AArena)
pool_in block_size num_blocks (none, a) = ok (none, a)
pool_in block_size num_blocks (some p, a) =
    if ltb (pool_size + block_size * num_blocks) size_t
    then ok (some (pool_at p block_size num_blocks), a)
    else undefined

unfoldable pub apool_create : ℕ → AArena → ℕ → ℕ → Result (Option APool × AArena)
unfolding aarena_alloc thread_blocks
apool_create base a block_size num_blocks =
    let size = aligned (at_least_link block_size) in
    aarena_alloc base a (add_size pool_size (size * num_blocks % size_t))
    >>= pool_in size num_blocks

abbrev pub alloc_from : APool → Option ℕ → Option ℕ × APool
alloc_from pool none = (none, record pool { stats = count_failure pool.stats })
alloc_from pool (some block) = (
  some block,
  record pool {
    free_list = pool.links block;
    links = set_next block none pool.links;
    used_blocks = add_size pool.used_blocks 1;
    stats = count_allocation pool.block_size pool.stats;
  },
)

-- The block is cleared, and its link with it.
unfoldable pub apool_alloc : APool → Option ℕ × APool
unfolding count_failure count_allocation set_next
apool_alloc pool = alloc_from pool pool.free_list

unfoldable pub apool_contains : APool → ℕ → Bool
apool_contains pool ptr =
    leb pool.memory ptr
    && ltb ptr (pool.memory + pool.capacity)
    && (ptr - pool.memory) % pool.block_size == 0

-- A pointer that is null, out of range or between blocks is ignored.
unfoldable pub apool_free : APool → Option ℕ → APool
unfolding count_freed set_next
apool_free pool none = pool
apool_free pool (some ptr) =
    if ltb ptr pool.memory || leb (pool.memory + pool.capacity) ptr
    then pool
    else if not ((ptr - pool.memory) % pool.block_size == 0)
    then pool
    else record pool {
      free_list = some ptr;
      links = set_next ptr pool.free_list pool.links;
      used_blocks = sub_size pool.used_blocks 1;
      stats = count_freed pool.block_size pool.stats;
    }

unfoldable pub apool_reset : APool → APool
unfolding count_reset thread_blocks
apool_reset pool = record pool {
  free_list = (thread_blocks pool.memory pool.block_size pool.links pool.total_blocks).0;
  links = (thread_blocks pool.memory pool.block_size pool.links pool.total_blocks).1;
  used_blocks = 0;
  stats = count_reset pool.stats;
}

unfoldable pub apool_block_size : APool → ℕ
apool_block_size pool = pool.block_size

unfoldable pub apool_available_blocks : APool → ℕ
apool_available_blocks pool = sub_size pool.total_blocks pool.used_blocks

unfoldable pub apool_reset_stats : APool → APool
unfolding reset_stats
apool_reset_stats pool = record pool { stats = reset_stats pool.stats }
