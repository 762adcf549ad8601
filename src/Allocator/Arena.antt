-- ===== src/Allocator/Arena.antt =====
-- `AArena` of src/libs/allocator.h: a buffer of 4 MB that is filled from its start.
pub mod Blocks
pub mod Guards
use orta_vm.Prelude.{
  ℕ, zero, suc, ◌+◌, ◌-◌, ◌*◌, ◌/◌, ◌%◌, ◌^◌, Bool, true, false, ◌&&◌, Option, none, some, List, [],
  ◌∷◌, ◌++◌, Str, length, replicate, str_eq, ltb, leb, ◌==◌, if◌then◌else◌,
}
use orta_vm.Result.{Result, ok, exit, undefined, ◌>>=◌}
use orta_vm.Heap.{to_bytes, of_bytes}
use orta_vm.Allocator.{
  size_t, add_size, sub_size, arena_capacity, guard_size, header_size, align_up, aligned,
  ArenaStats, peak, count_failure, count_allocation, count_freed, count_reset, reset_stats,
}

-- The bytes of the buffer by their offsets. A pointer into the buffer is an offset.
pub record AArena : Type 0 where
  pub buffer : ℕ → ℕ
  pub size : ℕ
  pub stats : ArenaStats

abbrev pub Memory : Type 0
Memory = ℕ → ℕ

unfoldable pub write : ℕ → List ℕ → Memory → Memory
write at [] m i = m i
write at (b ∷ bs) m i = if i == at then b else write (at + 1) bs m i

unfoldable pub read : ℕ → ℕ → Memory → List ℕ
read at zero m = []
read at (suc n) m = m at ∷ read (at + 1) n m

-- `memset` of `n` bytes.
unfoldable pub fill : ℕ → ℕ → ℕ → Memory → Memory
fill at n v m i = if leb at i && ltb i (at + n) then v else m i

-- `*(uint64_t *)p = 0xCCCCCCCCCCCCCCCC`
abbrev pub guard_bytes : List ℕ
guard_bytes = replicate guard_size 204

-- `CANARY_VALUE`, in four bytes
abbrev pub canary_bytes : List ℕ
canary_bytes = 222 ∷ 192 ∷ 173 ∷ 222 ∷ []

-- The header at `at` and the guard behind the block's `room` bytes.
abbrev pub put_block : ℕ → ℕ → ℕ → Memory → Memory
put_block at size room m =
    write (at + header_size + room) guard_bytes
      (write (at + 8) canary_bytes (write at (to_bytes 8 size) m))

-- `AllocationHeader` stands in front of the pointer.
unfoldable pub aarena_alloc_size : Memory → ℕ → ℕ
unfolding read of_bytes
aarena_alloc_size m ptr = of_bytes (read (ptr - header_size) 8 m)

-- The answer, from what the canary, the place of the guard and the guard are. A read behind the buffer is
-- `undefined`.
abbrev pub verdict : Bool → Bool → Bool → Result Bool
verdict canary fits guard = if canary then (if fits then ok guard else undefined) else ok false

-- With `size` in the header.
abbrev pub check_block : Memory → ℕ → ℕ → Result Bool
check_block m ptr size =
    verdict (str_eq (read (ptr - 8) 4 m) canary_bytes)
      (leb (ptr + aligned size + guard_size) arena_capacity)
      (str_eq (read (ptr + aligned size) guard_size m) guard_bytes)

-- The null pointer answers 0.
unfoldable pub aarena_check_memory : Memory → Option ℕ → Result Bool
unfolding read aarena_alloc_size
aarena_check_memory m none = ok false
aarena_check_memory m (some ptr) = check_block m ptr (aarena_alloc_size m ptr)

unfoldable pub get_next_ptr : Memory → ℕ → ℕ
unfolding aarena_alloc_size
get_next_ptr m ptr = ptr + aligned (aarena_alloc_size m ptr) + guard_size + header_size

abbrev pub fails : AArena → Option ℕ × AArena
fails a = (none, record a { stats = count_failure a.stats })

-- The arena's answers: a pointer or null, and the arena.
abbrev pub Answer : Type 0
Answer = Result (Option ℕ × AArena)

-- Something done with the memory of the block, unless the pointer is null.
abbrev pub with_block : (ℕ → Memory → Result Memory) → Option ℕ × AArena → Answer
with_block use_block (none, a) = ok (none, a)
with_block use_block (some p, a) =
    use_block p a.buffer >>= λ m. ok (some p, record a { buffer = m })

-- Writes that stay in the buffer.
abbrev pub put_bytes : List ℕ → ℕ → Memory → Result Memory
put_bytes bs p m = if leb (p + length bs) arena_capacity then ok (write p bs m) else undefined

-- `buffer` stands at the address `base`.
module _ (base : ℕ) where
  -- What `aligned - current` is, for the end of what is used.
  unfoldable pub padding : ℕ → ℕ → ℕ
  unfolding align_up
  padding align size = sub_size (align_up align (base + size)) (base + size)

  unfoldable pub aarena_alloc : AArena → ℕ → Answer
  unfolding padding write count_allocation count_failure to_bytes
  aarena_alloc a size =
      let at = add_size a.size (padding 16 a.size) in
      let room = aligned size in
      let end = at + header_size + room + guard_size in
      if ltb arena_capacity (add_size (add_size (add_size a.size size) header_size) guard_size)
      then ok (fails a)
      else if leb end arena_capacity
      then ok (
        some (at + header_size),
        record {
          buffer = put_block at size room a.buffer;
          size = end;
          stats = count_allocation size a.stats;
        },
      )
      else undefined

  unfoldable pub aarena_alloc_aligned : AArena → ℕ → ℕ → Answer
  unfolding aarena_alloc
  aarena_alloc_aligned a size align =
      let pad = padding align a.size in
      if ltb arena_capacity (add_size (add_size a.size size) pad)
      then ok (fails a)
      else aarena_alloc (record a { size = add_size a.size pad }) size

  abbrev pub clear : ℕ → ℕ → Memory → Result Memory
  clear total p m = if leb (p + total) arena_capacity then ok (fill p total 0 m) else undefined

  unfoldable pub aarena_calloc : AArena → ℕ → ℕ → Answer
  unfolding aarena_alloc fill
  aarena_calloc a count size =
      let total = count * size % size_t in aarena_alloc a total >>= with_block (clear total)

  unfoldable pub aarena_memdup : AArena → List ℕ → Answer
  unfolding aarena_alloc
  aarena_memdup a src = aarena_alloc a (length src) >>= with_block (put_bytes src)

  unfoldable pub aarena_strdup : AArena → Str → Answer
  unfolding aarena_memdup
  aarena_strdup a str = aarena_memdup a (str ++ (0 ∷ []))

  -- The file's size, and the bytes that `fread` gave; `none` if it does not open.
  unfoldable pub arena_slurp_file : AArena → Option (ℕ × List ℕ) → Answer
  unfolding aarena_alloc
  arena_slurp_file a none = ok (fails a)
  arena_slurp_file a (some (file_size, got)) = aarena_alloc a (add_size file_size 1) >>= λ r.
      if length got == file_size
      then with_block (put_bytes (got ++ (0 ∷ []))) r
      else with_block (put_bytes got) r >>= λ (p, b). ok (none, b)

  -- The block is in the middle of the arena or counts as it: a new one takes its bytes.
  abbrev pub move_block : AArena → ℕ → ℕ → ℕ → Answer
  move_block a p old_size new_size =
      let n = if ltb old_size new_size then old_size else new_size in
      aarena_alloc a new_size >>= λ r.
      with_block
        (λ q m. if leb (p + n) arena_capacity then put_bytes (read p n m) q m else undefined) r

  -- The header's size and the guard of a block that changes its size in place.
  abbrev pub resize : ℕ → ℕ → Memory → Result Memory
  resize p new_size m =
      put_bytes guard_bytes (p + aligned new_size) (write (p - header_size) (to_bytes 8 new_size) m)

  abbrev pub count_growth : ℕ → ArenaStats → ArenaStats
  count_growth diff s =
      let now = add_size s.current_allocated diff in
      record s {
        total_allocated = add_size s.total_allocated diff;
        current_allocated = now;
        peak_allocated = peak now s.peak_allocated;
      }

  abbrev pub resize_in_place : AArena → ℕ → ℕ → ℕ → Answer
  resize_in_place a p old_size new_size =
      let more = aligned new_size - aligned old_size in
      let less = aligned old_size - aligned new_size in
      if ltb (aligned old_size) (aligned new_size)
      then (if ltb arena_capacity (add_size a.size more)
          then ok (fails a)
          else resize p new_size a.buffer >>= λ m. ok (
            some p,
            record {
              buffer = m;
              size = add_size a.size more;
              stats = count_growth (sub_size new_size old_size) a.stats;
            },
          ))
      else resize p new_size a.buffer >>= λ m. ok (
        some p,
        record {
          buffer = m;
          size = sub_size a.size less;
          stats = record (a.stats) {
            current_allocated = sub_size (a.stats).current_allocated (sub_size old_size new_size);
          };
        },
      )

  unfoldable pub aarena_realloc : AArena → Option ℕ → ℕ → ℕ → Answer
  unfolding aarena_alloc
  aarena_realloc a none old_size new_size = aarena_alloc a new_size
  aarena_realloc a (some p) old_size new_size =
      if p + aligned old_size + guard_size + guard_size == a.size
      then resize_in_place a p old_size new_size
      else move_block a p old_size new_size

  unfoldable pub aarena_contains : ℕ → Bool
  aarena_contains ptr = leb base ptr && ltb ptr (base + arena_capacity)

unfoldable pub aarena_reset : AArena → AArena
unfolding count_reset
aarena_reset a = record a { size = 0; stats = count_reset a.stats }

unfoldable pub aarena_free_to : AArena → ℕ → AArena
unfolding count_freed
aarena_free_to a marker =
    if leb marker a.size
    then (record a { size = marker; stats = count_freed (a.size - marker) a.stats })
    else a

unfoldable pub aarena_marker : AArena → ℕ
aarena_marker a = a.size

unfoldable pub aarena_remaining : AArena → ℕ
aarena_remaining a = sub_size arena_capacity a.size

unfoldable pub aarena_reset_stats : AArena → AArena
unfolding reset_stats
aarena_reset_stats a = record a { stats = reset_stats a.stats }
