-- ===== src/Allocator/Arena/Guards.antt =====
-- What `aarena_check_memory` tells of the writes of a client that holds a block.
use orta_vm.Prelude.{
  ℕ, zero, suc, ◌+◌, ◌-◌, ◌≤◌, ◌<◌, ◌≡◌, ◌≢◌, inl, inr, sym, ap, ◌∙◌, arith, true, false, some,
  List, [], ◌∷◌, length, leb, str_eq, ◌==◌, Bool-cases,
}
use orta_vm.Result.{ok}
use orta_vm.Result.Ensures.{Ensures}
use orta_vm.Heap.{to_bytes, of_bytes}
use orta_vm.Heap.Laws.{of_bytes-to_bytes}
use orta_vm.Allocator.{size_t, arena_capacity, guard_size, header_size, aligned}
use orta_vm.Allocator.Arena.{
  AArena, Memory, write, read, guard_bytes, canary_bytes, verdict, check_block, aarena_alloc_size,
  aarena_check_memory, aarena_alloc,
}
use orta_vm.Allocator.Arena.Blocks.{IsGuarded, IsBlock, read-outside, aarena_alloc-Allocated}

-- Another byte at an address that is read is seen.
read-changed :
    (at k i c : ℕ) (m : Memory)
    → at ≤ i
    → i < at + k
    → c ≢ m i
    → str_eq (read at k (write i (c ∷ []) m)) (read at k m) ≡ false
unfolding read write
read-changed at zero i c m l u d = absurd (omega (arith, l, u))
read-changed at (suc k) i c m l u d = elim (Bool-cases (at == i)) [
  | inl e ↦ ground (arith, e, d)
  | inr e ↦ ground (arith, read-changed (at + 1) k i c m, e, l, u, d)
]

-- The parts of a block, as `aarena_check_memory` reads them.
module _ (m : Memory) (p n : ℕ) where
  size-read : n < size_t → read (p - header_size) 8 m ≡ to_bytes 8 n → aarena_alloc_size m p ≡ n
  unfolding aarena_alloc_size
  size-read small h = ap of_bytes h ∙ of_bytes-to_bytes 8 n (omega (arith, small))

  check-parts :
      n < size_t
      → p + aligned n + guard_size ≤ arena_capacity
      → read (p - header_size) 8 m ≡ to_bytes 8 n
      → aarena_check_memory m (some p)
        ≡ verdict
            (str_eq (read (p - 8) 4 m) canary_bytes)
            true
            (str_eq (read (p + aligned n) guard_size m) guard_bytes)
  unfolding aarena_check_memory
  check-parts small inside h =
      let fits : leb (p + aligned n + guard_size) arena_capacity ≡ true = ground (arith, inside) in
      ap (check_block m p) (size-read small h)
      ∙ ap
          (λ x.
            verdict (str_eq (read (p - 8) 4 m) canary_bytes) x
              (str_eq (read (p + aligned n) guard_size m) guard_bytes))
          fits

-- Where the canary and the guard of a block stand.
pub data IsGuard (p n i : ℕ) : Type 0 where
  in_canary : p - 8 ≤ i → i < p - 4 → IsGuard p n i
  in_guard : p + aligned n ≤ i → i < p + aligned n + guard_size → IsGuard p n i

module _ (m : Memory) (p n : ℕ) (small : n < size_t) (front : header_size ≤ p)
    (inside : p + aligned n + guard_size ≤ arena_capacity) (v : IsGuarded m p n) where
  -- A write within the block leaves the header, the canary and the guard.
  write-accepted :
      (to : ℕ) (bs : List ℕ)
      → p ≤ to
      → to + length bs ≤ p + aligned n
      → aarena_check_memory (write to bs m) (some p) ≡ ok true
  write-accepted to bs l u =
      let header =
        read-outside (p - header_size) 8 to bs m (inl (omega (arith, l, front))) ∙ v.header in
      let canary = read-outside (p - 8) 4 to bs m (inl (omega (arith, l, front))) ∙ v.canary in
      let guard = read-outside (p + aligned n) guard_size to bs m (inr u) ∙ v.guard in
      check-parts (write to bs m) p n small inside header
      ∙ ap
          (λ x.
            verdict (str_eq x canary_bytes) true
              (str_eq (read (p + aligned n) guard_size (write to bs m)) guard_bytes))
          canary
      ∙ ap (λ x. ok (str_eq x guard_bytes)) guard

  changed-refused :
      (i c : ℕ)
      → IsGuard p n i
      → c ≢ m i
      → aarena_check_memory (write i (c ∷ []) m) (some p) ≡ ok false
  changed-refused i c (in_canary l u) d =
      let header =
        read-outside (p - header_size) 8 i (c ∷ []) m (inl (omega (arith, l, front))) ∙ v.header in
      let differs =
        ap (str_eq (read (p - 8) 4 (write i (c ∷ []) m))) (sym v.canary)
        ∙ read-changed (p - 8) 4 i c m l (omega (arith, u, front)) d in
      check-parts (write i (c ∷ []) m) p n small inside header
      ∙ ap
          (λ x.
            verdict x true
              (str_eq (read (p + aligned n) guard_size (write i (c ∷ []) m)) guard_bytes))
          differs
  changed-refused i c (in_guard l u) d =
      let header =
        read-outside (p - header_size) 8 i (c ∷ []) m (inl (omega (arith, l, front))) ∙ v.header in
      let canary = read-outside (p - 8) 4 i (c ∷ []) m (inl (omega (arith, l, front))) ∙ v.canary in
      let differs =
        ap (str_eq (read (p + aligned n) guard_size (write i (c ∷ []) m))) (sym v.guard)
        ∙ read-changed (p + aligned n) guard_size i c m l u d in
      check-parts (write i (c ∷ []) m) p n small inside header
      ∙ ap
          (λ x.
            verdict (str_eq x canary_bytes) true
              (str_eq (read (p + aligned n) guard_size (write i (c ∷ []) m)) guard_bytes))
          canary
      ∙ ap ok differs

-- Of a block that `aarena_alloc` has given, `aarena_alloc_size` reads the size that was asked for,
-- `aarena_check_memory` finds nothing wrong after any write within its room, and after a write of another byte
-- into its canary or its guard it reports the block: for sizes up to 2 ^ 63, a used part within the buffer, and a
-- buffer in the lower half of the addresses.
pub aarena_check_memory-aarena_alloc :
    (base : ℕ) (a b : AArena) (n p to : ℕ) (bs : List ℕ) (i c : ℕ)
    → base + arena_capacity < 9223372036854775808
    → a.size ≤ arena_capacity
    → n ≤ 9223372036854775808
    → aarena_alloc base a n ≡ ok (some p, b)
    → p ≤ to
    → to + length bs ≤ p + aligned n
    → IsGuard p n i
    → c ≢ b.buffer i
    → (aarena_alloc_size b.buffer p ≡ n)
      × (aarena_check_memory (write to bs b.buffer) (some p) ≡ ok true)
      × (aarena_check_memory (write i (c ∷ []) b.buffer) (some p) ≡ ok false)
unfolding Ensures
aarena_check_memory-aarena_alloc base a b n p to bs i c low used small e l u g d =
    let answer = aarena_alloc-Allocated base a n low used small in
    let block : IsBlock a n p b = rw e at answer in
    let below : n < size_t = omega (arith, small) in
    let front : header_size ≤ p = omega (arith, block.behind) in
    let inside : p + aligned n + guard_size ≤ arena_capacity =
      omega (arith, block.guard_room, block.inside) in
    (
      size-read b.buffer p n below (block.block.header),
      write-accepted b.buffer p n below front inside (block.block) to bs l u,
      changed-refused b.buffer p n below front inside (block.block) i c g d,
    )
