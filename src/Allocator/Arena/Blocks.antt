-- ===== src/Allocator/Arena/Blocks.antt =====
-- The blocks of an arena and what guards them.
use orta_vm.Prelude.{
  ℕ, zero, suc, ◌+◌, ◌-◌, ◌≤◌, ◌<◌, ◌≡◌, ◌⊎◌, inl, inr, refl, sym, ap, ◌∙◌, arith, Option, none,
  some, List, [], ◌∷◌, length, ltb, leb,
}
use mathlib.Core.Path.{ap₂}
use orta_vm.Result.Ensures.{Ensures, test-Ensures, ok-Ensures, undefined-Ensures}
use orta_vm.Heap.{to_bytes}
use orta_vm.Heap.Laws.{length-to_bytes}
use orta_vm.Allocator.{add_size, arena_capacity, guard_size, header_size, align_up, aligned}
use orta_vm.Allocator.Arena.{
  AArena, Memory, write, read, guard_bytes, canary_bytes, put_block, fails, padding, aarena_alloc,
}

-- A write changes nothing in front of it or behind it.
pub write-outside :
    (at : ℕ) (bs : List ℕ) (m : Memory) (i : ℕ)
    → (i < at) ⊎ (at + length bs ≤ i)
    → write at bs m i ≡ m i
unfolding write
write-outside at [] m i h = refl
write-outside at (b ∷ bs) m i h = ground (arith, write-outside (at + 1) bs m i, h)

pub read-outside :
    (at n : ℕ) (to : ℕ) (bs : List ℕ) (m : Memory)
    → (at + n ≤ to) ⊎ (to + length bs ≤ at)
    → read at n (write to bs m) ≡ read at n m
unfolding read
read-outside at zero to bs m h = refl
read-outside at (suc n) to bs m h =
    ap₂ (λ x xs. x ∷ xs)
      (write-outside to bs m at (elim h [ inl e ↦ inl (omega (arith, e)) | inr e ↦ inr e ]))
      (read-outside (at + 1) n to bs m
        (elim h [ inl e ↦ inl (omega (arith, e)) | inr e ↦ inr (omega (arith, e)) ]))

read-same :
    (at n : ℕ) (m m' : Memory) → ((i : ℕ) → at ≤ i → m i ≡ m' i) → read at n m ≡ read at n m'
unfolding read
read-same at zero m m' h = refl
read-same at (suc n) m m' h =
    ap₂ (λ x xs. x ∷ xs) (h at (omega arith))
      (read-same (at + 1) n m m' (λ i l. h i (omega (arith, l))))

write-first : (at b : ℕ) (bs : List ℕ) (m : Memory) → write at (b ∷ bs) m at ≡ b
unfolding write
write-first at b bs m = ground arith

write-later :
    (at b : ℕ) (bs : List ℕ) (m : Memory) (i : ℕ)
    → at + 1 ≤ i
    → write at (b ∷ bs) m i ≡ write (at + 1) bs m i
unfolding write
write-later at b bs m i h = ground (arith, h)

read-write : (at : ℕ) (bs : List ℕ) (m : Memory) → read at (length bs) (write at bs m) ≡ bs
unfolding read
read-write at [] m = refl
read-write at (b ∷ bs) m =
    ap₂ (λ x xs. x ∷ xs) (write-first at b bs m)
      (read-same (at + 1) (length bs) (write at (b ∷ bs) m) (write (at + 1) bs m)
          (write-later at b bs m)
        ∙ read-write (at + 1) bs m)

-- A block as `aarena_check_memory` finds it.
pub record IsGuarded (m : Memory) (p n : ℕ) : Type 0 where
  pub header : read (p - header_size) 8 m ≡ to_bytes 8 n
  pub canary : read (p - 8) 4 m ≡ canary_bytes
  pub guard : read (p + aligned n) guard_size m ≡ guard_bytes

-- What a write in front of a block or behind it leaves of the block.
write-IsGuarded :
    (m : Memory) (p n to : ℕ) (bs : List ℕ)
    → header_size ≤ p
    → (to + length bs ≤ p - header_size) ⊎ (p + aligned n + guard_size ≤ to)
    → IsGuarded m p n
    → IsGuarded (write to bs m) p n
write-IsGuarded m p n to bs h o v = record {
  header =
      read-outside (p - header_size) 8 to bs m
        (away (p - header_size) 8 (omega (arith, h)) (omega (arith, h)))
      ∙ v.header;
  canary =
      read-outside (p - 8) 4 to bs m (away (p - 8) 4 (omega (arith, h)) (omega (arith, h)))
      ∙ v.canary;
  guard =
      read-outside (p + aligned n) guard_size to bs m
        (away (p + aligned n) guard_size (omega (arith, h)) (omega arith))
      ∙ v.guard;
}
  where
    away :
        (at k : ℕ)
        → p - header_size ≤ at
        → at + k ≤ p + aligned n + guard_size
        → (at + k ≤ to) ⊎ (to + length bs ≤ at)
    away at k l u = elim o [ inl e ↦ inr (omega (arith, e, l)) | inr e ↦ inl (omega (arith, e, u)) ]

pub put_block-IsGuarded :
    (m : Memory) (at n : ℕ) → IsGuarded (put_block at n (aligned n) m) (at + header_size) n
put_block-IsGuarded m at n =
    let m₁ = write at (to_bytes 8 n) m in
    let m₂ = write (at + 8) canary_bytes m₁ in
    record {
      header =
          ap (λ x. read x 8 (put_block at n (aligned n) m)) (omega arith)
          ∙ read-outside at 8 (at + header_size + aligned n) guard_bytes m₂ (inl (omega arith))
          ∙ read-outside at 8 (at + 8) canary_bytes m₁ (inl (omega arith))
          ∙ ap (λ k. read at k m₁) (sym (length-to_bytes 8 n))
          ∙ read-write at (to_bytes 8 n) m;
      canary =
          ap (λ x. read x 4 (put_block at n (aligned n) m)) (omega arith)
          ∙ read-outside (at + 8) 4 (at + header_size + aligned n) guard_bytes m₂
              (inl (omega arith))
          ∙ read-write (at + 8) canary_bytes m₁;
      guard = read-write (at + header_size + aligned n) guard_bytes m₂;
    }

-- What `aarena_alloc` answers: no block, or a guarded one behind what was used before.
pub record IsBlock (a : AArena) (n p : ℕ) (b : AArena) : Type 0 where
  pub block : IsGuarded b.buffer p n
  pub behind : a.size + header_size ≤ p
  pub room : p + n + guard_size ≤ b.size
  pub guard_room : p + aligned n + guard_size ≤ b.size
  pub inside : b.size ≤ arena_capacity
  pub others :
      (q k : ℕ)
      → header_size ≤ q
      → q + aligned k + guard_size ≤ a.size
      → IsGuarded a.buffer q k
      → IsGuarded b.buffer q k

abbrev pub Allocated : AArena → ℕ → Option ℕ × AArena → Type 0
Allocated a n (none, b) = (b.size ≡ a.size) × (b.buffer ≡ a.buffer)
Allocated a n (some p, b) = IsBlock a n p b

put_block-others :
    (m : Memory) (at n q k : ℕ)
    → header_size ≤ q
    → q + aligned k + guard_size ≤ at
    → IsGuarded m q k
    → IsGuarded (put_block at n (aligned n) m) q k
put_block-others m at n q k h l v =
    let m₁ = write at (to_bytes 8 n) m in
    let m₂ = write (at + 8) canary_bytes m₁ in
    write-IsGuarded m₂ q k (at + header_size + aligned n) guard_bytes h (inr (omega (arith, l))) (
      write-IsGuarded m₁ q k (at + 8) canary_bytes h (inr (omega (arith, l)))
        (write-IsGuarded m q k at (to_bytes 8 n) h (inr l) v))

-- The padding is less than 16 bytes.
padding-few : (base size : ℕ) → base + size < 9223372036854775808 → padding base 16 size < 16
unfolding padding align_up
padding-few base size h = omega (arith, h)

-- Unless the block would end behind the buffer, where C defines nothing, `aarena_alloc` gives no block
-- and leaves the memory and the used part as they are, or gives a block that stands behind all that was
-- used, has room for its size and the guard in the used part, which stays in the buffer, and is guarded,
-- and every block in the old used part that was guarded still is: for sizes up to 2 ^ 63, a used part
-- within the buffer, and a buffer in the lower half of the addresses.
pub aarena_alloc-Allocated :
    (base : ℕ) (a : AArena) (n : ℕ)
    → base + arena_capacity < 9223372036854775808
    → a.size ≤ arena_capacity
    → n ≤ 9223372036854775808
    → Ensures (Allocated a n) (aarena_alloc base a n)
unfolding aarena_alloc
aarena_alloc-Allocated base a n low used small =
    let pad : padding base 16 a.size < 16 = padding-few base a.size (omega (arith, low, used)) in
    let at = add_size a.size (padding base 16 a.size) in
    test-Ensures (Allocated a n)
      (ltb arena_capacity (add_size (add_size (add_size a.size n) header_size) guard_size)) _ _
      (λ full. ok-Ensures (Allocated a n) (fails a) (refl, refl))
      (λ fits.
        test-Ensures (Allocated a n)
          (leb (at + header_size + aligned n + guard_size) arena_capacity) _ _
          (λ inside. ok-Ensures (Allocated a n) _ (record {
            block = put_block-IsGuarded a.buffer at n;
            behind = omega (arith, pad, used);
            room = omega (arith, small);
            guard_room = omega arith;
            inside = ground (arith, inside);
            others =
                λ q k h l v. put_block-others a.buffer at n q k h (omega (arith, l, pad, used)) v;
          }))
          (λ outside. undefined-Ensures (Allocated a n)))
