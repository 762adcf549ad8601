-- ===== src/Allocator/Pool/Chains.antt =====
-- The blocks of a pool and the list through the free ones.
use orta_vm.Prelude.{
  ℕ, zero, suc, ◌+◌, ◌-◌, ◌*◌, ◌%◌, ◌≤◌, ◌<◌, ◌≡◌, ◌≢◌, refl, sym, ap, ◌∙◌, arith, true, false,
  Option, none, some, List, [], ◌∷◌, ◌⊎◌, inl, inr, ◌||◌, ltb, leb, ◌==◌, ==_iff,
}
use mathlib.Core.Path.{subst}
use mathlib.Core.Logic.{∥∥₁_elim}
use mathlib.Core.HLevel.{⊥_prop}
use mathlib.Core.List.{Nodup, Nodup-nil, Nodup-cons, Mem, mem-cons_of_mem, Memᴰ}
use mathlib.Core.List.Memᴰ
use native.Mathlib.Nat.{mul_comm, mul-le-mul_right, mul-mod_left}
use orta_vm.Allocator.Pool.{Links, set_next, thread_blocks}

-- The blocks, in the order in which the loop threads them.
abbrev pub blocks : ℕ → ℕ → ℕ → List ℕ
blocks memory block_size zero = []
blocks memory block_size (suc n) = (memory + n * block_size) ∷ blocks memory block_size n

-- The list that begins at `first`.
unfoldable pub Chain : Links → Option ℕ → List ℕ → Type 0
Chain links first [] = first ≡ none
Chain links first (b ∷ bs) = (first ≡ some b) × Chain links (links b) bs

pub set_next-other :
    (links : Links) (p b : ℕ) (next : Option ℕ) → b ≢ p → set_next p next links b ≡ links b
unfolding set_next
set_next-other links p b next n = ground (arith, n)

pub set_next-same : (links : Links) (p : ℕ) (next : Option ℕ) → set_next p next links p ≡ next
unfolding set_next
set_next-same links p next = ground arith

-- A link that is not on the list may change.
pub set_next-Chain :
    (links : Links) (p : ℕ) (next first : Option ℕ) (bs : List ℕ)
    → ¬ Mem p bs
    → Chain links first bs
    → Chain (set_next p next links) first bs
unfolding Chain
set_next-Chain links p next first [] a c = c
set_next-Chain links p next first (b ∷ bs) a (e, c) = (
  e,
  subst (λ f. Chain (set_next p next links) f bs)
      (sym (set_next-other links p b next (λ h. a ∣ Memᴰ.head (sym h) ∣₁)))
      (set_next-Chain links p next (links b) bs (λ m. a (mem-cons_of_mem b m)) c),
)

-- Each is a whole number of blocks behind the first.
pub block_of :
    (memory block_size n p : ℕ)
    → Memᴰ p (blocks memory block_size n)
    → (k : ℕ) × (k < n) × (p ≡ memory + k * block_size)
block_of memory block_size zero p m = absurd (Memᴰ.not-nil m)
block_of memory block_size (suc n) p m = split (Memᴰ.cases_cons m) (block_of memory block_size n p)
  where
    split :
        (p ≡ memory + n * block_size) ⊎ Memᴰ p (blocks memory block_size n)
        → (Memᴰ p (blocks memory block_size n) → (k : ℕ) × (k < n) × (p ≡ memory + k * block_size))
        → (k : ℕ) × (k < suc n) × (p ≡ memory + k * block_size)
    split (inl e) f = (n, omega arith, e)
    split (inr h) f = let (k, l, e) = f h in (k, omega (arith, l), e)

later-new :
    (memory block_size n : ℕ)
    → 0 < block_size
    → ¬ Memᴰ (memory + n * block_size) (blocks memory block_size n)
later-new memory block_size n pos m =
    let (k, l, e) = block_of memory block_size n (memory + n * block_size) m in
    let below : k + 1 ≤ n = omega (arith, l) in
    omega (arith, e, pos, mul-le-mul_right block_size below)

pub blocks-Nodup : (memory block_size n : ℕ) → 0 < block_size → Nodup (blocks memory block_size n)
blocks-Nodup memory block_size zero pos = Nodup-nil
blocks-Nodup memory block_size (suc n) pos = Nodup-cons.1 (
  (λ m. ∥∥₁_elim m ⊥_prop (later-new memory block_size n pos)),
  blocks-Nodup memory block_size n pos,
)

-- The list that the loop makes is that of all blocks.
pub thread_blocks-Chain :
    (memory block_size n : ℕ) (links : Links)
    → 0 < block_size
    → Chain
        (thread_blocks memory block_size links n).1
        (thread_blocks memory block_size links n).0
        (blocks memory block_size n)
unfolding thread_blocks Chain
thread_blocks-Chain memory block_size zero links pos = refl
thread_blocks-Chain memory block_size (suc n) links pos =
    let p = memory + n * block_size in
    let (first, before) = thread_blocks memory block_size links n in
    (
      refl,
      subst (λ f. Chain (set_next p first before) f (blocks memory block_size n))
          (sym (set_next-same before p first))
          (set_next-Chain before p first first (blocks memory block_size n)
            (λ m. ∥∥₁_elim m ⊥_prop (later-new memory block_size n pos))
            (thread_blocks-Chain memory block_size n links pos)),
    )

-- What every block passes in `apool_free`.
pub in_range :
    (memory block_size n k p : ℕ)
    → 0 < block_size
    → k < n
    → p ≡ memory + k * block_size
    → ((ltb p memory || leb (memory + block_size * n) p) ≡ false)
      × (((p - memory) % block_size == 0) ≡ true)
in_range memory block_size n k p pos l e =
    let below : k + 1 ≤ n = omega (arith, l) in
    let offset : p - memory ≡ k * block_size = omega (arith, e) in
    (
      ground (arith, e, pos, mul-le-mul_right block_size below, mul_comm block_size n),
      (==_iff _ 0).1 (ap (λ x. x % block_size) offset ∙ mul-mod_left k block_size),
    )
