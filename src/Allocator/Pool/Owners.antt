-- ===== src/Allocator/Pool/Owners.antt =====
-- Whose the blocks of a pool are: the free ones are on its list, the others belong to its clients.
use orta_vm.Prelude.{
  ℕ, ◌+◌, ◌*◌, ◌<◌, ◌≡◌, refl, sym, ap, ◌∙◌, arith, Option, none, some, List, [], ◌∷◌, ◌++◌, length,
}
use mathlib.Core.Path.{subst}
use mathlib.Core.Option.{some-injective, none-ne-some}
use mathlib.Core.List.{Nodup-cons, Mem, mem-append_left, perm_middle}
use mathlib.Core.List.Perm
use orta_vm.Allocator.{size_t, pool_size}
use orta_vm.Allocator.Pool.{APool, pool_at, alloc_from, apool_alloc, apool_free, apool_reset}
use orta_vm.Allocator.Pool.Chains.{blocks, Chain, thread_blocks-Chain}
use orta_vm.Allocator.Pool.Moves.{
  Holds, pool_at-Holds, distinct, owned-few, taken-Holds, freed-Holds, apool_free-owned,
}

-- What the clients of the pool do, and what they own then.
pub data Owns (start : APool) : APool → List ℕ → Type 0 where
  begins : Owns start start []
  taken :
      (pool : APool) (owned : List ℕ) (p : ℕ)
      → Owns start pool owned
      → (apool_alloc pool).0 ≡ some p
      → Owns start (apool_alloc pool).1 (p ∷ owned)
  refused :
      (pool : APool) (owned : List ℕ)
      → Owns start pool owned
      → (apool_alloc pool).0 ≡ none
      → Owns start (apool_alloc pool).1 owned
  returned :
      (pool : APool) (xs ys : List ℕ) (p : ℕ)
      → Owns start pool (xs ++ (p ∷ ys))
      → Owns start (apool_free pool (some p)) (xs ++ ys)
  emptied :
      (pool : APool) (owned : List ℕ) → Owns start pool owned → Owns start (apool_reset pool) []

-- The state with other stats.
failed-Holds :
    (pool : APool) (owned free : List ℕ)
    → Holds pool owned free
    → Holds (alloc_from pool none).1 owned free
failed-Holds pool owned free v = record {
  chain = v.chain;
  all = v.all;
  used = v.used;
  few = v.few;
  some_size = v.some_size;
  whole = v.whole;
}

reset-Holds :
    (pool : APool) (owned free : List ℕ)
    → Holds pool owned free
    → Holds (apool_reset pool) [] (blocks pool.memory pool.block_size pool.total_blocks)
unfolding apool_reset
reset-Holds pool owned free v = record {
  chain = thread_blocks-Chain pool.memory pool.block_size pool.total_blocks pool.links v.some_size;
  all = Perm.rfl;
  used = refl;
  few = v.few;
  some_size = v.some_size;
  whole = v.whole;
}

-- The list of a pool that has a block to give begins with it.
first_free :
    (pool : APool) (owned : List ℕ) (p : ℕ) (free : List ℕ)
    → Holds pool owned free
    → (apool_alloc pool).0 ≡ some p
    → (rest : List ℕ) × (free ≡ p ∷ rest) × (pool.free_list ≡ some p)
unfolding apool_alloc Chain
first_free pool owned p [] v e =
    absurd (none-ne-some p (sym (ap (λ f. (alloc_from pool f).0) v.chain) ∙ e))
first_free pool owned p (b ∷ bs) v e =
    let same : b ≡ p = some-injective b p (sym (ap (λ f. (alloc_from pool f).0) (v.chain.0)) ∙ e) in
    (bs, ap (λ x. x ∷ bs) same, v.chain.0 ∙ ap some same)

-- And that of a pool that has none is empty.
none_free :
    (pool : APool) (owned free : List ℕ)
    → Holds pool owned free
    → (apool_alloc pool).0 ≡ none
    → (free ≡ []) × (pool.free_list ≡ none)
unfolding apool_alloc Chain
none_free pool owned [] v e = (refl, v.chain)
none_free pool owned (b ∷ bs) v e =
    absurd (none-ne-some b (sym e ∙ ap (λ f. (alloc_from pool f).0) (v.chain.0)))

alloc-from :
    (pool : APool) (f : Option ℕ)
    → pool.free_list ≡ f
    → (apool_alloc pool).1 ≡ (alloc_from pool f).1
unfolding apool_alloc
alloc-from pool f e = ap (λ g. (alloc_from pool g).1) e

-- The pool keeps to its contract, a set of blocks some of which are owned: from a state that keeps to it
-- with nothing owned, and whatever its clients do, who return only blocks that they own, the owned blocks
-- and those that its linked list goes through are together the blocks of the pool in some order, and
-- `used_blocks` is the number of the owned ones.
pub Owns-Holds :
    (start : APool) (all : List ℕ)
    → Holds start [] all
    → (pool : APool) (owned : List ℕ) → Owns start pool owned
    → (free : List ℕ) × Holds pool owned free
Owns-Holds start all s pool owned (begins) = (all, s)
Owns-Holds start all s _ _ (taken pool owned p h e) =
    let (free, v) = Owns-Holds start all s pool owned h in
    let (rest, shape, first) = first_free pool owned p free v e in
    (
      rest,
      rw (alloc-from pool (some p) first)
          (taken-Holds pool owned p rest (subst (Holds pool owned) shape v)),
    )
Owns-Holds start all s _ _ (refused pool owned h e) =
    let (free, v) = Owns-Holds start all s pool owned h in
    (
      free,
      rw (alloc-from pool none (none_free pool owned free v e).1) (failed-Holds pool owned free v),
    )
Owns-Holds start all s _ _ (returned pool xs ys p h) =
    let (free, v) = Owns-Holds start all s pool (xs ++ (p ∷ ys)) h in
    (p ∷ free, rw (apool_free-owned pool xs ys p free v) (freed-Holds pool xs ys p free v))
Owns-Holds start all s _ _ (emptied pool owned h) =
    let (free, v) = Owns-Holds start all s pool owned h in
    (blocks pool.memory pool.block_size pool.total_blocks, reset-Holds pool owned free v)

-- In a new pool of blocks that are not empty and fit in 64 bits, and whatever its clients did, who return
-- only what they own: a block that `apool_alloc` gives is not owned, and if it gives none, the clients
-- own as many blocks as there are.
pub apool_alloc-fresh :
    (p block_size n : ℕ)
    → 0 < block_size
    → pool_size + block_size * n < size_t
    → (pool : APool) (owned : List ℕ) → Owns (pool_at p block_size n) pool owned
    → ((b : ℕ) → (apool_alloc pool).0 ≡ some b → ¬ Mem b owned)
      × ((apool_alloc pool).0 ≡ none → length owned ≡ pool.total_blocks)
apool_alloc-fresh p block_size n pos few pool owned h =
    let (free, v) =
      Owns-Holds (pool_at p block_size n) _ (pool_at-Holds p block_size n pos few) pool owned h in
    (
      λ b e m.
          let (rest, shape, first) = first_free pool owned b free v e in
          let (fresh, others) = Nodup-cons.0 (
            Perm.nodup (perm_middle owned rest)
              (distinct pool owned (b ∷ rest) (subst (Holds pool owned) shape v))) in
          fresh (mem-append_left rest m),
      λ e.
          let (empty, first) = none_free pool owned free v e in
          omega (arith, owned-few pool owned free v, ap length empty),
    )
