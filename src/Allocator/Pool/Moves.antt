-- ===== src/Allocator/Pool/Moves.antt =====
-- How the operations of a pool move its blocks between its clients and its list.
use orta_vm.Prelude.{
  ℕ, zero, suc, ◌+◌, ◌-◌, ◌*◌, ◌%◌, ◌<◌, ◌≡◌, refl, sym, ap, ◌∙◌, arith, true, false, none, some,
  List, [], ◌∷◌, ◌++◌, length, length-append, ◌||◌, ltb, leb, ◌==◌,
}
use mathlib.Core.Path.{subst}
use mathlib.Core.Logic.{∥∥₁_elim}
use mathlib.Core.List.{
  Perm, Nodup, Nodup-cons, Mem, mem-append_right, mem-cons_self, perm_middle, Permᴰ,
}
use mathlib.Core.List.Perm
use mathlib.Core.List.Nodup
use native.Mathlib.Nat.{mul-le-mul_right}
use orta_vm.Allocator.{size_t, sub_size, pool_size, count_freed}
use orta_vm.Allocator.Pool.{APool, set_next, pool_at, alloc_from, apool_free}
use orta_vm.Allocator.Pool.Chains.{
  blocks, Chain, set_next-same, set_next-Chain, block_of, blocks-Nodup, thread_blocks-Chain,
  in_range,
}

-- The blocks of the pool are those that its clients own and those on its list.
pub record Holds (pool : APool) (owned free : List ℕ) : Type 0 where
  pub chain : Chain pool.links pool.free_list free
  pub all : Perm (owned ++ free) (blocks pool.memory pool.block_size pool.total_blocks)
  pub used : pool.used_blocks ≡ length owned
  pub few : pool.total_blocks < size_t
  pub some_size : 0 < pool.block_size
  pub whole : pool.capacity ≡ pool.block_size * pool.total_blocks

pub pool_at-Holds :
    (p block_size n : ℕ)
    → 0 < block_size
    → pool_size + block_size * n < size_t
    → Holds (pool_at p block_size n) [] (blocks (p + pool_size) block_size n)
pool_at-Holds p block_size n pos few = record {
  chain = thread_blocks-Chain (p + pool_size) block_size n _ pos;
  all = Perm.rfl;
  used = refl;
  few = omega (arith, few, pos, mul-le-mul_right n pos);
  some_size = pos;
  whole = omega (arith, few);
}

-- Distinct: no block is owned twice, or owned and free.
pub distinct : (pool : APool) (owned free : List ℕ) → Holds pool owned free → Nodup (owned ++ free)
distinct pool owned free v =
    Perm.nodup (Perm.symm v.all)
      (blocks-Nodup pool.memory pool.block_size pool.total_blocks v.some_size)

same_length : (xs ys : List ℕ) → Perm xs ys → length xs ≡ length ys
same_length xs ys h = ∥∥₁_elim {P = length xs ≡ length ys} h (hlevel) each
  where
    each : {l m : List ℕ} → Permᴰ l m → length l ≡ length m
    each Permᴰ.nil = refl
    each (Permᴰ.cons e π) = ap suc (each π)
    each (Permᴰ.swap e e') = refl
    each (Permᴰ.trans π ρ) = each π ∙ each ρ

length-blocks : (memory block_size n : ℕ) → length (blocks memory block_size n) ≡ n
length-blocks memory block_size zero = refl
length-blocks memory block_size (suc n) = ap suc (length-blocks memory block_size n)

-- Each block is owned or free.
pub owned-few :
    (pool : APool) (owned free : List ℕ)
    → Holds pool owned free
    → length owned + length free ≡ pool.total_blocks
owned-few pool owned free v =
    sym (length-append owned free)
    ∙ same_length _ _ v.all
    ∙ length-blocks pool.memory pool.block_size pool.total_blocks

pub taken-Holds :
    (pool : APool) (owned : List ℕ) (p : ℕ) (free : List ℕ)
    → Holds pool owned (p ∷ free)
    → Holds (alloc_from pool (some p)).1 (p ∷ owned) free
unfolding Chain
taken-Holds pool owned p free v = record {
  chain =
      set_next-Chain pool.links p none (pool.links p) free
        (Nodup-cons.0 (Nodup.of_append_right owned (distinct pool owned (p ∷ free) v))).0
        (v.chain.1);
  all = Perm.trans (Perm.symm (perm_middle owned free)) v.all;
  used = omega (arith, v.used, v.few, owned-few pool owned (p ∷ free) v);
  few = v.few;
  some_size = v.some_size;
  whole = v.whole;
}

-- The pool with `p` on its list again.
abbrev pub with_freed : APool → ℕ → APool
with_freed pool p = record pool {
  free_list = some p;
  links = set_next p pool.free_list pool.links;
  used_blocks = sub_size pool.used_blocks 1;
  stats = count_freed pool.block_size pool.stats;
}

moved :
    (xs ys : List ℕ) (p : ℕ) (free : List ℕ)
    → Perm ((xs ++ (p ∷ ys)) ++ free) (p ∷ ((xs ++ ys) ++ free))
moved xs ys p free = Perm.append_right free (perm_middle xs ys)

pub freed-Holds :
    (pool : APool) (xs ys : List ℕ) (p : ℕ) (free : List ℕ)
    → Holds pool (xs ++ (p ∷ ys)) free
    → Holds (with_freed pool p) (xs ++ ys) (p ∷ free)
unfolding Chain
freed-Holds pool xs ys p free v = record {
  chain = (
    refl,
    subst (λ f. Chain (set_next p pool.free_list pool.links) f free)
        (sym (set_next-same pool.links p pool.free_list))
        (set_next-Chain pool.links p pool.free_list pool.free_list free
          (λ m.
            (Nodup-cons.0
                (Perm.nodup (moved xs ys p free) (distinct pool (xs ++ (p ∷ ys)) free v))).0
              (mem-append_right (xs ++ ys) m))
          v.chain),
  );
  all =
      Perm.trans (Perm.trans (perm_middle (xs ++ ys) free) (Perm.symm (moved xs ys p free))) v.all;
  used = omega (
    arith,
    v.used,
    v.few,
    length-append xs (p ∷ ys),
    length-append xs ys,
    owned-few pool (xs ++ (p ∷ ys)) free v,
  );
  few = v.few;
  some_size = v.some_size;
  whole = v.whole;
}

tests :
    (pool : APool) (p : ℕ)
    → Mem p (blocks pool.memory pool.block_size pool.total_blocks)
    → 0 < pool.block_size
    → pool.capacity ≡ pool.block_size * pool.total_blocks
    → ((ltb p pool.memory || leb (pool.memory + pool.capacity) p) ≡ false)
      × (((p - pool.memory) % pool.block_size == 0) ≡ true)
tests pool p m pos whole = ∥∥₁_elim {P = IsBlock} m (hlevel) (λ d.
    let (k, l, e) = block_of pool.memory pool.block_size pool.total_blocks p d in
    rw whole (in_range pool.memory pool.block_size pool.total_blocks k p pos l e))
  where
    IsBlock : Type 0
    IsBlock =
        ((ltb p pool.memory || leb (pool.memory + pool.capacity) p) ≡ false)
        × (((p - pool.memory) % pool.block_size == 0) ≡ true)

-- A block that is owned passes the tests of `apool_free`.
pub apool_free-owned :
    (pool : APool) (xs ys : List ℕ) (p : ℕ) (free : List ℕ)
    → Holds pool (xs ++ (p ∷ ys)) free
    → apool_free pool (some p) ≡ with_freed pool p
unfolding apool_free
apool_free-owned pool xs ys p free v =
    let m : Mem p (blocks pool.memory pool.block_size pool.total_blocks) =
      Perm.subset v.all p (Perm.subset (Perm.symm (moved xs ys p free)) p mem-cons_self) in
    let (inside, whole) = tests pool p m v.some_size v.whole in rw inside (rw whole refl)
