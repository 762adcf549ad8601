-- ===== src/Allocator/Region/Bounds.antt =====
-- The blocks of a region stand within it and apart.
use orta_vm.Prelude.{
  ℕ, ◌+◌, ◌-◌, ◌≤◌, ◌≡◌, ◌⊎◌, inl, inr, refl, sym, ap, ◌∙◌, arith, Bool, true, false, Option, none,
  some, List, [], ◌∷◌, All, ltb, leb, if◌then◌else◌,
}
use mathlib.Core.Path.{subst, ap₂}
use orta_vm.Allocator.{
  add_size, arena_capacity, aligned, ArenaStats, count_failure, count_allocation, count_freed,
}
use orta_vm.Allocator.Region.{ARegion, from_start, region_alloc, region_marker, region_free_to}

-- A region within an arena: what is used of it is no more than its size.
pub record IsRegion (start : ℕ) (r : ARegion) : Type 0 where
  pub starts : r.start ≡ some start
  pub used : r.offset ≤ r.size
  pub inside : start + r.size ≤ arena_capacity

-- The blocks for these sizes, those that were given, and the region behind them.
abbrev block : Option ℕ → ℕ → List (ℕ × ℕ) → List (ℕ × ℕ)
block none n bs = bs
block (some p) n bs = (p, n) ∷ bs

unfoldable pub allocate : ARegion → List ℕ → List (ℕ × ℕ) × ARegion
unfolding region_alloc
allocate r [] = ([], r)
allocate r (n ∷ ns) =
    let (p, r₁) = region_alloc r n in let (bs, r₂) = allocate r₁ ns in (block p n bs, r₂)

-- Blocks one behind the other, from `low` on and up to `high`.
abbrev pub Apart : ℕ → ℕ → List (ℕ × ℕ) → Type 0
Apart low high [] = low ≤ high
Apart low high ((p, n) ∷ bs) = (low ≤ p) × Apart (p + n) high bs

-- A size whose sum with the alignment and an offset does not wrap.
abbrev pub IsSmall : ℕ → Type 0
IsSmall n = n ≤ 9223372036854775808

lower :
    (low low' high : ℕ) (bs : List (ℕ × ℕ)) → low ≤ low' → Apart low' high bs → Apart low high bs
lower low low' high [] h v = omega (arith, h, v)
lower low low' high ((p, n) ∷ bs) h (l, v) = (omega (arith, h, l), v)

-- One allocation: it fails and changes nothing but the stats, or gives a block behind the used part.
record Steps (start n : ℕ) (r : ARegion) (x : Option ℕ × ARegion) : Type 0 where
  region : IsRegion start (x.1)
  same_size : (x.1).size ≡ r.size
  later : r.offset ≤ (x.1).offset
  given : (x.0 ≡ none) ⊎ ((x.0 ≡ some (start + r.offset)) × (r.offset + n ≤ (x.1).offset))

if-Steps :
    (start n : ℕ) (r : ARegion) (b : Bool) (x y : Option ℕ × ARegion)
    → (b ≡ true → Steps start n r x)
    → (b ≡ false → Steps start n r y)
    → Steps start n r (if b then x else y)
if-Steps start n r true x y h k = h refl
if-Steps start n r false x y h k = k refl

region_alloc-Steps :
    (start n : ℕ) (r : ARegion) → IsSmall n → IsRegion start r → Steps start n r (region_alloc r n)
unfolding region_alloc
region_alloc-Steps start n r h v =
    if-Steps start n r (ltb r.size (add_size r.offset (aligned n))) _ _
      (λ full. record {
        region = record { starts = v.starts; used = v.used; inside = v.inside };
        same_size = refl;
        later = omega arith;
        given = inl refl;
      })
      (λ room.
        let fits : r.offset + aligned n ≤ r.size = ground (arith, room, h, v.used, v.inside) in
        record {
          region = record {
            starts = v.starts;
            used = omega (arith, fits, v.inside);
            inside = v.inside;
          };
          same_size = refl;
          later = omega (arith, fits, v.inside);
          given = inr (ap (λ s. from_start s r.offset) v.starts, omega (arith, fits, h, v.inside));
        })

-- The block in front of those behind it.
put :
    (start n : ℕ) (r : ARegion) (offset : ℕ)
    → r.offset ≤ offset
    → (p : Option ℕ) → (p ≡ none) ⊎ ((p ≡ some (start + r.offset)) × (r.offset + n ≤ offset))
    → (high : ℕ) (bs : List (ℕ × ℕ)) → Apart (start + offset) high bs
    → Apart (start + r.offset) high (block p n bs)
put start n r offset later p (inl e) high bs v =
    rw e (lower (start + r.offset) (start + offset) high bs (omega (arith, later)) v)
put start n r offset later p (inr (e, w)) high bs v =
    rw e (omega arith, lower (start + r.offset + n) (start + offset) high bs (omega (arith, w)) v)

-- The blocks that are given in a row stand apart within the region, each as long as was asked for, from
-- the used part on: for sizes up to 2 ^ 63 and a region within an arena.
pub allocate-Apart :
    (start : ℕ) (r : ARegion) (sizes : List ℕ)
    → IsRegion start r
    → All IsSmall sizes
    → Apart (start + r.offset) (start + r.size) (allocate r sizes).0
unfolding allocate
allocate-Apart start r [] v small = omega (arith, v.used)
allocate-Apart start r (n ∷ ns) v (h, hs) =
    let s = region_alloc-Steps start n r h v in
    let (p, r') = region_alloc r n in
    let rest : Apart (start + r'.offset) (start + r'.size) (allocate r' ns).0 =
      allocate-Apart start r' ns s.region hs in
    let below : Apart (start + r'.offset) (start + r.size) (allocate r' ns).0 =
      subst (λ z. Apart (start + r'.offset) (start + z) (allocate r' ns).0) s.same_size rest in
    put start n r r'.offset s.later p s.given (start + r.size) (allocate r' ns).0 below

-- What is not in the stats after the allocations.
allocate-keeps :
    (start : ℕ) (r : ARegion) (sizes : List ℕ)
    → IsRegion start r
    → All IsSmall sizes
    → IsRegion start (allocate r sizes).1
      × ((allocate r sizes).1.size ≡ r.size)
      × (r.offset ≤ (allocate r sizes).1.offset)
unfolding allocate
allocate-keeps start r [] v small = (v, refl, omega arith)
allocate-keeps start r (n ∷ ns) v (h, hs) =
    let s = region_alloc-Steps start n r h v in
    let (w, same, later) = allocate-keeps start (region_alloc r n).1 ns s.region hs in
    (w, same ∙ s.same_size, omega (arith, later, s.later))

-- The stats have no part in an allocation.
abbrev with_stats : ARegion → ArenaStats → ARegion
with_stats r s = record r { stats = s }

abbrev given : ARegion → ℕ → Bool → Option ℕ × ARegion
given r n full = if full then (none, record r { stats = count_failure r.stats }) else (
  from_start r.start r.offset,
  record r { offset = add_size r.offset (aligned n); stats = count_allocation n r.stats },
)

abbrev Same : ARegion → ArenaStats → ℕ → Bool → Type 0
Same r s n full =
    ((given (with_stats r s) n full).0 ≡ (given r n full).0)
    × ((given (with_stats r s) n full).1
        ≡ with_stats (given r n full).1 (given (with_stats r s) n full).1.stats)

region_alloc-stats :
    (r : ARegion) (s : ArenaStats) (n : ℕ)
    → ((region_alloc (with_stats r s) n).0 ≡ (region_alloc r n).0)
      × ((region_alloc (with_stats r s) n).1
          ≡ with_stats (region_alloc r n).1 (region_alloc (with_stats r s) n).1.stats)
unfolding region_alloc
region_alloc-stats r s n =
    elim (ltb r.size (add_size r.offset (aligned n))) as (λ b. Same r s n b) [
      | true ↦ (refl, refl)
      | false ↦ (refl, refl)
    ]

-- The blocks given from a region, whatever its stats.
allocate-stats :
    (r : ARegion) (s : ArenaStats) (sizes : List ℕ)
    → (allocate (with_stats r s) sizes).0 ≡ (allocate r sizes).0
unfolding allocate
allocate-stats r s [] = refl
allocate-stats r s (n ∷ ns) =
    let (p, rest) = region_alloc-stats r s n in
    let t = (region_alloc (with_stats r s) n).1.stats in
    ap₂ (λ o x. block o n (allocate x ns).0) p rest
    ∙ ap (block (region_alloc r n).0 n) (allocate-stats (region_alloc r n).1 t ns)

given_back :
    (r end : ARegion)
    → end.start ≡ r.start
    → end.size ≡ r.size
    → r.offset ≤ end.offset
    → region_free_to end r.offset ≡ with_stats r (region_free_to end r.offset).stats
unfolding region_free_to
given_back r end e e' h =
    let fits : leb r.offset end.offset ≡ true = ground (arith, h) in
    rw fits (
      ap₂
        (λ x y. record {
          stats = count_freed (end.offset - r.offset) end.stats;
          start = x;
          size = y;
          offset = r.offset;
        })
        e e')

-- Giving back everything behind a marker undoes what was allocated since: the same requests are given the same
-- blocks again, for sizes up to 2 ^ 63 and a region within an arena.
pub allocate-region_free_to :
    (start : ℕ) (r : ARegion) (sizes again : List ℕ)
    → IsRegion start r
    → All IsSmall sizes
    → (allocate (region_free_to (allocate r sizes).1 (region_marker r)) again).0
      ≡ (allocate r again).0
unfolding region_marker
allocate-region_free_to start r sizes again v small =
    let end = (allocate r sizes).1 in
    let (w, same, later) = allocate-keeps start r sizes v small in
    ap (λ x. (allocate x again).0) (given_back r end (w.starts ∙ sym v.starts) same later)
    ∙ allocate-stats r (region_free_to end r.offset).stats again
