-- ===== src/RegionPool/Disjoint.antt =====
-- The check for overlaps in `region_pool_add_region` (cleanq/region_pool.c).
use cleanq_linux.Base.{
  ℕ, zero, suc, ◌+◌, ◌%◌, ◌^◌, ◌<◌, ◌≤◌, ◌≡◌, ◌≢◌, refl, sym, ◌∙◌, inl, inr, ap, [], ◌∷◌, none,
  some, done, Bool, true, false, ◌||◌, arith,
}
use cleanq_linux.Types.{u64, ok, Capref}
use cleanq_linux.Slab.{SlabAllocator, slab_alloc}
use cleanq_linux.RegionPool.{
  RegionPool, RegionRef, Region, Slots, Memory, overlaps, conflicts, region_pool_add_region,
}
use cleanq_linux.RegionPool.Slots.{Held}
use cleanq_linux.RegionPool.Invariant.{IsValid}
use cleanq_linux.RegionPool.Insert.{entry}
use cleanq_linux.RegionPool.Add.{HasRoom, Added, region_pool_add_region-Added}

-- the address lies in the `len` bytes from `base` on
abbrev pub In : ℕ → ℕ → ℕ → Type 0
In a base len = (base ≤ a) × (a < base + len)

-- No address lies in both regions.
abbrev pub Disjoint : Region → Region → Type 0
Disjoint r s = (a : ℕ) → ¬ (In a r.base_addr r.len × In a s.base_addr s.len)

-- The region ends within 64 bits.
abbrev pub Ends : Region → Type 0
Ends r = r.base_addr + r.len < 2 ^ 64

-- All regions of the table end within 64 bits, and no two of them share an address.
pub record AllDisjoint (slots : Slots) : Type 0 where
  pub ends : (r : RegionRef) → Held slots r → Ends r.region
  pub apart :
      (r s : RegionRef)
      → Held slots r
      → Held slots s
      → r.region.id ≢ s.region.id
      → Disjoint r.region s.region

overlaps-Disjoint :
    (cap : Capref) (r : Region) (a : ℕ)
    → cap.paddr + cap.len < 2 ^ 64
    → Ends r
    → overlaps cap r ≡ false
    → ¬ (In a cap.paddr cap.len × In a r.base_addr r.len)
unfolding overlaps
overlaps-Disjoint cap r a small ends none_found ((lo, hi), (lo', hi')) =
    let e : u64 (cap.paddr + cap.len) ≡ cap.paddr + cap.len = omega arith in
    let e' : u64 (r.base_addr + r.len) ≡ r.base_addr + r.len = omega arith in
    ground (arith, rw (e, e') at none_found)

or_false : (b c : Bool) → b || c ≡ false → (b ≡ false) × (c ≡ false)
or_false true c e = cc
or_false false c e = (refl, e)

-- A table without conflict holds no region that shares an address with the new one.
conflicts-Disjoint :
    (slots : Slots) (cap : Capref) (r : RegionRef) (a : ℕ)
    → cap.paddr + cap.len < 2 ^ 64
    → conflicts slots cap ≡ false
    → Held slots r
    → Ends r.region
    → ¬ (In a cap.paddr cap.len × In a r.region.base_addr r.region.len)
unfolding conflicts
conflicts-Disjoint [] cap r a small c (i, e) ends both = cc
conflicts-Disjoint (none ∷ slots) cap r a small c (zero, e) ends both = cc
conflicts-Disjoint (none ∷ slots) cap r a small c (suc i, e) ends both =
    conflicts-Disjoint slots cap r a small c (i, e) ends both
conflicts-Disjoint (some s ∷ slots) cap r a small c (zero, e) ends both =
    let same : s.region ≡ r.region = cc in
    let clear : overlaps cap r.region ≡ false = ap (overlaps cap) (sym same) ∙ (or_false _ _ c).0 in
    overlaps-Disjoint cap r.region a small ends clear both
conflicts-Disjoint (some s ∷ slots) cap r a small c (suc i, e) ends both =
    conflicts-Disjoint slots cap r a small (or_false _ _ c).1 (i, e) ends both

module _ (memory : Memory) (p : RegionPool) (cap : Capref) (v : IsValid p) (b : ℕ)
    (alloc : SlabAllocator) (got : slab_alloc memory.malloc p.region_alloc ≡ done (some b, alloc))
    (free : conflicts p.pool cap ≡ false) (small : cap.paddr + cap.len < 2 ^ 64) where
  Added-AllDisjoint :
      (q : RegionPool) (rid : ℕ) → Added p q cap rid b → AllDisjoint p.pool → AllDisjoint q.pool
  Added-AllDisjoint q rid added d = record {
    ends = λ r held. elim (added.origin r held) [ inl new ↦ rw new small | inr old ↦ d.ends r old ];
    apart = λ r s hr hs ne a both. elim (added.origin r hr) [
      | inl new ↦ elim (added.origin s hs) [
        | inl new' ↦ absurd (ne (ap (λ x. x.region.id) (new ∙ sym new')))
        | inr old' ↦
            conflicts-Disjoint p.pool cap s a small free old' (d.ends s old') (rw new at both)
      ]
      | inr old ↦ elim (added.origin s hs) [
        | inl new' ↦ conflicts-Disjoint p.pool cap r a small free old (d.ends r old) (
            let swapped : In a s.region.base_addr s.region.len
                × In a r.region.base_addr r.region.len =
              (both.1, both.0) in
            rw new' at swapped)
        | inr old' ↦ d.apart r s old old' ne a both
      ]
    ];
  }

  -- On a valid pool whose regions share no address, `region_pool_add_region` of a region that ends
  -- within 64 bits and does not conflict, with room and a block, ends with no error, and no two
  -- regions of the new pool share an address.
  pub add_region-AllDisjoint :
      HasRoom memory p
      → AllDisjoint p.pool
      → (rid : ℕ) × (q : RegionPool) × (region_pool_add_region memory p cap
          ≡ done (ok, some rid, q))
        × Held q.pool (entry b cap rid)
        × AllDisjoint q.pool
  add_region-AllDisjoint room d =
      let (rid, q, run, added) =
        region_pool_add_region-Added memory p cap v b alloc got free room in
      (rid, q, run, (rid % q.size, added.here), Added-AllDisjoint q rid added d)
