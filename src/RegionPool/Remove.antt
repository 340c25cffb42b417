-- ===== src/RegionPool/Remove.antt =====
-- `region_pool_remove_region` (cleanq/region_pool.c).
use cleanq_linux.Base.{
  ℕ, suc, ◌+◌, ◌-◌, ◌%◌, ◌^◌, ◌<◌, ◌≡◌, sym, ◌∙◌, ◌≢◌, none, some, length, get_elem?, set,
  length-set, get_elem?-set_self, get_elem?-set_ne, lt_of_get_elem?, done, arith, inl, inr,
  Bool-cases, ◌==◌,
}
use cleanq_linux.Types.{u16, ok, invalid_region_id}
use cleanq_linux.Slab.{SlabAllocator, slab_free}
use cleanq_linux.RegionPool.{RegionPool, RegionRef, region_pool_remove_region}
use cleanq_linux.RegionPool.Size.{size-le, mask_lem}
use cleanq_linux.RegionPool.Slots.{occupied-le, occupied-set-none}
use cleanq_linux.RegionPool.Invariant.{IsValid, slot_of}

-- `q` is `p` without the region `r`
pub record Removed (p q : RegionPool) (rid : ℕ) : Type 0 where
  pub valid : IsValid q
  pub count : suc q.num_regions ≡ p.num_regions
  pub gone : slot_of q rid ≡ some none
  pub others : (other : ℕ) → other % p.size ≢ rid % p.size → slot_of q other ≡ slot_of p other

-- What stands in a table after an entry was cleared stood there before.
pub set-none-stays :
    (p : RegionPool) (i j : ℕ) (s : RegionRef)
    → i < length p.pool
    → get_elem? (set p.pool i none) j ≡ some (some s)
    → get_elem? p.pool j ≡ some (some s)
set-none-stays p i j s inside e = elim (Bool-cases (i == j)) [
  | inl same ↦
      let slot : i ≡ j = ground arith in
      let cleared = rw slot at (get_elem?-set_self p.pool i none inside) in absurd cc
  | inr differ ↦
      let apart : i ≢ j = ground arith in sym (get_elem?-set_ne p.pool i j none apart) ∙ e
]

module _ (p : RegionPool) (rid : ℕ) (v : IsValid p) where
  abbrev pub without : SlabAllocator → RegionPool
  without alloc = record p {
    region_alloc = alloc;
    pool = set p.pool (rid % p.size) none;
    num_regions = u16 (p.num_regions + 2 ^ 16 - 1);
  }

  pub without-Removed :
      (r : RegionRef) (alloc : SlabAllocator)
      → slot_of p rid ≡ some (some r)
      → Removed p (without alloc) rid
  without-Removed r alloc taken =
      let i = rid % p.size in
      let inside : i < length p.pool = lt_of_get_elem? p.pool i (some r) taken in
      let fewer = occupied-set-none p.pool i r taken in
      let one_less : suc (u16 (p.num_regions + 2 ^ 16 - 1)) ≡ p.num_regions =
        omega (arith, size-le v.size, v.storage, v.counted, occupied-le p.pool) in
      record {
        valid = record {
          size = v.size;
          storage = length-set p.pool i none ∙ v.storage;
          counted = omega (arith, v.counted);
          offset_in = v.offset_in;
          last_in = v.last_in;
          placed = λ j s e. v.placed j s (set-none-stays p i j s inside e);
        };
        count = one_less;
        gone = get_elem?-set_self p.pool i none inside;
        others = λ other ne. get_elem?-set_ne p.pool i (other % p.size) none (λ e. ne (sym e));
      }

  pub remove_region-without :
      (r : RegionRef) (alloc : SlabAllocator)
      → slot_of p rid ≡ some (some r)
      → slab_free p.region_alloc (some r.block) ≡ done alloc
      → region_pool_remove_region p rid ≡ done (ok, some r.region.cap, without alloc)
  unfolding region_pool_remove_region
  remove_region-without r alloc taken freed =
      rw (mask_lem rid v.size, taken, freed, mask_lem rid v.size)

  -- `region_pool_remove_region`, on a valid pool, of an id whose slot holds a region, whose block
  -- the allocator takes back, returns the region's memory; the new pool is valid, counts one
  -- region less, has the slot empty, and every other slot unchanged.
  pub region_pool_remove_region-Removed :
      (r : RegionRef) (alloc : SlabAllocator)
      → slot_of p rid ≡ some (some r)
      → slab_free p.region_alloc (some r.block) ≡ done alloc
      → (q : RegionPool) × (region_pool_remove_region p rid ≡ done (ok, some r.region.cap, q))
        × Removed p q rid
  region_pool_remove_region-Removed r alloc taken freed =
      (without alloc, remove_region-without r alloc taken freed, without-Removed r alloc taken)

  pub remove_region-empty :
      slot_of p rid ≡ some none
      → region_pool_remove_region p rid ≡ done (invalid_region_id, none, p)
  unfolding region_pool_remove_region
  remove_region-empty empty = rw (mask_lem rid v.size, empty)
