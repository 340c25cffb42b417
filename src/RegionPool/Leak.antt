-- ===== src/RegionPool/Leak.antt =====
-- An allocation that fails in `region_pool_add_region` (cleanq/region_pool.c).
use cleanq_linux.Base.{
  ℕ, zero, suc, ◌+◌, ◌*◌, ◌<◌, ◌≡◌, refl, ◌⊎◌, [], ◌∷◌, Option, none, some, length, get_elem?, set,
  done, crash, arith, true, false, inl, inr, Bool-cases, ltb,
}
use cleanq_linux.Types.{u16, malloc_fail, Capref}
use cleanq_linux.Slab.{SlabAllocator, slab_alloc}
use cleanq_linux.RegionPool.{
  RegionPool, RegionRef, Slots, Memory, mask, conflicts, make_room, rehash, store_slot,
  region_pool_grow, insert_new, region_pool_add_region,
}
use cleanq_linux.RegionPool.Size.{size-le}
use cleanq_linux.RegionPool.Slots.{empty_slot}
use cleanq_linux.RegionPool.Invariant.{IsValid}
use cleanq_linux.RegionPool.Search.{find_slot_lem}

store_slot-cases :
    (slots : Slots) (i : ℕ) (r : Option RegionRef)
    → (store_slot slots i r ≡ crash) ⊎ ((out : Slots) × (store_slot slots i r ≡ done out))
unfolding store_slot
store_slot-cases slots i r = elim (Bool-cases (ltb i (length slots))) [
  | inl inside ↦ inr (set slots i r, rw inside)
  | inr outside ↦ inl (rw outside)
]

rehash-empty :
    (new_size : ℕ) (old tmp : Slots) (i : ℕ)
    → get_elem? old i ≡ some none
    → rehash new_size old tmp ≡ crash
unfolding rehash
rehash-empty n [] tmp i e = cc
rehash-empty n (none ∷ old) tmp i e = refl
rehash-empty n (some r ∷ old) tmp zero e = cc
rehash-empty n (some r ∷ old) tmp (suc i) e =
    elim (store_slot-cases tmp (u16 (mask r.region.id n)) (some r)) [
      | inl bad ↦ rw bad
      | inr (out, good) ↦ rw good (rehash-empty n old out i e)
    ]

pub grow-crash :
    (memory : Memory) (p : RegionPool) (i : ℕ)
    → memory.calloc_ok ≡ true
    → get_elem? p.pool i ≡ some none
    → region_pool_grow memory p ≡ crash
unfolding region_pool_grow
grow-crash memory p i given e = rw (given, rehash-empty (u16 (p.size * 2)) p.pool _ i e)

not_ltb : (a b : ℕ) → a ≡ b → ltb a b ≡ false
not_ltb a b h = ground arith

module _ (p : RegionPool) (v : IsValid p) (cap : Capref) (memory : Memory) (alloc : SlabAllocator)
    (free : conflicts p.pool cap ≡ false)
    (refused : slab_alloc memory.malloc p.region_alloc ≡ done (none, alloc)) where
  add_region-refused :
      p.num_regions < p.size
      → (offset : ℕ) × (region_pool_add_region memory p cap
          ≡ done (
            malloc_fail,
            none,
            record p {
              num_regions = u16 (p.num_regions + 1);
              last_offset = offset;
              region_alloc = alloc;
            },
          ))
  unfolding region_pool_add_region make_room insert_new
  add_region-refused room =
      let (i, lt, e) = empty_slot p.pool (omega (arith, v.counted, v.storage)) in
      let (offset, run, f) =
        find_slot_lem (record p { num_regions = u16 (p.num_regions + 1) }) v.size v.storage
          v.offset_in (omega arith) p.last_offset i v.last_in (omega (arith, v.storage)) e in
      let lt : ltb p.num_regions p.size ≡ true = ground arith in
      (offset, rw (free, lt, run, refused))

  -- When `region_pool_add_region` fails for want of a block on a valid pool with one empty slot,
  -- for a region that does not conflict, it returns the error but leaves the region counted: a
  -- second region that does not conflict then makes the pool grow over the empty slot, if memory
  -- is given, and the call goes through the null pointer there.
  pub refused-crash :
      (memory' : Memory) (cap' : Capref)
      → suc p.num_regions ≡ p.size
      → memory'.calloc_ok ≡ true
      → conflicts p.pool cap' ≡ false
      → (q : RegionPool) × (region_pool_add_region memory p cap ≡ done (malloc_fail, none, q))
        × (region_pool_add_region memory' q cap' ≡ crash)
  unfolding region_pool_add_region make_room
  refused-crash memory' cap' last given free' =
      let (offset, run) = add_region-refused (omega arith) in
      let (i, lt, e) = empty_slot p.pool (omega (arith, v.counted, v.storage)) in
      let size : u16 (p.num_regions + 1) ≡ p.size = omega (arith, size-le v.size) in
      let q = record p {
        num_regions = u16 (p.num_regions + 1);
        last_offset = offset;
        region_alloc = alloc;
      } in
      (
        q,
        run,
        rw (free', not_ltb (u16 (p.num_regions + 1)) p.size size, grow-crash memory' q i given e),
      )
