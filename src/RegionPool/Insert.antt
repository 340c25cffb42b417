-- ===== src/RegionPool/Insert.antt =====
-- A region goes into an empty slot of a valid pool: the last steps of `region_pool_add_region` and
-- of `region_pool_add_region_with_id` (cleanq/region_pool.c).
use cleanq_linux.Base.{
  ℕ, suc, ◌+◌, ◌%◌, ◌^◌, ◌<◌, ◌≡◌, refl, sym, ◌∙◌, ◌≢◌, ap, none, some, length, get_elem?, set,
  length-set, get_elem?-set_self, get_elem?-set_ne, lt_of_get_elem?, done, arith, inl, inr,
}
use cleanq_linux.Types.{u16, u32, ok, Capref}
use cleanq_linux.Slab.{SlabAllocator, slab_alloc}
use cleanq_linux.RegionPool.{
  RegionPool, RegionRef, Memory, candidate, region_at, insert_new, insert_with_id,
}
use cleanq_linux.RegionPool.Size.{size-le, mask_lem}
use cleanq_linux.RegionPool.Slots.{
  empty_slot, not_full, occupied-set-some, store_slot-lt, set-some-cases,
}
use cleanq_linux.RegionPool.Invariant.{IsValid, slot_of}
use cleanq_linux.RegionPool.Search.{find_slot_lem}

-- the reference that the table gets
abbrev pub entry : ℕ → Capref → ℕ → RegionRef
entry block cap rid = record { block = block; region = region_at cap rid }

-- `q` is `p` with the region `r` in a slot that was empty
pub record Inserted (p q : RegionPool) (r : RegionRef) : Type 0 where
  pub valid : IsValid q
  pub size : q.size ≡ p.size
  pub count : q.num_regions ≡ suc p.num_regions
  pub fresh : slot_of p r.region.id ≡ some none
  pub here : slot_of q r.region.id ≡ some (some r)
  pub others : (i : ℕ) → i ≢ r.region.id % p.size → get_elem? q.pool i ≡ get_elem? p.pool i

module _ (p : RegionPool) (v : IsValid p) (cap : Capref) (b : ℕ) (alloc : SlabAllocator) where
  abbrev pub put : ℕ → ℕ → RegionPool
  put offset rid = record p {
    num_regions = u16 (p.num_regions + 1);
    last_offset = offset;
    region_alloc = alloc;
    pool = set p.pool (rid % p.size) (some (entry b cap rid));
  }

  pub put-Inserted :
      (offset rid : ℕ)
      → offset < 2 ^ 16
      → slot_of p rid ≡ some none
      → Inserted p (put offset rid) (entry b cap rid)
  put-Inserted offset rid small free =
      let i = rid % p.size in
      let r = entry b cap rid in
      let inside : i < length p.pool = lt_of_get_elem? p.pool i none free in
      let room = not_full p.pool i free in
      let one_more : u16 (p.num_regions + 1) ≡ suc p.num_regions =
        omega (arith, size-le v.size, v.storage, v.counted) in
      record {
        valid = record {
          size = v.size;
          storage = length-set p.pool i (some r) ∙ v.storage;
          counted = occupied-set-some p.pool i r free ∙ ap suc v.counted ∙ sym one_more;
          offset_in = v.offset_in;
          last_in = small;
          placed = λ j s e. elim (set-some-cases p.pool i j r s inside e) [
            | inl (slot, ref) ↦ ap (λ x. x.region.id % p.size) (sym ref) ∙ slot
            | inr (apart, old) ↦ v.placed j s old
          ];
        };
        size = refl;
        count = one_more;
        fresh = free;
        here = get_elem?-set_self p.pool i (some r) inside;
        others = λ j ne. get_elem?-set_ne p.pool i j (some r) (λ e. ne (sym e));
      }

  module _ (memory : Memory)
      (got : slab_alloc memory.malloc p.region_alloc ≡ done (some b, alloc)) where
    pub insert_with_id-Inserted :
        (rid : ℕ)
        → slot_of p rid ≡ some none
        → insert_with_id memory p cap rid ≡ done (ok, put p.last_offset rid)
    unfolding insert_with_id
    insert_with_id-Inserted rid free =
        let inside : rid % p.size < length p.pool = lt_of_get_elem? p.pool _ none free in
        rw (got, mask_lem rid v.size, store_slot-lt p.pool (rid % p.size) _ inside)

    -- the pool in which `insert_new` searches
    abbrev pub counted_up : RegionPool
    counted_up = record p { num_regions = u16 (p.num_regions + 1) }

    pub insert_new-Inserted :
        p.num_regions < p.size
        → (offset : ℕ) × (rid : ℕ) × (insert_new memory p cap ≡ done (ok, some rid, put offset rid))
          × (offset < 2 ^ 16)
          × (slot_of p rid ≡ some none)
    unfolding insert_new
    insert_new-Inserted room =
        let (i, lt, free) = empty_slot p.pool (omega (arith, v.counted, v.storage)) in
        let (offset, run, f) =
          find_slot_lem counted_up v.size v.storage v.offset_in (omega arith) p.last_offset i
            v.last_in (omega (arith, v.storage)) free in
        let rid = u32 (candidate counted_up offset) in
        let plain : rid ≡ p.region_offset + u16 (p.num_regions + 1) + offset =
          omega (arith, v.offset_in, f.width) in
        let at_rid : slot_of p rid ≡ some none = ap (slot_of p) plain ∙ f.free in
        let inside : rid % p.size < length p.pool = lt_of_get_elem? p.pool _ none at_rid in
        (
          offset,
          rid,
          rw (run, got, mask_lem rid v.size, store_slot-lt p.pool (rid % p.size) _ inside),
          f.width,
          at_rid,
        )
