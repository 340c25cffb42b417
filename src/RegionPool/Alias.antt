-- ===== src/RegionPool/Alias.antt =====
-- What `region_pool_buffer_check_bounds` and `region_pool_remove_region` (cleanq/region_pool.c) take
-- for a registered id, and for a buffer inside a region.
use cleanq_linux.Base.{
  ℕ, ◌+◌, ◌-◌, ◌%◌, ◌^◌, ◌<◌, ◌≡◌, refl, sym, ◌∙◌, ap, true, false, Option, some, none, get_elem?,
  or_crash, set, Run, done, ◌>>=◌, ltb, arith,
}
use cleanq_linux.Types.{u16, Errval, ok, invalid_region_id, Capref}
use cleanq_linux.Slab.{slab_free}
use cleanq_linux.RegionPool.{
  RegionPool, RegionRef, mask, region_pool_buffer_check_bounds, region_pool_remove_region,
}
use cleanq_linux.RegionPool.Size.{mask_lem}
use cleanq_linux.RegionPool.Invariant.{IsValid, slot_of}
use cleanq_linux.RegionPool.Bounds.{InSlot}

-- the removal of what stands at an index
abbrev remove_at : RegionPool → ℕ → Run (Errval × Option Capref × RegionPool)
remove_at p i = do
  slot ← or_crash (get_elem? p.pool i)
  elim slot [
    | none ↦ done (invalid_region_id, none, p)
    | some r ↦ do
      alloc ← slab_free p.region_alloc (some r.block)
      done (
        ok,
        some r.region.cap,
        record p {
          region_alloc = alloc;
          pool = set p.pool i none;
          num_regions = u16 (p.num_regions + 2 ^ 16 - 1);
        },
      )
  ]

module _ (p : RegionPool) (v : IsValid p) where
  -- On a valid pool, two ids that leave the same remainder by its size are the same id to the bounds
  -- check and to the removal of a region: both calls end in the same way, whether the pool holds a
  -- region under the one id, the other, or neither.
  pub same_slot :
      (rid rid' offset length valid_data valid_length : ℕ)
      → rid % p.size ≡ rid' % p.size
      → (region_pool_buffer_check_bounds p rid offset length valid_data valid_length
          ≡ region_pool_buffer_check_bounds p rid' offset length valid_data valid_length)
        × (region_pool_remove_region p rid ≡ region_pool_remove_region p rid')
  unfolding region_pool_buffer_check_bounds region_pool_remove_region
  same_slot rid rid' offset length valid_data valid_length same =
      let masks : mask rid p.size ≡ mask rid' p.size =
        mask_lem rid v.size ∙ same ∙ sym (mask_lem rid' v.size) in
      (rw masks refl, ap (remove_at p) masks)

  -- On a valid pool, the bounds check lets a buffer through that begins at the last 64-bit offset,
  -- whatever region stands in the slot of the id: the sum of offset and length wraps. The buffer
  -- does not lie in a region with a 64-bit length.
  pub check_bounds-wraps :
      (rid : ℕ) (r : RegionRef)
      → slot_of p rid ≡ some (some r)
      → r.region.len < 2 ^ 64
      → (region_pool_buffer_check_bounds p rid (2 ^ 64 - 1) 1 0 0 ≡ done true)
        × (¬ InSlot p rid (2 ^ 64 - 1) 1 0 0)
  unfolding region_pool_buffer_check_bounds
  check_bounds-wraps rid r stored small =
      let fits : ltb r.region.len 0 ≡ false = ground arith in
      (
        rw (mask_lem rid v.size, stored, fits),
        (λ w.
            let same : w.ref ≡ r = cc (stored, w.stored) in
            let len : w.ref.region.len ≡ r.region.len = ap (λ x. x.region.len) same in
            omega (arith, w.buffer)),
      )
