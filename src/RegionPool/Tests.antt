-- ===== src/RegionPool/Tests.antt =====
-- Runs of cleanq/region_pool.c on small pools.
use cleanq_linux.Base.{
  ℕ, ◌≡◌, ◌⊎◌, refl, ◌↔◌, none, some, done, crash, true, false, arith, Returns, inl, sym, ◌∙◌,
  replicate, inr, ap, [], ◌∷◌,
}
use cleanq_linux.Types.{ok, invalid_region_args, invalid_region_id, malloc_fail}
use cleanq_linux.RegionPool.{
  RegionPool, conflicts, region_pool_add_region, region_pool_add_region_with_id, region_pool_grow,
  region_pool_remove_region, freed, region_pool_destroy, region_pool_buffer_check_bounds, RegionRef,
}
use cleanq_linux.RegionPool.Samples.{
  two_blocks, one_block, no_block, plenty, page, roomy, roomy-IsValid, with_page, with_page-IsValid,
  single_full, single_full-IsValid, empty, empty-IsValid, one-IsSize, takes_first, takes_none,
  puts_back, apart,
}
use cleanq_linux.RegionPool.Insert.{entry}
use cleanq_linux.RegionPool.Invariant.{nothing_stored}
use cleanq_linux.RegionPool.Grow.{Grown, region_pool_grow-Grown}
use cleanq_linux.RegionPool.Add.{
  Added, region_pool_add_region-Added, region_pool_add_region_with_id-Added,
}
use cleanq_linux.RegionPool.Remove.{Removed, region_pool_remove_region-Removed}
use cleanq_linux.RegionPool.Bounds.{Within, Aliased, check_bounds-Within}
use cleanq_linux.RegionPool.Slots.{Held, set-some-cases}
use cleanq_linux.Slab.{slab_alloc, in_slab}
use cleanq_linux.RegionPool.Disjoint.{AllDisjoint, add_region-AllDisjoint}
use cleanq_linux.RegionPool.Owned.{Owned, used}
use cleanq_linux.RegionPool.Destroy.{Emptied, region_pool_destroy-Emptied}
use cleanq_linux.RegionPool.Alias.{same_slot}
use cleanq_linux.RegionPool.Leak.{refused-crash}

-- The id is 5, the offset of the ids, and 1, the new count.
adds : region_pool_add_region plenty roomy (page 1) ≡ done (ok, some 6, with_page)
unfolding region_pool_add_region
adds = refl

adds_twice :
    region_pool_add_region plenty with_page (page 1) ≡ done (invalid_region_args, none, with_page)
unfolding region_pool_add_region
adds_twice = refl

removes_nothing : region_pool_remove_region with_page 7 ≡ done (invalid_region_id, none, with_page)
unfolding region_pool_remove_region
removes_nothing = refl

destroys :
    region_pool_destroy with_page
    ≡ done (
      ok,
      freed (record with_page { num_regions = 0; pool = roomy.pool; region_alloc = two_blocks }),
    )
unfolding region_pool_destroy
destroys = refl

region_pool_add_region-Added_example :
    (rid : ℕ) × (q : RegionPool) × (region_pool_add_region plenty roomy (page 1)
      ≡ done (ok, some rid, q))
    × Added roomy q (page 1) rid 65560
region_pool_add_region-Added_example =
    region_pool_add_region-Added plenty roomy (page 1) roomy-IsValid 65560 one_block takes_first
      apart (inl (omega arith))

region_pool_add_region_with_id-Added_example :
    (q : RegionPool) × (region_pool_add_region_with_id plenty roomy (page 1) 22 ≡ done (ok, q))
    × Added roomy q (page 1) 22 65560
region_pool_add_region_with_id-Added_example =
    region_pool_add_region_with_id-Added plenty roomy (page 1) roomy-IsValid 65560 one_block
      takes_first 22 (omega arith) refl

region_pool_grow-Grown_example :
    (q : RegionPool) × (region_pool_grow plenty single_full ≡ done (ok, q)) × Grown single_full q
region_pool_grow-Grown_example =
    region_pool_grow-Grown plenty single_full single_full-IsValid refl (omega arith) refl

region_pool_remove_region-Removed_example :
    (q : RegionPool) × (region_pool_remove_region with_page 6 ≡ done (ok, some (page 1), q))
    × Removed with_page q 6
region_pool_remove_region-Removed_example =
    region_pool_remove_region-Removed with_page 6 with_page-IsValid (entry 65560 (page 1) 6)
      two_blocks refl puts_back

check_bounds-Within_example :
    Returns
      (region_pool_buffer_check_bounds with_page 6 1024 2048 0 64)
      (λ b. (b ≡ true) ↔ (Within with_page 6 1024 2048 0 64 ⊎ Aliased with_page 6 1024 2048 0 64))
check_bounds-Within_example =
    check_bounds-Within with_page 6 1024 2048 0 64 with_page-IsValid (omega arith) (omega arith)

-- one slot, and an allocator that has no block left
abbrev starved : RegionPool
starved = empty 1 no_block

apart_too : conflicts starved.pool (page 1) ≡ false
unfolding conflicts
apart_too = refl

apart_page_two : conflicts starved.pool (page 2) ≡ false
unfolding conflicts
apart_page_two = refl

refused-crash_example :
    (q : RegionPool) × (region_pool_add_region plenty starved (page 1)
      ≡ done (malloc_fail, none, q))
    × (region_pool_add_region plenty q (page 2) ≡ crash)
refused-crash_example =
    refused-crash starved (empty-IsValid 1 no_block one-IsSize) (page 1) plenty no_block apart_too
      takes_none plenty (page 2) refl refl apart_page_two

-- Page 1 is the only region of `with_page`.
only_page_one : (r : RegionRef) → Held with_page.pool r → r ≡ entry 65560 (page 1) 6
only_page_one r (i, e) =
    elim (set-some-cases (replicate 16 none) 6 i (entry 65560 (page 1) 6) r (omega arith) e) [
      | inl (slot, same) ↦ sym same
      | inr (_, nowhere) ↦ absurd (nothing_stored 16 i r nowhere)
    ]

with_page-AllDisjoint : AllDisjoint with_page.pool
with_page-AllDisjoint = record {
  ends = λ r held. rw (only_page_one r held) (omega arith);
  apart = λ r s held held' ne.
      absurd (ne (ap (λ x. x.region.id) (only_page_one r held ∙ sym (only_page_one s held'))));
}

takes_second : slab_alloc none one_block ≡ done (some 65608, no_block)
unfolding slab_alloc
takes_second = refl

page_two_apart : conflicts with_page.pool (page 2) ≡ false
unfolding conflicts
page_two_apart = refl

add_region-AllDisjoint_example :
    (rid : ℕ) × (q : RegionPool) × (region_pool_add_region plenty with_page (page 2)
      ≡ done (ok, some rid, q))
    × Held q.pool (entry 65608 (page 2) rid)
    × AllDisjoint q.pool
add_region-AllDisjoint_example =
    add_region-AllDisjoint plenty with_page (page 2) with_page-IsValid 65608 no_block takes_second
      page_two_apart (omega arith) (inl (omega arith)) with_page-AllDisjoint

with_page-Owned : Owned with_page
unfolding used
with_page-Owned = record {
  slabs = (
    record { counted = refl; bounded = omega arith; width = omega arith; inside = (refl, tt) },
    (λ b here. tt),
    tt,
  );
  counts = (omega arith, tt);
  blocks = λ r held out.
      let inside : in_slab r.block 48
            (record { addr = 65536; total = 2; free = 1; blocks = 65608 ∷ [] })
          ≡ true =
        rw (only_page_one r held) refl in
      cc (inside, out.0);
}

region_pool_destroy-Emptied_example :
    (q : RegionPool) × (region_pool_destroy with_page ≡ done (ok, freed q)) × Emptied with_page q
region_pool_destroy-Emptied_example =
    region_pool_destroy-Emptied with_page with_page-IsValid with_page-Owned

same_slot_example :
    (region_pool_buffer_check_bounds with_page 6 1024 2048 0 64
      ≡ region_pool_buffer_check_bounds with_page 22 1024 2048 0 64)
    × (region_pool_remove_region with_page 6 ≡ region_pool_remove_region with_page 22)
same_slot_example = same_slot with_page with_page-IsValid 6 22 1024 2048 0 64 refl
