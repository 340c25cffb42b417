-- ===== src/RegionPool/Samples.antt =====
-- Small region pools (cleanq/region_pool.c) for the tests.
use cleanq_linux.Base.{
  ℕ, ◌*◌, ◌≡◌, refl, List, [], ◌∷◌, none, some, done, arith, replicate, length-replicate, false,
  true,
}
use cleanq_linux.Types.{Capref}
use cleanq_linux.Slab.{SlabAllocator, default_refill, slab_alloc, slab_free}
use cleanq_linux.RegionPool.{RegionPool, Memory, conflicts}
use cleanq_linux.RegionPool.Size.{IsSize, init-IsSize}
use cleanq_linux.RegionPool.Slots.{occupied-replicate}
use cleanq_linux.RegionPool.Invariant.{IsValid, nothing_stored}
use cleanq_linux.RegionPool.Insert.{put, put-Inserted}

abbrev pub allocator : ℕ → List ℕ → SlabAllocator
allocator free blocks = record {
  slabs = record { addr = 65536; total = 2; free = free; blocks = blocks } ∷ [];
  blocksize = 48;
  refill_func = default_refill;
}

abbrev pub two_blocks : SlabAllocator
two_blocks = allocator 2 (65560 ∷ 65608 ∷ [])

abbrev pub one_block : SlabAllocator
one_block = allocator 1 (65608 ∷ [])

abbrev pub no_block : SlabAllocator
no_block = allocator 0 []

-- enough memory, and none
abbrev pub plenty : Memory
plenty = record { calloc_ok = true; malloc = none }

abbrev pub page : ℕ → Capref
page n = record { vaddr = n * 4096; paddr = n * 4096; len = 4096 }

abbrev pub empty : ℕ → SlabAllocator → RegionPool
empty size alloc = record {
  size = size;
  num_regions = 0;
  region_offset = 5;
  last_offset = 0;
  region_alloc = alloc;
  pool = replicate size none;
}

pub empty-IsValid : (size : ℕ) (alloc : SlabAllocator) → IsSize size → IsValid (empty size alloc)
empty-IsValid size alloc s = record {
  size = s;
  storage = length-replicate size none;
  counted = occupied-replicate size;
  offset_in = omega arith;
  last_in = omega arith;
  placed = λ i r e. absurd (nothing_stored size i r e);
}

pub one-IsSize : IsSize 1
one-IsSize = record { exponent = 0; rest = 15; power = refl; divides = refl }

-- 16 slots, and page 1 registered under id 6
abbrev pub roomy : RegionPool
roomy = empty 16 two_blocks

pub roomy-IsValid : IsValid roomy
roomy-IsValid = empty-IsValid 16 two_blocks init-IsSize

abbrev pub with_page : RegionPool
with_page = put roomy roomy-IsValid (page 1) 65560 one_block 0 6

pub with_page-IsValid : IsValid with_page
with_page-IsValid =
    (put-Inserted roomy roomy-IsValid (page 1) 65560 one_block 0 6 (omega arith) refl).valid

-- one slot, free or taken
abbrev pub single : RegionPool
single = empty 1 two_blocks

pub single-IsValid : IsValid single
single-IsValid = empty-IsValid 1 two_blocks one-IsSize

abbrev pub single_full : RegionPool
single_full = put single single-IsValid (page 1) 65560 one_block 0 6

pub single_full-IsValid : IsValid single_full
single_full-IsValid =
    (put-Inserted single single-IsValid (page 1) 65560 one_block 0 6 (omega arith) refl).valid

pub takes_first : slab_alloc none two_blocks ≡ done (some 65560, one_block)
unfolding slab_alloc
takes_first = refl

pub takes_none : slab_alloc none no_block ≡ done (none, no_block)
unfolding slab_alloc
takes_none = refl

pub puts_back : slab_free one_block (some 65560) ≡ done two_blocks
unfolding slab_free
puts_back = refl

pub apart : conflicts roomy.pool (page 1) ≡ false
unfolding conflicts
apart = refl
