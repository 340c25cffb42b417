-- ===== src/Slab/Tests.antt =====
-- Runs of cleanq/slab.c on small allocators.
use cleanq_linux.Base.{ℕ, ◌<◌, ◌≤◌, ◌≡◌, refl, ◌⊎◌, [], ◌∷◌, Option, none, some, done, crash, arith}
use cleanq_linux.Slab.{
  SlabAllocator, default_refill, no_refill, slab_init, slab_alloc, slab_free, slab_grow,
}
use cleanq_linux.Slab.Invariant.{IsValid}
use cleanq_linux.Slab.Blocks.{AllUsed}
use cleanq_linux.Slab.Alloc.{Allocates, grown, slab_alloc-free}

abbrev two_blocks : SlabAllocator
two_blocks = record {
  slabs = record { addr = 65536; total = 2; free = 2; blocks = 65560 ∷ 65608 ∷ [] } ∷ [];
  blocksize = 48;
  refill_func = default_refill;
}

abbrev one_block : SlabAllocator
one_block = record {
  slabs = record { addr = 65536; total = 2; free = 1; blocks = 65608 ∷ [] } ∷ [];
  blocksize = 48;
  refill_func = default_refill;
}

takes_top : slab_alloc none two_blocks ≡ done (some 65560, one_block)
unfolding slab_alloc
takes_top = refl

frees_on_top : slab_free one_block (some 65560) ≡ done two_blocks
unfolding slab_free
frees_on_top = refl

frees_twice : slab_free two_blocks (some 65560) ≡ crash
unfolding slab_free
frees_twice = refl

grows :
    slab_grow (slab_init 4 no_refill) 1000 48
    ≡ done (record {
      slabs = record { addr = 1000; total = 3; free = 3; blocks = 1024 ∷ 1032 ∷ 1040 ∷ [] } ∷ [];
      blocksize = 8;
      refill_func = no_refill;
    })
unfolding slab_grow slab_init
grows = refl

two_blocks-IsValid : IsValid two_blocks
two_blocks-IsValid = (
  record {
    counted = refl;
    bounded = omega arith;
    width = omega arith;
    inside = (refl, (refl, tt));
  },
  (λ b here. tt),
  tt,
)

pos : 0 < two_blocks.blocksize
pos = omega arith

small : two_blocks.blocksize ≤ 16360
small = omega arith

slab_alloc-free_example :
    (¬ AllUsed two_blocks.slabs × Allocates two_blocks two_blocks-IsValid pos small none two_blocks)
    ⊎ (AllUsed two_blocks.slabs
        × ((◌≡◌ {A = Option ℕ} none none × (slab_alloc none two_blocks ≡ done (none, two_blocks)))
            ⊎ ((buf : ℕ) × (none ≡ some buf)
                × Allocates two_blocks two_blocks-IsValid pos small none (grown two_blocks buf))))
slab_alloc-free_example =
    slab_alloc-free two_blocks two_blocks-IsValid pos small none refl (λ buf e. absurd cc)
