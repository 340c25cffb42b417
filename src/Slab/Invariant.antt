-- ===== src/Slab/Invariant.antt =====
-- The well-formedness of a slab allocator (cleanq/slab.c).
use cleanq_linux.Base.{ℕ, ◌^◌, ◌<◌, ◌≤◌, ◌≡◌, List, [], ◌∷◌, length, true, false}
use cleanq_linux.Slab.{SlabHead, SlabAllocator, in_slab}

-- every one of the blocks falls inside the slab
abbrev pub AllInside : ℕ → SlabHead → List ℕ → Type 0
AllInside blocksize sh [] = Unit {0}
AllInside blocksize sh (b ∷ bs) = (in_slab b blocksize sh ≡ true) × AllInside blocksize sh bs

pub record HeadIsValid (blocksize : ℕ) (sh : SlabHead) : Type 0 where
  pub counted : sh.free ≡ length sh.blocks
  pub bounded : sh.free ≤ sh.total
  pub width : sh.total < 2 ^ 32
  pub inside : AllInside blocksize sh sh.blocks

-- the address falls inside none of the slabs
abbrev pub Outside : ℕ → ℕ → List SlabHead → Type 0
Outside blocksize b [] = Unit {0}
Outside blocksize b (sh ∷ shs) = (in_slab b blocksize sh ≡ false) × Outside blocksize b shs

-- No two slabs overlap.
abbrev pub AllValid : ℕ → List SlabHead → Type 0
AllValid blocksize [] = Unit {0}
AllValid blocksize (sh ∷ shs) =
    HeadIsValid blocksize sh
    × ((b : ℕ) → in_slab b blocksize sh ≡ true → Outside blocksize b shs)
    × AllValid blocksize shs

abbrev pub IsValid : SlabAllocator → Type 0
IsValid s = AllValid s.blocksize s.slabs
