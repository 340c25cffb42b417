-- ===== src/Slab/Blocks.antt =====
-- `dequeue_block` and `enqueue_block`, the free lists of cleanq/slab.c.
use cleanq_linux.Base.{
  ℕ, ◌+◌, ◌-◌, ◌≡◌, refl, ◌⊎◌, inl, inr, List, [], ◌∷◌, true, false, none, some, done, arith, ◌==◌,
  leb, Bool-cases,
}
use cleanq_linux.Types.{u32}
use cleanq_linux.Slab.{SlabHead, in_slab, dequeue_block, enqueue_block}
use cleanq_linux.Slab.Invariant.{Outside, AllValid}

-- no slab has a free block
abbrev pub AllUsed : List SlabHead → Type 0
AllUsed [] = Unit {0}
AllUsed (sh ∷ shs) = (sh.free ≡ 0) × AllUsed shs

-- What taking a block leaves: valid slabs at the same addresses, to which the block goes back.
pub record Taken (blocksize : ℕ) (shs : List SlabHead) (b : ℕ) (shs' : List SlabHead) : Type 0 where
  pub run : dequeue_block shs ≡ done (some (b, shs'))
  pub valid : AllValid blocksize shs'
  pub among : ¬ Outside blocksize b shs
  pub places : (x : ℕ) → Outside blocksize x shs → Outside blocksize x shs'
  pub free : ¬ AllUsed shs
  pub back : enqueue_block b blocksize shs' ≡ done shs

module _ (blocksize : ℕ) where
  -- the first slab has a block
  take_first :
      (addr total free b : ℕ) (rest : List ℕ) (shs : List SlabHead)
      → let sh : SlabHead = record { addr = addr; total = total; free = free; blocks = b ∷ rest } in
        AllValid blocksize (sh ∷ shs)
        → Taken blocksize (sh ∷ shs) b (record sh { blocks = rest; free = free - 1 } ∷ shs)
  unfolding dequeue_block enqueue_block
  take_first addr total free b rest shs (v, apart, vs) =
      let sh : SlabHead = record { addr = addr; total = total; free = free; blocks = b ∷ rest } in
      let some_free : free == 0 ≡ false = ground (arith, v.counted) in
      let again : u32 (free - 1 + 1) ≡ free = omega (arith, v.counted, v.bounded, v.width) in
      let fits : leb free total ≡ true = ground (arith, v.bounded) in
      record {
        run = rw some_free;
        valid = (
          record {
            counted = omega (arith, v.counted);
            bounded = omega (arith, v.bounded);
            width = v.width;
            inside = v.inside.1;
          },
          apart,
          vs,
        );
        among = λ out. cc (v.inside.0, out.0);
        places = λ x out. out;
        free = λ used. ground (arith, used.0, v.counted);
        back = rw (v.inside.0, again, fits) refl;
      }

  -- the first slab is used up
  take_later :
      (sh : SlabHead) (shs shs' : List SlabHead) (b : ℕ)
      → AllValid blocksize (sh ∷ shs)
      → sh.free == 0 ≡ true
      → Taken blocksize shs b shs'
      → Taken blocksize (sh ∷ shs) b (sh ∷ shs')
  unfolding dequeue_block enqueue_block
  take_later sh shs shs' b (v, apart, vs) none_free t =
      let elsewhere : in_slab b blocksize sh ≡ false = elim (Bool-cases (in_slab b blocksize sh)) [
        | inl here ↦ absurd (t.among (apart b here))
        | inr there ↦ there
      ] in
      record {
        run = rw (none_free, t.run);
        valid = (v, (λ x here. t.places x (apart x here)), t.valid);
        among = λ out. t.among out.1;
        places = λ x out. (out.0, t.places x out.1);
        free = λ used. t.free used.1;
        back = rw (elsewhere, t.back);
      }

  -- `dequeue_block` on valid slabs finds none with a free block, or takes one.
  pub dequeue_block-cases :
      (shs : List SlabHead)
      → AllValid blocksize shs
      → (AllUsed shs × (dequeue_block shs ≡ done none))
        ⊎ ((b : ℕ) × (shs' : List SlabHead) × Taken blocksize shs b shs')
  unfolding dequeue_block
  dequeue_block-cases [] v = inl (tt, refl)
  dequeue_block-cases (sh ∷ shs) v = elim (Bool-cases (sh.free == 0)) [
    | inl used ↦ elim (dequeue_block-cases shs v.2) [
      | inl (all, run) ↦ inl ((ground arith, all), rw (used, run))
      | inr (b, shs', t) ↦ inr (b, sh ∷ shs', take_later sh shs shs' b v used t)
    ]
    | inr free ↦ first sh.addr sh.total sh.free sh.blocks v free
  ]
    where
      first :
          (a t f : ℕ) (blocks : List ℕ)
          → let sh : SlabHead = record { addr = a; total = t; free = f; blocks = blocks } in
            AllValid blocksize (sh ∷ shs)
            → f == 0 ≡ false
            → (AllUsed (sh ∷ shs) × (dequeue_block (sh ∷ shs) ≡ done none))
              ⊎ ((b : ℕ) × (shs' : List SlabHead) × Taken blocksize (sh ∷ shs) b shs')
      first a t f [] v free = absurd (ground (arith, v.0.counted))
      first a t f (b ∷ rest) v free = inr (b, _, take_first a t f b rest shs v)
