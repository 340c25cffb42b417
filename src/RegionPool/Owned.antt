-- ===== src/RegionPool/Owned.antt =====
-- The blocks behind a region pool: cleanq/region_pool.c over cleanq/slab.c.
use cleanq_linux.Base.{
  ℕ, zero, suc, ◌+◌, ◌≤◌, ◌≡◌, ◌⊎◌, refl, inl, inr, ap, List, [], ◌∷◌, none, some, get_elem?, set,
  done, true, false, arith, leb, Bool-cases, if◌then◌else◌,
}
use cleanq_linux.Types.{u32}
use cleanq_linux.Slab.{SlabHead, in_slab, enqueue_block}
use cleanq_linux.Slab.Invariant.{AllInside, HeadIsValid, Outside, AllValid}
use cleanq_linux.Slab.Invariant as Slab
use cleanq_linux.RegionPool.{RegionPool, RegionRef, Slots}
use cleanq_linux.RegionPool.Slots.{Held}

-- the number of entries whose block falls inside the slab
unfoldable pub used : ℕ → SlabHead → Slots → ℕ
used blocksize sh [] = 0
used blocksize sh (none ∷ slots) = used blocksize sh slots
used blocksize sh (some r ∷ slots) =
    let rest = used blocksize sh slots in if in_slab r.block blocksize sh then suc rest else rest

-- No slab has more free and used blocks than blocks.
abbrev pub AllOwned : ℕ → Slots → List SlabHead → Type 0
AllOwned blocksize slots [] = Unit {0}
AllOwned blocksize slots (sh ∷ shs) =
    (sh.free + used blocksize sh slots ≤ sh.total) × AllOwned blocksize slots shs

pub record Owned (p : RegionPool) : Type 0 where
  pub slabs : Slab.IsValid p.region_alloc
  pub counts : AllOwned p.region_alloc.blocksize p.pool p.region_alloc.slabs
  pub blocks :
      (r : RegionRef)
      → Held p.pool r
      → ¬ Outside p.region_alloc.blocksize r.block p.region_alloc.slabs

-- the address is in the list
abbrev Has : ℕ → List ℕ → Type 0
Has b [] = ⊥
Has b (x ∷ xs) = (b ≡ x) ⊎ Has b xs

-- The block is in the free list of a slab.
abbrev pub IsFree : ℕ → List SlabHead → Type 0
IsFree b [] = ⊥
IsFree b (sh ∷ shs) = Has b sh.blocks ⊎ IsFree b shs

module _ (blocksize : ℕ) (r : RegionRef) where
  used-in :
      (sh : SlabHead) (slots : Slots) (i : ℕ)
      → get_elem? slots i ≡ some (some r)
      → in_slab r.block blocksize sh ≡ true
      → suc (used blocksize sh (set slots i none)) ≡ used blocksize sh slots
  unfolding used
  used-in sh [] i e here = cc
  used-in sh (none ∷ slots) zero e here = cc
  used-in sh (some s ∷ slots) zero e here =
      let same : in_slab s.block blocksize sh ≡ true = cc (here, e) in rw same
  used-in sh (none ∷ slots) (suc i) e here = used-in sh slots i e here
  used-in sh (some s ∷ slots) (suc i) e here = elim (Bool-cases (in_slab s.block blocksize sh)) [
    | inl h ↦ rw h (ap suc (used-in sh slots i e here))
    | inr h ↦ rw h (used-in sh slots i e here)
  ]

  used-out :
      (sh : SlabHead) (slots : Slots) (i : ℕ)
      → get_elem? slots i ≡ some (some r)
      → in_slab r.block blocksize sh ≡ false
      → used blocksize sh (set slots i none) ≡ used blocksize sh slots
  unfolding used
  used-out sh [] i e here = cc
  used-out sh (none ∷ slots) zero e here = cc
  used-out sh (some s ∷ slots) zero e here =
      let same : in_slab s.block blocksize sh ≡ false = cc (here, e) in rw same
  used-out sh (none ∷ slots) (suc i) e here = used-out sh slots i e here
  used-out sh (some s ∷ slots) (suc i) e here = elim (Bool-cases (in_slab s.block blocksize sh)) [
    | inl h ↦ rw h (ap suc (used-out sh slots i e here))
    | inr h ↦ rw h (used-out sh slots i e here)
  ]

  owned-out :
      (shs : List SlabHead) (slots : Slots) (i : ℕ)
      → get_elem? slots i ≡ some (some r)
      → Outside blocksize r.block shs
      → AllOwned blocksize slots shs
      → AllOwned blocksize (set slots i none) shs
  owned-out [] slots i e out o = tt
  owned-out (sh ∷ shs) slots i e out o =
      (omega (arith, o.0, used-out sh slots i e out.0), owned-out shs slots i e out.1 o.1)

  -- the slabs after the block has gone back
  pub record GivenBack (shs shs' : List SlabHead) (slots : Slots) (i : ℕ) : Type 0 where
    pub run : enqueue_block r.block blocksize shs ≡ done shs'
    pub valid : AllValid blocksize shs'
    pub owned : AllOwned blocksize (set slots i none) shs'
    pub back : IsFree r.block shs'
    pub stays : (x : ℕ) → IsFree x shs → IsFree x shs'
    pub places : (x : ℕ) → Outside blocksize x shs → Outside blocksize x shs'
    pub places' : (x : ℕ) → Outside blocksize x shs' → Outside blocksize x shs

  pub give_back :
      (shs : List SlabHead) (slots : Slots) (i : ℕ)
      → get_elem? slots i ≡ some (some r)
      → AllValid blocksize shs
      → AllOwned blocksize slots shs
      → ¬ Outside blocksize r.block shs
      → (shs' : List SlabHead) × GivenBack shs shs' slots i
  unfolding enqueue_block used
  give_back [] slots i e v o among = absurd (among tt)
  give_back (sh ∷ shs) slots i e (v, apart, vs) o among =
      elim (Bool-cases (in_slab r.block blocksize sh)) [
        | inl here ↦
            let less = used-in sh slots i e here in
            let more : u32 (sh.free + 1) ≡ sh.free + 1 = omega (arith, v.bounded, v.width) in
            let fits : leb (u32 (sh.free + 1)) sh.total ≡ true = ground (arith, o.0, less, more) in
            (
              record sh { blocks = r.block ∷ sh.blocks; free = u32 (sh.free + 1) } ∷ shs,
              record {
                run = rw (here, fits);
                valid = (
                  record {
                    counted = omega (arith, more, v.counted);
                    bounded = omega (arith, o.0, less, more);
                    width = v.width;
                    inside = (here, v.inside);
                  },
                  apart,
                  vs,
                );
                owned = (
                  omega (arith, o.0, less, more),
                  owned-out shs slots i e (apart r.block here) o.1,
                );
                back = inl (inl refl);
                stays =
                    λ x free. elim free [ inl in_list ↦ inl (inr in_list) | inr later ↦ inr later ];
                places = λ x out. out;
                places' = λ x out. out;
              },
            )
        | inr there ↦
            let (shs', b) = give_back shs slots i e vs o.1 (λ out. among (there, out)) in
            (
              sh ∷ shs',
              record {
                run = rw (there, b.run);
                valid = (v, (λ x here. b.places x (apart x here)), b.valid);
                owned = (omega (arith, o.0, used-out sh slots i e there), b.owned);
                back = inr b.back;
                stays = λ x free. elim free [
                  | inl in_list ↦ inl in_list
                  | inr later ↦ inr (b.stays x later)
                ];
                places = λ x out. (out.0, b.places x out.1);
                places' = λ x out. (out.0, b.places' x out.1);
              },
            )
      ]
