-- ===== src/RegionPool/Invariant.antt =====
-- The well-formedness of a region pool (cleanq/region_pool.c), and what a valid pool maps an id to.
use cleanq_linux.Base.{
  ℕ, ◌%◌, ◌^◌, ◌<◌, ◌≡◌, refl, Option, none, some, length, get_elem?, replicate, length-replicate,
  get_elem?-replicate, lt_of_get_elem?, arith, true,
}
use cleanq_linux.Types.{ok}
use cleanq_linux.RegionPool.{RegionPool, RegionRef, region_pool_init}
use cleanq_linux.RegionPool.Size.{IsSize, init-IsSize}
use cleanq_linux.RegionPool.Slots.{occupied, occupied-replicate}

-- `placed`: a region stands in the slot of its id. `region_offset` comes from `rand() >> 12`.
pub record IsValid (p : RegionPool) : Type 0 where
  pub size : IsSize p.size
  pub storage : length p.pool ≡ p.size
  pub counted : occupied p.pool ≡ p.num_regions
  pub offset_in : p.region_offset < 2 ^ 19
  pub last_in : p.last_offset < 2 ^ 16
  pub placed :
      (i : ℕ) (r : RegionRef) → get_elem? p.pool i ≡ some (some r) → r.region.id % p.size ≡ i

-- what the table holds for an id: the contents of the id's slot
abbrev pub slot_of : RegionPool → ℕ → Option (Option RegionRef)
slot_of p rid = get_elem? p.pool (rid % p.size)

pub nothing_stored :
    (n i : ℕ) (r : RegionRef)
    → ¬ (get_elem? {A = Option RegionRef} (replicate n none) i ≡ some (some r))
nothing_stored n i r e =
    let inside : i < n = omega (
      arith,
      lt_of_get_elem? (replicate n none) i (some r) e,
      length-replicate {A = Option RegionRef} n none,
    ) in
    cc (get_elem?-replicate {A = Option RegionRef} n i none inside)

-- `region_pool_init` with memory gives a valid pool with no regions, whatever `rand` returns in
-- its range.
pub region_pool_init-IsValid :
    (random : ℕ)
    → random < 2 ^ 31
    → (p : RegionPool) × (region_pool_init true true random ≡ (ok, some p))
      × IsValid p
      × ((rid : ℕ) → slot_of p rid ≡ some none)
unfolding region_pool_init
region_pool_init-IsValid random h = (
  _,
  refl,
  record {
    size = init-IsSize;
    storage = length-replicate {A = Option RegionRef} 16 none;
    counted = occupied-replicate 16;
    offset_in = omega arith;
    last_in = omega arith;
    placed = λ i r e. absurd (nothing_stored 16 i r e);
  },
  λ rid. get_elem?-replicate 16 (rid % 16) none (omega arith),
)
