-- ===== src/RegionPool.antt =====
-- cleanq/region_pool.c, the table of registered memory regions. A pointer to a region is the
-- address of its block, kept together with the region that the block holds.
pub mod Size
pub mod Slots
pub mod Invariant
pub mod Search
pub mod Insert
pub mod Grow
pub mod Add
pub mod Remove
pub mod Bounds
pub mod Leak
pub mod Disjoint
pub mod Owned
pub mod Alias
pub mod Destroy
pub mod Samples
mod Tests
use cleanq_linux.Base.{
  ℕ, zero, suc, ◌+◌, ◌-◌, ◌*◌, ◌/◌, ◌^◌, bit_and, Bool, true, false, not, ◌||◌, Option, none, some,
  List, [], ◌∷◌, length, get_elem?, set, replicate, Run, done, crash, hang, ◌>>=◌, or_crash, ltb,
  leb, ◌==◌, if◌then◌else◌,
}
use cleanq_linux.Types.{
  u16, u32, u64, Errval, ok, invalid_region_args, invalid_region_id, malloc_fail, err_is_fail,
  Capref,
}
use cleanq_linux.Slab.{SlabAllocator, default_refill, slab_init, slab_alloc, slab_free}

abbrev pub init_pool_size : ℕ
init_pool_size = 16

-- `struct region`
pub record Region : Type 0 where
  pub id : ℕ
  pub base_addr : ℕ
  pub cap : Capref
  pub len : ℕ

-- `struct region *`
pub record RegionRef : Type 0 where
  pub block : ℕ
  pub region : Region

abbrev pub Slots : Type 0
Slots = List (Option RegionRef)

-- `struct region_pool`
pub record RegionPool : Type 0 where
  pub size : ℕ
  pub num_regions : ℕ
  pub region_offset : ℕ
  pub last_offset : ℕ
  pub region_alloc : SlabAllocator
  pub pool : Slots

-- What the C library answers in one call: whether `calloc` gives memory, and what `malloc` returns.
pub record Memory : Type 0 where
  pub calloc_ok : Bool
  pub malloc : Option ℕ

-- `x & (size - 1)`. At size 0 the mask is -1, all ones.
abbrev pub mask : ℕ → ℕ → ℕ
mask x size = if size == 0 then x else bit_and x (size - 1)

-- `sizeof(struct region)`: 8 for the padded id, 8, 24 and 8
abbrev pub region_bytes : ℕ
region_bytes = 48

-- The Booleans are the outcomes of the two `calloc`s, `random` is what `rand()` returns.
unfoldable pub region_pool_init : Bool → Bool → ℕ → Errval × Option RegionPool
unfolding slab_init
region_pool_init false slots_ok random = (malloc_fail, none)
region_pool_init true false random = (malloc_fail, none)
region_pool_init true true random = (ok, some fresh)
  where
    fresh : RegionPool
    fresh = record {
      size = init_pool_size;
      num_regions = 0;
      region_offset = random / 2 ^ 12;
      last_offset = 0;
      region_alloc = slab_init region_bytes default_refill;
      pool = replicate init_pool_size none;
    }

-- `tmp[index] = region`; outside the array this is undefined behaviour
pub store_slot : Slots → ℕ → Option RegionRef → Run Slots
store_slot slots i r = if ltb i (length slots) then done (set slots i r) else crash

-- The copying loop of `region_pool_grow`, over the old array, which has `size` entries. It reads
-- `region->id` of every entry.
pub rehash : ℕ → Slots → Slots → Run Slots
unfolding store_slot
rehash new_size [] tmp = done tmp
rehash new_size (none ∷ old) tmp = crash
rehash new_size (some r ∷ old) tmp =
    store_slot tmp (u16 (mask r.region.id new_size)) (some r) >>= rehash new_size old

unfoldable pub region_pool_grow : Memory → RegionPool → Run (Errval × RegionPool)
unfolding rehash
region_pool_grow memory p =
    let new_size = u16 (p.size * 2) in
    if memory.calloc_ok
    then (do
      tmp ← rehash new_size p.pool (replicate new_size none)
      done (ok, record p { pool = tmp; size = new_size; last_offset = 0 }))
    else done (malloc_fail, p)

-- `region_pool_grow` if the pool is full
unfoldable pub make_room : Memory → RegionPool → Run (Errval × RegionPool)
unfolding region_pool_grow
make_room memory p = if ltb p.num_regions p.size then done (ok, p) else region_pool_grow memory p

-- Neither range ends before the other begins, or both begin at the same address.
pub overlaps : Capref → Region → Bool
overlaps cap r =
    r.base_addr == cap.paddr
    || not
        (leb (u64 (cap.paddr + cap.len)) r.base_addr || leb (u64 (r.base_addr + r.len)) cap.paddr)

-- the first loop of `region_pool_add_region`
pub conflicts : Slots → Capref → Bool
unfolding overlaps
conflicts [] cap = false
conflicts (none ∷ slots) cap = conflicts slots cap
conflicts (some r ∷ slots) cap = overlaps cap r.region || conflicts slots cap

-- `region_offset + num_regions + offset`
abbrev pub candidate : RegionPool → ℕ → ℕ
candidate p offset = u64 (p.region_offset + p.num_regions + offset)

-- The `while (true)` loop that looks for an empty slot; it returns the offset at which it stops.
pub find_slot : ℕ → RegionPool → ℕ → Run ℕ
find_slot zero p offset = hang
find_slot (suc fuel) p offset = elim (get_elem? p.pool (u16 (mask (candidate p offset) p.size))) [
  | none ↦ crash
  | some none ↦ done offset
  | some (some r) ↦ find_slot fuel p (u16 (offset + 1))
]

-- The offset is 16 bits wide: after so many rounds the loop begins again.
abbrev pub slot_fuel : ℕ
slot_fuel = 2 ^ 16

abbrev pub region_at : Capref → ℕ → Region
region_at cap rid = record { id = rid; base_addr = cap.paddr; cap = cap; len = cap.len }

-- `region_pool_add_region` from the increment of `num_regions` on
pub insert_new : Memory → RegionPool → Capref → Run (Errval × Option ℕ × RegionPool)
unfolding find_slot store_slot slab_alloc
insert_new memory p₀ cap = do
  let p₁ : RegionPool = record p₀ { num_regions = u16 (p₀.num_regions + 1) }
  offset ← find_slot slot_fuel p₁ p₁.last_offset
  (block, alloc) ← slab_alloc memory.malloc p₁.region_alloc
  let p₂ : RegionPool = record p₁ { last_offset = offset; region_alloc = alloc }
  let rid : ℕ = u32 (candidate p₁ offset)
  elim block [
    | none ↦ done (malloc_fail, none, p₂)
    | some b ↦ do
      slots ←
          store_slot p₂.pool (mask rid p₂.size)
            (some (record { block = b; region = region_at cap rid }))
      done (ok, some rid, record p₂ { pool = slots })
  ]

-- The option is what goes through `region_id`.
unfoldable pub region_pool_add_region :
    Memory → RegionPool → Capref → Run (Errval × Option ℕ × RegionPool)
unfolding conflicts make_room insert_new
region_pool_add_region memory p cap =
    if conflicts p.pool cap then done (invalid_region_args, none, p) else (do
      (err, p') ← make_room memory p
      if err_is_fail err then done (err, none, p') else insert_new memory p' cap)

-- `region_pool_add_region_with_id` once the slot is known to be empty
pub insert_with_id : Memory → RegionPool → Capref → ℕ → Run (Errval × RegionPool)
unfolding store_slot slab_alloc
insert_with_id memory p cap rid = do
  (block, alloc) ← slab_alloc memory.malloc p.region_alloc
  elim block [
    | none ↦ done (malloc_fail, record p { region_alloc = alloc })
    | some b ↦ do
      slots ←
          store_slot p.pool (mask rid p.size)
            (some (record { block = b; region = region_at cap rid }))
      done (
        ok,
        record p { pool = slots; region_alloc = alloc; num_regions = u16 (p.num_regions + 1) },
      )
  ]

unfoldable pub region_pool_add_region_with_id :
    Memory → RegionPool → Capref → ℕ → Run (Errval × RegionPool)
unfolding make_room insert_with_id
region_pool_add_region_with_id memory p cap rid = do
  (err, p') ← make_room memory p
  if err_is_fail err then done (err, p') else (do
    slot ← or_crash (get_elem? p'.pool (mask rid p'.size))
    elim slot [ some r ↦ done (invalid_region_id, p') | none ↦ insert_with_id memory p' cap rid ])

-- The option is what goes through `cap`.
unfoldable pub region_pool_remove_region :
    RegionPool → ℕ → Run (Errval × Option Capref × RegionPool)
unfolding slab_free
region_pool_remove_region p rid = do
  slot ← or_crash (get_elem? p.pool (mask rid p.size))
  elim slot [
    | none ↦ done (invalid_region_id, none, p)
    | some r ↦ do
      alloc ← slab_free p.region_alloc (some r.block)
      done (
        ok,
        some r.region.cap,
        record p {
          region_alloc = alloc;
          pool = set p.pool (mask rid p.size) none;
          num_regions = u16 (p.num_regions + 2 ^ 16 - 1);
        },
      )
  ]

-- the loop of `region_pool_destroy`: `n` rounds from index `i` on
remove_from : ℕ → ℕ → RegionPool → Run (Errval × RegionPool)
unfolding region_pool_remove_region
remove_from zero i p = done (ok, p)
remove_from (suc n) i p = do
  slot ← or_crash (get_elem? p.pool i)
  elim slot [
    | none ↦ remove_from n (i + 1) p
    | some r ↦ do
      (err, cap, p') ← region_pool_remove_region p r.region.id
      elim (err_is_fail err) [ true ↦ done (err, p') | false ↦ remove_from n (i + 1) p' ]
  ]

-- What has become of the pool: it is left, or has been freed, with what it held then.
pub data Fate : Type 0 where
  left : RegionPool → Fate
  freed : RegionPool → Fate

unfoldable pub region_pool_destroy : RegionPool → Run (Errval × Fate)
unfolding remove_from
region_pool_destroy p = if p.num_regions == 0 then done (ok, freed p) else (do
  (err, p') ← remove_from p.size 0 p
  if err_is_fail err then done (err, left p') else done (ok, freed p'))

-- `offset`, `length`, `valid_data` and `valid_length` are unsigned: their sums wrap.
unfoldable pub region_pool_buffer_check_bounds : RegionPool → ℕ → ℕ → ℕ → ℕ → ℕ → Run Bool
region_pool_buffer_check_bounds p rid offset length valid_data valid_length = do
  slot ← or_crash (get_elem? p.pool (mask rid p.size))
  elim slot [
    | none ↦ done false
    | some r ↦ done (
        not (
          ltb r.region.len (u64 (length + offset)) || ltb length (u64 (valid_data + valid_length))))
  ]
