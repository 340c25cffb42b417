-- ===== src/RegionPool/Add.antt =====
-- `region_pool_add_region` and `region_pool_add_region_with_id` (cleanq/region_pool.c).
use cleanq_linux.Base.{
  ℕ, suc, ◌==◌, sym, ◌%◌, ◌^◌, ◌<◌, ◌≡◌, refl, ◌∙◌, ◌≢◌, ◌⊎◌, ap, none, some, get_elem?, done,
  arith, true, false, inl, inr, Bool-cases, ltb,
}
use cleanq_linux.Types.{ok, invalid_region_args, invalid_region_id, Capref}
use cleanq_linux.Slab.{SlabAllocator, slab_alloc}
use cleanq_linux.RegionPool.{
  RegionPool, RegionRef, Memory, conflicts, make_room, region_pool_add_region,
  region_pool_add_region_with_id,
}
use cleanq_linux.RegionPool.Size.{pos_size, mask_lem}
use cleanq_linux.RegionPool.Slots.{Held, occupied-le}
use cleanq_linux.RegionPool.Invariant.{IsValid, slot_of}
use cleanq_linux.RegionPool.Insert.{
  entry, Inserted, put, put-Inserted, insert_new-Inserted, insert_with_id-Inserted,
}
use cleanq_linux.RegionPool.Grow.{region_pool_grow-Grown}

-- Each region of `p` stands in the slot of its id in `q`.
abbrev pub Keeps : RegionPool → RegionPool → Type 0
Keeps p q =
    (i : ℕ) (r : RegionRef)
    → get_elem? p.pool i ≡ some (some r)
    → slot_of q r.region.id ≡ some (some r)

Keeps-self : (p : RegionPool) → IsValid p → Keeps p p
Keeps-self p v i r e = rw (v.placed i r e) e

-- The table has an empty slot, or can grow.
abbrev pub HasRoom : Memory → RegionPool → Type 0
HasRoom memory p = (p.num_regions < p.size) ⊎ ((p.size < 2 ^ 15) × (memory.calloc_ok ≡ true))

-- `q` holds the regions of `p`, in a table with an empty slot
record Roomy (p q : RegionPool) : Type 0 where
  valid : IsValid q
  room : q.num_regions < q.size
  count : q.num_regions ≡ p.num_regions
  alloc : q.region_alloc ≡ p.region_alloc
  keeps : Keeps p q
  origin : (r : RegionRef) → Held q.pool r → Held p.pool r

make_room-Roomy :
    (memory : Memory) (p : RegionPool)
    → IsValid p
    → HasRoom memory p
    → (q : RegionPool) × (make_room memory p ≡ done (ok, q)) × Roomy p q
unfolding make_room
make_room-Roomy memory p v h = elim (Bool-cases (ltb p.num_regions p.size)) [
  | inl room ↦ (
    p,
    rw room,
    record {
      valid = v;
      room = ground arith;
      count = refl;
      alloc = refl;
      keeps = Keeps-self p v;
      origin = λ r held. held;
    },
  )
  | inr full ↦
      let exact : p.num_regions ≡ p.size =
        ground (arith, occupied-le p.pool, v.counted, v.storage) in
      let (small, given) : (p.size < 2 ^ 15) × (memory.calloc_ok ≡ true) = elim h [
        | inl lt ↦ absurd (omega arith)
        | inr g ↦ g
      ] in
      let (q, run, g) = region_pool_grow-Grown memory p v exact small given in
      (
        q,
        rw full run,
        record {
          valid = g.valid;
          room = omega (arith, g.count, g.size, pos_size v.size);
          count = g.count;
          alloc = g.same.1;
          keeps = g.moved;
          origin = g.origin;
        },
      )
]

-- `q` is `p` with a region for `cap` under the id `rid`, which no region of `p` had
pub record Added (p q : RegionPool) (cap : Capref) (rid b : ℕ) : Type 0 where
  pub valid : IsValid q
  pub count : q.num_regions ≡ suc p.num_regions
  pub here : slot_of q rid ≡ some (some (entry b cap rid))
  pub keeps : Keeps p q
  pub fresh : (i : ℕ) (r : RegionRef) → get_elem? p.pool i ≡ some (some r) → r.region.id ≢ rid
  pub origin : (r : RegionRef) → Held q.pool r → (r ≡ entry b cap rid) ⊎ Held p.pool r

-- An insertion after making room.
Inserted-Added :
    (p q q' : RegionPool) (cap : Capref) (rid b : ℕ)
    → Roomy p q
    → Inserted q q' (entry b cap rid)
    → Added p q' cap rid b
Inserted-Added p q q' cap rid b room ins = record {
  valid = ins.valid;
  count = ins.count ∙ ap suc room.count;
  here = ins.here;
  keeps = λ i r e.
      let kept = room.keeps i r e in
      let apart : r.region.id % q.size ≢ rid % q.size =
        λ same. cc (kept, ins.fresh, ap (get_elem? q.pool) same) in
      rw ins.size (ins.others (r.region.id % q.size) apart ∙ kept);
  fresh = λ i r e same. cc (room.keeps i r e, ins.fresh, ap (slot_of q) same);
  origin = λ r (i, e). elim (Bool-cases (i == rid % q.size)) [
    | inl same ↦
        let slot : i ≡ rid % q.size = ground arith in
        let there = ap (get_elem? q'.pool) (slot ∙ ap (λ n. rid % n) (sym ins.size)) in
        let found : r ≡ entry b cap rid = cc (e, there, ins.here) in inl found
    | inr differ ↦
        let apart : i ≢ rid % q.size = ground arith in
        inr (room.origin r (i, sym (ins.others i apart) ∙ e))
  ];
}

module _ (memory : Memory) (p : RegionPool) (cap : Capref) (v : IsValid p) where
  -- A region that overlaps with a registered one, or begins where it begins, is refused, and the
  -- pool stays as it was.
  pub add_region-conflict :
      conflicts p.pool cap ≡ true
      → region_pool_add_region memory p cap ≡ done (invalid_region_args, none, p)
  unfolding region_pool_add_region
  add_region-conflict c = rw c

  module _ (b : ℕ) (alloc : SlabAllocator)
      (got : slab_alloc memory.malloc p.region_alloc ≡ done (some b, alloc)) where
    -- `region_pool_add_region` of a valid pool ends with no error for a region that does not
    -- conflict, if there is an empty slot or the table can grow, and the allocator has a block. It
    -- returns an id that no region had; the new pool is valid, maps the id to the region, keeps
    -- every region under its id, and holds no other.
    pub region_pool_add_region-Added :
        conflicts p.pool cap ≡ false
        → HasRoom memory p
        → (rid : ℕ) × (q : RegionPool) × (region_pool_add_region memory p cap
            ≡ done (ok, some rid, q))
          × Added p q cap rid b
    unfolding region_pool_add_region
    region_pool_add_region-Added free h =
        let (q, run, room) = make_room-Roomy memory p v h in
        let block = ap (slab_alloc memory.malloc) room.alloc ∙ got in
        let (offset, rid, insert, small, empty) =
          insert_new-Inserted q room.valid cap b alloc memory block room.room in
        (
          rid,
          put q room.valid cap b alloc offset rid,
          rw (free, run, insert),
          Inserted-Added p q _ cap rid b room
              (put-Inserted q room.valid cap b alloc offset rid small empty),
        )

    -- `region_pool_add_region_with_id` into an empty slot of a valid pool ends with no error, if
    -- the table is not full and the allocator has a block. The new pool is valid, maps the given
    -- id to the region, keeps every region under its id, and holds no other.
    pub region_pool_add_region_with_id-Added :
        (rid : ℕ)
        → p.num_regions < p.size
        → slot_of p rid ≡ some none
        → (q : RegionPool) × (region_pool_add_region_with_id memory p cap rid ≡ done (ok, q))
          × Added p q cap rid b
    unfolding region_pool_add_region_with_id make_room
    region_pool_add_region_with_id-Added rid lt empty =
        let room : ltb p.num_regions p.size ≡ true = ground arith in
        let roomy : Roomy p p = record {
          valid = v;
          room = lt;
          count = refl;
          alloc = refl;
          keeps = Keeps-self p v;
          origin = λ r held. held;
        } in
        (
          put p v cap b alloc p.last_offset rid,
          rw (room, mask_lem rid v.size, empty)
              (insert_with_id-Inserted p v cap b alloc memory got rid empty),
          Inserted-Added p p _ cap rid b roomy
              (put-Inserted p v cap b alloc p.last_offset rid v.last_in empty),
        )

  -- An id whose slot is taken is refused, whatever region stands there.
  pub add_region_with_id-taken :
      (rid : ℕ) (r : RegionRef)
      → p.num_regions < p.size
      → slot_of p rid ≡ some (some r)
      → region_pool_add_region_with_id memory p cap rid ≡ done (invalid_region_id, p)
  unfolding region_pool_add_region_with_id make_room
  add_region_with_id-taken rid r lt taken =
      let room : ltb p.num_regions p.size ≡ true = ground arith in
      rw (room, mask_lem rid v.size, taken)
