-- ===== src/RegionPool/Destroy.antt =====
-- `region_pool_destroy` (cleanq/region_pool.c).
use cleanq_linux.Base.{
  ℕ, zero, suc, ◌+◌, ◌%◌, ◌<◌, ◌≡◌, ◌≢◌, refl, sym, ◌∙◌, inl, inr, ap, List, [], ◌∷◌, none, some,
  length, get_elem?, get_elem?-of_lt, get_elem?-set_ne, lt_of_get_elem?, set, done, arith, ltb,
  ◌==◌, Bool-cases, Option-cases,
}
use cleanq_linux.Types.{ok}
use cleanq_linux.Slab.{SlabHead, SlabAllocator, slab_free}
use cleanq_linux.RegionPool.{
  RegionPool, RegionRef, Slots, freed, remove_from, region_pool_destroy, region_pool_remove_region,
}
use cleanq_linux.RegionPool.Slots.{occupied, Held}
use cleanq_linux.RegionPool.Invariant.{IsValid, slot_of}
use cleanq_linux.RegionPool.Remove.{without, without-Removed, remove_region-without, set-none-stays}
use cleanq_linux.RegionPool.Owned.{Owned, IsFree, GivenBack, give_back}

block_back :
    (p : RegionPool) (r : RegionRef) (i : ℕ)
    → Owned p
    → get_elem? p.pool i ≡ some (some r)
    → (shs : List SlabHead) × (slab_free p.region_alloc (some r.block)
        ≡ done (record (p.region_alloc) { slabs = shs }))
      × GivenBack p.region_alloc.blocksize r p.region_alloc.slabs shs p.pool i
unfolding slab_free
block_back p r i o e =
    let s = p.region_alloc in
    let (shs, b) =
      give_back s.blocksize r s.slabs p.pool i e o.slabs o.counts (o.blocks r (i, e)) in
    (shs, rw (b.run), b)

-- one round of the loop that removes a region
record Cleared (p q : RegionPool) (r : RegionRef) (i : ℕ) : Type 0 where
  valid : IsValid q
  owned : Owned q
  size : q.size ≡ p.size
  here : get_elem? q.pool i ≡ some none
  back : IsFree r.block q.region_alloc.slabs
  stays : (b : ℕ) → IsFree b p.region_alloc.slabs → IsFree b q.region_alloc.slabs
  others : (k : ℕ) → k ≢ i → get_elem? q.pool k ≡ get_elem? p.pool k

remove-Cleared :
    (p : RegionPool) (r : RegionRef) (i : ℕ)
    → IsValid p
    → Owned p
    → get_elem? p.pool i ≡ some (some r)
    → (q : RegionPool) × (region_pool_remove_region p r.region.id ≡ done (ok, some r.region.cap, q))
      × Cleared p q r i
remove-Cleared p r i v o e =
    let at : r.region.id % p.size ≡ i = v.placed i r e in
    let there : slot_of p r.region.id ≡ some (some r) = rw at e in
    let j = r.region.id % p.size in
    let (shs, free, b) = block_back p r j o there in
    let alloc : SlabAllocator = record (p.region_alloc) { slabs = shs } in
    let removed = without-Removed p r.region.id v r alloc there in
    let inside : j < length p.pool = lt_of_get_elem? p.pool j (some r) there in
    (
      without p r.region.id v alloc,
      remove_region-without p r.region.id v r alloc there free,
      record {
        valid = removed.valid;
        owned = record {
          slabs = b.valid;
          counts = b.owned;
          blocks = λ s (k, held) out.
              o.blocks s (k, set-none-stays p j k s inside held) (b.places' s.block out);
        };
        size = refl;
        here = ap (get_elem? (set p.pool j none)) (sym at) ∙ removed.gone;
        back = b.back;
        stays = b.stays;
        others = λ k ne. get_elem?-set_ne p.pool j k none (λ same. ne (sym same ∙ at));
      },
    )

-- no region before slot `i`
abbrev ClearBefore : ℕ → RegionPool → Type 0
ClearBefore i p = (k : ℕ) → k < i → get_elem? p.pool k ≡ some none

all_clear :
    (slots : Slots)
    → ((k : ℕ) → k < length slots → get_elem? slots k ≡ some none)
    → occupied slots ≡ 0
unfolding occupied
all_clear [] h = refl
all_clear (none ∷ slots) h = all_clear slots (λ k lt. h (suc k) (omega arith))
all_clear (some r ∷ slots) h = cc (h 0 (omega arith))

vacant_slot :
    (slots : Slots) (k : ℕ) → occupied slots ≡ 0 → k < length slots → get_elem? slots k ≡ some none
unfolding occupied
vacant_slot [] k h lt = absurd (omega arith)
vacant_slot (none ∷ slots) zero h lt = refl
vacant_slot (none ∷ slots) (suc k) h lt = vacant_slot slots k h (omega arith)
vacant_slot (some r ∷ slots) k h lt = absurd (omega arith)

-- `q` is what `p` has become: every region has been removed, and its block is free again.
pub record Emptied (p q : RegionPool) : Type 0 where
  pub valid : IsValid q
  pub size : q.size ≡ p.size
  pub counted : q.num_regions ≡ 0
  pub removed : (k : ℕ) → k < q.size → get_elem? q.pool k ≡ some none
  pub back : (r : RegionRef) → Held p.pool r → IsFree r.block q.region_alloc.slabs
  pub stays : (b : ℕ) → IsFree b p.region_alloc.slabs → IsFree b q.region_alloc.slabs

empty-Emptied :
    (p : RegionPool)
    → IsValid p
    → ((k : ℕ) → k < p.size → get_elem? p.pool k ≡ some none)
    → Emptied p p
empty-Emptied p v clear = record {
  valid = v;
  size = refl;
  counted = sym v.counted ∙ all_clear p.pool (λ k lt. clear k (omega (arith, v.storage)));
  removed = clear;
  back = λ r (k, held).
      let lt = lt_of_get_elem? p.pool k (some r) held in
      cc (held, clear k (omega (arith, lt, v.storage)));
  stays = λ b free. free;
}

Cleared-Emptied :
    (p q q' : RegionPool) (r : RegionRef) (i : ℕ)
    → get_elem? p.pool i ≡ some (some r)
    → Cleared p q r i
    → Emptied q q'
    → Emptied p q'
Cleared-Emptied p q q' r i there c e = record {
  valid = e.valid;
  size = e.size ∙ c.size;
  counted = e.counted;
  removed = e.removed;
  back = λ s (k, held). elim (Bool-cases (k == i)) [
    | inl at ↦
        let same : k ≡ i = ground arith in
        let it : r ≡ s = cc (held, there, same) in
        rw (sym (ap (λ x. x.block) it)) (e.stays r.block c.back)
    | inr other ↦ let ne : k ≢ i = ground arith in e.back s (k, c.others k ne ∙ held)
  ];
  stays = λ b free. e.stays b (c.stays b free);
}

remove_from-Emptied :
    (n i : ℕ) (p : RegionPool)
    → IsValid p
    → Owned p
    → i + n ≡ p.size
    → ClearBefore i p
    → (q : RegionPool) × (remove_from n i p ≡ done (ok, q)) × Emptied p q
unfolding remove_from
remove_from-Emptied zero i p v o e clear =
    (p, refl, empty-Emptied p v (λ k lt. clear k (omega arith)))
remove_from-Emptied (suc n) i p v o e clear =
    let (slot, look) = get_elem?-of_lt p.pool i (omega (arith, v.storage)) in
    elim (Option-cases slot) [
      | inl empty ↦
          let gone : get_elem? p.pool i ≡ some none = look ∙ ap some empty in
          let next = clear_next p p i gone clear (λ k lt. refl) in
          let (q, run, done_with) = remove_from-Emptied n (i + 1) p v o (omega arith) next in
          (q, rw gone run, done_with)
      | inr (r, full) ↦
          let there : get_elem? p.pool i ≡ some (some r) = look ∙ ap some full in
          let (q, removes, c) = remove-Cleared p r i v o there in
          let next = clear_next p q i c.here clear (λ k lt. c.others k (omega arith)) in
          let (q', run, done_with) =
            remove_from-Emptied n (i + 1) q c.valid c.owned (omega (arith, c.size)) next in
          (q', rw (there, removes) run, Cleared-Emptied p q q' r i there c done_with)
    ]
  where
    clear_next :
        (p q : RegionPool) (i : ℕ)
        → get_elem? q.pool i ≡ some none
        → ClearBefore i p
        → ((k : ℕ) → k < i → get_elem? q.pool k ≡ get_elem? p.pool k)
        → ClearBefore (i + 1) q
    clear_next p q i gone clear same k lt = elim (Bool-cases (ltb k i)) [
      | inl before ↦ let lt' : k < i = ground arith in same k lt' ∙ clear k lt'
      | inr last ↦ let at : k ≡ i = ground arith in ap (get_elem? q.pool) at ∙ gone
    ]

-- `region_pool_destroy` of a valid pool whose regions own their blocks ends with no error, without
-- a failed assertion, and the pool freed. When it is freed, the pool is valid, has its size and no
-- region left in any slot; the block of every region that it held is in a free list of the
-- allocator, as is each block that was there before.
pub region_pool_destroy-Emptied :
    (p : RegionPool)
    → IsValid p
    → Owned p
    → (q : RegionPool) × (region_pool_destroy p ≡ done (ok, freed q)) × Emptied p q
unfolding region_pool_destroy
region_pool_destroy-Emptied p v o = elim (Bool-cases (p.num_regions == 0)) [
  | inl empty ↦ (
    p,
    rw empty refl,
    empty-Emptied p v
        (λ k lt. vacant_slot p.pool k (ground (arith, v.counted)) (omega (arith, v.storage))),
  )
  | inr some_left ↦
      let (q, run, e) =
        remove_from-Emptied p.size 0 p v o (omega arith) (λ k lt. absurd (omega arith)) in
      (q, rw (some_left, run) refl, e)
]
