-- ===== src/RegionPool/Grow.antt =====
-- `region_pool_grow` (cleanq/region_pool.c).
use cleanq_linux.Base.{
  ℕ, zero, suc, ◌+◌, ◌*◌, ◌/◌, ◌%◌, ◌^◌, ◌<◌, ◌≡◌, refl, sym, ◌∙◌, ◌≢◌, ◌⊎◌, ap, [], ◌∷◌, Option,
  none, some, length, get_elem?, set, replicate, length-set, length-replicate, get_elem?-of_lt,
  get_elem?-set_self, get_elem?-set_ne, done, Returns, arith, true, false, inl, inr, Bool-cases,
  Option-cases, ◌==◌,
}
use native.Mathlib.Nat.{mod-eq_of_lt, mod-lt, add-mul-mod_self_left, div-add-mod}
use cleanq_linux.Types.{u16, ok, malloc_fail}
use cleanq_linux.RegionPool.{RegionPool, RegionRef, Slots, Memory, mask, rehash, region_pool_grow}
use cleanq_linux.RegionPool.Size.{IsSize, pos_size, size-le, double-IsSize, mask_lem}
use cleanq_linux.RegionPool.Slots.{
  Held, occupied, occupied-le, occupied-replicate, occupied-set-some, store_slot-lt, set-some-cases,
}
use cleanq_linux.RegionPool.Invariant.{IsValid, slot_of, nothing_stored}

-- The slot in the old table follows from the slot in the new one.
mod-double : (x n : ℕ) → x % (n * 2) % n ≡ x % n
mod-double x n =
    let e : x ≡ x % (n * 2) + n * (2 * (x / (n * 2))) = omega (arith, div-add-mod x (n * 2)) in
    sym (ap (λ t. t % n) e ∙ add-mul-mod_self_left (x % (n * 2)) n (2 * (x / (n * 2))))

-- A full table from slot `i` on: each slot holds a region that belongs there.
abbrev Full : ℕ → ℕ → Slots → Type 0
Full n i [] = Unit {0}
Full n i (none ∷ old) = ⊥
Full n i (some r ∷ old) = (r.region.id % n ≡ i) × Full n (i + 1) old

full_lem :
    (n i : ℕ) (old : Slots)
    → ((k : ℕ) (r : RegionRef) → get_elem? old k ≡ some (some r) → r.region.id % n ≡ i + k)
    → occupied old ≡ length old
    → Full n i old
unfolding occupied
full_lem n i [] placed count = tt
full_lem n i (none ∷ old) placed count = omega (arith, occupied-le old)
full_lem n i (some r ∷ old) placed count = (
  placed 0 r refl ∙ omega arith,
  full_lem n (i + 1) old (λ k s e. placed (suc k) s e ∙ omega arith) (omega arith),
)

-- the new table after the slots before `i` have been copied
record Partial (n i : ℕ) (tmp : Slots) : Type 0 where
  width : length tmp ≡ n * 2
  placed : (j : ℕ) (r : RegionRef) → get_elem? tmp j ≡ some (some r) → r.region.id % (n * 2) ≡ j
  before : (j : ℕ) (r : RegionRef) → get_elem? tmp j ≡ some (some r) → r.region.id % n < i

record Rehashed (n : ℕ) (old tmp out : Slots) : Type 0 where
  width : length out ≡ n * 2
  placed : (j : ℕ) (r : RegionRef) → get_elem? out j ≡ some (some r) → r.region.id % (n * 2) ≡ j
  count : occupied out ≡ occupied tmp + length old
  kept : (j : ℕ) (r : RegionRef) → get_elem? tmp j ≡ some (some r) → get_elem? out j ≡ some (some r)
  moved :
      (k : ℕ) (r : RegionRef)
      → get_elem? old k ≡ some (some r)
      → get_elem? out (r.region.id % (n * 2)) ≡ some (some r)
  origin :
      (j : ℕ) (r : RegionRef)
      → get_elem? out j ≡ some (some r)
      → (get_elem? tmp j ≡ some (some r)) ⊎ Held old r

module _ (n : ℕ) (small : IsSize (n * 2)) where
  -- The slot of the next region is still empty.
  slot_empty :
      (i : ℕ) (tmp : Slots) (r : RegionRef)
      → Partial n i tmp
      → r.region.id % n ≡ i
      → get_elem? tmp (r.region.id % (n * 2)) ≡ some none
  slot_empty i tmp r p e =
      let j = r.region.id % (n * 2) in
      let (slot, look) =
        get_elem?-of_lt tmp j (omega (arith, p.width, mod-lt r.region.id (pos_size small))) in
      elim (Option-cases slot) [
        | inl empty ↦ look ∙ ap some empty
        | inr (s, taken) ↦
            let found = look ∙ ap some taken in
            let same : s.region.id % n ≡ r.region.id % n =
              sym (mod-double s.region.id n)
              ∙ ap (λ t. t % n) (p.placed j s found)
              ∙ mod-double r.region.id n in
            absurd (omega (arith, p.before j s found))
      ]

  store-Partial :
      (i : ℕ) (tmp : Slots) (r : RegionRef)
      → Partial n i tmp
      → r.region.id % n ≡ i
      → Partial n (i + 1) (set tmp (r.region.id % (n * 2)) (some r))
  store-Partial i tmp r p e =
      let j = r.region.id % (n * 2) in
      let inside : j < length tmp = omega (arith, p.width, mod-lt r.region.id (pos_size small)) in
      record {
        width = length-set tmp j (some r) ∙ p.width;
        placed = λ k s f. elim (set-some-cases tmp j k r s inside f) [
          | inl (slot, ref) ↦ ap (λ x. x.region.id % (n * 2)) (sym ref) ∙ slot
          | inr (apart, old) ↦ p.placed k s old
        ];
        before = λ k s f. elim (set-some-cases tmp j k r s inside f) [
          | inl (slot, ref) ↦
              let at : s.region.id % n ≡ i = ap (λ x. x.region.id % n) (sym ref) ∙ e in omega arith
          | inr (apart, old) ↦ omega (arith, p.before k s old)
        ];
      }

  rehash_lem :
      (i : ℕ) (old tmp : Slots)
      → Full n i old
      → Partial n i tmp
      → Returns (rehash (n * 2) old tmp) (Rehashed n old tmp)
  unfolding rehash
  rehash_lem i [] tmp full p = (
    tmp,
    refl,
    record {
      width = p.width;
      placed = p.placed;
      count = omega arith;
      kept = λ j r e. e;
      moved = λ k r e. cc;
      origin = λ j r e. inl e;
    },
  )
  rehash_lem i (none ∷ old) tmp full p = absurd full
  rehash_lem i (some r ∷ old) tmp full p =
      let j = r.region.id % (n * 2) in
      let inside : j < length tmp = omega (arith, p.width, mod-lt r.region.id (pos_size small)) in
      let index : u16 (mask r.region.id (n * 2)) ≡ j =
        ap u16 (mask_lem r.region.id small)
        ∙ mod-eq_of_lt (omega (arith, mod-lt r.region.id (pos_size small), size-le small)) in
      let free = slot_empty i tmp r p full.0 in
      let stored = get_elem?-set_self tmp j (some r) inside in
      let (out, run, h) =
        rehash_lem (i + 1) old (set tmp j (some r)) full.1 (store-Partial i tmp r p full.0) in
      (
        out,
        rw (index, store_slot-lt tmp j (some r) inside) run,
        record {
          width = h.width;
          placed = h.placed;
          count = omega (arith, h.count, occupied-set-some tmp j r free);
          kept = λ k s e. elim (Bool-cases (j == k)) [
            | inl same ↦ let slot : j ≡ k = ground arith in cc (rw slot at free)
            | inr differ ↦
                let apart : j ≢ k = ground arith in
                h.kept k s (get_elem?-set_ne tmp j k (some r) apart ∙ e)
          ];
          moved = λ k s e. move out h stored k s e;
          origin = λ k s e. elim (h.origin k s e) [
            | inl in_tmp ↦ elim (set-some-cases tmp j k r s inside in_tmp) [
              | inl (slot, ref) ↦ inr (0, ap (λ x. some (some x)) ref)
              | inr (apart, old_one) ↦ inl old_one
            ]
            | inr (i', later) ↦ inr (suc i', later)
          ];
        },
      )
    where
      move :
          (out : Slots)
          → Rehashed n old (set tmp (r.region.id % (n * 2)) (some r)) out
          → get_elem? (set tmp (r.region.id % (n * 2)) (some r)) (r.region.id % (n * 2))
            ≡ some (some r)
          → (k : ℕ) (s : RegionRef) → get_elem? (some r ∷ old) k ≡ some (some s)
          → get_elem? out (s.region.id % (n * 2)) ≡ some (some s)
      move out h stored zero s e =
          let same : r ≡ s = cc in
          ap (λ x. get_elem? out (x.region.id % (n * 2))) (sym same)
          ∙ h.kept _ r stored
          ∙ ap (λ x. some (some x)) same
      move out h stored (suc k) s e = h.moved k s e

-- `q` holds the regions of `p` in a table twice as long.
pub record Grown (p q : RegionPool) : Type 0 where
  pub valid : IsValid q
  pub size : q.size ≡ p.size * 2
  pub count : q.num_regions ≡ p.num_regions
  pub same : (q.region_offset ≡ p.region_offset) × (q.region_alloc ≡ p.region_alloc)
  pub moved :
      (i : ℕ) (r : RegionRef)
      → get_elem? p.pool i ≡ some (some r)
      → slot_of q r.region.id ≡ some (some r)
  pub origin : (r : RegionRef) → Held q.pool r → Held p.pool r

-- `region_pool_grow` of a full valid pool with fewer than 2 ^ 15 slots ends with no error, if
-- memory is given. The new pool is valid and twice as long, with as many regions, the same
-- allocator and id offset; each region of the old pool stands in the slot of its id, and no other
-- region is there.
pub region_pool_grow-Grown :
    (memory : Memory) (p : RegionPool)
    → IsValid p
    → p.num_regions ≡ p.size
    → p.size < 2 ^ 15
    → memory.calloc_ok ≡ true
    → (q : RegionPool) × (region_pool_grow memory p ≡ done (ok, q)) × Grown p q
unfolding region_pool_grow
region_pool_grow-Grown memory p v full small given =
    let m = p.size * 2 in
    let width : u16 m ≡ m = mod-eq_of_lt (omega arith) in
    let big = double-IsSize v.size small in
    let old =
      full_lem p.size 0 p.pool (λ k r e. v.placed k r e ∙ omega arith)
        (v.counted ∙ full ∙ sym v.storage) in
    let start : Partial p.size 0 (replicate m none) = record {
      width = length-replicate {A = Option RegionRef} m none;
      placed = λ j r e. absurd (nothing_stored m j r e);
      before = λ j r e. absurd (nothing_stored m j r e);
    } in
    let (out, run, h) = rehash_lem p.size big 0 p.pool (replicate m none) old start in
    (
      record p { pool = out; size = m; last_offset = 0 },
      rw (given, width, run),
      record {
        valid = record {
          size = big;
          storage = h.width;
          counted = omega (arith, h.count, occupied-replicate m, v.storage);
          offset_in = v.offset_in;
          last_in = omega arith;
          placed = h.placed;
        };
        size = refl;
        count = refl;
        same = (refl, refl);
        moved = h.moved;
        origin = λ r (j, e). elim (h.origin j r e) [
          | inl fresh ↦ absurd (nothing_stored m j r fresh)
          | inr held ↦ held
        ];
      },
    )

-- Without memory the pool stays as it was.
pub region_pool_grow-fail :
    (memory : Memory) (p : RegionPool)
    → memory.calloc_ok ≡ false
    → region_pool_grow memory p ≡ done (malloc_fail, p)
unfolding region_pool_grow
region_pool_grow-fail memory p none_given = rw none_given
