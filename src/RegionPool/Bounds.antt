-- ===== src/RegionPool/Bounds.antt =====
-- `region_pool_buffer_check_bounds` (cleanq/region_pool.c).
use cleanq_linux.Base.{
  ℕ, ◌+◌, ◌%◌, ◌^◌, ◌<◌, ◌≤◌, ◌≡◌, sym, ◌∙◌, ◌↔◌, ap, true, false, not, ◌||◌, none, some,
  get_elem?-of_lt, arith, inl, inr, Option-cases, ltb, Returns, ◌⊎◌, ◌≢◌, ◌==◌, Bool-cases,
}
use native.Mathlib.Nat.{mod-lt}
use cleanq_linux.Types.{u64}
use cleanq_linux.RegionPool.{RegionPool, RegionRef, region_pool_buffer_check_bounds}
use cleanq_linux.RegionPool.Size.{pos_size, mask_lem}
use cleanq_linux.RegionPool.Invariant.{IsValid, slot_of}

-- The buffer lies in the region that stands in the slot of its id, whatever id that region has, and
-- its valid part in the buffer.
pub record InSlot (p : RegionPool) (rid offset length valid_data valid_length : ℕ) : Type 0 where
  pub ref : RegionRef
  pub stored : slot_of p rid ≡ some (some ref)
  pub buffer : offset + length ≤ ref.region.len
  pub payload : valid_data + valid_length ≤ length

-- The buffer lies in the region of its id.
pub record Within (p : RegionPool) (rid offset length valid_data valid_length : ℕ) : Type 0 where
  pub slot : InSlot p rid offset length valid_data valid_length
  pub named : slot.ref.region.id ≡ rid

-- No region has the id of the buffer: a region with another id stands in the slot, and the buffer
-- lies in that one.
pub record Aliased (p : RegionPool) (rid offset length valid_data valid_length : ℕ) : Type 0 where
  pub slot : InSlot p rid offset length valid_data valid_length
  pub other : slot.ref.region.id ≢ rid

pub InSlot-cases :
    (p : RegionPool) (rid offset length valid_data valid_length : ℕ)
    → InSlot p rid offset length valid_data valid_length
    → Within p rid offset length valid_data valid_length
      ⊎ Aliased p rid offset length valid_data valid_length
InSlot-cases p rid offset length valid_data valid_length w =
    elim (Bool-cases (w.ref.region.id == rid)) [
      | inl same ↦ inl (record { slot = w; named = ground arith })
      | inr differ ↦ inr (record { slot = w; other = ground arith })
    ]

in_bounds :
    (len length offset valid_data valid_length : ℕ)
    → length + offset < 2 ^ 64
    → valid_data + valid_length < 2 ^ 64
    → (not (ltb len (u64 (length + offset)) || ltb length (u64 (valid_data + valid_length))) ≡ true)
      ↔ ((offset + length ≤ len) × (valid_data + valid_length ≤ length))
in_bounds len length offset valid_data valid_length small small' =
    let plain : u64 (length + offset) ≡ length + offset = omega arith in
    let plain' : u64 (valid_data + valid_length) ≡ valid_data + valid_length = omega arith in
    rw (plain, plain') (ground arith)

pub check_bounds-InSlot :
    (p : RegionPool) (rid offset length valid_data valid_length : ℕ)
    → IsValid p
    → length + offset < 2 ^ 64
    → valid_data + valid_length < 2 ^ 64
    → Returns
        (region_pool_buffer_check_bounds p rid offset length valid_data valid_length)
        (λ b. (b ≡ true) ↔ InSlot p rid offset length valid_data valid_length)
unfolding region_pool_buffer_check_bounds
check_bounds-InSlot p rid offset length valid_data valid_length v small small' =
    let (slot, e) =
      get_elem?-of_lt p.pool (rid % p.size)
        (omega (arith, v.storage, mod-lt rid (pos_size v.size))) in
    elim (Option-cases slot) [
      | inl empty ↦
          let nothing : slot_of p rid ≡ some none = e ∙ ap some empty in
          (
            false,
            rw (mask_lem rid v.size, nothing),
            ((λ bad. absurd cc), (λ w. absurd (cc (nothing, w.stored)))),
          )
      | inr (r, full) ↦
          let found : slot_of p rid ≡ some (some r) = e ∙ ap some full in
          let (to, from) =
            in_bounds r.region.len length offset valid_data valid_length small small' in
          (
            _,
            rw (mask_lem rid v.size, found),
            (
              (λ t. record { ref = r; stored = found; buffer = (to t).0; payload = (to t).1 }),
              (λ w.
                  let same : w.ref ≡ r = cc (found, w.stored) in
                  from (rw (sym (ap (λ x. x.region.len) same)) w.buffer, w.payload)),
            ),
          )
    ]

-- On a valid pool the check of a buffer's bounds returns. If neither of the two sums exceeds 64
-- bits, it answers true exactly for a buffer that, with its valid part inside it, lies in the
-- region of its id, or whose id no region has, while a region with another id that stands in the
-- slot of its id holds the buffer.
pub check_bounds-Within :
    (p : RegionPool) (rid offset length valid_data valid_length : ℕ)
    → IsValid p
    → length + offset < 2 ^ 64
    → valid_data + valid_length < 2 ^ 64
    → Returns (region_pool_buffer_check_bounds p rid offset length valid_data valid_length) (λ b.
      (b ≡ true) ↔ (
        Within p rid offset length valid_data valid_length
        ⊎ Aliased p rid offset length valid_data valid_length))
check_bounds-Within p rid offset length valid_data valid_length v small small' =
    let (b, run, (to, from)) =
      check_bounds-InSlot p rid offset length valid_data valid_length v small small' in
    (
      b,
      run,
      (
        (λ t. InSlot-cases p rid offset length valid_data valid_length (to t)),
        (λ either. elim either [ inl w ↦ from w.slot | inr a ↦ from a.slot ]),
      ),
    )
