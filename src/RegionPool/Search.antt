-- ===== src/RegionPool/Search.antt =====
-- The search for an empty slot in `region_pool_add_region` (cleanq/region_pool.c).
use cleanq_linux.Base.{
  ℕ, zero, suc, ◌+◌, ◌-◌, ◌%◌, ◌^◌, ◌<◌, ◌≤◌, ◌≡◌, ◌∙◌, ap, none, some, length, get_elem?,
  get_elem?-of_lt, Returns, arith, inl, inr, Option-cases, ◌≢◌,
}
use native.Mathlib.Nat.{mod-eq_of_lt, mod-lt}
use cleanq_linux.Types.{u16}
use cleanq_linux.RegionPool.{RegionPool, candidate, mask, find_slot, slot_fuel}
use cleanq_linux.RegionPool.Size.{IsSize, pos_size, size-le, mask_lem, mod-u16, steps_to}

module _ (p : RegionPool) (s : IsSize p.size) (storage : length p.pool ≡ p.size)
    (offset_in : p.region_offset < 2 ^ 19) (count_in : p.num_regions ≤ 2 ^ 16) where
  abbrev base : ℕ
  base = p.region_offset + p.num_regions

  -- None of the sums of the loop wraps, and the index is the remainder.
  pub index_lem :
      (offset : ℕ)
      → offset < 2 ^ 16
      → u16 (mask (candidate p offset) p.size) ≡ (base + offset) % p.size
  index_lem offset h =
      let plain : candidate p offset ≡ base + offset = mod-eq_of_lt (omega arith) in
      rw (plain, mask_lem (base + offset) s)
        (mod-eq_of_lt (omega (arith, mod-lt (base + offset) (pos_size s), size-le s)))

  -- what the loop returns
  pub record IsFree (offset : ℕ) : Type 0 where
    pub width : offset < 2 ^ 16
    pub free : get_elem? p.pool ((base + offset) % p.size) ≡ some none

  find_slot-within :
      (t fuel offset i : ℕ)
      → t < fuel
      → offset < 2 ^ 16
      → (base + offset + t) % p.size ≡ i
      → get_elem? p.pool i ≡ some none
      → Returns (find_slot fuel p offset) IsFree
  unfolding find_slot
  find_slot-within t zero offset i lt h e free = absurd (omega arith)
  find_slot-within t (suc fuel) offset i lt h e free =
      let here = (base + offset) % p.size in
      let inside : here < length p.pool = omega (arith, mod-lt (base + offset) (pos_size s)) in
      let (slot, look) = get_elem?-of_lt p.pool here inside in
      elim (Option-cases slot) [
        | inl empty ↦
            let found : get_elem? p.pool here ≡ some none = look ∙ ap some empty in
            (offset, rw (find_slot, index_lem offset h, found), record { width = h; free = found })
        | inr (r, taken) ↦
            let found : get_elem? p.pool here ≡ some (some r) = look ∙ ap some taken in
            let moved : t ≢ 0 = λ z.
              let same : here ≡ i = ap (λ n. n % p.size) (omega arith) ∙ e in
              cc (ap (get_elem? p.pool) same) in
            let next : (base + u16 (offset + 1) + (t - 1)) % p.size ≡ i =
              ap (λ n. n % p.size) (omega arith)
              ∙ mod-u16 (base + (t - 1)) (offset + 1) s
              ∙ ap (λ n. n % p.size) (omega arith)
              ∙ e in
            let (o, run, f) =
              find_slot-within (t - 1) fuel (u16 (offset + 1)) i (omega arith) (omega arith) next
                free in
            (o, rw (find_slot, index_lem offset h, found) run, f)
      ]

  -- With one empty slot the loop ends within the fuel, in an offset whose slot is empty.
  pub find_slot_lem :
      (offset i : ℕ)
      → offset < 2 ^ 16
      → i < p.size
      → get_elem? p.pool i ≡ some none
      → Returns (find_slot slot_fuel p offset) IsFree
  find_slot_lem offset i h lt free =
      let (t, near, e) = steps_to p.size (base + offset) i (pos_size s) lt in
      find_slot-within t slot_fuel offset i (omega (arith, size-le s)) h e free
