-- ===== src/RegionPool/Size.antt =====
-- The sizes of a region pool's table: powers of two that a `uint16_t` holds.
use cleanq_linux.Base.{
  ℕ, zero, suc, ◌+◌, ◌-◌, ◌*◌, ◌/◌, ◌%◌, ◌^◌, ◌<◌, ◌≤◌, ◌≡◌, refl, sym, ◌∙◌, ap, false, arith, ◌==◌,
  inl, inr, Bool-cases, ltb,
}
use native.Mathlib.Nat.{
  mod-eq_of_lt, mod-lt, mod-add-mod, add-mod_right, add-mul-mod_self_left, pow-suc, one-le-pow,
}
use cleanq_linux.Base.Bits.{bit_and-mask}
use cleanq_linux.Types.{u16}
use cleanq_linux.RegionPool.{mask}

-- a power of two below 2 ^ 16, with the power that is left
pub record IsSize (size : ℕ) : Type 0 where
  pub exponent : ℕ
  pub rest : ℕ
  pub power : size ≡ 2 ^ exponent
  pub divides : size * (2 * 2 ^ rest) ≡ 2 ^ 16

pub init-IsSize : IsSize 16
init-IsSize = record { exponent = 4; rest = 11; power = refl; divides = refl }

pub pos_size : {size : ℕ} → IsSize size → 0 < size
pos_size s = rw s.power (one-le-pow s.exponent 2 (omega arith))

pub size-le : {size : ℕ} → IsSize size → size ≤ 2 ^ 15
size-le {size} s = let rest = one-le-pow s.rest 2 (omega arith) in grind (arith, s.divides)

-- The next size, if it fits.
pub double-IsSize : {size : ℕ} → IsSize size → size < 2 ^ 15 → IsSize (size * 2)
double-IsSize {size} s h = go s.rest s.divides
  where
    go : (r : ℕ) → size * (2 * 2 ^ r) ≡ 2 ^ 16 → IsSize (size * 2)
    go zero e = absurd (omega arith)
    go (suc r) e = record {
      exponent = suc s.exponent;
      rest = r;
      power = ap (λ t. t * 2) s.power ∙ sym (pow-suc 2 s.exponent);
      divides = omega (arith, ap (λ t. size * (2 * t)) (pow-suc 2 r));
    }

pub mask_lem : {size : ℕ} (x : ℕ) → IsSize size → mask x size ≡ x % size
mask_lem {size} x s =
    let nonzero : size == 0 ≡ false = ground (arith, pos_size s) in
    rw (nonzero, s.power) (bit_and-mask s.exponent x)

-- Dropping the high bits of a 16-bit counter does not change the slot.
pub mod-u16 : {size : ℕ} (x y : ℕ) → IsSize size → (x + u16 y) % size ≡ (x + y) % size
mod-u16 {size} x y s =
    let e : x + y ≡ x + u16 y + size * (2 * 2 ^ s.rest * (y / 2 ^ 16)) =
      omega (arith, ap (λ t. t * (y / 2 ^ 16)) s.divides) in
    sym (
      ap (λ t. t % size) e ∙ add-mul-mod_self_left (x + u16 y) size (2 * 2 ^ s.rest * (y / 2 ^ 16)))

-- Some number of steps from any start leads to each slot.
pub steps_to : (size c i : ℕ) → 0 < size → i < size → (t : ℕ) × (t < size) × ((c + t) % size ≡ i)
steps_to size c i pos h =
    let within = λ (t : ℕ). sym (mod-add-mod c size t) in
    elim (Bool-cases (ltb i (c % size))) [
      | inl before ↦
          let down : c % size + (i + size - c % size) ≡ i + size = omega (arith, mod-lt c pos) in
          (
            i + size - c % size,
            ground (arith, mod-lt c pos),
            within (i + size - c % size)
                ∙ ap (λ t. t % size) down
                ∙ add-mod_right i size
                ∙ mod-eq_of_lt h,
          )
      | inr after ↦
          let up : c % size + (i - c % size) ≡ i = ground arith in
          (
            i - c % size,
            ground arith,
            within (i - c % size) ∙ ap (λ t. t % size) up ∙ mod-eq_of_lt h,
          )
    ]
