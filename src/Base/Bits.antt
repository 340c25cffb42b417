-- ===== src/Base/Bits.antt =====
-- `x & (size - 1)` at a power of two.
use Prim.Native.Nat.{
  ℕ, zero, suc, ◌+◌, ◌-◌, ◌*◌, ◌/◌, ◌%◌, ◌^◌, ◌≤◌, ◌<◌, min, bit_and, digits, bit_and-bitwise,
}
use mathlib.Core.Path.{◌≡◌, refl, sym, ap, ◌∙◌}
use native.Mathlib.Nat.{
  pow-suc, one-le-pow, div-add-mod, add-mul-mod_self_left, mod-eq_of_lt, mod-lt, zero-mod,
}
use native.Mathlib.Omega.{arith}

-- The digits of `a & b` for a count `n` of rounds, with the lowest digit last.
abbrev digits_of_and : ℕ → ℕ → ℕ → ℕ
digits_of_and rounds x y = digits (λ _. 0) min rounds x y

no_ones : (rounds x : ℕ) → digits_of_and rounds x 0 ≡ 0
no_ones zero x = refl
no_ones (suc n) zero = refl
no_ones (suc n) (suc x) = omega (arith, no_ones n (suc x / 2))

mod_double : (m x : ℕ) → 0 < m → x % (2 * m) ≡ 2 * (x / 2 % m) + x % 2
mod_double m x h =
    let e : x ≡ 2 * (x / 2 % m) + x % 2 + 2 * m * (x / 2 / m) =
      omega (arith, div-add-mod (x / 2) m) in
    ap (λ t. t % (2 * m)) e
    ∙ add-mul-mod_self_left (2 * (x / 2 % m) + x % 2) (2 * m) (x / 2 / m)
    ∙ mod-eq_of_lt (omega (arith, mod-lt (x / 2) h))

double_pow : (k : ℕ) → 2 ^ suc k ≡ 2 * 2 ^ k
double_pow k = omega (arith, pow-suc 2 k)

all_ones : (rounds k x : ℕ) → x ≤ rounds → digits_of_and rounds x (2 ^ k - 1) ≡ x % 2 ^ k
all_ones n zero x h = rw no_ones (omega arith)
all_ones zero (suc k) zero h = sym (zero-mod (2 ^ suc k))
all_ones zero (suc k) (suc x) h = absurd (omega arith)
all_ones (suc n) (suc k) zero h = sym (zero-mod (2 ^ suc k))
all_ones (suc n) (suc k) (suc x) h =
    let positive = one-le-pow k 2 (omega arith) in
    let half : (2 * 2 ^ k - 1) / 2 ≡ 2 ^ k - 1 = omega arith in
    rw (double_pow k) (
      omega (
        arith,
        ap (λ m. digits_of_and n (suc x / 2) m) half,
        all_ones n k (suc x / 2) (omega arith),
        mod_double (2 ^ k) (suc x) positive,
      ))

-- Masking by `2 ^ k - 1` is the remainder by `2 ^ k`.
pub bit_and-mask : (k x : ℕ) → bit_and x (2 ^ k - 1) ≡ x % 2 ^ k
bit_and-mask k x = bit_and-bitwise x (2 ^ k - 1) ∙ all_ones x k x (omega arith)
