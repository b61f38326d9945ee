-- ===== src/Base/Bits/Mask.antt =====
-- Masks as arithmetic: one bit, the low bits, the high bits.
use Prim.Native.Nat.{ℕ, zero, suc, ◌+◌, ◌-◌, ◌*◌, ◌/◌, ◌%◌, ◌^◌, ◌≤◌, ◌<◌, bit_and}
use mathlib.Core.Path.{◌≡◌, ap, ◌∙◌}
use native.Mathlib.Nat.{
  pow-suc, one-le-pow, pow-le-pow_right, div-add-mod', div-div-eq-div-mul, mod-eq_of_lt,
}
use native.Mathlib.Omega.{arith}
use tmos.Base.Bits.Step.{bit_at, bit_and_step}
use tmos.Base.Bits.Ext.{bit_not, bit_and-zero}

-- `x & (1 << k)` keeps digit `k` at its weight.
pub bit_and-pow : (x k : ℕ) → bit_and x (2 ^ k) ≡ 2 ^ k * bit_at x k
bit_and-pow x zero = omega (arith, bit_and_step x 1, bit_and-zero (x / 2))
bit_and-pow x (suc k) =
    let half : 2 ^ suc k / 2 ≡ 2 ^ k = omega (arith, pow-suc 2 k) in
    let even : 2 ^ suc k % 2 ≡ 0 = omega (arith, pow-suc 2 k) in
    let step : bit_and x (2 ^ suc k) ≡ bit_and (x / 2) (2 ^ k) * 2 =
      rw (bit_and_step x (2 ^ suc k), half, even) (omega arith) in
    rw (step, bit_and-pow (x / 2) k, pow-suc 2 k) (grind arith)

pub mul-two-pow : (q k : ℕ) → q * 2 ^ suc k ≡ 2 * (q * 2 ^ k)
mul-two-pow q k = omega (arith, ap (λ (t : ℕ). q * t) (pow-suc 2 k))

pub half_quotient : (x k : ℕ) → x / 2 / 2 ^ k ≡ x / 2 ^ suc k
half_quotient x k = div-div-eq-div-mul x 2 (2 ^ k) ∙ ap (λ t. x / t) (omega (arith, pow-suc 2 k))

pub two_pow_mono : (i j : ℕ) → i ≤ j → 2 ^ i ≤ 2 ^ j
two_pow_mono i j h = pow-le-pow_right {n = 2} (omega arith) h

-- Division and remainder by `2 ^ suc k` go through those of the half by `2 ^ k`.
pub pow_parts :
    (x k : ℕ)
    → (x / 2 ^ suc k * 2 ^ k + x / 2 % 2 ^ k ≡ x / 2)
      × (2 * (x / 2 ^ suc k * 2 ^ k) + x % 2 ^ suc k ≡ x)
pow_parts x k = (
  rw (half_quotient x k) at (div-add-mod' (x / 2) (2 ^ k)),
  omega (arith, mul-two-pow (x / 2 ^ suc k) k, div-add-mod' x (2 ^ suc k)),
)

-- `x & (2 ^ k - 1)` is the remainder.
pub bit_and_mask : (k x : ℕ) → bit_and x (2 ^ k - 1) ≡ x % 2 ^ k
bit_and_mask zero x = rw (bit_and-zero x) (omega arith)
bit_and_mask (suc k) x =
    let half : (2 ^ suc k - 1) / 2 ≡ 2 ^ k - 1 = omega (arith, pow-suc 2 k, one-le-pow k 2) in
    let odd : (2 ^ suc k - 1) % 2 ≡ 1 = omega (arith, pow-suc 2 k, one-le-pow k 2) in
    rw (bit_and_step x (2 ^ suc k - 1), half, odd, bit_and_mask k (x / 2))
      (omega (arith, pow_parts x k))

bit_and_ones : (w x : ℕ) → x < 2 ^ w → bit_and x (2 ^ w - 1) ≡ x
bit_and_ones w x h = bit_and_mask w x ∙ mod-eq_of_lt h

-- `x & ~(2 ^ k - 1)` clears the remainder.
pub bit_and_high :
    (w k x : ℕ) → k ≤ w → x < 2 ^ w → bit_and x (bit_not w (2 ^ k - 1)) ≡ x / 2 ^ k * 2 ^ k
bit_and_high w zero x h hx =
    let all : bit_not w (2 ^ 0 - 1) ≡ 2 ^ w - 1 = omega arith in
    rw (all, bit_and_ones w x hx) (omega arith)
bit_and_high zero (suc k) x h hx = absurd (omega arith)
bit_and_high (suc w) (suc k) x h hx =
    let mask = bit_not (suc w) (2 ^ suc k - 1) in
    let half : mask / 2 ≡ bit_not w (2 ^ k - 1) =
      omega (arith, pow-suc 2 w, pow-suc 2 k, one-le-pow k 2, two_pow_mono k w (omega arith)) in
    let even : mask % 2 ≡ 0 =
      omega (arith, pow-suc 2 w, pow-suc 2 k, one-le-pow k 2, two_pow_mono k w (omega arith)) in
    let rest = bit_and_high w k (x / 2) (omega arith) (omega (arith, pow-suc 2 w)) in
    rw (bit_and_step x mask, half, even, rest)
      (omega (arith, pow_parts x k, mul-two-pow (x / 2 ^ suc k) k, half_quotient x k))
