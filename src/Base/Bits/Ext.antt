-- ===== src/Base/Bits/Ext.antt =====
-- Numbers below 2 ^ w are equal when their digits are; digits of powers and complements.
use Prim.Native.Nat.{
  ℕ, zero, suc, ◌+◌, ◌-◌, ◌*◌, ◌/◌, ◌%◌, ◌^◌, ◌≤◌, ◌<◌, min, max, bit_and, bit_or,
}
use mathlib.Core.Path.{◌≡◌, refl}
use mathlib.Core.Logic.{◌≢◌}
use native.Mathlib.Nat.{pow-suc}
use native.Mathlib.Omega.{arith}
use tmos.Base.Bits.Step.{bit_at, bit_and_step, bit_or_step}

pub bit_at-lt : (x j : ℕ) → bit_at x j < 2
bit_at-lt x zero = omega arith
bit_at-lt x (suc j) = bit_at-lt (x / 2) j

pub zero-bit_at : (j : ℕ) → bit_at 0 j ≡ 0
zero-bit_at zero = refl
zero-bit_at (suc j) = zero-bit_at j

pub eq_of_bits :
    (w a b : ℕ) → a < 2 ^ w → b < 2 ^ w → ((j : ℕ) → j < w → bit_at a j ≡ bit_at b j) → a ≡ b
eq_of_bits zero a b ha hb h = omega arith
eq_of_bits (suc w) a b ha hb h = omega (
  arith,
  h 0 (omega arith),
  eq_of_bits w (a / 2) (b / 2) (omega (arith, pow-suc 2 w)) (omega (arith, pow-suc 2 w))
      (λ j hj. h (suc j) (omega arith)),
)

-- `1 << k` has one digit.
pub bit_at-pow_self : (k : ℕ) → bit_at (2 ^ k) k ≡ 1
bit_at-pow_self zero = refl
bit_at-pow_self (suc k) =
    let half : 2 ^ suc k / 2 ≡ 2 ^ k = omega (arith, pow-suc 2 k) in rw half (bit_at-pow_self k)

pub bit_at-pow_ne : (k j : ℕ) → k ≢ j → bit_at (2 ^ k) j ≡ 0
bit_at-pow_ne zero zero h = absurd (h refl)
bit_at-pow_ne zero (suc j) h = zero-bit_at j
bit_at-pow_ne (suc k) zero h = omega (arith, pow-suc 2 k)
bit_at-pow_ne (suc k) (suc j) h =
    let half : 2 ^ suc k / 2 ≡ 2 ^ k = omega (arith, pow-suc 2 k) in
    rw half (bit_at-pow_ne k j (omega arith))

-- `~x` on w bits.
abbrev pub bit_not : ℕ → ℕ → ℕ
bit_not w x = 2 ^ w - 1 - x

pub bit_at-bit_not : (w x j : ℕ) → x < 2 ^ w → j < w → bit_at (bit_not w x) j ≡ 1 - bit_at x j
bit_at-bit_not zero x j hx hj = absurd (omega arith)
bit_at-bit_not (suc w) x zero hx hj = omega (arith, pow-suc 2 w)
bit_at-bit_not (suc w) x (suc j) hx hj =
    let half : bit_not (suc w) x / 2 ≡ bit_not w (x / 2) = omega (arith, pow-suc 2 w) in
    rw half (bit_at-bit_not w (x / 2) j (omega (arith, pow-suc 2 w)) (omega arith))

pub bit_or-lt : (w a b : ℕ) → a < 2 ^ w → b < 2 ^ w → bit_or a b < 2 ^ w
bit_or-lt zero a b ha hb = let (p, q) : (a ≡ 0) × (b ≡ 0) = omega arith in rw (p, q) (omega arith)
bit_or-lt (suc w) a b ha hb = omega (
  arith,
  bit_or_step a b,
  pow-suc 2 w,
  bit_or-lt w (a / 2) (b / 2) (omega (arith, pow-suc 2 w)) (omega (arith, pow-suc 2 w)),
)

bit_and-le_fuel : (n a b : ℕ) → a ≤ n → bit_and a b ≤ a
bit_and-le_fuel n zero b h = omega (arith, bit_and_step 0 b, bit_and-zero_left b)
  where
    bit_and-zero_left : (b : ℕ) → bit_and 0 b ≡ 0
    bit_and-zero_left b = Prim.Native.Nat.bit_and-bitwise 0 b
bit_and-le_fuel zero (suc a) b h = absurd (omega arith)
bit_and-le_fuel (suc n) (suc a) b h =
    omega (arith, bit_and_step (suc a) b, bit_and-le_fuel n (suc a / 2) (b / 2) (omega arith))

-- Masking never makes a number larger.
pub bit_and-le : (a b : ℕ) → bit_and a b ≤ a
bit_and-le a b = bit_and-le_fuel a a b (omega arith)

none_common : (rounds x : ℕ) → x < rounds → bit_and x 0 ≡ 0
none_common (suc rounds) (suc x) below =
    omega (arith, none_common rounds (suc x / 2) (omega arith), bit_and_step (suc x) 0)
none_common (suc rounds) zero below = refl
none_common zero x below = absurd (omega arith)

pub bit_and-zero : (x : ℕ) → bit_and x 0 ≡ 0
bit_and-zero x = none_common (x + 1) x (omega arith)
