-- ===== src/Base/Bits/Fields.antt =====
-- Fields of a word: a run of bits under a mask, and `|` of fields that do not overlap.
use Prim.Native.Nat.{ℕ, zero, suc, ◌+◌, ◌-◌, ◌*◌, ◌/◌, ◌%◌, ◌^◌, ◌≤◌, ◌<◌, bit_and, bit_or}
use mathlib.Core.Path.{◌≡◌, refl, ap, sym}
use native.Mathlib.Nat.{pow-suc, one-le-pow, le_trans}
use native.Mathlib.Omega.{arith}
use tmos.Base.Bits.Step.{bit_at, bit_and_step, bit_or_step, bit_at-bit_and}
use tmos.Base.Bits.Ext.{bit_not, bit_at-bit_not, bit_at-lt, bit_and-le, eq_of_bits, zero-bit_at}
use tmos.Base.Bits.Mask.{bit_and_mask, half_quotient, mul-two-pow, pow_parts}

-- `x & (((1 << n) - 1) << k)`.
pub bit_and_field : (k n x : ℕ) → bit_and x ((2 ^ n - 1) * 2 ^ k) ≡ x / 2 ^ k % 2 ^ n * 2 ^ k
bit_and_field zero n x =
    let one : (2 ^ n - 1) * 2 ^ 0 ≡ 2 ^ n - 1 = omega arith in
    let whole : x / 2 ^ 0 ≡ x = omega arith in rw (one, bit_and_mask n x, whole) (omega arith)
bit_and_field (suc k) n x =
    let mask = (2 ^ n - 1) * 2 ^ suc k in
    let half : mask / 2 ≡ (2 ^ n - 1) * 2 ^ k = omega (arith, mul-two-pow (2 ^ n - 1) k) in
    let even : mask % 2 ≡ 0 = omega (arith, mul-two-pow (2 ^ n - 1) k) in
    rw (bit_and_step x mask, half, even, bit_and_field k n (x / 2), half_quotient x k)
      (omega (arith, mul-two-pow (x / 2 ^ suc k % 2 ^ n) k))

bit_or-zero_fuel : (n a : ℕ) → a ≤ n → bit_or a 0 ≡ a
bit_or-zero_fuel n zero h = refl
bit_or-zero_fuel zero (suc a) h = absurd (omega arith)
bit_or-zero_fuel (suc n) (suc a) h =
    omega (arith, bit_or_step (suc a) 0, bit_or-zero_fuel n (suc a / 2) (omega arith))

pub bit_or-zero : (a : ℕ) → bit_or a 0 ≡ a
bit_or-zero a = bit_or-zero_fuel a a (omega arith)

-- `(q << k) | r` for an `r` of `k` bits is a sum, on either side.
pub bit_or_fields : (k q r : ℕ) → r < 2 ^ k → bit_or (q * 2 ^ k) r ≡ q * 2 ^ k + r
bit_or_fields zero q r h =
    let z : r ≡ 0 = omega arith in rw (z, bit_or-zero (q * 2 ^ 0)) (omega arith)
bit_or_fields (suc k) q r h =
    let half : q * 2 ^ suc k / 2 ≡ q * 2 ^ k = omega (arith, mul-two-pow q k) in
    let even : q * 2 ^ suc k % 2 ≡ 0 = omega (arith, mul-two-pow q k) in
    rw
      (
        bit_or_step (q * 2 ^ suc k) r,
        half,
        even,
        bit_or_fields k q (r / 2) (omega (arith, pow-suc 2 k)),
      )
      (omega (arith, mul-two-pow q k))

bit_or_comm_fuel : (n a b : ℕ) → a ≤ n → b ≤ n → bit_or a b ≡ bit_or b a
bit_or_comm_fuel zero a b p q = let (e, f) : (a ≡ 0) × (b ≡ 0) = omega arith in rw (e, f)
bit_or_comm_fuel (suc n) a b p q = omega (
  arith,
  bit_or_step a b,
  bit_or_step b a,
  bit_or_comm_fuel n (a / 2) (b / 2) (omega arith) (omega arith),
)

pub bit_or_comm : (a b : ℕ) → bit_or a b ≡ bit_or b a
bit_or_comm a b = bit_or_comm_fuel (a + b) a b (omega arith) (omega arith)

-- What a mask keeps, its complement clears.
pub bit_and_cleared :
    (w x m : ℕ) → x < 2 ^ w → m < 2 ^ w → bit_and x m ≡ x → bit_and x (bit_not w m) ≡ 0
bit_and_cleared w x m hx hm kept =
    eq_of_bits w (bit_and x (bit_not w m)) 0
      (le_trans (omega (arith, bit_and-le x (bit_not w m))) hx) (one-le-pow w 2 (omega arith))
      (λ j hj. omega (
        arith,
        bit_at-bit_and x (bit_not w m) j,
        bit_at-bit_not w m j hm hj,
        bit_at-bit_and x m j,
        ap (λ t. bit_at t j) kept,
        bit_at-lt m j,
        zero-bit_at j,
      ))

-- `|` with a number whose low `k` bits are clear, in two parts.
pub bit_or_parts : (k q r : ℕ) → bit_or (q * 2 ^ k) r ≡ bit_or q (r / 2 ^ k) * 2 ^ k + r % 2 ^ k
bit_or_parts zero q r =
    let (a, b) : (q * 2 ^ 0 ≡ q) × (r / 2 ^ 0 ≡ r) = (omega arith, omega arith) in
    rw (a, b) (omega arith)
bit_or_parts (suc k) q r =
    let half : q * 2 ^ suc k / 2 ≡ q * 2 ^ k = omega (arith, mul-two-pow q k) in
    let even : q * 2 ^ suc k % 2 ≡ 0 = omega (arith, mul-two-pow q k) in
    let same = bit_or q (r / 2 ^ suc k) in
    rw (bit_or_step (q * 2 ^ suc k) r, half, even, bit_or_parts k q (r / 2), half_quotient r k)
      (omega (arith, mul-two-pow same k, pow_remainder k r))
  where
    pow_remainder : (k x : ℕ) → x / 2 % 2 ^ k * 2 + x % 2 ≡ x % 2 ^ suc k
    pow_remainder k x = omega (arith, pow_parts x k)

-- All ones absorb what fits under them.
pub bit_or_ones : (w x : ℕ) → x < 2 ^ w → bit_or (2 ^ w - 1) x ≡ 2 ^ w - 1
bit_or_ones zero x h = let z : x ≡ 0 = omega arith in rw z (bit_or-zero (2 ^ 0 - 1))
bit_or_ones (suc w) x h = omega (
  arith,
  bit_or_step (2 ^ suc w - 1) x,
  pow-suc 2 w,
  one-le-pow w 2,
  ap (λ (t : ℕ). bit_or t (x / 2)) (half w),
  bit_or_ones w (x / 2) (omega (arith, pow-suc 2 w)),
)
  where
    half : (w : ℕ) → (2 ^ suc w - 1) / 2 ≡ 2 ^ w - 1
    half w = omega (arith, pow-suc 2 w, one-le-pow w 2)

-- Shifting right goes through a conjunction.
pub div-bit_and : (k a b : ℕ) → bit_and a b / 2 ^ k ≡ bit_and (a / 2 ^ k) (b / 2 ^ k)
div-bit_and zero a b =
    let (p, q) : (a / 2 ^ 0 ≡ a) × (b / 2 ^ 0 ≡ b) = (omega arith, omega arith) in
    rw (p, q) (omega arith)
div-bit_and (suc k) a b =
    let half : bit_and a b / 2 ≡ bit_and (a / 2) (b / 2) = omega (arith, bit_and_step a b) in
    rw (
      sym (half_quotient (bit_and a b) k),
      half,
      div-bit_and k (a / 2) (b / 2),
      half_quotient a k,
      half_quotient b k,
    )
