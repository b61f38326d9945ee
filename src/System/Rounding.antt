-- ===== src/System/Rounding.antt =====
-- Rounding by a power of two, as arithmetic.
use native.Mathlib.Nat.{mod-eq_of_lt}
use tmos.Base.{ℕ, ◌+◌, ◌-◌, ◌*◌, ◌/◌, ◌%◌, ◌^◌, ◌≤◌, ◌<◌, ◌≡◌, ◌↔◌, true, arith, ==_iff}
use tmos.Base.Bits.{bit_and_mask, bit_and_high}
use tmos.System.{round_up, round_down, is_aligned}

-- Clearing the low `k` bits.
pub round_down-eq : (k x : ℕ) → k ≤ 64 → x < 2 ^ 64 → round_down x (2 ^ k) ≡ x / 2 ^ k * 2 ^ k
unfolding round_down
round_down-eq k x hk hx = bit_and_high 64 k x hk hx

-- The least multiple at or above `x`, where the sum fits the word.
pub round_up-eq :
    (k x : ℕ)
    → k ≤ 64
    → x + (2 ^ k - 1) < 2 ^ 64
    → round_up x (2 ^ k) ≡ (x + (2 ^ k - 1)) / 2 ^ k * 2 ^ k
unfolding round_up
round_up-eq k x hk hx = rw (mod-eq_of_lt hx) (bit_and_high 64 k (x + (2 ^ k - 1)) hk hx)

is_aligned_iff : (k x : ℕ) → (is_aligned x (2 ^ k) ≡ true) ↔ (x % 2 ^ k ≡ 0)
unfolding is_aligned
is_aligned_iff k x = rw (bit_and_mask k x) (==_iff (x % 2 ^ k) 0)

-- The number of 64-bit words that hold `x` bits, and the number that they fill.
pub words_up : (x : ℕ) → x + 63 < 2 ^ 64 → round_up x 64 / 64 ≡ (x + 63) / 64
words_up x h = omega (arith, round_up-eq 6 x (omega arith) h)

pub words_down : (x : ℕ) → x < 2 ^ 64 → round_down x 64 / 64 ≡ x / 64
words_down x h = omega (arith, round_down-eq 6 x (omega arith) h)
