-- ===== src/Base/Bits/Step.antt =====
-- The native operations mean a recursion on binary digits with fuel; here the fuel is dropped.
use Prim.Native.Nat.{
  ℕ, zero, suc, ◌+◌, ◌*◌, ◌/◌, ◌%◌, ◌≤◌, min, max, bit_and, bit_or, digits, bitwise,
  bit_and-bitwise, bit_or-bitwise,
}
use mathlib.Core.Path.{◌≡◌, refl}
use native.Mathlib.Omega.{arith}

module _ (rest : ℕ → ℕ) (op : ℕ → ℕ → ℕ) where
  -- Two runs that both have a round for every digit of `x` agree.
  enough_rounds : (x k l y : ℕ) → (x ≤ k) × (x ≤ l) → digits rest op k x y ≡ digits rest op l x y
  enough_rounds (suc x) (suc k) (suc l) y h =
      rw (enough_rounds (suc x / 2) k l (y / 2) (omega (arith, h)))
  enough_rounds (suc x) zero l y h = absurd (omega (arith, h))
  enough_rounds (suc x) (suc k) zero y h = absurd (omega (arith, h))
  enough_rounds zero (suc k) (suc l) y h = refl
  enough_rounds zero (suc k) zero y h = refl
  enough_rounds zero zero (suc l) y h = refl
  enough_rounds zero zero zero y h = refl

  lowest_digit :
      (x y : ℕ)
      → bitwise rest op (suc x) y ≡ bitwise rest op (suc x / 2) (y / 2) * 2 + op (suc x % 2) (y % 2)
  lowest_digit x y = omega (arith, enough_rounds (suc x / 2) x (suc x / 2) (y / 2) (omega arith))

pub bit_or_step : (x y : ℕ) → bit_or x y ≡ bit_or (x / 2) (y / 2) * 2 + max (x % 2) (y % 2)
bit_or_step (suc x) y = simp bit_or-bitwise (lowest_digit (λ w. w) max x y)
bit_or_step zero y = simp bit_or-bitwise (omega arith)

pub bit_and_step : (x y : ℕ) → bit_and x y ≡ bit_and (x / 2) (y / 2) * 2 + min (x % 2) (y % 2)
bit_and_step (suc x) y = simp bit_and-bitwise (lowest_digit (λ w. 0) min x y)
bit_and_step zero y = simp bit_and-bitwise (omega arith)

-- The binary digit of weight 2 ^ j.
abbrev pub bit_at : ℕ → ℕ → ℕ
bit_at x zero = x % 2
bit_at x (suc j) = bit_at (x / 2) j

pub bit_at-bit_and : (a b j : ℕ) → bit_at (bit_and a b) j ≡ min (bit_at a j) (bit_at b j)
bit_at-bit_and a b zero = omega (arith, bit_and_step a b)
bit_at-bit_and a b (suc j) =
    let half : bit_and a b / 2 ≡ bit_and (a / 2) (b / 2) = omega (arith, bit_and_step a b) in
    rw half (bit_at-bit_and (a / 2) (b / 2) j)

pub bit_at-bit_or : (a b j : ℕ) → bit_at (bit_or a b) j ≡ max (bit_at a j) (bit_at b j)
bit_at-bit_or a b zero = omega (arith, bit_or_step a b)
bit_at-bit_or a b (suc j) =
    let half : bit_or a b / 2 ≡ bit_or (a / 2) (b / 2) = omega (arith, bit_or_step a b) in
    rw half (bit_at-bit_or (a / 2) (b / 2) j)
