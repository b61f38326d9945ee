-- ===== src/Bitmap/Laws.antt =====
-- The bitmap operations read as a map from bit numbers to Booleans.
use tmos.Base.{
  ℕ, zero, suc, ◌-◌, ◌*◌, ◌/◌, ◌%◌, ◌^◌, ◌<◌, bit_and, bit_or, ◌≡◌, ◌≢◌, ap, true, false, not,
  arith, ◌==◌, if◌then◌else◌,
}
use native.Mathlib.Decide.{ℕ_discrete}
use native.Mathlib.Nat.{one-le-pow}
use tmos.Base.Bits.{
  bit_at, bit_not, bit_and-pow, bit_at-bit_and, bit_at-bit_or, bit_at-pow_self, bit_at-pow_ne,
  bit_at-bit_not, bit_at-lt, two_pow_mono, bit_or-lt, bit_and-le, zero-bit_at,
}
use tmos.Base.Store.{Store, write, write_ne}
use tmos.Bitmap.{Bitmap, word_addr, bit_mask, bm_set, bm_unset, bm_test}

-- The digit that `BM_TEST` reads.
abbrev pub bit_value : Store → Bitmap → ℕ → ℕ
bit_value m bm i = bit_at (m (word_addr bm (i / 64))) (i % 64)

scaled_digit : (p d : ℕ) → 0 < p → d < 2 → not (p * d == 0) ≡ (d == 1)
scaled_digit p zero hp hd = ground arith
scaled_digit p (suc zero) hp hd = ground arith
scaled_digit p (suc (suc d)) hp hd = absurd (omega arith)

pub bm_test-bit_value : (m : Store) (bm : Bitmap) (i : ℕ) → bm_test m bm i ≡ (bit_value m bm i == 1)
unfolding bm_test
bm_test-bit_value m bm i = rw (bit_and-pow (m (word_addr bm (i / 64))) (i % 64)) (
    scaled_digit (2 ^ (i % 64)) (bit_value m bm i) (one-le-pow (i % 64) 2 (omega arith))
      (bit_at-lt (m (word_addr bm (i / 64))) (i % 64)))

mask-lt : (i : ℕ) → bit_mask i < 2 ^ 64
mask-lt i = omega (arith, two_pow_mono (i % 64) 63 (omega arith))

-- The digits of a word after `|=` and `&= ~` with the mask of bit `i`.
digit_after_or :
    (x i j : ℕ)
    → j < 64
    → bit_at (bit_or x (bit_mask i)) j ≡ (if (i % 64) == j then 1 else bit_at x j)
digit_after_or x i j hj = elim (ℕ_discrete (i % 64) j) [
  | yes e ↦ ground (
    arith,
    bit_at-bit_or x (bit_mask i) j,
    ap (λ t. bit_at (bit_mask i) t) e,
    bit_at-pow_self (i % 64),
    bit_at-lt x j,
  )
  | no n ↦ ground (arith, bit_at-bit_or x (bit_mask i) j, bit_at-pow_ne (i % 64) j n)
]

digit_after_and :
    (x i j : ℕ)
    → j < 64
    → bit_at (bit_and x (bit_not 64 (bit_mask i))) j ≡ (if (i % 64) == j then 0 else bit_at x j)
digit_after_and x i j hj = elim (ℕ_discrete (i % 64) j) [
  | yes e ↦ ground (
    arith,
    bit_at-bit_and x (bit_not 64 (bit_mask i)) j,
    bit_at-bit_not 64 (bit_mask i) j (mask-lt i) hj,
    ap (λ t. bit_at (bit_mask i) t) e,
    bit_at-pow_self (i % 64),
  )
  | no n ↦ ground (
    arith,
    bit_at-bit_and x (bit_not 64 (bit_mask i)) j,
    bit_at-bit_not 64 (bit_mask i) j (mask-lt i) hj,
    bit_at-pow_ne (i % 64) j n,
    bit_at-lt x j,
  )
]

module _ (m : Store) (bm : Bitmap) (i : ℕ) where
  pub bm_set-word :
      (w : ℕ)
      → bm_set m bm i (word_addr bm w)
        ≡ (if (i / 64) == w then bit_or (m (word_addr bm w)) (bit_mask i) else m (word_addr bm w))
  unfolding bm_set write
  bm_set-word w = ground arith

  pub bm_unset-word :
      (w : ℕ)
      → bm_unset m bm i (word_addr bm w) ≡ (
          if (i / 64) == w
          then bit_and (m (word_addr bm w)) (bit_not 64 (bit_mask i))
          else m (word_addr bm w))
  unfolding bm_unset write
  bm_unset-word w = ground arith

  -- No other cell changes.
  pub bm_set-frame : (p : ℕ) → p ≢ word_addr bm (i / 64) → bm_set m bm i p ≡ m p
  unfolding bm_set
  bm_set-frame p h = write_ne m (word_addr bm (i / 64)) _ p h

  pub bm_unset-frame : (p : ℕ) → p ≢ word_addr bm (i / 64) → bm_unset m bm i p ≡ m p
  unfolding bm_unset
  bm_unset-frame p h = write_ne m (word_addr bm (i / 64)) _ p h

  pub bit_value-bm_set :
      (j : ℕ) → bit_value (bm_set m bm i) bm j ≡ (if i == j then 1 else bit_value m bm j)
  bit_value-bm_set j =
      ground (arith, bm_set-word (j / 64), digit_after_or (m (word_addr bm (j / 64))) i (j % 64))

  pub bit_value-bm_unset :
      (j : ℕ) → bit_value (bm_unset m bm i) bm j ≡ (if i == j then 0 else bit_value m bm j)
  bit_value-bm_unset j =
      ground (arith, bm_unset-word (j / 64), digit_after_and (m (word_addr bm (j / 64))) i (j % 64))

  -- After `BM_SET` of bit `i`, that bit tests as set and every other bit as before.
  bm_test-bm_set :
      (j : ℕ) → bm_test (bm_set m bm i) bm j ≡ (if i == j then true else bm_test m bm j)
  bm_test-bm_set j =
      ground (
        arith,
        bm_test-bit_value (bm_set m bm i) bm j,
        bm_test-bit_value m bm j,
        bit_value-bm_set j,
      )

  -- After `BM_UNSET` of bit `i`, that bit tests as clear and every other bit as before.
  bm_test-bm_unset :
      (j : ℕ) → bm_test (bm_unset m bm i) bm j ≡ (if i == j then false else bm_test m bm j)
  bm_test-bm_unset j = ground (
    arith,
    bm_test-bit_value (bm_unset m bm i) bm j,
    bm_test-bit_value m bm j,
    bit_value-bm_unset j,
  )

  pub bm_set-lt : ((p : ℕ) → m p < 2 ^ 64) → (p : ℕ) → bm_set m bm i p < 2 ^ 64
  unfolding bm_set write
  bm_set-lt cells p = ground (
    arith,
    cells p,
    cells (word_addr bm (i / 64)),
    bit_or-lt 64 (m (word_addr bm (i / 64))) (bit_mask i) (cells (word_addr bm (i / 64)))
        (mask-lt i),
  )

  pub bm_unset-lt : ((p : ℕ) → m p < 2 ^ 64) → (p : ℕ) → bm_unset m bm i p < 2 ^ 64
  unfolding bm_unset write
  bm_unset-lt cells p = ground (
    arith,
    cells p,
    cells (word_addr bm (i / 64)),
    bit_and-le (m (word_addr bm (i / 64))) (bit_not 64 (bit_mask i)),
  )

-- A word with a digit set is not 0, and one with a digit clear is not all ones.
pub or_mask-ne-zero : (x i : ℕ) → bit_or x (bit_mask i) ≢ 0
or_mask-ne-zero x i e =
    ground (arith, digit_after_or x i (i % 64), ap (λ t. bit_at t (i % 64)) e, zero-bit_at (i % 64))

ones-bit_at : (j : ℕ) → j < 64 → bit_at (2 ^ 64 - 1) j ≡ 1
ones-bit_at j h = omega (arith, bit_at-bit_not 64 0 j (omega arith) h, zero-bit_at j)

pub and_mask-ne-ones : (x i : ℕ) → bit_and x (bit_not 64 (bit_mask i)) ≢ 2 ^ 64 - 1
and_mask-ne-ones x i e =
    ground
      (arith, digit_after_and x i (i % 64), ap (λ t. bit_at t (i % 64)) e, ones-bit_at (i % 64))
