-- ===== src/Pmm/Count.antt =====
-- Counting the used blocks below a bound, for a map from block numbers to Booleans.
use native.Mathlib.Decide.{ℕ_discrete}
use tmos.Base.{ℕ, zero, suc, ◌+◌, ◌≤◌, ◌<◌, ◌≡◌, ◌≢◌, ap, Bool, true, false, arith, if◌then◌else◌}

abbrev pub count_used : ℕ → (ℕ → Bool) → ℕ
count_used zero used = 0
count_used (suc n) used = count_used n used + (if used n then 1 else 0)

pub count_used-le : (n : ℕ) (used : ℕ → Bool) → count_used n used ≤ n
count_used-le zero used = omega arith
count_used-le (suc n) used = ground (arith, count_used-le n used)

count_used_ext :
    (n : ℕ) (f g : ℕ → Bool) → ((j : ℕ) → j < n → f j ≡ g j) → count_used n f ≡ count_used n g
count_used_ext zero f g h = omega arith
count_used_ext (suc n) f g h =
    ground (arith, h n (omega arith), count_used_ext n f g (λ j p. h j (omega arith)))

-- `g` differs from `f` at block `i` alone, which it marks.
module _ (i : ℕ) (f g : ℕ → Bool) (off : f i ≡ false) (on : g i ≡ true) where
  pub count_used_one_more :
      (n : ℕ) → i < n → ((j : ℕ) → j < n → i ≢ j → g j ≡ f j) → count_used n g ≡ count_used n f + 1
  count_used_one_more zero h same = absurd (omega arith)
  count_used_one_more (suc n) h same = elim (ℕ_discrete i n) [
    | yes e ↦
        ground
          (arith, ap f e, ap g e, count_used_ext n g f (λ j p. same j (omega arith) (omega arith)))
    | no ne ↦ ground (
      arith,
      same n (omega arith) ne,
      count_used_one_more n (omega arith) (λ j p. same j (omega arith)),
    )
  ]
