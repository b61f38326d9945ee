-- ===== src/Pmm/Summary.antt =====
-- How `_set` and `_unset` keep the second bitmap in step with the words of the first.
use tmos.Base.{
  ℕ, ◌+◌, ◌-◌, ◌*◌, ◌/◌, ◌^◌, ◌≤◌, ◌<◌, bit_and, bit_or, ◌≡◌, ◌≢◌, refl, ◌∙◌, ◌&&◌, arith, ◌==◌,
  if◌then◌else◌,
}
use tmos.Base.Bits.{bit_not}
use tmos.Bitmap.{word_addr, bit_mask, bm_set, bm_unset}
use tmos.Bitmap.Laws.{
  bit_value, bm_set-word, bm_unset-word, bm_set-frame, bm_unset-frame, bit_value-bm_set,
  bit_value-bm_unset, bm_set-lt, bm_unset-lt, or_mask-ne-zero, and_mask-ne-ones,
}
use tmos.Pmm.{Pmm, bm0_word, set_bit, unset_bit}

-- The number of words that hold `bm0`.
abbrev pub words : Pmm → ℕ
words s = (s.tot_blk + 63) / 64

-- No word of `bm0` is one of `bm1`; a full word of `bm0` has its bit of `bm1` set and an empty one has
-- it clear; the bits behind the last block and the last word are set.
pub record IsSound (s : Pmm) : Type 0 where
  pub small : s.tot_blk < 2 ^ 52
  pub apart : s.bm0.start + 8 * words s ≤ s.bm1.start
  pub cells : (p : ℕ) → s.mem p < 2 ^ 64
  pub full : (w : ℕ) → w < words s → bm0_word s w ≡ 2 ^ 64 - 1 → bit_value s.mem s.bm1 w ≡ 1
  pub empty : (w : ℕ) → w < words s → bm0_word s w ≡ 0 → bit_value s.mem s.bm1 w ≡ 0
  pub tail0 : (j : ℕ) → s.tot_blk ≤ j → j < words s * 64 → bit_value s.mem s.bm0 j ≡ 1
  pub tail1 : (w : ℕ) → words s ≤ w → w < (words s + 63) / 64 * 64 → bit_value s.mem s.bm1 w ≡ 1

-- What `_set` and `_unset` leave alone.
pub record SameFrame (s t : Pmm) : Type 0 where
  pub base : t.base ≡ s.base
  pub tot_blk : t.tot_blk ≡ s.tot_blk
  pub fast_start : t.fast_start ≡ s.fast_start
  pub fast_end : t.fast_end ≡ s.fast_end
  pub bm0 : t.bm0 ≡ s.bm0
  pub bm1 : t.bm1 ≡ s.bm1

pub set_bit-SameFrame : (s : Pmm) (i : ℕ) → SameFrame s (set_bit s i)
unfolding set_bit
set_bit-SameFrame s i = ground arith

pub unset_bit-SameFrame : (s : Pmm) (i : ℕ) → SameFrame s (unset_bit s i)
unfolding unset_bit
unset_bit-SameFrame s i = ground arith

module _ (s : Pmm) (v : IsSound s) (i : ℕ) (below : i < s.tot_blk) where
  -- The word of `bm0` that `_set` and `_unset` leave.
  abbrev or_word : ℕ
  or_word = bit_or (bm0_word s (i / 64)) (bit_mask i)

  abbrev and_word : ℕ
  and_word = bit_and (bm0_word s (i / 64)) (bit_not 64 (bit_mask i))

  -- A cell of `bm1` is none of the first `words s` cells of `bm0`.
  apart_cells : (w k : ℕ) → w < words s → word_addr s.bm1 k ≢ word_addr s.bm0 w
  apart_cells w k h = omega (arith, v.apart)

  bm0_word-set_bit :
      (w : ℕ)
      → w < words s
      → (set_bit s i).mem (word_addr s.bm0 w) ≡ (if (i / 64) == w then or_word else bm0_word s w)
  unfolding set_bit
  bm0_word-set_bit w h = ground (
    arith,
    bm_set-word s.mem s.bm0 i w,
    bm_set-frame (bm_set s.mem s.bm0 i) s.bm1 (i / 64) (word_addr s.bm0 w),
    apart_cells w (i / 64 / 64),
  )

  bm0_word-unset_bit :
      (w : ℕ)
      → w < words s
      → (unset_bit s i).mem (word_addr s.bm0 w) ≡ (if (i / 64) == w then and_word else bm0_word s w)
  unfolding unset_bit
  bm0_word-unset_bit w h = ground (
    arith,
    bm_unset-word s.mem s.bm0 i w,
    bm_unset-frame (bm_unset s.mem s.bm0 i) s.bm1 (i / 64) (word_addr s.bm0 w),
    apart_cells w (i / 64 / 64),
  )

  pub bm0_bit-set_bit :
      (j : ℕ)
      → j / 64 < words s
      → bit_value (set_bit s i).mem s.bm0 j ≡ (if i == j then 1 else bit_value s.mem s.bm0 j)
  bm0_bit-set_bit j h = ground (
    arith,
    bm0_word-set_bit (j / 64) h,
    bm_set-word s.mem s.bm0 i (j / 64),
    bit_value-bm_set s.mem s.bm0 i j,
  )

  bm1_bit-set_bit :
      (w : ℕ)
      → bit_value (set_bit s i).mem s.bm1 w
        ≡ (if ((i / 64) == w) && (or_word == (2 ^ 64 - 1)) then 1 else bit_value s.mem s.bm1 w)
  unfolding set_bit
  bm1_bit-set_bit w = ground (
    arith,
    bm_set-word s.mem s.bm0 i (i / 64),
    bm_set-frame s.mem s.bm0 i (word_addr s.bm1 (w / 64)),
    apart_cells (i / 64) (w / 64),
    bit_value-bm_set (bm_set s.mem s.bm0 i) s.bm1 (i / 64) w,
  )

  pub bm0_bit-unset_bit :
      (j : ℕ)
      → j / 64 < words s
      → bit_value (unset_bit s i).mem s.bm0 j ≡ (if i == j then 0 else bit_value s.mem s.bm0 j)
  bm0_bit-unset_bit j h = ground (
    arith,
    bm0_word-unset_bit (j / 64) h,
    bm_unset-word s.mem s.bm0 i (j / 64),
    bit_value-bm_unset s.mem s.bm0 i j,
  )

  bm1_bit-unset_bit :
      (w : ℕ)
      → bit_value (unset_bit s i).mem s.bm1 w
        ≡ (if ((i / 64) == w) && (and_word == 0) then 0 else bit_value s.mem s.bm1 w)
  unfolding unset_bit
  bm1_bit-unset_bit w = ground (
    arith,
    bm_unset-word s.mem s.bm0 i (i / 64),
    bm_unset-frame s.mem s.bm0 i (word_addr s.bm1 (w / 64)),
    apart_cells (i / 64) (w / 64),
    bit_value-bm_unset (bm_unset s.mem s.bm0 i) s.bm1 (i / 64) w,
  )

  cells-set_bit : (p : ℕ) → (set_bit s i).mem p < 2 ^ 64
  unfolding set_bit
  cells-set_bit p = ground (
    arith,
    bm_set-lt s.mem s.bm0 i v.cells p,
    bm_set-lt (bm_set s.mem s.bm0 i) s.bm1 (i / 64) (bm_set-lt s.mem s.bm0 i v.cells) p,
  )

  cells-unset_bit : (p : ℕ) → (unset_bit s i).mem p < 2 ^ 64
  unfolding unset_bit
  cells-unset_bit p = ground (
    arith,
    bm_unset-lt s.mem s.bm0 i v.cells p,
    bm_unset-lt (bm_unset s.mem s.bm0 i) s.bm1 (i / 64) (bm_unset-lt s.mem s.bm0 i v.cells) p,
  )

  -- `_set` of a block of the managed memory keeps the manager sound.
  pub set_bit-IsSound : IsSound (set_bit s i)
  set_bit-IsSound = record {
    small = rw same.tot_blk v.small;
    apart = rw (same.tot_blk, same.bm0, same.bm1) v.apart;
    cells = cells-set_bit;
    full =
        rw (same.tot_blk, same.bm0, same.bm1)
          (λ w h e. ground (arith, bm0_word-set_bit w h, bm1_bit-set_bit w, v.full w h));
    empty =
        rw (same.tot_blk, same.bm0, same.bm1)
          (λ w h e. ground (
            arith,
            bm0_word-set_bit w h,
            bm1_bit-set_bit w,
            v.empty w h,
            or_mask-ne-zero (bm0_word s (i / 64)) i,
          ));
    tail0 =
        rw (same.tot_blk, same.bm0)
          (λ j p q. ground (arith, bm0_bit-set_bit j (omega arith), v.tail0 j p q));
    tail1 = rw (same.tot_blk, same.bm1) (λ w p q. ground (arith, bm1_bit-set_bit w, v.tail1 w p q));
  }
    where
      same : SameFrame s (set_bit s i)
      same = set_bit-SameFrame s i

  -- `_unset` of a block of the managed memory keeps the manager sound.
  pub unset_bit-IsSound : IsSound (unset_bit s i)
  unset_bit-IsSound = record {
    small = rw same.tot_blk v.small;
    apart = rw (same.tot_blk, same.bm0, same.bm1) v.apart;
    cells = cells-unset_bit;
    full =
        rw (same.tot_blk, same.bm0, same.bm1)
          (λ w h e. ground (
            arith,
            bm0_word-unset_bit w h,
            bm1_bit-unset_bit w,
            v.full w h,
            and_mask-ne-ones (bm0_word s (i / 64)) i,
          ));
    empty =
        rw (same.tot_blk, same.bm0, same.bm1)
          (λ w h e. ground (arith, bm0_word-unset_bit w h, bm1_bit-unset_bit w, v.empty w h));
    tail0 =
        rw (same.tot_blk, same.bm0)
          (λ j p q. ground (arith, bm0_bit-unset_bit j (omega arith), v.tail0 j p q));
    tail1 =
        rw (same.tot_blk, same.bm1) (λ w p q. ground (arith, bm1_bit-unset_bit w, v.tail1 w p q));
  }
    where
      same : SameFrame s (unset_bit s i)
      same = unset_bit-SameFrame s i

-- `used_blk` is no part of soundness.
pub IsSound-used_blk : {s : Pmm} (n : ℕ) → IsSound s → IsSound (record s { used_blk = n })
IsSound-used_blk n v = record {
  small = v.small;
  apart = v.apart;
  cells = v.cells;
  full = v.full;
  empty = v.empty;
  tail0 = v.tail0;
  tail1 = v.tail1;
}

pub SameFrame-refl : (s : Pmm) → SameFrame s s
SameFrame-refl s = record {
  base = refl;
  tot_blk = refl;
  fast_start = refl;
  fast_end = refl;
  bm0 = refl;
  bm1 = refl;
}

pub SameFrame-trans : {s t u : Pmm} → SameFrame s t → SameFrame t u → SameFrame s u
SameFrame-trans p q = record {
  base = q.base ∙ p.base;
  tot_blk = q.tot_blk ∙ p.tot_blk;
  fast_start = q.fast_start ∙ p.fast_start;
  fast_end = q.fast_end ∙ p.fast_end;
  bm0 = q.bm0 ∙ p.bm0;
  bm1 = q.bm1 ∙ p.bm1;
}
