-- ===== src/Pmm/Tests.antt =====
-- A manager of 128 blocks and the theorems at it: block 64 and block 66 are free, the fast range
-- covers the first 16 MB, the bitmaps stand at address 0.
use tmos.Base.{
  ℕ, zero, suc, ◌+◌, ◌-◌, ◌*◌, ◌^◌, ◌<◌, ◌≡◌, refl, List, [], ◌∷◌, true, false, ◌||◌, arith, ltb,
  ◌==◌, if◌then◌else◌,
}
use tmos.Base.Table.{holds_below, holds_below_sound}
use tmos.Base.Outcome.{Outcome, done}
use tmos.Base.Store.{Store, write}
use tmos.Bitmap.{bm_init, bm_sz, bm_set, bm_unset, bm_test}
use tmos.Region.{region_start, region_type, region_set_managed}
use tmos.Bitmap.Laws.{bit_value}
use tmos.Pmm.{
  Pmm, set_bit, unset_bit, mark_used, mark_free, alloc, free, scan, take_frame, first_clear,
  int_bit, free_blocks, use_blocks, free_block, use_block,
}
use tmos.System.{round_up, round_down}
use tmos.Pmm.Summary.{IsSound, set_bit-IsSound}
use tmos.Pmm.Marks.{Marked, used_at, IsCounted}
use tmos.Pmm.Init.{init, all_used, bitmap_bytes, find_region, fill_words, free_regions}
use tmos.Pmm.Ready.{init-IsSound}
use tmos.Pmm.Ranges.{InRange, mark_used-Marked, mark_free-Marked}
use tmos.Pmm.Alloc.{Taken, alloc-Taken}
use tmos.Pmm.Free.{free-alloc}

abbrev cells : Store
cells p = if p == 8 then 2 ^ 64 - 6 else if p == 16 then 2 ^ 64 - 3 else 2 ^ 64 - 1

abbrev two_free : Pmm
two_free = record {
  mem = cells;
  base = 0;
  mem_sz = 128 * 4096;
  tot_blk = 128;
  used_blk = 126;
  fast_start = 0;
  fast_end = 2 ^ 24;
  bm0 = record { start = 0; num_bits = 128 };
  bm1 = record { start = 16; num_bits = 2 };
}

tail_runs : holds_below 64 (λ w. ltb w 2 || bit_value cells two_free.bm1 w == 1) ≡ true
unfolding holds_below
tail_runs = refl

full_words : (w : ℕ) → w < 2 → cells (0 + 8 * w) ≡ 2 ^ 64 - 1 → bit_value cells two_free.bm1 w ≡ 1
full_words zero h e = refl
full_words (suc zero) h e = absurd (omega arith)
full_words (suc (suc w)) h e = absurd (omega arith)

empty_words : (w : ℕ) → w < 2 → cells (0 + 8 * w) ≡ 0 → bit_value cells two_free.bm1 w ≡ 0
empty_words zero h e = absurd (omega arith)
empty_words (suc zero) h e = absurd (omega arith)
empty_words (suc (suc w)) h e = absurd (omega arith)

two_free-IsSound : IsSound two_free
two_free-IsSound = record {
  small = omega arith;
  apart = omega arith;
  cells = λ p. ground arith;
  full = full_words;
  empty = empty_words;
  tail0 = λ j p q. absurd (omega arith);
  tail1 = λ w p q. ground (arith, holds_below_sound 64 _ w tail_runs);
}

-- `_alloc` hands out block 64, in the second word.
alloc-two_free : alloc two_free ≡ done (set_bit two_free 64, 64 * 4096)
unfolding alloc scan round_up round_down take_frame first_clear int_bit
alloc-two_free = refl

two_pages : InRange two_free (60 * 4096) (66 * 4096)
two_pages = record {
  word = omega arith;
  above = omega arith;
  ordered = omega arith;
  inside = omega arith;
}

set_bit-IsSound_example : IsSound (set_bit two_free 66)
set_bit-IsSound_example = set_bit-IsSound two_free two_free-IsSound 66 (omega arith)

mark_used-Marked_example :
    (t : Pmm) × (mark_used (60 * 4096) (66 * 4096) two_free ≡ done t) × Marked true 60 6 two_free t
mark_used-Marked_example =
    mark_used-Marked two_free (60 * 4096) (66 * 4096) two_pages two_free-IsSound

mark_free-Marked_example :
    (t : Pmm) × (mark_free (60 * 4096) (66 * 4096) two_free ≡ done t) × Marked false 60 6 two_free t
mark_free-Marked_example =
    mark_free-Marked two_free (60 * 4096) (66 * 4096) two_pages two_free-IsSound

alloc-Taken_example : Taken two_free (set_bit two_free 64) (64 * 4096)
alloc-Taken_example =
    alloc-Taken two_free two_free-IsSound (omega arith) (omega arith) (set_bit two_free 64)
      (64 * 4096) alloc-two_free (omega arith)

free-alloc_example :
    (u : Pmm) × (free (64 * 4096) (set_bit two_free 64) ≡ done u)
    × ((j : ℕ) → j < 128 → used_at u j ≡ used_at two_free j)
free-alloc_example =
    free-alloc two_free two_free-IsSound (set_bit two_free 64) (64 * 4096) refl refl (omega arith)
      (omega arith) alloc-two_free (omega arith)

-- 64 blocks, of which the last two are available, with the bitmaps at address 0.
abbrev regions : List ℕ
regions = 0x40000 ∷ 0x3e001 ∷ 6 ∷ []

abbrev or_two_free : Outcome (Pmm × List ℕ) → Pmm × List ℕ
or_two_free (done r) = r
or_two_free other = (two_free, [])

abbrev begun : Pmm × List ℕ
begun = or_two_free (init 0 cells regions 3 0 (2 ^ 24))

begun_done : init 0 cells regions 3 0 (2 ^ 24) ≡ done (begun.0, begun.1)
unfolding init all_used bitmap_bytes find_region fill_words free_regions mark_free mark_used
    free_blocks use_blocks free_block use_block set_bit unset_bit bm_init bm_sz bm_set bm_unset
    bm_test region_start region_type region_set_managed round_up write
begun_done = refl

init-IsSound_example :
    IsSound begun.0
    × IsCounted begun.0
    × (begun.0.base ≡ 0)
    × (begun.0.tot_blk ≡ 64)
    × (begun.0.fast_start ≡ 0)
    × (begun.0.fast_end ≡ 2 ^ 24)
unfolding region_start bitmap_bytes find_region round_up region_set_managed
init-IsSound_example =
    init-IsSound 0 cells regions 3 0 (2 ^ 24) begun.0 begun.1 (λ q. ground arith) (omega arith)
      begun_done
