-- ===== src/Pmm/Init.antt =====
-- `_init` of kernel/mem/bitmap.c: the sizes of the bitmaps, their place in one of the regions, and
-- the first marking of the blocks. `vbase` is the linker's KRNL_VBASE.
use tmos.Base.{ℕ, zero, suc, ◌+◌, ◌-◌, List, ltb, ◌==◌, if◌then◌else◌, length, get_or, set}
use tmos.Base.Outcome.{Outcome, done, panic, undef, ◌>>=◌, ◌>>◌, assert}
use tmos.Base.Store.{Store, write}
use tmos.Base.Word.{u64, shr, sub64}
use tmos.System.{page_size, page_size_shift, word_max, word_size, word_size_shift, round_up}
use tmos.Bitmap.{bm_init, bm_sz}
use tmos.Region.{region_start, region_type, region_set_managed, region_type_avail}
use tmos.Pmm.{Pmm, mark_used, mark_free}

abbrev pub start_of : List ℕ → ℕ → ℕ
start_of regions i = region_start (get_or regions i 0)

-- The memory that the two bitmaps need, in whole pages.
unfoldable pub bitmap_bytes : ℕ → ℕ
bitmap_bytes tot_blk =
    let bm0_nby = shr (round_up tot_blk word_size) 3 in
    let bm1_nbi = shr bm0_nby (word_size_shift - 3) in
    let bm1_nby = shr (round_up bm1_nbi word_size) 3 in round_up (u64 (bm0_nby + bm1_nby)) page_size

-- The loop that looks from region `i` towards region 1 for one that is big enough, and marks those
-- that it passes as managed. Index 0 means that there is none.
unfoldable pub find_region : ℕ → ℕ → List ℕ → ℕ × List ℕ
find_region bytes zero regions = (0, regions)
find_region bytes (suc i) regions =
    let marked = set regions (suc i) (region_set_managed (get_or regions (suc i) 0)) in
    let rest = find_region bytes i marked in
    if ltb (sub64 (start_of marked i) (start_of marked (suc i))) bytes
    then rest
    else (suc i, marked)

-- `memset(p, 0xff, 8 * n)`, word by word.
unfoldable pub fill_words : ℕ → ℕ → Store → Store
fill_words zero p m = m
fill_words (suc n) p m = fill_words n (p + 8) (write m p word_max)

-- `for (i = 1; i < num_regions; i++)`: the available regions are free.
unfoldable pub free_regions : ℕ → ℕ → List ℕ → Pmm → Outcome Pmm
free_regions zero i regions s = done s
free_regions (suc n) i regions s =
    if region_type (get_or regions i 0) == region_type_avail
    then mark_free (start_of regions i) (start_of regions (i - 1)) s
      >>= free_regions n (i + 1) regions
    else free_regions n (i + 1) regions s

-- The manager once the memory of its bitmaps is filled: all blocks are used.
unfoldable pub all_used : (vbase : ℕ) → Store → (base mem_sz fast_start fast_end place : ℕ) → Pmm
all_used vbase mem base mem_sz fast_start fast_end place =
    let tot_blk = shr mem_sz page_size_shift in
    let bm0 = bm_init (u64 (place + vbase)) tot_blk in
    record {
      mem = fill_words (shr (bitmap_bytes tot_blk) 3) (u64 (place + vbase)) mem;
      base = base;
      mem_sz = mem_sz;
      tot_blk = tot_blk;
      used_blk = tot_blk;
      fast_start = fast_start;
      fast_end = fast_end;
      bm0 = bm0;
      bm1 = bm_init (u64 (place + vbase + bm_sz bm0)) (shr (shr (round_up tot_blk word_size) 3) 3);
    }

-- A region array shorter than `num_regions` would be read out of bounds.
unfoldable pub init : (vbase : ℕ) → Store → List ℕ → ℕ → ℕ → ℕ → Outcome (Pmm × List ℕ)
init vbase mem regions num_regions fast_start fast_end = do
  assert (ltb 1 num_regions)
  (if ltb (length regions) num_regions then undef else done tt)
  let base = start_of regions (num_regions - 1)
  let mem_sz = sub64 (start_of regions 0) base
  let bytes = bitmap_bytes (shr mem_sz page_size_shift)
  let found = find_region bytes (num_regions - 1) regions
  (if found.0 == 0 then panic else done tt)
  let place = start_of found.1 found.0
  t ←
      free_regions (num_regions - 1) 1 found.1
        (all_used vbase mem base mem_sz fast_start fast_end place)
  u ← mark_used place (u64 (place + bytes)) t
  done (u, found.1)
