-- ===== src/Pmm.antt =====
-- The physical memory manager of kernel/mem/bitmap.c. `_mgr` is the record `Pmm`, with the memory
-- that holds its two bitmaps. The second bitmap has a bit for each word of the first.
pub mod Summary
pub mod Count
pub mod Marks
pub mod Ranges
pub mod Alloc
pub mod Free
pub mod Init
pub mod Blank
pub mod Ready
mod Tests
use tmos.Base.{
  ℕ, zero, suc, ◌+◌, ◌-◌, ◌^◌, ◌*◌, min, bit_and, Bool, true, false, ◌||◌, List, ltb, leb, ◌==◌,
  if◌then◌else◌, length, get_or, set,
}
use tmos.Base.Word.{u64, shr, shl, sub64}
use tmos.Base.Bits.{bit_not}
use tmos.Base.Store.{Store, write}
use tmos.Base.Outcome.{Outcome, done, panic, undef, ◌>>=◌, ◌>>◌, assert}
use tmos.System.{
  page_size, page_size_shift, paddr_algn_mask, paddr_invalid, word_size, word_size_shift, word_max,
  round_up, round_down,
}
use tmos.Bitmap.{Bitmap, word_addr, bm_init, bm_set, bm_unset, bm_test, bm_sz}
use tmos.Region.{region_start, region_type, region_set_managed, region_type_avail}

pub record Pmm : Type 0 where
  pub mem : Store
  pub base : ℕ
  pub mem_sz : ℕ
  pub tot_blk : ℕ
  pub used_blk : ℕ
  pub fast_start : ℕ
  pub fast_end : ℕ
  pub bm0 : Bitmap
  pub bm1 : Bitmap

-- `_mgr.bm0.map[w]` and `_mgr.bm1.map[w]`.
abbrev pub bm0_word : Pmm → ℕ → ℕ
bm0_word s w = s.mem (word_addr s.bm0 w)

abbrev pub bm1_word : Pmm → ℕ → ℕ
bm1_word s w = s.mem (word_addr s.bm1 w)

-- `_set` and `_unset`.
unfoldable pub set_bit : Pmm → ℕ → Pmm
set_bit s bit =
    let s' = record s { mem = bm_set s.mem s.bm0 bit } in
    let w = shr bit word_size_shift in
    if bm0_word s' w == word_max then record s' { mem = bm_set s'.mem s'.bm1 w } else s'

unfoldable pub unset_bit : Pmm → ℕ → Pmm
unset_bit s bit =
    let s' = record s { mem = bm_unset s.mem s.bm0 bit } in
    let w = shr bit word_size_shift in
    if bm0_word s' w == 0 then record s' { mem = bm_unset s'.mem s'.bm1 w } else s'

-- One round of the loops of `_mark_used` and `_mark_free`, and the loops, on the rounds left.
unfoldable pub use_block : ℕ → Pmm → Pmm
use_block i s =
    if bm_test s.mem s.bm0 i
    then s
    else let s' = set_bit s i in record s' { used_blk = u64 (s'.used_blk + 1) }

unfoldable pub free_block : ℕ → Pmm → Pmm
free_block i s =
    if bm_test s.mem s.bm0 i
    then (let s' = unset_bit s i in record s' { used_blk = sub64 s'.used_blk 1 })
    else s

unfoldable pub use_blocks : ℕ → ℕ → Pmm → Pmm
use_blocks zero i s = s
use_blocks (suc n) i s = use_blocks n (i + 1) (use_block i s)

unfoldable pub free_blocks : ℕ → ℕ → Pmm → Pmm
free_blocks zero i s = s
free_blocks (suc n) i s = free_blocks n (i + 1) (free_block i s)

unfoldable pub mark_used : ℕ → ℕ → Pmm → Outcome Pmm
mark_used start end s = do
  assert (leb s.base start)
  let b = shr (sub64 start s.base) page_size_shift
  let e = shr (sub64 end s.base) page_size_shift
  assert (leb e s.tot_blk)
  done (use_blocks (e - b) b s)

unfoldable pub mark_free : ℕ → ℕ → Pmm → Outcome Pmm
mark_free start end s = do
  assert (leb s.base start)
  let b = shr (sub64 start s.base) page_size_shift
  let e = shr (sub64 end s.base) page_size_shift
  assert (leb e s.tot_blk)
  done (free_blocks (e - b) b s)

-- `(uint64_t) (1 << j)` for the `int` shift of `_alloc`: bit 31 is the sign, and a shift by the
-- width of `int` or more is undefined.
unfoldable pub int_bit : ℕ → Outcome ℕ
int_bit j = if ltb j 31 then done (2 ^ j) else if j == 31 then done (2 ^ 64 - 2 ^ 31) else undef

-- `for (j = 0; j < WORD_SIZE; j++) if ((word & (1 << j)) == 0) break;`, with the rounds left.
unfoldable pub first_clear : ℕ → ℕ → ℕ → Outcome ℕ
first_clear zero word j = done j
first_clear (suc n) word j =
    let rest = first_clear n word (j + 1) in
    do b ← int_bit j; if bit_and word b == 0 then done j else rest

-- The body of the outer loop of `_alloc` once a word of `bm1` that is not full is found.
unfoldable pub take_frame : Pmm → ℕ → Outcome (Pmm × ℕ)
take_frame s i = do
  j ← first_clear word_size (bm1_word s i) 0
  let w = u64 (shl i word_size_shift + j)
  k ← first_clear word_size (bm0_word s w) 0
  let frame = u64 (shl w word_size_shift + k)
  if k == word_size then panic else done (set_bit s frame, u64 (shl frame page_size_shift + s.base))

unfoldable pub scan : ℕ → ℕ → Pmm → Outcome (Pmm × ℕ)
scan zero i s = done (s, paddr_invalid)
scan (suc n) i s =
    let rest = scan n (i + 1) s in if bm1_word s i == word_max then rest else take_frame s i

unfoldable pub alloc : Pmm → Outcome (Pmm × ℕ)
alloc s =
    let bm0_nw = shr (round_up s.tot_blk word_size) word_size_shift in
    let bm1_nw = shr (round_up bm0_nw word_size) word_size_shift in
    let bm0_startw = shr (round_up (shr s.fast_start page_size_shift) word_size) word_size_shift in
    let bm0_endw = shr (round_down (shr s.fast_end page_size_shift) word_size) word_size_shift in
    let bm1_startw = shr (round_up bm0_startw word_size) word_size_shift in
    let bm1_endw = shr (round_down bm0_endw word_size) word_size_shift in
    if s.used_blk == s.tot_blk
    then done (s, paddr_invalid)
    else scan (min bm1_nw bm1_endw - bm1_startw) bm1_startw s

unfoldable pub free : ℕ → Pmm → Outcome Pmm
free addr s = do
  assert (bit_and addr (bit_not 64 paddr_algn_mask) == 0)
  assert (leb s.fast_start addr)
  assert (ltb addr s.fast_end)
  let frame = shr addr page_size_shift
  assert (bm_test s.mem s.bm0 frame)
  done (unset_bit s frame)
