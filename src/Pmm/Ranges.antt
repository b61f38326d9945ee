-- ===== src/Pmm/Ranges.antt =====
-- `_mark_used` and `_mark_free` on address ranges.
use tmos.Base.{ℕ, ◌-◌, ◌/◌, ◌^◌, ◌≤◌, ◌<◌, ◌≡◌, true, false, arith}
use tmos.Base.Outcome.{done}
use tmos.Pmm.{Pmm, mark_used, mark_free, use_blocks, free_blocks}
use tmos.Pmm.Summary.{IsSound}
use tmos.Pmm.Marks.{Marked, use_blocks-Marked, free_blocks-Marked}

-- The range starts at or above the managed memory and its last block lies in it.
pub record InRange (s : Pmm) (start end : ℕ) : Type 0 where
  pub word : end < 2 ^ 64
  pub above : s.base ≤ start
  pub ordered : start ≤ end
  pub inside : (end - s.base) / 4096 ≤ s.tot_blk

abbrev pub first_block : Pmm → ℕ → ℕ
first_block s start = (start - s.base) / 4096

abbrev pub num_blocks : Pmm → ℕ → ℕ → ℕ
num_blocks s start end = (end - s.base) / 4096 - (start - s.base) / 4096

module _ (s : Pmm) (start end : ℕ) (r : InRange s start end) where
  mark_used-eq :
      mark_used start end s ≡ done (use_blocks (num_blocks s start end) (first_block s start) s)
  unfolding mark_used
  mark_used-eq = ground arith

  mark_free-eq :
      mark_free start end s ≡ done (free_blocks (num_blocks s start end) (first_block s start) s)
  unfolding mark_free
  mark_free-eq = ground arith

  -- For a sound manager and a range inside its memory `_mark_used` returns. The blocks of the range
  -- are used afterwards and every other block is as before; the manager stays sound and its count of
  -- used blocks stays right.
  pub mark_used-Marked :
      IsSound s
      → (t : Pmm) × (mark_used start end s ≡ done t)
        × Marked true (first_block s start) (num_blocks s start end) s t
  mark_used-Marked v = (
    use_blocks (num_blocks s start end) (first_block s start) s,
    mark_used-eq,
    use_blocks-Marked (num_blocks s start end) (first_block s start) s v (omega (arith, r)),
  )

  -- For a sound manager and a range inside its memory `_mark_free` returns. The blocks of the range
  -- are free afterwards and every other block is as before; the manager stays sound and its count of
  -- used blocks stays right.
  pub mark_free-Marked :
      IsSound s
      → (t : Pmm) × (mark_free start end s ≡ done t)
        × Marked false (first_block s start) (num_blocks s start end) s t
  mark_free-Marked v = (
    free_blocks (num_blocks s start end) (first_block s start) s,
    mark_free-eq,
    free_blocks-Marked (num_blocks s start end) (first_block s start) s v (omega (arith, r)),
  )
