-- ===== src/BiosMap.antt =====
-- The memory map of the BIOS in bootloader/stage2/mem.c: the sort before the translation to regions.
-- The map is a function from indices to its entries.
pub mod Sorted
pub mod Translate
mod Tests
use tmos.Base.{ℕ, zero, suc, ◌+◌, ◌-◌, Bool, ◌&&◌, ltb, leb, ◌==◌, if◌then◌else◌}
use tmos.Base.Outcome.{Outcome, done, undef}
use tmos.Base.Word.{u64}

pub record BiosRegion : Type 0 where
  pub base : ℕ
  pub len : ℕ
  pub type : ℕ
  pub acpi : ℕ

abbrev pub BiosMap : Type 0
BiosMap = ℕ → BiosRegion

-- `END`.
unfoldable pub end_of : BiosRegion → ℕ
end_of r = u64 (r.base + r.len)

-- `_swap_bios_region` of two entries.
unfoldable pub swap_bios_region : (a b : ℕ) → BiosMap → BiosMap
swap_bios_region a b mmap k = if k == a then mmap b else if k == b then mmap a else mmap k

-- The inner loop, with the rounds left.
unfoldable pub find_max : ℕ → (j max_idx : ℕ) → BiosMap → ℕ
find_max zero j max_idx mmap = max_idx
find_max (suc n) j max_idx mmap =
    find_max n (j + 1) (if ltb (end_of (mmap max_idx)) (end_of (mmap j)) then j else max_idx) mmap

-- One round of the outer loop.
unfoldable pub sort_round : (len i : ℕ) → BiosMap → BiosMap
sort_round len i mmap =
    let max_idx = find_max (len - (i + 1)) (i + 1) i mmap in
    if (end_of (mmap i) == end_of (mmap max_idx)) && leb ((mmap max_idx).base) ((mmap i).base)
    then mmap
    else swap_bios_region i max_idx mmap

unfoldable pub sort_from : ℕ → (len i : ℕ) → BiosMap → BiosMap
sort_from zero len i mmap = mmap
sort_from (suc n) len i mmap = sort_from n len (i + 1) (sort_round len i mmap)

-- `_sort_map`. For no entry the bound `len - 1` wraps, and the loop reads behind the map.
unfoldable pub sort_map : (len : ℕ) → BiosMap → Outcome BiosMap
sort_map len mmap = if len == 0 then undef else done (sort_from (len - 1) len 0 mmap)
