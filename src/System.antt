-- ===== src/System.antt =====
-- The utility arithmetic of include/tmos/system.h, on `uint64_t` operands, and the word and page
-- sizes of include/tmos/arch/x86_64/system.h.
pub mod Rounding
use tmos.Base.{ℕ, ◌+◌, ◌-◌, ◌^◌, bit_and, Bool, ◌==◌}
use tmos.Base.Word.{u64}
use tmos.Base.Bits.{bit_not}

unfoldable pub round_up : ℕ → ℕ → ℕ
round_up x y = bit_and (u64 (x + (y - 1))) (bit_not 64 (y - 1))

unfoldable pub round_down : ℕ → ℕ → ℕ
round_down x y = bit_and x (bit_not 64 (y - 1))

unfoldable pub is_aligned : ℕ → ℕ → Bool
is_aligned x y = bit_and x (y - 1) == 0

abbrev pub page_size_shift : ℕ
page_size_shift = 12

abbrev pub page_size : ℕ
page_size = 4096

abbrev pub paddr_algn_mask : ℕ
paddr_algn_mask = 0x00fffffffffff000

abbrev pub paddr_invalid : ℕ
paddr_invalid = 2 ^ 64 - 1

abbrev pub word_size : ℕ
word_size = 64

abbrev pub word_size_shift : ℕ
word_size_shift = 6

abbrev pub word_max : ℕ
word_max = 2 ^ 64 - 1
