-- ===== src/Bitmap.antt =====
-- The bitmap of include/tmos/ds/bitmap.h: `BM_INIT`, `BM_SET`, `BM_UNSET`, `BM_TEST` and `BM_SZ`
-- over memory in 64-bit words. A word is named by its byte address, a multiple of 8.
pub mod Laws
use tmos.Base.{ℕ, ◌+◌, ◌*◌, ◌^◌, bit_and, bit_or, Bool, not, ◌==◌}
use tmos.Base.Word.{shr, low_bits}
use tmos.Base.Bits.{bit_not}
use tmos.Base.Store.{Store, write}
use tmos.System.{word_size, word_size_shift, round_up}

pub record Bitmap : Type 0 where
  pub start : ℕ
  pub num_bits : ℕ

unfoldable pub bm_init : ℕ → ℕ → Bitmap
bm_init a nb = record { start = a; num_bits = nb }

-- `&bm.map[w]`.
abbrev pub word_addr : Bitmap → ℕ → ℕ
word_addr bm w = bm.start + 8 * w

-- `(word_t) 1 << (bit & (WORD_SIZE - 1))`; the shift is below 64, so nothing is cut off.
abbrev pub bit_mask : ℕ → ℕ
bit_mask bit = 2 ^ low_bits bit word_size_shift

unfoldable pub bm_set : Store → Bitmap → ℕ → Store
bm_set m bm bit =
    let p = word_addr bm (shr bit word_size_shift) in write m p (bit_or (m p) (bit_mask bit))

unfoldable pub bm_unset : Store → Bitmap → ℕ → Store
bm_unset m bm bit =
    let p = word_addr bm (shr bit word_size_shift) in
    write m p (bit_and (m p) (bit_not 64 (bit_mask bit)))

unfoldable pub bm_test : Store → Bitmap → ℕ → Bool
bm_test m bm bit = not (bit_and (m (word_addr bm (shr bit word_size_shift))) (bit_mask bit) == 0)

unfoldable pub bm_sz : Bitmap → ℕ
bm_sz bm = shr (round_up bm.num_bits word_size) 3
