-- ===== src/Region.antt =====
-- `region_t` of include/tmos/memory.h: a page-aligned start address with a type and a flag in the
-- low bits of one `uint64_t`.
pub mod Fields
use tmos.Base.{ℕ, bit_and, bit_or}
use tmos.Base.Bits.{bit_not}
use tmos.System.{paddr_algn_mask}

abbrev pub region_type_none : ℕ
region_type_none = 0

abbrev pub region_type_avail : ℕ
region_type_avail = 1

abbrev pub region_type_multiboot2 : ℕ
region_type_multiboot2 = 2

abbrev pub region_type_kernel : ℕ
region_type_kernel = 3

abbrev pub region_type_acpi_reclaim : ℕ
region_type_acpi_reclaim = 4

abbrev pub region_type_acpi_nvs : ℕ
region_type_acpi_nvs = 5

abbrev pub region_type_rsvd : ℕ
region_type_rsvd = 6

abbrev pub region_type_mask : ℕ
region_type_mask = 7

abbrev pub region_flag_managed : ℕ
region_flag_managed = 8

unfoldable pub region_start : ℕ → ℕ
region_start r = bit_and r paddr_algn_mask

unfoldable pub region_type : ℕ → ℕ
region_type r = bit_and r region_type_mask

unfoldable pub region_new : ℕ → ℕ → ℕ
region_new addr typ = bit_or (bit_and addr paddr_algn_mask) (bit_and typ region_type_mask)

unfoldable pub region_set_start : ℕ → ℕ → ℕ
region_set_start r addr = bit_or (bit_and r region_type_mask) (bit_and addr paddr_algn_mask)

unfoldable pub region_set_type : ℕ → ℕ → ℕ
region_set_type r typ = bit_or (bit_and r paddr_algn_mask) (bit_and typ region_type_mask)

unfoldable pub region_set_managed : ℕ → ℕ
region_set_managed r = bit_or r region_flag_managed
