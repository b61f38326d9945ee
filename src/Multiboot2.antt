-- ===== src/Multiboot2.antt =====
-- The multiboot2 table, of kernel/multiboot2.c and include/tmos/multiboot2.h. The table stands in
-- memory as bytes; `MB2TAB` is a number, 0 for NULL, and a tag is its address. What `klog` prints is
-- left out.
pub mod Format
pub mod Tags
pub mod Loads
pub mod Regions
mod Tests
use tmos.Base.{ℕ, zero, suc, ◌+◌, ◌-◌, ◌^◌, ◌/◌, bit_and, Bool, ◌||◌, not, ltb, ◌==◌, if◌then◌else◌}
use tmos.Base.Bits.{bit_not}
use tmos.Base.Bytes.{load32, load64}
use tmos.Base.Int.{ℤ, pos, negsuc}
use tmos.Base.Outcome.{Outcome, done, panic, undef, no_fuel, ◌>>=◌}
use tmos.Base.Store.{Store, write}
use tmos.Base.Word.{u32, u64}
use tmos.System.{page_size, round_up, round_down}
use tmos.Region.{
  region_type_avail, region_type_rsvd, region_type_acpi_reclaim, region_type_acpi_nvs,
  region_type_multiboot2,
}
use tmos.Mmap.{mmap_insert_region}

-- `sizeof` of `struct mb2_table`, `struct mb2_tag_mmap` and `struct mb2_mmap_region`.
abbrev pub table_size : ℕ
table_size = 8

abbrev pub tag_mmap_size : ℕ
tag_mmap_size = 16

abbrev pub region_size : ℕ
region_size = 24

abbrev pub tag_type_mmap : ℕ
tag_type_mmap = 6

-- The fields `type` and `size` of a `struct mb2_tag`.
abbrev pub tag_type : Store → ℕ → ℕ
tag_type m tag = load32 m tag

abbrev pub tag_size : Store → ℕ → ℕ
tag_size m tag = load32 m (tag + 4)

-- The status, and `MB2TAB` after the call. A read through NULL is undefined.
unfoldable pub mb2_table_load : (addr : ℕ) → Store → (mb2tab : ℕ) → Outcome (ℤ × ℕ)
mb2_table_load addr m mb2tab =
    let last_tag = u64 (addr + load32 m addr + (2 ^ 64 - 8)) in
    if not (mb2tab == 0)
    then done (negsuc 0, mb2tab)
    else if addr == 0
    then undef
    else if (load32 m addr == 0) || not (load32 m (addr + 4) == 0)
    then done (negsuc 0, mb2tab)
    else if not (tag_type m last_tag == 0) || not (tag_size m last_tag == 8)
    then done (negsuc 0, mb2tab)
    else done (pos 0, addr)

-- `((void*) ret) + ((ret->size + 7) & ~7)`, with the sum of the size in 32 bits.
unfoldable pub next_tag : Store → ℕ → ℕ
next_tag m ret = u64 (ret + bit_and (u32 (tag_size m ret + 7)) (bit_not 32 7))

-- The loop of `mb2_get_tag`, on fuel.
unfoldable pub get_tag_from : ℕ → (type : ℕ) → Store → (ret : ℕ) → Outcome ℕ
get_tag_from zero type m ret = no_fuel
get_tag_from (suc fuel) type m ret =
    let rest = get_tag_from fuel type m (next_tag m ret) in
    if (ret == 0) || (tag_type m ret == 0)
    then done 0
    else if tag_type m ret == type
    then done ret
    else rest

unfoldable pub mb2_get_tag : (fuel type : ℕ) → Store → (mb2tab : ℕ) → Outcome ℕ
mb2_get_tag fuel type m mb2tab =
    if mb2tab == 0 then done 0 else get_tag_from fuel type m (u64 (mb2tab + table_size))

pub record Mb2MmapRegion : Type 0 where
  pub start : ℕ
  pub len : ℕ
  pub type : ℕ

-- `mb2[i]`, without its reserved field.
abbrev pub region_at : Store → ℕ → Mb2MmapRegion
region_at m p = record { start = load64 m p; len = load64 m (p + 8); type = load32 m (p + 16) }

-- `MB2_MREG_TYPE` and `MB2_MREG_END`.
unfoldable pub mreg_type : Mb2MmapRegion → ℕ
mreg_type m = if (m.type == 0) || ltb 4 m.type then 2 else m.type

unfoldable pub mreg_end : Mb2MmapRegion → ℕ
mreg_end m = u64 (m.start + m.len)

unfoldable pub cvt_mb2_mmap_typ : ℕ → Outcome ℕ
cvt_mb2_mmap_typ type =
    if type == 1
    then done region_type_avail
    else if type == 2
    then done region_type_rsvd
    else if type == 3
    then done region_type_acpi_reclaim
    else if type == 4
    then done region_type_acpi_nvs
    else panic

-- One round of `_fill_mmap`.
unfoldable pub fill_entry : Mb2MmapRegion → Store → Outcome Store
fill_entry e regmap = cvt_mb2_mmap_typ (mreg_type e) >>= λ type.
    let avail = type == region_type_avail in
    mmap_insert_region (if avail then round_up e.start page_size else round_down e.start page_size)
      (if avail then round_down (mreg_end e) page_size else round_up (mreg_end e) page_size) type
      regmap

-- The loop, with the rounds left and the address of `mb2[i]`.
unfoldable pub fill_mmap : ℕ → (p : ℕ) → Store → (regmap : Store) → Outcome Store
fill_mmap zero p m regmap = done regmap
fill_mmap (suc n) p m regmap = fill_entry (region_at m p) regmap >>= fill_mmap n (p + region_size) m

-- `mb2_mmap_len`: the difference is of a `size_t`, and the quotient is cut to 32 bits.
unfoldable pub mmap_len : (size entsz : ℕ) → Outcome ℕ
mmap_len size entsz =
    if entsz == 0 then undef else done (u32 (u64 (size + (2 ^ 64 - tag_mmap_size)) / entsz))

unfoldable pub mem_load_mb2_mmap :
    (fuel : ℕ) → Store → (mb2tab : ℕ) → (regmap : Store) → Outcome Store
mem_load_mb2_mmap fuel m mb2tab regmap = do
  tag ← mb2_get_tag fuel tag_type_mmap m mb2tab
  if tag == 0 then panic else do
    n ← mmap_len (tag_size m tag) (load32 m (tag + 8))
    filled ← fill_mmap n (tag + tag_mmap_size) m (write regmap 0 0)
    mmap_insert_region (round_down mb2tab page_size)
        (round_up (u64 (mb2tab + load32 m mb2tab)) page_size) region_type_multiboot2 filled
