-- ===== src/Kinit/Tests.antt =====
-- Two small memory maps, and a table with one section of the kernel.
use tmos.Base.{
  ℕ, zero, suc, ◌+◌, ◌*◌, ◌^◌, ◌<◌, ◌≡◌, ◌≢◌, refl, List, ◌++◌, arith, ltb, ◌==◌, if◌then◌else◌,
}
use tmos.Base.Bytes.{bytes64, image}
use tmos.Base.Outcome.{done, undef}
use tmos.Base.Store.{Store, write}
use tmos.Region.{region_start, region_type}
use tmos.Mmap.Moves.{EndsAt}
use tmos.Vmm.{
  pte_present, pte_huge, pte_unused, pml4_idx, pdp_idx, pd_idx, pt_idx, child_addr, zero_page,
  vaddr_is_valid, Vmm, pt_create, create_tables, set_page, map_pages_to, vmm_map_to, vmm_translate,
}
use tmos.Vmm.Tests.{counter, empty, or_empty}
use tmos.Kinit.{init_pmm, section_flags, remap_section, remap_sections, remap_cb}
use tmos.Kinit.Choice.{init_pmm-undef}
use tmos.Kinit.Offsets.{IsBase}
use tmos.Kinit.Bitmaps.{remap_cb-translate}
use tmos.System.{round_up}
use tmos.Pmm.{Pmm}
use tmos.Pmm.Init.{bitmap_bytes}
use tmos.Kinit.Loop.{AllFit, remap_sections-translate}

-- Entries 0 to 99, of which number 60 is available.
abbrev hundred : Store
hundred i = if ltb i 100 then (if i == 60 then 4097 else 4096) else 0

hundred-EndsAt : EndsAt hundred 0 100
unfolding region_start
hundred-EndsAt = record {
  behind = omega arith;
  inside = omega arith;
  end = refl;
  before = λ k lo up. ground arith;
}

hundred_none : (i : ℕ) → i < 60 → region_type (hundred i) ≢ 1
unfolding region_type
hundred_none i h = ground arith

init_pmm-undef_example : init_pmm 0 hundred hundred ≡ undef
unfolding region_type
init_pmm-undef_example =
    init_pmm-undef 0 60 100 hundred hundred hundred-EndsAt (omega arith) (omega arith) refl
      hundred_none (omega arith)

abbrev vbase : ℕ
vbase = 0xffffffff80000000

-- A section of code of a page and a half, 1 MiB behind the base.
abbrev header : List ℕ
header = bytes64 0 ++ (bytes64 6 ++ (bytes64 (vbase + 0x100000) ++ (bytes64 0 ++ bytes64 0x1800)))

abbrev table : Store
table = image header 0x9000

abbrev remapped : Vmm counter
remapped = or_empty (remap_sections vbase counter 2 table 0x9000 0x9040 empty)

remapped_done : remap_sections vbase counter 2 table 0x9000 0x9040 empty ≡ done remapped
unfolding remap_sections remap_section section_flags vmm_map_to map_pages_to set_page create_tables
    pt_create child_addr pml4_idx pdp_idx pd_idx pt_idx pte_present pte_huge pte_unused zero_page
    write vaddr_is_valid
remapped_done = refl

vbase-IsBase : IsBase vbase
vbase-IsBase = record { page = omega arith; high = omega arith; word = omega arith }

one_Fits : AllFit vbase table 0x9000 0x9040
one_Fits zero inside loaded = omega arith
one_Fits (suc k) inside loaded = absurd (omega arith)

remap_sections-translate_example : vmm_translate remapped.mem (vbase + 0x100123) ≡ done 0x100123
unfolding vaddr_is_valid
remap_sections-translate_example =
    remap_sections-translate vbase vbase-IsBase counter 2 table 0x9000 0x9040 empty remapped
      one_Fits (omega arith) remapped_done 0 (omega arith) (omega arith, omega arith)
      (vbase + 0x100123) (omega arith, omega arith) (omega arith) refl

-- A manager of 64 blocks with its bitmaps at 2 MiB.
abbrev manager : Pmm
manager = record {
  mem = λ _. 0;
  base = 0;
  mem_sz = 64 * 4096;
  tot_blk = 64;
  used_blk = 64;
  fast_start = 0;
  fast_end = 2 ^ 24;
  bm0 = record { start = vbase + 0x200000; num_bits = 64 };
  bm1 = record { start = vbase + 0x200008; num_bits = 1 };
}

abbrev with_bitmaps : Vmm counter
with_bitmaps = or_empty (remap_cb vbase counter manager empty)

with_bitmaps_done : remap_cb vbase counter manager empty ≡ done with_bitmaps
unfolding remap_cb vmm_map_to map_pages_to set_page create_tables pt_create child_addr pml4_idx
    pdp_idx pd_idx pt_idx pte_present pte_huge pte_unused zero_page write vaddr_is_valid round_up
with_bitmaps_done = refl

remap_cb-translate_example : vmm_translate with_bitmaps.mem (vbase + 0x200008) ≡ done 0x200008
unfolding vaddr_is_valid bitmap_bytes round_up
remap_cb-translate_example =
    remap_cb-translate vbase vbase-IsBase counter manager empty with_bitmaps (vbase + 0x200008)
      (omega arith) (omega arith) (omega arith) (omega arith) (omega arith) with_bitmaps_done
      (omega arith) (omega arith) refl
