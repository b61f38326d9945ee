-- ===== src/Kinit.antt =====
-- The start of the kernel, of kernel/arch/x86_64/boot/kinit.c: the choice of the regions that the
-- physical memory manager is given, and the callback that maps the kernel's sections into the new
-- page tables. `vbase` is the linker's KRNL_VBASE. The headers that include/tmos/elf.h describes are
-- read from the bytes of the multiboot2 table, which the page tables do not overlap.
pub mod Choice
pub mod Offsets
pub mod Sections
pub mod Bitmaps
pub mod Loop
mod Tests
use tmos.Base.{
  ℕ, zero, suc, ◌+◌, ◌-◌, ◌/◌, ◌^◌, bit_and, bit_or, Bool, not, ◌&&◌, List, [], ◌∷◌, ltb, ◌==◌,
  if◌then◌else◌,
}
use tmos.Base.Bytes.{load32, load64}
use tmos.Base.Outcome.{Outcome, done, panic, undef, no_fuel, ◌>>=◌, ◌>>◌, assert}
use tmos.Base.Store.{Store}
use tmos.Base.Word.{u32, u64, shr, sub64}
use tmos.System.{page_size, page_size_shift, paddr_algn_mask, word_size, round_up}
use tmos.Region.{region_start, region_type, region_type_avail, region_type_multiboot2}
use tmos.Mmap.{max_num_entries}
use tmos.Multiboot2.{tag_size, mb2_get_tag}
use tmos.Pmm.{Pmm}
use tmos.Pmm.Init.{init}
use tmos.Vmm.{flg_present, flg_writable, FrameAllocator, Vmm, vmm_map_to, vmm_unmap}

abbrev pub uint32_max : ℕ
uint32_max = 2 ^ 32 - 1

-- The loop of `_init_mem_mngr`, with the entries left in `_KMMAP`; `first` and `tot` behind it.
unfoldable pub choose_regions : ℕ → (first tot : ℕ) → Store → ℕ × ℕ
choose_regions zero first tot r = (first, tot)
choose_regions (suc n) first tot r =
    let first' =
      if (region_type (r tot) == region_type_avail) && (first == uint32_max)
      then u32 (tot + uint32_max)
      else first in
    let rest = choose_regions n first' (tot + 1) r in
    if region_start (r tot) == 0 then (first', tot + 1) else rest

-- The `n` entries from `i` on.
abbrev pub entries_from : ℕ → ℕ → Store → List ℕ
entries_from zero i r = []
entries_from (suc n) i r = r i ∷ entries_from n (i + 1) r

-- The call of `BM_PMMGR.init`, which is given the entries from `first` to the end of the array.
unfoldable pub init_pmm : (vbase : ℕ) → Store → (kmmap : Store) → Outcome (Pmm × List ℕ)
init_pmm vbase mem kmmap =
    let (first, tot) = choose_regions max_num_entries uint32_max 0 kmmap in
    init vbase mem (entries_from (max_num_entries - first) first kmmap) tot 0x1000000
      paddr_algn_mask

-- What the code uses of a `struct elf64_shdr`.
pub record Elf64Shdr : Type 0 where
  pub sh_flags : ℕ
  pub sh_addr : ℕ
  pub sh_size : ℕ

abbrev pub shdr_size : ℕ
shdr_size = 64

abbrev pub shdr_at : Store → ℕ → Elf64Shdr
shdr_at m p = record {
  sh_flags = load64 m (p + 8);
  sh_addr = load64 m (p + 16);
  sh_size = load64 m (p + 32);
}

-- SHF_WRITE, SHF_ALLOC and SHF_EXEC.
abbrev pub shf_write : ℕ
shf_write = 1

abbrev pub shf_alloc : ℕ
shf_alloc = 2

abbrev pub shf_exec : ℕ
shf_exec = 4

abbrev pub flg_no_exec : ℕ
flg_no_exec = 0x8000000000000000

-- The flags of a section's pages.
unfoldable pub section_flags : ℕ → ℕ
section_flags sh_flags =
    let writable =
      if bit_and sh_flags shf_write == 0 then flg_present else bit_or flg_present flg_writable in
    if bit_and sh_flags shf_exec == 0 then bit_or writable flg_no_exec else writable

abbrev pub tag_type_elf : ℕ
tag_type_elf = 9

-- `sizeof(struct mb2_tag_elf)`.
abbrev pub tag_elf_size : ℕ
tag_elf_size = 20

module _ (vbase : ℕ) (frames : FrameAllocator) where
  -- One round of the loop over the sections. The size that is rounded up is not used.
  unfoldable pub remap_section : Elf64Shdr → Vmm frames → Outcome (Vmm frames)
  remap_section e s =
      if ltb e.sh_addr vbase
      then done s
      else if bit_and e.sh_flags shf_alloc == 0
      then done s
      else (assert (bit_and e.sh_addr (page_size - 1) == 0)
          >> vmm_map_to frames e.sh_addr (sub64 e.sh_addr vbase) (shr e.sh_size page_size_shift)
              (section_flags e.sh_flags) s)

  -- The loop, on fuel.
  unfoldable pub remap_sections : ℕ → Store → (shdr end : ℕ) → Vmm frames → Outcome (Vmm frames)
  remap_sections zero m shdr end s = no_fuel
  remap_sections (suc fuel) m shdr end s =
      if ltb shdr end
      then remap_section (shdr_at m shdr) s >>= remap_sections fuel m (shdr + shdr_size) end
      else done s

  -- The loop that maps the multiboot2 table where it is, with the entries left in `_KMMAP`.
  unfoldable pub remap_table : ℕ → (i : ℕ) → (kmmap : Store) → Vmm frames → Outcome (Vmm frames)
  remap_table zero i r s = undef
  remap_table (suc left) i r s =
      let rest = remap_table left (i + 1) r s in
      if region_start (r i) == 0
      then done s
      else if region_type (r i) == region_type_multiboot2
      then (assert (ltb 0 i)
          >> vmm_map_to frames (region_start (r i)) (region_start (r i))
              (shr (sub64 (region_start (r (i - 1))) (region_start (r i))) page_size_shift)
              flg_present s)
      else rest

  unfoldable pub remap_cb_multiboot2 :
      (fuel guard_page mb2tab : ℕ) → Store → (kmmap : Store) → Vmm frames → Outcome (Vmm frames)
  remap_cb_multiboot2 fuel guard_page mb2tab m kmmap s = do
    elftag ← mb2_get_tag fuel tag_type_elf m mb2tab
    assert (not (elftag == 0))
    let size = tag_size m elftag
    t ← remap_sections (size / shdr_size + 2) m (elftag + tag_elf_size) (elftag + size) s
    u ← remap_table max_num_entries 0 kmmap t
    vmm_unmap frames guard_page 1 u

  -- `_remap_cb` of kernel/mem/bitmap.c.
  unfoldable pub remap_cb : Pmm → Vmm frames → Outcome (Vmm frames)
  remap_cb mgr s =
      let bm0sz = shr (round_up mgr.tot_blk word_size) 3 in
      let bm1sz = shr (round_up (shr bm0sz 3) word_size) 3 in
      let num = shr (round_up (u64 (bm0sz + bm1sz)) page_size) page_size_shift in
      vmm_map_to frames mgr.bm0.start (sub64 mgr.bm0.start vbase) num
        (bit_or flg_present flg_writable) s
