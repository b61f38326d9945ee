-- ===== src/Multiboot2/Tests.antt =====
-- A table at 0x9000 with a name and a memory map of two entries.
use tmos.Base.{ℕ, ◌≡◌, refl, List, [], ◌∷◌, arith}
use tmos.Base.Bytes.{image, Holds-image}
use tmos.Base.Int.{pos}
use tmos.Base.Outcome.{Outcome, done, panic, ◌>>=◌}
use tmos.Base.Store.{Store, write}
use tmos.System.{round_up, round_down}
use tmos.Region.{region_type_multiboot2, region_start, region_type, region_new, region_set_start}
use tmos.Mmap.{
  find_start, find_end, find_idx, last_entry, shift_right, move_right, insert_inside, insert_from,
  mmap_insert_region,
}
use tmos.Multiboot2.{
  Mb2MmapRegion, mreg_type, mreg_end, cvt_mb2_mmap_typ, fill_entry, mb2_table_load, mb2_get_tag,
  mem_load_mb2_mmap,
}
use tmos.Multiboot2.Format.{Tag, table_bytes, mmap_tag}
use tmos.Multiboot2.Tags.{IsTable, mb2_get_tag-mb2_table_load}
use tmos.Multiboot2.Loads.{mem_load_mb2_mmap-panic}
use tmos.Multiboot2.Regions.{insert_entries, mem_load_mb2_mmap-eq}

abbrev name : Tag
name = record { type = 2; body = 116 ∷ 109 ∷ 0 ∷ [] }

abbrev entries : List Mb2MmapRegion
entries =
    record { start = 0; len = 0x9fc00; type = 1 }
    ∷ record { start = 0xf0000; len = 0x10000; type = 2 }
    ∷ []

abbrev tags : List Tag
tags = name ∷ mmap_tag entries ∷ []

abbrev memory : Store
memory = image (table_bytes tags) 0x9000

abbrev nameless : Store
nameless = image (table_bytes (name ∷ [])) 0x9000

abbrev empty : Store
empty k = 0

tags-IsTable : IsTable memory 0x9000 tags
tags-IsTable = record {
  tags = ((omega arith, omega arith, omega arith), ((omega arith, omega arith, omega arith), tt));
  holds = Holds-image (table_bytes tags) 0x9000;
  nonzero = omega arith;
  small = omega arith;
  fits = omega arith;
}

name-IsTable : IsTable nameless 0x9000 (name ∷ [])
name-IsTable = record {
  tags = ((omega arith, omega arith, omega arith), tt);
  holds = Holds-image (table_bytes (name ∷ [])) 0x9000;
  nonzero = omega arith;
  small = omega arith;
  fits = omega arith;
}

mb2_get_tag-mb2_table_load_example :
    (mb2_table_load 0x9000 memory 0 ≡ done (pos 0, 0x9000))
    × (mb2_get_tag 3 6 memory 0x9000 ≡ done 0x9018)
mb2_get_tag-mb2_table_load_example =
    mb2_get_tag-mb2_table_load memory 0x9000 tags 3 6 tags-IsTable (omega arith)

mem_load_mb2_mmap-panic_example :
    (mem_load_mb2_mmap 2 nameless 0 empty ≡ panic)
    × (mem_load_mb2_mmap 2 nameless 0x9000 empty ≡ panic)
mem_load_mb2_mmap-panic_example =
    mem_load_mb2_mmap-panic nameless 0x9000 (name ∷ []) 2 empty name-IsTable (omega arith, tt)
      (omega arith)

mem_load_mb2_mmap-eq_example : mem_load_mb2_mmap 3 memory 0x9000 empty ≡ (
    insert_entries entries (write empty 0 0) >>= λ filled.
    mmap_insert_region 0x9000 0xa000 region_type_multiboot2 filled)
mem_load_mb2_mmap-eq_example =
    mem_load_mb2_mmap-eq memory 0x9000 (name ∷ []) [] entries 3 empty tags-IsTable (omega arith, tt)
      ((omega arith, omega arith), ((omega arith, omega arith), tt)) (omega arith) (omega arith)

-- The starts of the first entries of a map.
abbrev starts : Outcome Store → Outcome (ℕ × ℕ × ℕ)
starts m = m >>= λ r. done (r 0, r 1, r 2)

-- An available region without a whole page leaves a map that is not in decreasing order.
fill_entry_small :
    starts (fill_entry (record { start = 0x1100; len = 0x200; type = 1 }) empty)
    ≡ done (0x1000, 0x2001, 0)
unfolding fill_entry mreg_type mreg_end cvt_mb2_mmap_typ mmap_insert_region find_idx find_end
    find_start insert_from insert_inside move_right last_entry shift_right round_up round_down
    region_start region_type region_new region_set_start write
fill_entry_small = refl
