-- ===== src/BiosMap/Tests.antt =====
-- Three entries, of which the first ends below the second.
use tmos.Base.{◌*◌, ◌≤◌, ◌≡◌, arith, ◌==◌, if◌then◌else◌}
use tmos.Base.Outcome.{done}
use tmos.BiosMap.{BiosMap, end_of, sort_map}
use tmos.BiosMap.Sorted.{Moved, sort_map-Moved}

abbrev three : BiosMap
three k = record {
  base = (if k == 1 then 0x100000 else 0x1000 * k);
  len = 0x1000;
  type = 1;
  acpi = 1;
}

sort_map-Moved_example :
    (mmap : BiosMap) × (sort_map 3 three ≡ done mmap)
    × Moved 3 three mmap
    × (end_of (mmap 1) ≤ end_of (mmap 0))
sort_map-Moved_example = sort_map-Moved 3 three (omega arith) 0 1 (omega arith) (omega arith)
