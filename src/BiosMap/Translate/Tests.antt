-- ===== src/BiosMap/Translate/Tests.antt =====
-- Two entries that overlap, of which the upper one is reserved.
use tmos.Base.{◌^◌, ◌≡◌, ◌==◌, if◌then◌else◌}
use tmos.Base.Outcome.{done}
use tmos.BiosMap.{BiosMap}
use tmos.BiosMap.Translate.{Regions, translate}
use tmos.BiosMap.Translate.Overlaps.{add_all, translate-add_all}

abbrev overlapping : BiosMap
overlapping k =
    if k == 0
    then record { base = 0x8000; len = 0x8000; type = 2; acpi = 1 }
    else record { base = 0; len = 0xa000; type = 1; acpi = 1 }

abbrev nothing : Regions
nothing _ = record { val_start = 0; val_type = 0 }

translate-add_all_example :
    translate 2 overlapping nothing
    ≡ done (add_all 2 0 overlapping (record { regions = nothing; reglen = 0; last_start = 2 ^ 56 }))
translate-add_all_example = translate-add_all 2 overlapping nothing
