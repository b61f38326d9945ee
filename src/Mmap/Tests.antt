-- ===== src/Mmap/Tests.antt =====
-- A map of three entries and the theorems at it: nothing from 0x9000 on, available memory from
-- 0x5000 on, reserved memory below.
use tmos.Base.{ℕ, zero, suc, ◌≡◌, ◌≢◌, ◌<◌, arith, ◌==◌, if◌then◌else◌, refl}
use tmos.Base.Outcome.{done, no_fuel}
use tmos.Base.Store.{Store}
use tmos.Region.{region_start}
use tmos.Mmap.{mmap_split_at, mmap_insert_region}
use tmos.Mmap.Moves.{EndsAt}
use tmos.Mmap.Splits.{Split, mmap_split_at-Split}
use tmos.Mmap.Ends.{mmap_insert_region-ends}

abbrev three : Store
three q = if q == 0 then 0x9000 else if q == 1 then 0x5001 else if q == 2 then 6 else 0

before_last : (k : ℕ) → k < 2 → region_start (three k) ≢ 0
unfolding region_start
before_last zero h e = absurd (omega arith)
before_last (suc zero) h e = absurd (omega arith)
before_last (suc (suc k)) h e = absurd (omega arith)

three-EndsAt : EndsAt three 0 2
unfolding region_start
three-EndsAt = record {
  behind = omega arith;
  inside = omega arith;
  end = refl;
  before = λ k lo up. before_last k up;
}

mmap_split_at-Split_example :
    (t : Store) × (mmap_split_at 0x7000 three ≡ done t) × Split 128 0 0x7000 three t
mmap_split_at-Split_example =
    mmap_split_at-Split 0x7000 2 three three-EndsAt (omega arith) (omega arith) refl

mmap_insert_region-ends_example : mmap_insert_region 0x6000 0x8000 2 three ≢ no_fuel
mmap_insert_region-ends_example = mmap_insert_region-ends 0x6000 0x8000 2 three
