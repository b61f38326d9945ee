-- ===== src/Libc/Tests.antt =====
-- The memory and string functions at small ranges: "ab" stands at 8 and at 24, "ac" at 40.
use tmos.Base.{ℕ, ◌<◌, ◌≡◌, arith, ◌==◌, if◌then◌else◌}
use tmos.Base.Store.{Store}
use tmos.Libc.Memory.{memmove, memmove-eq}

abbrev text : Store
text q =
    if q == 8
    then 97
    else if q == 9
    then 98
    else if q == 24
    then 97
    else if q == 25
    then 98
    else if q == 40
    then 97
    else if q == 41
    then 99
    else 0

memmove-eq_example : memmove 9 8 2 text 10 ≡ 98
memmove-eq_example = memmove-eq 9 8 2 text 10

-- "A" and "a".
abbrev mixed : Store
mixed q = if q == 8 then 65 else if q == 24 then 97 else 0

mixed-Ascii : (p : ℕ) → mixed p < 128
mixed-Ascii p = ground arith
