-- ===== src/Heap/Sizes.antt =====
-- `_get_size` and `_get_bin_idx` of kernel/mem/heap.c, with the sizes of the table `_bins`.
use tmos.Base.{ℕ, ◌+◌, ◌-◌, List, [], ◌∷◌, leb, if◌then◌else◌}
use tmos.Base.Outcome.{Outcome, done, panic}
use tmos.Base.Word.{shr, sub64}
use tmos.System.{round_up}

abbrev pub bin_sizes : List ℕ
bin_sizes =
    16 ∷ 24 ∷ 32 ∷ 40 ∷ 48 ∷ 56 ∷ 64 ∷ 72 ∷ 80 ∷ 88 ∷ 96 ∷ 104 ∷ 112 ∷ 120 ∷ 128 ∷ 144 ∷ 160 ∷ 176
    ∷ 192 ∷ 208 ∷ 224 ∷ 240 ∷ 256 ∷ 288 ∷ 320 ∷ 352 ∷ 384 ∷ 416 ∷ 448 ∷ 480 ∷ 512 ∷ 576 ∷ 640 ∷ 704
    ∷ 768 ∷ 832 ∷ 896 ∷ 960 ∷ 1024 ∷ 1152 ∷ 1280 ∷ 1408 ∷ 1536 ∷ 1664 ∷ 1792 ∷ 1920 ∷ 2048 ∷ 2304
    ∷ 2560 ∷ 2816 ∷ 3072 ∷ 3328 ∷ 3584 ∷ 3840 ∷ []

abbrev pub bin_min_size : ℕ
bin_min_size = 24

-- `size_t req`; `panic` is the failed assertion.
unfoldable pub get_size : ℕ → Outcome ℕ
get_size req =
    if leb req bin_min_size
    then done bin_min_size
    else if leb req 3840
    then done (
        if leb req 128
        then round_up req 8
        else if leb req 256
        then round_up req 16
        else if leb req 512
        then round_up req 32
        else if leb req 1024
        then round_up req 64
        else if leb req 2048
        then round_up req 128
        else round_up req 256)
    else panic

unfoldable pub get_bin_idx : ℕ → Outcome ℕ
get_bin_idx binsz =
    if leb binsz 128
    then done (sub64 (shr binsz 3) 1)
    else if leb binsz 256
    then done (15 + shr (binsz - 128) 4)
    else if leb binsz 512
    then done (23 + shr (binsz - 256) 5)
    else if leb binsz 1024
    then done (31 + shr (binsz - 512) 6)
    else if leb binsz 2048
    then done (39 + shr (binsz - 1024) 7)
    else if leb binsz 3840
    then done (47 + shr (binsz - 2048) 8)
    else panic
