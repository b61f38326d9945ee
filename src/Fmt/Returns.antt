-- ===== src/Fmt/Returns.antt =====
-- `fmt_write` returns.
use tmos.Base.{◌^◌, ◌≢◌, ◌⊎◌, List, [], ◌∷◌, if◌then◌else◌}
use tmos.Fmt.Items.{Item, plain, string, number}

-- No number is the least one under d, which has no opposite.
abbrev HasOpposite : Item → Type 0
HasOpposite (plain c) = Unit
HasOpposite (string s) = Unit
HasOpposite (number w wide c n) = (c ≢ 100) ⊎ (n ≢ 2 ^ (if wide then 63 else 31))

abbrev pub HaveOpposites : List Item → Type 0
HaveOpposites [] = Unit
HaveOpposites (i ∷ items) = HasOpposite i × HaveOpposites items
