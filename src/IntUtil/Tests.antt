-- ===== src/IntUtil/Tests.antt =====
-- Numbers written in bases 10 and 16.
use tmos.Base.{ℕ, ◌≡◌, ◌++◌, List, [], ◌∷◌, arith}
use tmos.Base.Outcome.{done}
use tmos.IntUtil.{utoa}
use tmos.IntUtil.Digits.{read, utoa-read}

utoa-read_example : (cs : List ℕ) × (utoa 2018 10 ≡ done (cs ++ (0 ∷ []))) × (read 10 0 cs ≡ 2018)
utoa-read_example = utoa-read 2018 10 (omega arith) (omega arith) (omega arith) (omega arith)
