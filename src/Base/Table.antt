-- ===== src/Base/Table.antt =====
-- A property of every number below a bound, checked by evaluation.
use Prim.Native.Nat.{ℕ, zero, suc, ◌<◌}
use mathlib.Core.Path.{◌≡◌}
use mathlib.Core.Bool.{Bool, true, false}
use tmos.Base.Tests.{if◌then◌else◌}
use native.Mathlib.Omega.{arith}

unfoldable pub holds_below : ℕ → (ℕ → Bool) → Bool
holds_below zero test = true
holds_below (suc bound) test = if test bound then holds_below bound test else false

pub holds_below_sound :
    (bound : ℕ) (test : ℕ → Bool) (k : ℕ)
    → holds_below bound test ≡ true
    → k < bound
    → test k ≡ true
unfolding holds_below
holds_below_sound (suc bound) test k runs below = ground (arith, holds_below_sound bound test k)
holds_below_sound zero test k runs below = absurd (omega arith)
