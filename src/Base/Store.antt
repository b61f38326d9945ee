-- ===== src/Base/Store.antt =====
-- Memory as a function from addresses to cells, with writes.
use Prim.Native.Nat.{ℕ}
use mathlib.Core.Path.{◌≡◌}
use mathlib.Core.Logic.{◌≢◌}
use native.Mathlib.Omega.{arith}
use tmos.Base.Tests.{◌==◌, if◌then◌else◌}

abbrev pub Store : Type 0
Store = ℕ → ℕ

unfoldable pub write : Store → ℕ → ℕ → Store
write m p v a = if a == p then v else m a

pub write_self : (m : Store) (p v : ℕ) → write m p v p ≡ v
unfolding write
write_self m p v = ground arith

pub write_ne : (m : Store) (p v a : ℕ) → a ≢ p → write m p v a ≡ m a
unfolding write
write_ne m p v a h = ground arith
