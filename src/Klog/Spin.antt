-- ===== src/Klog/Spin.antt =====
-- The lock of kernel/arch/x86_64/spin.asm on one processor, which polls a word that nobody else
-- changes: the two bits of the lock, and whether interrupts are enabled.
use tmos.Base.{ℕ, zero, suc, bit_and, bit_or, Bool, true, false, ◌==◌, if◌then◌else◌}
use tmos.Base.Outcome.{Outcome, done, no_fuel, ◌>>=◌}

pub record Lock : Type 0 where
  pub word : ℕ
  pub interrupts : Bool

-- The loop until bit 0 of the word is clear.
unfoldable pub poll : ℕ → ℕ → Outcome (Unit {0})
poll zero word = no_fuel
poll (suc n) word = let rest = poll n word in if bit_and word 1 == 0 then done tt else rest

-- Bit 0 is set; if interrupts were enabled, the last step is `and dword [rdi], 2`.
unfoldable pub spin_lock_intsafe : (fuel : ℕ) → Lock → Outcome Lock
spin_lock_intsafe fuel l = do
  free ← poll fuel l.word
  let held = bit_or l.word 1
  done (record { word = if l.interrupts then bit_and held 2 else held; interrupts = false })

unfoldable pub spin_unlock : Lock → Lock
spin_unlock l = record {
  word = 0;
  interrupts = if bit_and l.word 2 == 0 then l.interrupts else true;
}
