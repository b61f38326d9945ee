-- ===== src/Klog.antt =====
-- The log of kernel/klog.c, over the lock of kernel/arch/x86_64/spin.asm and the port of Serial.
-- `log_buf` is the address of `_log_buf`. The length that `vsnprintf` returns is not used.
pub mod Spin
pub mod Sends
mod Tests
use tmos.Base.{ℕ, List, [], ◌∷◌}
use tmos.Base.Outcome.{Outcome, done, ◌>>=◌}
use tmos.Base.Store.{Store}
use tmos.Vsprintf.Print.{vsnprintf}
use tmos.Serial.{Port, com1, serial_write_str}
use tmos.Klog.Spin.{Lock, spin_lock_intsafe, spin_unlock}

abbrev pub klog_buf_sz : ℕ
klog_buf_sz = 4096

-- `_lock`, the memory with `_log_buf`, and the port.
pub record Log : Type 0 where
  pub lock : Lock
  pub mem : Store
  pub port : Port

-- "[KERNEL PANIC]: %s:%u %s\n".
abbrev pub panic_fmt : List ℕ
panic_fmt =
    91 ∷ 75 ∷ 69 ∷ 82 ∷ 78 ∷ 69 ∷ 76 ∷ 32 ∷ 80 ∷ 65 ∷ 78 ∷ 73 ∷ 67 ∷ 93 ∷ 58 ∷ 32 ∷ 37 ∷ 115 ∷ 58
    ∷ 37 ∷ 117 ∷ 32 ∷ 37 ∷ 115 ∷ 10 ∷ []

module _ (fuel null_str log_buf : ℕ) (status : ℕ → ℕ) where
  -- The message in the buffer, and from there to the port, with the lock held.
  unfoldable pub log_message : (fmt args : List ℕ) → Log → Outcome Log
  log_message fmt args s = do
    printed ← vsnprintf fuel null_str log_buf klog_buf_sz fmt args s.mem
    port ← serial_write_str fuel status klog_buf_sz com1 log_buf printed.0 s.port
    done (record { lock = s.lock; mem = printed.0; port = port })

  unfoldable pub klog : (fmt args : List ℕ) → Log → Outcome Log
  klog fmt args s = do
    lock ← spin_lock_intsafe fuel s.lock
    t ← log_message fmt args (record { lock = lock; mem = s.mem; port = s.port })
    done (record { lock = spin_unlock t.lock; mem = t.mem; port = t.port })

  -- `__panic` up to `crash_and_burn`.
  unfoldable pub panic_log : (file line fn : ℕ) (fmt args : List ℕ) → Log → Outcome Log
  panic_log file line fn fmt args s = do
    lock ← spin_lock_intsafe fuel s.lock
    t ← klog panic_fmt (file ∷ line ∷ fn ∷ []) (record { lock = lock; mem = s.mem; port = s.port })
    u ← log_message fmt args t
    done (record { lock = spin_unlock u.lock; mem = u.mem; port = u.port })
