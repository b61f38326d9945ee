-- ===== src/Klog/Tests.antt =====
-- The message "OK", with interrupts enabled, on a port that is always ready.
use tmos.Base.{ℕ, ◌+◌, ◌≤◌, ◌<◌, ◌≡◌, ◌≢◌, refl, List, [], ◌∷◌, ◌++◌, arith, true, false, min}
use tmos.Base.Outcome.{Outcome, done, no_fuel}
use tmos.Base.Store.{Store, write}
use tmos.Vsprintf.Number.{put, within}
use tmos.Base.Word.{u32}
use tmos.Vsprintf.Print.{format, format_step, vsnprintf}
use tmos.Serial.{Port, com1, is_transmit_empty}
use tmos.Serial.Text.{IsResponsive, text}
use tmos.Klog.{Log, klog, panic_log}
use tmos.Klog.Sends.{klog-text, panic_log-no_fuel}

abbrev quiet : Port
quiet = record { reads = 3; sent = [] }

abbrev begun : Log
begun = record { lock = record { word = 0; interrupts = true }; mem = λ _. 7; port = quiet }

abbrev ready : ℕ → ℕ
ready next = 32

ready-IsResponsive : IsResponsive 5 ready
unfolding is_transmit_empty
ready-IsResponsive next = (0, omega arith, refl)

abbrev ok : List ℕ
ok = 79 ∷ 75 ∷ []

abbrev after : Outcome (Store × ℕ) → Store
after (done r) = r.0
after other = begun.mem

abbrev printed : Store
printed = after (vsnprintf 5 0x8000 0x5000 4096 ok [] begun.mem)

ok-printed : vsnprintf 5 0x8000 0x5000 4096 ok [] begun.mem ≡ done (printed, 2)
unfolding vsnprintf format format_step put within write
ok-printed = refl

klog-text_example :
    (t : Log) × (total : ℕ) × (k : ℕ) × (klog 5 0x8000 0x5000 ready ok [] begun ≡ done t)
    × (t.port.sent ≡ [] ++ text com1 k 0x5000 printed)
    × (2 ≡ u32 total)
    × (k ≤ min total 4095)
    × (printed (0x5000 + k) ≡ 0)
    × ((i : ℕ) → i < k → printed (0x5000 + i) ≢ 0)
    × (t.mem ≡ printed)
    × (t.lock ≡ record { word = 0; interrupts = false })
klog-text_example =
    klog-text 5 0x8000 0x5000 ready ok [] begun printed 2 ready-IsResponsive (omega arith)
      (omega arith) refl ok-printed

panic_log-no_fuel_example :
    panic_log 5 0x8000 0x5000 ready 0x9000 63 0x9100 ok []
      (record { lock = record { word = 0; interrupts = false }; mem = begun.mem; port = quiet })
    ≡ no_fuel
panic_log-no_fuel_example =
    panic_log-no_fuel 5 0x8000 0x5000 ready 0x9000 63 0x9100 ok [] begun.mem quiet
