-- ===== src/Pit/Tests.antt =====
-- The rate of 100 Hz that the kernel starts with, and two ticks.
use tmos.Base.{◌≡◌, ◌++◌, [], ◌∷◌, arith}
use tmos.Base.Outcome.{done}
use tmos.Idt.{idt_zero}
use tmos.Idt.Gates.{handler}
use tmos.Pit.{Timer, pit_start_counter, pit_get_ticks}
use tmos.Pit.Ticks.{interrupts, started, eois, pit_start_counter-ticks}

abbrev stopped : Timer
stopped = record { gates = λ _. idt_zero; ticks = 7; ports = [] }

pit_start_counter-ticks_example :
    (u : Timer) × (pit_start_counter 100 0x101000 stopped ≡ done u)
    × (handler (u.gates 0x20) ≡ 0x101000)
    × (u.ports ≡ (0x43, 0x34) ∷ (0x42, 0x9b) ∷ (0x42, 0x2e) ∷ [])
    × (pit_get_ticks (interrupts 2 (started 0 0) u) ≡ 2)
    × ((interrupts 2 (started 0 0) u).ports ≡ u.ports ++ eois 2)
pit_start_counter-ticks_example =
    pit_start_counter-ticks 100 0x101000 2 0 0 stopped (omega arith) (omega arith) (omega arith)
      (omega arith)
