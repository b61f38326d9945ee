-- ===== src/Pit.antt =====
-- The interval timer of kernel/arch/x86_64/dev/pit.c. What it sends is the list of its port writes;
-- `isr_pit` is the address of the interrupt handler.
pub mod Ticks
mod Tests
use tmos.Base.{ℕ, zero, suc, ◌+◌, ◌/◌, bit_and, bit_or, List, [], ◌∷◌, ◌++◌, ltb, leb}
use tmos.Base.Outcome.{Outcome, done, ◌>>=◌, ◌>>◌, assert}
use tmos.Base.Word.{u16, u64, shr}
use tmos.Idt.{IdtEntry, isr_set_gate, irq_timer, attr_int}
use tmos.Pic.{Pic, pic_send_eoi}

abbrev pub pit_channel2 : ℕ
pit_channel2 = 0x42

abbrev pub pit_command : ℕ
pit_command = 0x43

abbrev pub pit_cmd_mode2 : ℕ
pit_cmd_mode2 = 0x04

abbrev pub pit_cmd_rw16 : ℕ
pit_cmd_rw16 = 0x30

abbrev pub pit_cmd_channel0 : ℕ
pit_cmd_channel0 = 0x00

abbrev pub pit_freq : ℕ
pit_freq = 1193182

-- The gates, `_pit_ticks`, and the port writes so far.
pub record Timer : Type 0 where
  pub gates : ℕ → IdtEntry
  pub ticks : ℕ
  pub ports : List (ℕ × ℕ)

unfoldable pub pit_start_counter : (freq isr_pit : ℕ) → Timer → Outcome Timer
pit_start_counter freq isr_pit t = do
  assert (ltb 0 freq)
  assert (leb freq pit_freq)
  let div = u16 (pit_freq / freq)
  done (record {
    gates = isr_set_gate irq_timer isr_pit 0 8 attr_int t.gates;
    ticks = 0;
    ports =
        t.ports
        ++ ((pit_command, bit_or (bit_or pit_cmd_rw16 pit_cmd_mode2) pit_cmd_channel0)
            ∷ (pit_channel2, bit_and div 0xff)
            ∷ (pit_channel2, bit_and (shr div 8) 0xff)
            ∷ []);
  })

-- `_isr_pit_helper`, the body of the interrupt handler.
unfoldable pub isr_pit_helper : Pic → Timer → Timer
isr_pit_helper pic t = record t {
  ticks = u64 (t.ticks + 1);
  ports = t.ports ++ pic_send_eoi irq_timer pic;
}

unfoldable pub pit_get_ticks : Timer → ℕ
pit_get_ticks t = t.ticks
