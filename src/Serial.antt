-- ===== src/Serial.antt =====
-- The serial port of kernel/arch/x86_64/serial.c. What it sends is the list of the port writes, the
-- last one last; what the line status register reads, the first time, the second time and so on, is
-- a parameter.
pub mod Text
mod Tests
use tmos.Base.{
  ℕ, zero, suc, ◌+◌, ◌/◌, bit_and, List, [], ◌∷◌, ◌++◌, Bool, ltb, ◌==◌, ◌||◌, not, if◌then◌else◌,
}
use tmos.Base.Outcome.{Outcome, done, no_fuel, ◌>>=◌}
use tmos.Base.Store.{Store}
use tmos.Base.Word.{u8, u16, shr}

-- The number of times that the line status was read, and the port writes.
pub record Port : Type 0 where
  pub reads : ℕ
  pub sent : List (ℕ × ℕ)

abbrev pub com1 : ℕ
com1 = 0x3f8

abbrev pub int_en : ℕ → ℕ
int_en base = base + 1

abbrev pub line_ctrl : ℕ → ℕ
line_ctrl base = base + 3

abbrev pub modem_ctrl : ℕ → ℕ
modem_ctrl base = base + 4

abbrev pub line_ctrl_8bit : ℕ
line_ctrl_8bit = 3

abbrev pub line_ctrl_dlab : ℕ
line_ctrl_dlab = 128

-- `MODEM_CTRL_DTR | MODEM_CTRL_RTS | MODEM_CTRL_OUT2`.
abbrev pub modem_ready : ℕ
modem_ready = 11

abbrev pub line_status_trans_empty : ℕ
line_status_trans_empty = 32

unfoldable pub init_com : (com_base baud_rate : ℕ) → Port → Port
init_com com_base baud_rate s =
    if ltb baud_rate 2 || ltb 115200 baud_rate
    then s
    else (let divisor = u16 (115200 / baud_rate) in
        record {
          reads = s.reads;
          sent =
              s.sent
              ++ (int_en com_base, 0)
                ∷ (line_ctrl com_base, line_ctrl_dlab)
                ∷ (com_base, bit_and divisor 0xff)
                ∷ (int_en com_base, bit_and (shr divisor 8) 0xff)
                ∷ (line_ctrl com_base, line_ctrl_8bit)
                ∷ (modem_ctrl com_base, modem_ready)
                ∷ [];
        })

unfoldable pub serial_init : Port → Port
serial_init s = init_com com1 115200 s

-- What `_is_transmit_empty` makes of the line status.
unfoldable pub is_transmit_empty : ℕ → Bool
is_transmit_empty status = not (bit_and status line_status_trans_empty == 0)

module _ (status : ℕ → ℕ) where
  -- The loop that waits, from the next read of the line status on. It gives the read behind it.
  unfoldable pub wait_empty : ℕ → ℕ → Outcome ℕ
  wait_empty zero next = no_fuel
  wait_empty (suc n) next =
      let rest = wait_empty n (suc next) in
      if is_transmit_empty (status next) then done (suc next) else rest

module _ (fuel : ℕ) (status : ℕ → ℕ) where
  unfoldable pub serial_write_byte : (com_base byte : ℕ) → Port → Outcome Port
  serial_write_byte com_base byte s = do
    next ← wait_empty status fuel s.reads
    done (record { reads = next; sent = s.sent ++ (com_base, byte) ∷ [] })

  -- The loop over the string, a round for each byte and one for the NUL.
  unfoldable pub write_rounds : ℕ → (com_base str : ℕ) → Store → Port → Outcome Port
  write_rounds zero com_base str m s = no_fuel
  write_rounds (suc n) com_base str m s =
      if m str == 0
      then done s
      else (do t ← serial_write_byte com_base (u8 (m str)) s; write_rounds n com_base (suc str) m t)

  unfoldable pub serial_write_str : ℕ → (com_base str : ℕ) → Store → Port → Outcome Port
  serial_write_str rounds com_base str m s =
      if str == 0 then done s else write_rounds rounds com_base str m s
