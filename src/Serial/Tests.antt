-- ===== src/Serial/Tests.antt =====
-- The port as `serial_init` sets it up, and two bytes on a port that is ready every third time.
use tmos.Base.{ℕ, ◌%◌, ◌≡◌, refl, [], ◌∷◌, ◌==◌, if◌then◌else◌}
use tmos.Base.Outcome.{done}
use tmos.Base.Store.{Store, write}
use tmos.Serial.{
  Port, init_com, serial_init, is_transmit_empty, wait_empty, serial_write_byte, write_rounds,
  serial_write_str,
}

abbrev fresh : Port
fresh = record { reads = 0; sent = [] }

init-sent :
    (serial_init fresh).sent
    ≡ (0x3f9, 0) ∷ (0x3fb, 128) ∷ (0x3f8, 1) ∷ (0x3f9, 0) ∷ (0x3fb, 3) ∷ (0x3fc, 11) ∷ []
unfolding serial_init init_com
init-sent = refl

init_com-refused : init_com 0x3f8 200000 fresh ≡ fresh
unfolding init_com
init_com-refused = refl

abbrev slow : ℕ → ℕ
slow next = if next % 3 == 2 then 0x60 else 0

abbrev hi : Store
hi = write (write (write (λ _. 7) 0x5000 72) 0x5001 105) 0x5002 0

hi-sent :
    serial_write_str 3 slow 10 0x3f8 0x5000 hi fresh
    ≡ done (record { reads = 6; sent = (0x3f8, 72) ∷ (0x3f8, 105) ∷ [] })
unfolding serial_write_str write_rounds serial_write_byte wait_empty is_transmit_empty write
hi-sent = refl
