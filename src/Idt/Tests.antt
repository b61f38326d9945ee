-- ===== src/Idt/Tests.antt =====
-- The gate of the timer interrupt.
use tmos.Base.{ℕ, true, false, ◌⊎◌, ◌+◌, ◌*◌, ◌≡◌, arith}
use tmos.Idt.{IdtEntry, idt_zero, idt_init}
use tmos.Idt.Gates.{handler, attributes}
use tmos.Idt.Vectors.{is_default, idt_init-gates}

abbrev handlers : ℕ → ℕ
handlers v = 0x101000 + 16 * v

abbrev blank : ℕ → IdtEntry
blank k = idt_zero

idt_init-gates_example :
    ((is_default 13 ≡ true)
      × (handler ((idt_init handlers 0x103000 0 0 blank).gates 13) ≡ 0x1010d0)
      × (((idt_init handlers 0x103000 0 0 blank).gates 13).seg ≡ 8)
      × (((idt_init handlers 0x103000 0 0 blank).gates 13).ist ≡ 0)
      × (attributes ((idt_init handlers 0x103000 0 0 blank).gates 13) ≡ 0x8e))
    ⊎ ((is_default 13 ≡ false) × ((idt_init handlers 0x103000 0 0 blank).gates 13 ≡ idt_zero))
idt_init-gates_example = idt_init-gates handlers 0x103000 0 0 blank 13 (omega arith)
