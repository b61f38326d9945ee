-- ===== src/Idt.antt =====
-- The interrupt gates of kernel/arch/x86_64/cpu/idt.c: `_IDT` is a function from numbers to entries.
pub mod Gates
pub mod Vectors
mod Tests
use tmos.Base.{ℕ, ◌-◌, ◌*◌, List, [], ◌∷◌, bit_and, bit_or, ◌==◌, if◌then◌else◌}
use tmos.Pic.{Pic, pic_init}
use tmos.Base.Word.{shr}

-- `struct idt_entry`, without its reserved fields.
pub record IdtEntry : Type 0 where
  pub base_low : ℕ
  pub seg : ℕ
  pub ist : ℕ
  pub gate_type : ℕ
  pub storage : ℕ
  pub dpl : ℕ
  pub present : ℕ
  pub base_mid : ℕ
  pub base_high : ℕ

abbrev pub idt_zero : IdtEntry
idt_zero = record {
  base_low = 0;
  seg = 0;
  ist = 0;
  gate_type = 0;
  storage = 0;
  dpl = 0;
  present = 0;
  base_mid = 0;
  base_high = 0;
}

unfoldable pub isr_set_gate : (num gate ist seg flags : ℕ) → (ℕ → IdtEntry) → ℕ → IdtEntry
isr_set_gate num gate ist seg flags idt k =
    if k == num
    then record {
      base_low = bit_and gate 0xffff;
      seg = seg;
      ist = bit_and ist 7;
      gate_type = bit_and flags 0xf;
      storage = bit_and (shr flags 4) 1;
      dpl = bit_and (shr flags 5) 3;
      present = bit_and (shr flags 7) 1;
      base_mid = bit_and (shr gate 16) 0xffff;
      base_high = bit_and (shr gate 32) 0xffffffff;
    }
    else idt k

unfoldable pub isr_unset_gate : ℕ → (ℕ → IdtEntry) → ℕ → IdtEntry
isr_unset_gate num idt k = if k == num then idt_zero else idt k

-- IRQ_TIMER and IRQ_RTC.
abbrev pub irq_timer : ℕ
irq_timer = 0x20

abbrev pub irq_rtc : ℕ
irq_rtc = 0x28

-- `IDT_ATTR_PRESENT | IDT_ATTR_INT_32`.
abbrev pub attr_int : ℕ
attr_int = bit_or 0x80 0x0e

-- The vectors with a default handler: no 15.
abbrev pub vectors : List ℕ
vectors = 0 ∷ 1 ∷ 2 ∷ 3 ∷ 4 ∷ 5 ∷ 6 ∷ 7 ∷ 8 ∷ 9 ∷ 10 ∷ 11 ∷ 12 ∷ 13 ∷ 16 ∷ 17 ∷ 18 ∷ 19 ∷ 20 ∷ []

-- `isr` has the addresses of the handlers.
unfoldable pub set_gates : List ℕ → (isr : ℕ → ℕ) → (ℕ → IdtEntry) → ℕ → IdtEntry
set_gates [] isr idt = idt
set_gates (v ∷ vs) isr idt = set_gates vs isr (isr_set_gate v (isr v) 0 8 attr_int idt)

-- What `idt_init` leaves: the gates, the pointer that it loads, and the interrupt controller with its
-- port writes. The table stands at `base`.
pub record Interrupts : Type 0 where
  pub gates : ℕ → IdtEntry
  pub limit : ℕ
  pub base : ℕ
  pub pic : Pic
  pub ports : List (ℕ × ℕ)

unfoldable pub idt_init :
    (isr : ℕ → ℕ) (base master_mask slave_mask : ℕ) → (ℕ → IdtEntry) → Interrupts
idt_init isr base master_mask slave_mask idt =
    let (pic, ports) = pic_init master_mask slave_mask irq_timer irq_rtc in
    record {
      gates = set_gates vectors isr idt;
      limit = 256 * 16 - 1;
      base = base;
      pic = pic;
      ports = ports;
    }
