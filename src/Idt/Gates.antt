-- ===== src/Idt/Gates.antt =====
-- What the processor reads from a gate.
use tmos.Base.{==_refl, refl, ◌%◌, ℕ, ◌+◌, ◌*◌, ◌/◌, ◌^◌, ◌<◌, ◌≡◌, ◌≢◌, arith}
use tmos.Base.Bits.{bit_and_mask}
use tmos.Idt.{IdtEntry, isr_set_gate}

-- The address of the handler and the attribute byte, from the fields of an entry.
abbrev pub handler : IdtEntry → ℕ
handler e = e.base_low + e.base_mid * 2 ^ 16 + e.base_high * 2 ^ 32

abbrev pub attributes : IdtEntry → ℕ
attributes e = e.gate_type + e.storage * 16 + e.dpl * 32 + e.present * 128

-- The gate that `isr_set_gate` stores holds the address of its handler and its attribute byte, and no
-- other gate changes.
pub isr_set_gate-eq :
    (num gate ist seg flags : ℕ) (idt : ℕ → IdtEntry)
    → gate < 2 ^ 64
    → flags < 256
    → (handler (isr_set_gate num gate ist seg flags idt num) ≡ gate)
      × (attributes (isr_set_gate num gate ist seg flags idt num) ≡ flags)
      × ((k : ℕ) → k ≢ num → isr_set_gate num gate ist seg flags idt k ≡ idt k)
unfolding isr_set_gate
isr_set_gate-eq num gate ist seg flags idt hg hf = (
  ground (
    arith,
    bit_and_mask 16 gate,
    bit_and_mask 16 (gate / 2 ^ 16),
    bit_and_mask 32 (gate / 2 ^ 32),
  ),
  ground (
    arith,
    bit_and_mask 4 flags,
    bit_and_mask 1 (flags / 2 ^ 4),
    bit_and_mask 2 (flags / 2 ^ 5),
    bit_and_mask 1 (flags / 2 ^ 7),
  ),
  λ k ne. ground arith,
)

-- It holds its segment, and the number of its stack modulo 8.
pub isr_set_gate-segment :
    (num gate ist seg flags : ℕ) (idt : ℕ → IdtEntry)
    → ((isr_set_gate num gate ist seg flags idt num).seg ≡ seg)
      × ((isr_set_gate num gate ist seg flags idt num).ist ≡ ist % 8)
unfolding isr_set_gate
isr_set_gate-segment num gate ist seg flags idt =
    (rw (==_refl num) refl, rw (==_refl num) (bit_and_mask 3 ist))
