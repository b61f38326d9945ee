-- ===== src/Pit/Ticks.antt =====
-- The rate that the timer is set to, and the ticks that it counts.
use mathlib.Core.List.{append-nil, append_assoc}
use tmos.Base.{
  ℕ, zero, suc, ◌+◌, ◌/◌, ◌%◌, ◌^◌, ◌<◌, ◌≤◌, ◌≡◌, refl, ap, sym, bit_and, ◌∙◌, List, [], ◌∷◌, ◌++◌,
  arith, lt→ltb, le→leb,
}
use tmos.Base.Bits.{bit_and_mask}
use tmos.Base.Outcome.{done}
use tmos.Idt.{isr_set_gate, irq_timer, attr_int}
use tmos.Idt.Gates.{handler, isr_set_gate-eq}
use tmos.Pic.{Pic, pic_init}
use tmos.Pic.Eoi.{pic_send_eoi-pic_init}
use tmos.Pit.{Timer, pit_start_counter, isr_pit_helper, pit_get_ticks}

-- `n` interrupts of the timer.
abbrev pub interrupts : ℕ → Pic → Timer → Timer
interrupts zero pic t = t
interrupts (suc n) pic t = interrupts n pic (isr_pit_helper pic t)

-- As many commands for the end of an interrupt, to the master.
abbrev pub eois : ℕ → List (ℕ × ℕ)
eois zero = []
eois (suc n) = (0x20, 0x20) ∷ eois n

-- The controller as `idt_init` leaves it.
abbrev pub started : (master_mask slave_mask : ℕ) → Pic
started master_mask slave_mask = (pic_init master_mask slave_mask 0x20 0x28).0

interrupts-eq :
    (n master_mask slave_mask : ℕ) (t : Timer)
    → t.ticks + n < 2 ^ 64
    → (pit_get_ticks (interrupts n (started master_mask slave_mask) t) ≡ t.ticks + n)
      × ((interrupts n (started master_mask slave_mask) t).ports ≡ t.ports ++ eois n)
unfolding isr_pit_helper pit_get_ticks
interrupts-eq zero master_mask slave_mask t small = (omega arith, sym (append-nil t.ports))
interrupts-eq (suc n) master_mask slave_mask t small =
    let eoi = pic_send_eoi-pic_init master_mask slave_mask 0x20 0x28 0x20 (omega arith) in
    let next = isr_pit_helper (started master_mask slave_mask) t in
    let tick : next.ticks ≡ t.ticks + 1 = omega arith in
    let sent : next.ports ≡ t.ports ++ ((0x20, 0x20) ∷ []) = ap (λ e. t.ports ++ e) eoi in
    let (ticks, ports) = interrupts-eq n master_mask slave_mask next (omega (arith, tick)) in
    (
      omega (arith, ticks, tick),
      ports ∙ ap (λ p. p ++ eois n) sent ∙ append_assoc t.ports ((0x20, 0x20) ∷ []) (eois n),
    )

-- `pit_start_counter` with a frequency up to that of the clock returns, with the gate of the timer's
-- interrupt leading to its handler. It writes the command, and then the two bytes of the divisor, cut
-- to 16 bits, to the port of channel 2. After `n` interrupts, with the interrupt controller as
-- `idt_init` leaves it, `pit_get_ticks` is `n`, and an end of interrupt has been sent for each.
pub pit_start_counter-ticks :
    (freq isr_pit n master_mask slave_mask : ℕ) (t : Timer)
    → 0 < freq
    → freq ≤ 1193182
    → isr_pit < 2 ^ 64
    → n < 2 ^ 64
    → (u : Timer) × (pit_start_counter freq isr_pit t ≡ done u)
      × (handler (u.gates 0x20) ≡ isr_pit)
      × (u.ports
          ≡ t.ports
            ++ ((0x43, 0x34)
                ∷ (0x42, 1193182 / freq % 2 ^ 16 % 2 ^ 8)
                ∷ (0x42, 1193182 / freq % 2 ^ 16 / 2 ^ 8)
                ∷ []))
      × (pit_get_ticks (interrupts n (started master_mask slave_mask) u) ≡ n)
      × ((interrupts n (started master_mask slave_mask) u).ports ≡ u.ports ++ eois n)
unfolding pit_start_counter
pit_start_counter-ticks freq isr_pit n master_mask slave_mask t some small word many =
    let u : Timer = record {
      gates = isr_set_gate irq_timer isr_pit 0 8 attr_int t.gates;
      ticks = 0;
      ports =
          t.ports
          ++ ((0x43, 0x34)
              ∷ (0x42, bit_and (1193182 / freq % 2 ^ 16) 0xff)
              ∷ (0x42, bit_and (1193182 / freq % 2 ^ 16 / 2 ^ 8) 0xff)
              ∷ []);
    } in
    let (ticks, ports) = interrupts-eq n master_mask slave_mask u (omega arith) in
    let high : 1193182 / freq % 2 ^ 16 / 2 ^ 8 % 2 ^ 8 ≡ 1193182 / freq % 2 ^ 16 / 2 ^ 8 =
      omega arith in
    (
      u,
      rw (lt→ltb 0 freq some, le→leb freq 1193182 small) refl,
      (isr_set_gate-eq 0x20 isr_pit 0 8 attr_int t.gates word (omega arith)).0,
      rw
          (
            bit_and_mask 8 (1193182 / freq % 2 ^ 16),
            bit_and_mask 8 (1193182 / freq % 2 ^ 16 / 2 ^ 8),
            high,
          )
          refl,
      (let e : 0 + n ≡ n = omega arith in ticks ∙ e),
      ports,
    )
