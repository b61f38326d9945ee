-- ===== src/Idt/Vectors.antt =====
-- The gates that `idt_init` leaves.
use tmos.Base.{
  ℕ, ◌^◌, ◌<◌, ◌≡◌, refl, List, [], ◌∷◌, Bool, true, false, ◌⊎◌, ◌||◌, arith, ◌==◌, leb, not, ◌&&◌,
  if◌then◌else◌, Bool-cases, inl, inr,
}
use tmos.Idt.{IdtEntry, isr_set_gate, attr_int, vectors, set_gates, idt_init}
use tmos.Idt.Gates.{handler, attributes, isr_set_gate-eq, isr_set_gate-segment}

abbrev member : ℕ → List ℕ → Bool
member k [] = false
member k (v ∷ vs) = (k == v) || member k vs

-- The vectors from 0 to 20 but 14 and 15.
abbrev pub is_default : ℕ → Bool
is_default k = leb k 20 && (not (k == 14) && not (k == 15))

set_gates-eq :
    (vs : List ℕ) (isr : ℕ → ℕ) (idt zero_idt : ℕ → IdtEntry) (k : ℕ)
    → set_gates vs isr idt k
      ≡ (if member k vs then isr_set_gate k (isr k) 0 8 attr_int zero_idt k else idt k)
unfolding set_gates isr_set_gate
set_gates-eq [] isr idt zero_idt k = refl
set_gates-eq (v ∷ vs) isr idt zero_idt k =
    ground (arith, set_gates-eq vs isr (isr_set_gate v (isr v) 0 8 attr_int idt) zero_idt k)

member-vectors : (k : ℕ) → member k vectors ≡ is_default k
member-vectors k = ground arith

-- After `idt_init` the gates 0 to 20, but 14, of the page fault, and 15, lead to their default handlers
-- in the code segment, the selector 8, without a stack of their own, as interrupt gates that are
-- present, and every other gate is as it was.
pub idt_init-gates :
    (isr : ℕ → ℕ) (base master_mask slave_mask : ℕ) (idt : ℕ → IdtEntry) (k : ℕ)
    → isr k < 2 ^ 64
    → (let gate = (idt_init isr base master_mask slave_mask idt).gates k in
        ((is_default k ≡ true)
          × (handler gate ≡ isr k)
          × (gate.seg ≡ 8)
          × (gate.ist ≡ 0)
          × (attributes gate ≡ 0x8e))
        ⊎ ((is_default k ≡ false) × (gate ≡ idt k)))
unfolding idt_init
idt_init-gates isr base master_mask slave_mask idt k word =
    let (to, at, _) = isr_set_gate-eq k (isr k) 0 8 attr_int idt word (omega arith) in
    let (segment, stack) = isr_set_gate-segment k (isr k) 0 8 attr_int idt in
    rw (set_gates-eq vectors isr idt idt k, member-vectors k)
      (elim (Bool-cases (is_default k)) [
        | inl set ↦ rw set (inl (refl, to, segment, stack, at))
        | inr unset ↦ rw unset (inr (refl, refl))
      ])
