-- ===== src/Vmm/Entries.antt =====
-- The entries and the addresses of the page tables, as arithmetic.
use tmos.Base.{ℕ, ◌+◌, ◌*◌, ◌/◌, ◌%◌, ◌^◌, ◌<◌, ◌≡◌, refl, ap, ◌∙◌, bit_or, arith, ◌==◌}
use tmos.Base.Word.{u64}
use tmos.Base.Bits.{
  bit_and_mask, bit_and_field, bit_or_fields, bit_or_comm, bit_or_parts, bit_or_ones, bit_or_step,
  bit_or-zero,
}
use tmos.Vmm.{
  pte_present, pte_huge, pte_paddr, pml4_idx, pdp_idx, pd_idx, pt_idx, child_addr, pml4_vaddr,
}

-- Where the tables of each level begin.
abbrev pub pt_base : ℕ
pt_base = 0xffffff0000000000

abbrev pub pd_base : ℕ
pd_base = 0xffffff7f80000000

abbrev pub pdp_base : ℕ
pdp_base = 0xffffff7fbfc00000

pub pte_present-eq : (e : ℕ) → pte_present e ≡ (e % 2 == 1)
unfolding pte_present
pte_present-eq e = ground (arith, bit_and_mask 1 e)

pub pte_huge-eq : (e : ℕ) → pte_huge e ≡ (e / 128 % 2 == 1)
unfolding pte_huge
pte_huge-eq e = ground (arith, bit_and_field 7 1 e)

pub pte_paddr-eq : (e : ℕ) → pte_paddr e ≡ e / 4096 % 2 ^ 40 * 4096
unfolding pte_paddr
pte_paddr-eq e = bit_and_field 12 40 e

pub idx-eq :
    (a : ℕ)
    → (pml4_idx a ≡ a / 2 ^ 39 % 512)
      × (pdp_idx a ≡ a / 2 ^ 30 % 512)
      × (pd_idx a ≡ a / 2 ^ 21 % 512)
      × (pt_idx a ≡ a / 4096 % 512)
unfolding pml4_idx pdp_idx pd_idx pt_idx
idx-eq a = (
  bit_and_mask 9 (a / 2 ^ 39),
  bit_and_mask 9 (a / 2 ^ 30),
  bit_and_mask 9 (a / 2 ^ 21),
  bit_and_mask 9 (a / 2 ^ 12),
)

-- `PT_CHILD` shifts the parent's address, sets the sixteen bits at the top and adds the index.
child_addr-eq :
    (parent idx : ℕ)
    → parent % 4096 ≡ 0
    → idx < 512
    → child_addr parent idx ≡ 0xffff * 2 ^ 48 + parent * 512 % 2 ^ 48 + idx * 4096
unfolding child_addr
child_addr-eq parent idx page h =
    let (a, b) : (u64 (parent * 2 ^ 9) / 2 ^ 48 < 2 ^ 16) × (u64 (idx * 2 ^ 12) ≡ idx * 4096) =
      (omega arith, omega arith) in
    let top : bit_or (u64 (parent * 2 ^ 9)) (0xffff * 2 ^ 48)
        ≡ (0xffff * 2 ^ 27 + parent * 512 % 2 ^ 48 / 2 ^ 21) * 2 ^ 21 =
      bit_or_comm (u64 (parent * 2 ^ 9)) (0xffff * 2 ^ 48)
      ∙ bit_or_parts 48 0xffff (u64 (parent * 2 ^ 9))
      ∙ omega (arith, bit_or_ones 16 (u64 (parent * 2 ^ 9) / 2 ^ 48) a) in
    rw (top, b)
      (bit_or_fields 21 (0xffff * 2 ^ 27 + parent * 512 % 2 ^ 48 / 2 ^ 21) (idx * 4096)
          (omega arith)
        ∙ omega arith)

pub child_addr-pml4 : (i : ℕ) → i < 512 → child_addr pml4_vaddr i ≡ pdp_base + 4096 * i
child_addr-pml4 i h = omega (arith, child_addr-eq pml4_vaddr i refl h)

pub child_addr-pdp :
    (x j : ℕ)
    → x < 512
    → j < 512
    → child_addr (pdp_base + 4096 * x) j ≡ pd_base + 4096 * (512 * x + j)
child_addr-pdp x j hx hj = omega (arith, child_addr-eq (pdp_base + 4096 * x) j (omega arith) hj)

pub child_addr-pd :
    (x k : ℕ)
    → x < 2 ^ 18
    → k < 512
    → child_addr (pd_base + 4096 * x) k ≡ pt_base + 4096 * (512 * x + k)
child_addr-pd x k hx hk = omega (arith, child_addr-eq (pd_base + 4096 * x) k (omega arith) hk)

-- A frame with flags around its address.
pub bit_or_frame :
    (a flags : ℕ)
    → a % 4096 ≡ 0
    → a < 2 ^ 52
    → flags / 4096 % 2 ^ 40 ≡ 0
    → bit_or a flags ≡ a + flags
bit_or_frame a flags page small clear =
    let q = a / 4096 in
    let h = flags / 4096 / 2 ^ 40 in
    let (whole, high) : (a ≡ q * 2 ^ 12) × (flags / 2 ^ 12 ≡ h * 2 ^ 40) =
      (omega arith, omega arith) in
    ap (λ (t : ℕ). bit_or t flags) whole
    ∙ bit_or_parts 12 q flags
    ∙ rw (high, bit_or_comm q (h * 2 ^ 40), bit_or_fields 40 h q (omega arith)) (omega arith)

pub bit_or-one : (x : ℕ) → bit_or x 1 ≡ x / 2 * 2 + 1
bit_or-one x = omega (arith, bit_or_step x 1, bit_or-zero (x / 2))
