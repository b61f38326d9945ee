-- ===== src/Vmm/Walk.antt =====
-- `vmm_translate` by page numbers: the entries of the page of an address stand at fixed places.
use tmos.Base.{
  ℕ, ◌+◌, ◌*◌, ◌/◌, ◌%◌, ◌^◌, ◌≡◌, refl, Bool, true, not, ◌&&◌, arith, if◌then◌else◌, Bool-cases,
  inl, inr,
}
use tmos.Base.Bits.{bit_and_mask}
use tmos.Base.Outcome.{done}
use tmos.Base.Store.{Store}
use tmos.Base.Word.{u64}
use tmos.DList.{null}
use tmos.System.{paddr_invalid}
use tmos.Vmm.{
  pte_present, pte_huge, pte_paddr, pml4_idx, pdp_idx, pd_idx, pt_idx, pml4_vaddr, vaddr_is_valid,
  entry_addr, pt_child, child_addr, vmm_translate,
}
use tmos.Vmm.Entries.{
  pt_base, pd_base, pdp_base, idx-eq, child_addr-pml4, child_addr-pdp, child_addr-pd,
}

-- The number of the page of an address.
abbrev pub page_of : ℕ → ℕ
page_of a = a / 4096 % 2 ^ 36

-- The addresses of the four entries on the way to page `q`.
abbrev pub pml4e : ℕ → ℕ
pml4e q = pml4_vaddr + 8 * (q / 2 ^ 27)

abbrev pub pdpe : ℕ → ℕ
pdpe q = pdp_base + 8 * (q / 2 ^ 18)

abbrev pub pde : ℕ → ℕ
pde q = pd_base + 8 * (q / 2 ^ 9)

abbrev pub pte : ℕ → ℕ
pte q = pt_base + 8 * q

-- An entry that leads to a table.
abbrev pub is_table : ℕ → Bool
is_table e = pte_present e && not (pte_huge e)

-- The translation by the last three entries.
abbrev pub walk_pt : Store → ℕ → ℕ
walk_pt m a =
    let e = m (pte (page_of a)) in
    if pte_present e then u64 (pte_paddr e + a % 4096) else paddr_invalid

abbrev pub walk_pd : Store → ℕ → ℕ
walk_pd m a =
    let e = m (pde (page_of a)) in
    if not (pte_present e)
    then paddr_invalid
    else if pte_huge e
    then u64 (pte_paddr e + a % 2 ^ 21)
    else walk_pt m a

abbrev pub walk_pdp : Store → ℕ → ℕ
walk_pdp m a =
    let e = m (pdpe (page_of a)) in
    if not (pte_present e)
    then paddr_invalid
    else if pte_huge e
    then u64 (pte_paddr e + a % 2 ^ 30)
    else walk_pd m a

abbrev pub walk : Store → ℕ → ℕ
walk m a = if is_table (m (pml4e (page_of a))) then walk_pdp m a else paddr_invalid

module _ (m : Store) (a : ℕ) where
  pub entry_pml4 : entry_addr pml4_vaddr (pml4_idx a) ≡ pml4e (page_of a)
  entry_pml4 = omega (arith, idx-eq a)

  pub entry_pdp : entry_addr (pdp_base + 4096 * (page_of a / 2 ^ 27)) (pdp_idx a) ≡ pdpe (page_of a)
  entry_pdp = omega (arith, idx-eq a)

  pub entry_pd : entry_addr (pd_base + 4096 * (page_of a / 2 ^ 18)) (pd_idx a) ≡ pde (page_of a)
  entry_pd = omega (arith, idx-eq a)

  pub entry_pt : entry_addr (pt_base + 4096 * (page_of a / 2 ^ 9)) (pt_idx a) ≡ pte (page_of a)
  entry_pt = omega (arith, idx-eq a)

  -- The tables on the way.
  pub table_pdp : child_addr pml4_vaddr (pml4_idx a) ≡ pdp_base + 4096 * (page_of a / 2 ^ 27)
  table_pdp = omega (arith, idx-eq a, child_addr-pml4 (pml4_idx a))

  pub table_pd :
      child_addr (pdp_base + 4096 * (page_of a / 2 ^ 27)) (pdp_idx a)
      ≡ pd_base + 4096 * (page_of a / 2 ^ 18)
  table_pd = omega (arith, idx-eq a, child_addr-pdp (page_of a / 2 ^ 27) (pdp_idx a))

  pub table_pt :
      child_addr (pd_base + 4096 * (page_of a / 2 ^ 18)) (pd_idx a)
      ≡ pt_base + 4096 * (page_of a / 2 ^ 9)
  table_pt = omega (arith, idx-eq a, child_addr-pd (page_of a / 2 ^ 18) (pd_idx a))

  pub pt_child-pml4 :
      pt_child m pml4_vaddr (pml4_idx a)
      ≡ (if is_table (m (pml4e (page_of a))) then pdp_base + 4096 * (page_of a / 2 ^ 27) else null)
  unfolding pt_child
  pt_child-pml4 = rw (entry_pml4, table_pdp)

  pub pt_child-pdp :
      pt_child m (pdp_base + 4096 * (page_of a / 2 ^ 27)) (pdp_idx a)
      ≡ (if is_table (m (pdpe (page_of a))) then pd_base + 4096 * (page_of a / 2 ^ 18) else null)
  unfolding pt_child
  pt_child-pdp = rw (entry_pdp, table_pd)

  pub pt_child-pd :
      pt_child m (pd_base + 4096 * (page_of a / 2 ^ 18)) (pd_idx a)
      ≡ (if is_table (m (pde (page_of a))) then pt_base + 4096 * (page_of a / 2 ^ 9) else null)
  unfolding pt_child
  pt_child-pd = rw (entry_pd, table_pt)

  -- `vmm_translate` of a valid address is the walk.
  pub vmm_translate-walk : vaddr_is_valid a ≡ true → vmm_translate m a ≡ done (walk m a)
  unfolding vmm_translate
  vmm_translate-walk valid = elim (Bool-cases (is_table (m (pml4e (page_of a))))) [
    | inr none ↦ rw (valid, pt_child-pml4, none) refl
    | inl t4 ↦
        rw
          (
            valid,
            pt_child-pml4,
            t4,
            entry_pdp,
            pt_child-pdp,
            bit_and_mask 12 a,
            bit_and_mask 21 a,
            bit_and_mask 30 a,
          )
          (elim (Bool-cases (is_table (m (pdpe (page_of a))))) [
            | inr none ↦ rw none (ground arith)
            | inl t3 ↦
                rw (t3, entry_pd, pt_child-pd)
                  (elim (Bool-cases (is_table (m (pde (page_of a))))) [
                    | inr none ↦ rw none (ground arith)
                    | inl t2 ↦ rw (t2, entry_pt) (ground arith)
                  ])
          ])
  ]
