-- ===== src/Vmm/Keeps.antt =====
-- Pages that have their tables, and that the growth of the tables keeps them.
use mathlib.Core.Path.{subst}
use native.Mathlib.Decide.{ℕ_discrete}
use tmos.Base.{ℕ, ◌+◌, ◌*◌, ◌/◌, ◌^◌, ◌<◌, ◌≡◌, ◌≢◌, ap, sym, ◌∙◌, true, arith}
use tmos.Base.Store.{Store, write, write_self}
use tmos.Vmm.{pml4_vaddr}
use tmos.Vmm.Entries.{pt_base, pd_base, pdp_base}
use tmos.Vmm.Walk.{page_of, pml4e, pdpe, pde, pte, is_table}
use tmos.Vmm.Create.{Grown, kept, made}

-- An address outside the tables: those stand below entry 510 of the PML4.
abbrev pub IsOuter : ℕ → Type 0
IsOuter a = page_of a / 2 ^ 27 ≢ 510

-- The three entries on the way to page `q` lead to tables.
pub record HasTables (m : Store) (q : ℕ) : Type 0 where
  pub at_pml4 : is_table (m (pml4e q)) ≡ true
  pub at_pdp : is_table (m (pdpe q)) ≡ true
  pub at_pd : is_table (m (pde q)) ≡ true

-- A page with its tables, and the entry `e` in the last one.
pub record HasEntry (m : Store) (q e : ℕ) : Type 0 where
  pub tables : HasTables m q
  pub entry : m (pte q) ≡ e

-- A new entry for a page with its tables.
pub HasEntry-write :
    (m : Store) (q e : ℕ)
    → q < 2 ^ 36
    → q / 2 ^ 27 ≢ 510
    → HasTables m q
    → HasEntry (write m (pte q) e) q e
unfolding write
HasEntry-write m q e low outer h = record {
  tables = record {
    at_pml4 = ground (arith, h.at_pml4);
    at_pdp = ground (arith, h.at_pdp);
    at_pd = ground (arith, h.at_pd);
  };
  entry = write_self m (pte q) e;
}

-- Growth at one level keeps the pages that have their tables.
module _ (p q e : ℕ) (m m' : Store) (low : p < 2 ^ 36) (low' : q < 2 ^ 36)
    (outer : p / 2 ^ 27 ≢ 510) (elsewhere : q / 2 ^ 27 ≢ 510) (h : HasEntry m q e) where
  unchanged :
      m' (pml4e q) ≡ m (pml4e q)
      → m' (pdpe q) ≡ m (pdpe q)
      → m' (pde q) ≡ m (pde q)
      → m' (pte q) ≡ m (pte q)
      → HasEntry m' q e
  unchanged e4 e3 e2 e1 = record {
    tables = record {
      at_pml4 = ap is_table e4 ∙ h.tables.at_pml4;
      at_pdp = ap is_table e3 ∙ h.tables.at_pdp;
      at_pd = ap is_table e2 ∙ h.tables.at_pd;
    };
    entry = e1 ∙ h.entry;
  }

  pub HasEntry-Grown_pml4 : Grown (pml4e p) (pdp_base + 4096 * (p / 2 ^ 27)) m m' → HasEntry m' q e
  HasEntry-Grown_pml4 (kept t same) = subst (λ x. HasEntry x q e) (sym same) h
  HasEntry-Grown_pml4 (made entry t off new) = elim (ℕ_discrete (q / 2 ^ 27) (p / 2 ^ 27)) [
    | yes same ↦
        let cell : pml4e q ≡ pml4e p = ap (λ (t : ℕ). pml4_vaddr + 8 * t) same in
        let on : is_table (m (pml4e p)) ≡ true =
          ap (λ x. is_table (m x)) (sym cell) ∙ h.tables.at_pml4 in
        absurd (ground (arith, on))
    | no other ↦
        let e4 : m' (pml4e q) ≡ m (pml4e q) = ground (arith, new (pml4e q)) in
        let e3 : m' (pdpe q) ≡ m (pdpe q) = ground (arith, new (pdpe q)) in
        let e2 : m' (pde q) ≡ m (pde q) = ground (arith, new (pde q)) in
        let e1 : m' (pte q) ≡ m (pte q) = ground (arith, new (pte q)) in unchanged e4 e3 e2 e1
  ]

  pub HasEntry-Grown_pdp : Grown (pdpe p) (pd_base + 4096 * (p / 2 ^ 18)) m m' → HasEntry m' q e
  HasEntry-Grown_pdp (kept t same) = subst (λ x. HasEntry x q e) (sym same) h
  HasEntry-Grown_pdp (made entry t off new) = elim (ℕ_discrete (q / 2 ^ 18) (p / 2 ^ 18)) [
    | yes same ↦
        let cell : pdpe q ≡ pdpe p = ap (λ (t : ℕ). pdp_base + 8 * t) same in
        let on : is_table (m (pdpe p)) ≡ true =
          ap (λ x. is_table (m x)) (sym cell) ∙ h.tables.at_pdp in
        absurd (ground (arith, on))
    | no other ↦
        let e4 : m' (pml4e q) ≡ m (pml4e q) = ground (arith, new (pml4e q)) in
        let e3 : m' (pdpe q) ≡ m (pdpe q) = ground (arith, new (pdpe q)) in
        let e2 : m' (pde q) ≡ m (pde q) = ground (arith, new (pde q)) in
        let e1 : m' (pte q) ≡ m (pte q) = ground (arith, new (pte q)) in unchanged e4 e3 e2 e1
  ]

  pub HasEntry-Grown_pd : Grown (pde p) (pt_base + 4096 * (p / 2 ^ 9)) m m' → HasEntry m' q e
  HasEntry-Grown_pd (kept t same) = subst (λ x. HasEntry x q e) (sym same) h
  HasEntry-Grown_pd (made entry t off new) = elim (ℕ_discrete (q / 2 ^ 9) (p / 2 ^ 9)) [
    | yes same ↦
        let cell : pde q ≡ pde p = ap (λ (t : ℕ). pd_base + 8 * t) same in
        let on : is_table (m (pde p)) ≡ true =
          ap (λ x. is_table (m x)) (sym cell) ∙ h.tables.at_pd in
        absurd (ground (arith, on))
    | no other ↦
        let e4 : m' (pml4e q) ≡ m (pml4e q) = ground (arith, new (pml4e q)) in
        let e3 : m' (pdpe q) ≡ m (pdpe q) = ground (arith, new (pdpe q)) in
        let e2 : m' (pde q) ≡ m (pde q) = ground (arith, new (pde q)) in
        let e1 : m' (pte q) ≡ m (pte q) = ground (arith, new (pte q)) in unchanged e4 e3 e2 e1
  ]
