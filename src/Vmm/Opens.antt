-- ===== src/Vmm/Opens.antt =====
-- Pages that `vmm_map_to` can map, and that the growth of the tables leaves so.
use native.Mathlib.Decide.{ℕ_discrete}
use tmos.Base.{
  ℕ, ◌+◌, ◌*◌, ◌/◌, ◌^◌, ◌<◌, ◌≡◌, ◌≢◌, refl, ap, Bool, true, false, not, ◌&&◌, arith,
  if◌then◌else◌,
}
use tmos.Base.Store.{Store, write}
use tmos.Vmm.{pte_present, pte_huge, pte_unused, pml4_vaddr}
use tmos.Vmm.Entries.{pt_base, pd_base, pdp_base}
use tmos.Vmm.Walk.{pml4e, pdpe, pde, pte, is_table}
use tmos.Vmm.Create.{Grown, kept, made}

abbrev pub is_huge : ℕ → Bool
is_huge e = pte_present e && pte_huge e

-- No huge page stands on the way to page `q`, and where its page table exists its entry is unused.
abbrev pub open_pd : Store → ℕ → Bool
open_pd m q =
    let e = m (pde q) in not (is_huge e) && (if is_table e then pte_unused (m (pte q)) else true)

abbrev pub open_pdp : Store → ℕ → Bool
open_pdp m q = let e = m (pdpe q) in not (is_huge e) && (if is_table e then open_pd m q else true)

abbrev pub is_open : Store → ℕ → Bool
is_open m q = let e = m (pml4e q) in not (is_huge e) && (if is_table e then open_pdp m q else true)

absent_zero : pte_present 0 ≡ false
unfolding pte_present
absent_zero = refl

unused_zero : pte_unused 0 ≡ true
unfolding pte_unused
unused_zero = refl

table_not_huge : (e : ℕ) → is_table e ≡ true → is_huge e ≡ false
table_not_huge e h = ground arith

guard-huge :
    (huge table rest : Bool) → not huge && (if table then rest else true) ≡ true → huge ≡ false
guard-huge true table rest h = cc
guard-huge false table rest h = refl

guard-rest :
    (huge table rest : Bool)
    → not huge && (if table then rest else true) ≡ true
    → table ≡ true
    → rest ≡ true
guard-rest huge table rest h t = ground arith

module _ (m : Store) (q : ℕ) (h : is_open m q ≡ true) where
  pub is_open-pml4 : is_huge (m (pml4e q)) ≡ false
  is_open-pml4 = guard-huge (is_huge (m (pml4e q))) (is_table (m (pml4e q))) (open_pdp m q) h

  module _ (t4 : is_table (m (pml4e q)) ≡ true) where
    below4 : open_pdp m q ≡ true
    below4 = guard-rest (is_huge (m (pml4e q))) (is_table (m (pml4e q))) (open_pdp m q) h t4

    pub is_open-pdp : is_huge (m (pdpe q)) ≡ false
    is_open-pdp = guard-huge (is_huge (m (pdpe q))) (is_table (m (pdpe q))) (open_pd m q) below4

    module _ (t3 : is_table (m (pdpe q)) ≡ true) where
      below3 : open_pd m q ≡ true
      below3 = guard-rest (is_huge (m (pdpe q))) (is_table (m (pdpe q))) (open_pd m q) below4 t3

      pub is_open-pd : is_huge (m (pde q)) ≡ false
      is_open-pd =
          guard-huge (is_huge (m (pde q))) (is_table (m (pde q))) (pte_unused (m (pte q))) below3

      pub is_open-pt : is_table (m (pde q)) ≡ true → pte_unused (m (pte q)) ≡ true
      is_open-pt =
          guard-rest (is_huge (m (pde q))) (is_table (m (pde q))) (pte_unused (m (pte q))) below3

-- Another page's entry in a page table does not matter.
pub is_open-write :
    (m : Store) (v q e : ℕ)
    → v < 2 ^ 36
    → q < 2 ^ 36
    → v / 2 ^ 27 ≢ 510
    → q / 2 ^ 27 ≢ 510
    → q ≢ v
    → is_open (write m (pte v) e) q ≡ is_open m q
unfolding write
is_open-write m v q e lv lq hv hq ne = ground arith

module _ (p q : ℕ) (m m' : Store) (low : p < 2 ^ 36) (low' : q < 2 ^ 36) (outer : p / 2 ^ 27 ≢ 510)
    (elsewhere : q / 2 ^ 27 ≢ 510) (h : is_open m q ≡ true) where
  pub is_open-Grown_pml4 :
      Grown (pml4e p) (pdp_base + 4096 * (p / 2 ^ 27)) m m' → is_open m' q ≡ true
  is_open-Grown_pml4 (kept t e) = rw e h
  is_open-Grown_pml4 (made e t off new) = elim (ℕ_discrete (q / 2 ^ 27) (p / 2 ^ 27)) [
    | yes same ↦
        let cell : pml4e q ≡ pml4e p = ap (λ (t : ℕ). pml4_vaddr + 8 * t) same in
        let here : m' (pml4e q) ≡ e = ground (arith, new (pml4e q)) in
        let empty : m' (pdpe q) ≡ 0 = ground (arith, new (pdpe q)) in
        rw (here, t, table_not_huge e t, empty, absent_zero) refl
    | no other ↦
        let e4 : m' (pml4e q) ≡ m (pml4e q) = ground (arith, new (pml4e q)) in
        let e3 : m' (pdpe q) ≡ m (pdpe q) = ground (arith, new (pdpe q)) in
        let e2 : m' (pde q) ≡ m (pde q) = ground (arith, new (pde q)) in
        let e1 : m' (pte q) ≡ m (pte q) = ground (arith, new (pte q)) in rw (e4, e3, e2, e1) h
  ]

  pub is_open-Grown_pdp : Grown (pdpe p) (pd_base + 4096 * (p / 2 ^ 18)) m m' → is_open m' q ≡ true
  is_open-Grown_pdp (kept t e) = rw e h
  is_open-Grown_pdp (made e t off new) =
      let e4 : m' (pml4e q) ≡ m (pml4e q) = ground (arith, new (pml4e q)) in
      elim (ℕ_discrete (q / 2 ^ 18) (p / 2 ^ 18)) [
        | yes same ↦
            let here : m' (pdpe q) ≡ e = ground (arith, new (pdpe q)) in
            let empty : m' (pde q) ≡ 0 = ground (arith, new (pde q)) in
            let below : open_pdp m' q ≡ true =
              rw (here, t, table_not_huge e t, empty, absent_zero) refl in
            rw (below, e4) (ground arith)
        | no other ↦
            let e3 : m' (pdpe q) ≡ m (pdpe q) = ground (arith, new (pdpe q)) in
            let e2 : m' (pde q) ≡ m (pde q) = ground (arith, new (pde q)) in
            let e1 : m' (pte q) ≡ m (pte q) = ground (arith, new (pte q)) in rw (e4, e3, e2, e1) h
      ]

  pub is_open-Grown_pd : Grown (pde p) (pt_base + 4096 * (p / 2 ^ 9)) m m' → is_open m' q ≡ true
  is_open-Grown_pd (kept t e) = rw e h
  is_open-Grown_pd (made e t off new) =
      let e4 : m' (pml4e q) ≡ m (pml4e q) = ground (arith, new (pml4e q)) in
      let e3 : m' (pdpe q) ≡ m (pdpe q) = ground (arith, new (pdpe q)) in
      elim (ℕ_discrete (q / 2 ^ 9) (p / 2 ^ 9)) [
        | yes same ↦
            let here : m' (pde q) ≡ e = ground (arith, new (pde q)) in
            let empty : m' (pte q) ≡ 0 = ground (arith, new (pte q)) in
            let below : open_pd m' q ≡ true =
              rw (here, t, table_not_huge e t, empty, unused_zero) refl in
            rw (below, e4, e3) (ground arith)
        | no other ↦
            let e2 : m' (pde q) ≡ m (pde q) = ground (arith, new (pde q)) in
            let e1 : m' (pte q) ≡ m (pte q) = ground (arith, new (pte q)) in rw (e4, e3, e2, e1) h
      ]
