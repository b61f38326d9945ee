-- ===== src/Vmm/Unmap.antt =====
-- `vmm_unmap` and `vmm_free` against the translation.
use native.Mathlib.Decide.{ℕ_discrete}
use tmos.Base.{
  ℕ, zero, suc, ◌+◌, ◌*◌, ◌/◌, ◌^◌, ◌≡◌, refl, ap, sym, ◌∙◌, bit_and, Bool, true, false, not, arith,
  ◌==◌, if◌then◌else◌,
}
use tmos.Base.Outcome.{done, ◌>>=◌, ◌>>◌, assert, >>=-eq-done, assert->>-eq-done, done-injective}
use tmos.Base.Store.{write, write_self}
use tmos.Base.Word.{u64}
use tmos.DList.{null}
use tmos.System.{paddr_invalid}
use tmos.Vmm.{
  pte_present, pte_paddr, pte_unused, pml4_vaddr, pml4_idx, pt_child, vaddr_is_valid,
  FrameAllocator, Vmm, drop_empty, free_page, free_pages, do_free_pages, vmm_translate,
}
use tmos.Vmm.Entries.{pt_base, pd_base, pdp_base, pte_present-eq}
use tmos.Vmm.Walk.{
  page_of, pml4e, pdpe, pde, pte, is_table, walk, entry_pml4, entry_pdp, entry_pd, entry_pt,
  pt_child-pml4, pt_child-pdp, pt_child-pd, vmm_translate-walk,
}
use tmos.Vmm.Keeps.{IsOuter, HasTables, HasEntry-write}
use tmos.Vmm.Pages.{walk-HasTables, walk-write}
use tmos.Vmm.Mapping.{within, IsPages, IsPages-rest}
use tmos.Vmm.Drop.{drop_empty-walk}

module _ (frames : FrameAllocator) where
  open frames use {Pool, free}

  -- A child that is not NULL is that of an entry that leads to a table.
  linked :
      {c : ℕ} (child : ℕ) {b : Bool}
      → c ≡ (if b then child else null)
      → not (c == null) ≡ true
      → b ≡ true
  linked {c} child {b} e h = ground arith

  -- The end of a round, with the tables found.
  module _ (v : ℕ) (outer : IsOuter v) (s : Vmm frames) (h : HasTables s.mem (page_of v)) where
    cleared : Pool → Vmm frames
    cleared pool = record s { mem = write s.mem (pte (page_of v)) 0; pool = pool }

    cleared-HasTables : (pool : Pool) → HasTables (cleared pool).mem (page_of v)
    unfolding cleared
    cleared-HasTables pool = (HasEntry-write s.mem (page_of v) 0 (omega arith) outer h).tables

    cleared-walk :
        (pool : Pool) (a : ℕ)
        → IsOuter a
        → walk (cleared pool).mem a
          ≡ (if page_of a == page_of v then paddr_invalid else walk s.mem a)
    unfolding cleared
    cleared-walk pool a ha = elim (ℕ_discrete (page_of a) (page_of v)) [
      | yes same ↦
          let tables : HasTables (cleared pool).mem (page_of a) =
            rw same (cleared-HasTables pool) in
          let empty : (cleared pool).mem (pte (page_of a)) ≡ 0 =
            ap (λ q. (cleared pool).mem (pte q)) same ∙ write_self s.mem (pte (page_of v)) 0 in
          let absent : pte_present ((cleared pool).mem (pte (page_of a))) ≡ false =
            rw (empty, pte_present-eq 0) refl in
          let gone : walk (cleared pool).mem a ≡ paddr_invalid =
            walk-HasTables (cleared pool).mem a tables ∙ rw absent refl in
          ground (arith, gone)
      | no other ↦ ground (arith, walk-write s.mem v a 0 outer ha other)
    ]

    -- The rest of a round, behind the assertions on the tables.
    cleared_page-walk :
        (do_free : Bool) (t : Vmm frames)
        → (assert (not (pte_unused (s.mem (pte (page_of v)))))
            >> ((if do_free then free (pte_paddr (s.mem (pte (page_of v)))) s.pool else done s.pool)
                >>= λ pool.
                    drop_empty frames
                      (pml4e (page_of v))
                      (pdp_base + 4096 * (page_of v / 2 ^ 27))
                      (pdpe (page_of v))
                      (pd_base + 4096 * (page_of v / 2 ^ 18))
                      (pde (page_of v))
                      (pt_base + 4096 * (page_of v / 2 ^ 9))
                      (cleared pool)))
          ≡ done t
        → (a : ℕ) → IsOuter a
        → walk t.mem a ≡ (if page_of a == page_of v then paddr_invalid else walk s.mem a)
    cleared_page-walk do_free t e a ha =
        let (_, e1) = assert->>-eq-done (not (pte_unused (s.mem (pte (page_of v))))) _ e in
        let (pool, freed, rest) =
          >>=-eq-done
            (if do_free then free (pte_paddr (s.mem (pte (page_of v)))) s.pool else done s.pool) _
            e1 in
        drop_empty-walk frames v a outer ha (cleared pool) t (cleared-HasTables pool) rest
        ∙ cleared-walk pool a ha

  free_page-walk :
      (v : ℕ) (do_free : Bool) (s t : Vmm frames)
      → IsOuter v
      → free_page frames v do_free s ≡ done t
      → (a : ℕ) → IsOuter a
      → walk t.mem a ≡ (if page_of a == page_of v then paddr_invalid else walk s.mem a)
  unfolding free_page cleared
  free_page-walk v do_free s t outer e a ha =
      let (c4, e4) = assert->>-eq-done (not (pt_child s.mem pml4_vaddr (pml4_idx v) == null)) _ e in
      let t4 : is_table (s.mem (pml4e (page_of v))) ≡ true = linked _ (pt_child-pml4 s.mem v) c4 in
      let (c3, e3) = assert->>-eq-done _ _ (rw (pt_child-pml4 s.mem v, t4) at e4) in
      let t3 : is_table (s.mem (pdpe (page_of v))) ≡ true = linked _ (pt_child-pdp s.mem v) c3 in
      let (c2, e2) = assert->>-eq-done _ _ (rw (pt_child-pdp s.mem v, t3) at e3) in
      let t2 : is_table (s.mem (pde (page_of v))) ≡ true = linked _ (pt_child-pd s.mem v) c2 in
      cleared_page-walk v outer s (record { at_pml4 = t4; at_pdp = t3; at_pd = t2 }) do_free t
        (rw
          (
            pt_child-pd s.mem v,
            t2,
            entry_pml4 s.mem v,
            entry_pdp s.mem v,
            entry_pd s.mem v,
            entry_pt s.mem v,
          )
          at e2)
        a ha

  free_pages-walk :
      (n v : ℕ) (do_free : Bool) (s t : Vmm frames)
      → IsPages n v
      → free_pages frames n v do_free s ≡ done t
      → (a : ℕ) → IsOuter a
      → walk t.mem a ≡ (if within n v a then paddr_invalid else walk s.mem a)
  unfolding free_pages
  free_pages-walk zero v do_free s t r e a ha =
      ap (λ x. walk x.mem a) (sym (done-injective e)) ∙ ground arith
  free_pages-walk (suc n) v do_free s t r e a ha =
      let (u, first, rest) = >>=-eq-done (free_page frames v do_free s) _ e in
      let next : u64 (v + 4096) ≡ v + 4096 = omega (arith, r) in
      let one = free_page-walk v do_free s u (omega (arith, r)) first a ha in
      let others =
        free_pages-walk n (v + 4096) do_free u t (IsPages-rest n v r) (rw next at rest) a ha in
      others ∙ ground (arith, one, r)

  -- When `vmm_free` or `vmm_unmap` of `n` pages (`_do_free` with either flag) returns, `vmm_translate`
  -- gives PADDR_INVALID for each address in these pages, and for every other valid address off the page
  -- tables what it gave before, also where page tables were freed because they became empty. The pages
  -- lie below 2 ^ 64 - 4096 and off the page tables.
  pub vmm_translate-do_free_pages :
      (n v : ℕ) (do_free : Bool) (s t : Vmm frames)
      → IsPages n v
      → do_free_pages frames v n do_free s ≡ done t
      → (a : ℕ) → IsOuter a
      → vaddr_is_valid a ≡ true
      → vmm_translate t.mem a ≡ (if within n v a then done paddr_invalid else vmm_translate s.mem a)
  unfolding do_free_pages
  vmm_translate-do_free_pages n v do_free s t r e a ha valid =
      let (_, e1) = assert->>-eq-done (not (v == 0)) _ e in
      let (_, e2) = assert->>-eq-done (vaddr_is_valid v) _ e1 in
      let (_, e3) = assert->>-eq-done (bit_and v 4095 == 0) _ e2 in
      rw (vmm_translate-walk t.mem a valid, vmm_translate-walk s.mem a valid)
        (ground (arith, free_pages-walk n v do_free s t r e3 a ha))
