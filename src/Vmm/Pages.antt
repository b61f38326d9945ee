-- ===== src/Vmm/Pages.antt =====
-- A page that is entered in the tables: what the translation says of every address afterwards.
use mathlib.Core.Path.{subst}
use tmos.Base.{ℕ, ◌+◌, ◌*◌, ◌/◌, ◌^◌, ◌≡◌, ◌≢◌, ◌∙◌, not, arith, ◌==◌}
use tmos.Base.Outcome.{
  Outcome, done, ◌>>=◌, ◌>>◌, assert, >>=-eq-done, assert->>-eq-done, done-injective,
}
use tmos.Base.Store.{Store, write}
use tmos.DList.{null}
use tmos.Vmm.{
  pml4_vaddr, pml4_idx, pdp_idx, pd_idx, child_addr, FrameAllocator, Vmm, pt_create, create_tables,
}
use tmos.Vmm.Entries.{pt_base, pd_base, pdp_base}
use tmos.Vmm.Walk.{
  page_of, pml4e, pdpe, pde, pte, walk, walk_pt, entry_pml4, entry_pdp, entry_pd, table_pdp,
  table_pd, table_pt,
}
use tmos.Vmm.Keeps.{
  IsOuter, HasTables, HasEntry, HasEntry-Grown_pml4, HasEntry-Grown_pdp, HasEntry-Grown_pd,
}
use tmos.Vmm.Create.{
  Grown, Grown-table, Grown-other, walk-Grown_pml4, walk-Grown_pdp, walk-Grown_pd, PtCreated,
  pt_create-PtCreated,
}

pub walk-HasTables : (m : Store) (a : ℕ) → HasTables m (page_of a) → walk m a ≡ walk_pt m a
walk-HasTables m a h = ground (arith, h)

-- An entry of a page table other than that of `a` is no entry on the way to `a`.
pub walk-write :
    (m : Store) (v a e : ℕ)
    → IsOuter v
    → IsOuter a
    → page_of a ≢ page_of v
    → walk (write m (pte (page_of v)) e) a ≡ walk m a
unfolding write
walk-write m v a e hv ha ne = ground arith

module _ (frames : FrameAllocator) where
  open frames use {Pool, alloc, IsReady, alloc_frame}

  -- The tables of the page of `v` exist in `t`, and no translation changed.
  pub record Prepared (v : ℕ) (s t : Vmm frames) : Type 0 where
    pub tables : HasTables t.mem (page_of v)
    pub same : (a : ℕ) → IsOuter a → walk t.mem a ≡ walk s.mem a
    pub keeps : (a e : ℕ) → IsOuter a → HasEntry s.mem (page_of a) e → HasEntry t.mem (page_of a) e
    pub brk : t.brk ≡ s.brk

  module _ (v : ℕ) (outer : IsOuter v) (s a b c : Vmm frames)
      (ga : Grown (pml4e (page_of v)) (pdp_base + 4096 * (page_of v / 2 ^ 27)) s.mem a.mem)
      (gb : Grown (pdpe (page_of v)) (pd_base + 4096 * (page_of v / 2 ^ 18)) a.mem b.mem)
      (gc : Grown (pde (page_of v)) (pt_base + 4096 * (page_of v / 2 ^ 9)) b.mem c.mem) where
    abbrev q : ℕ
    q = page_of v

    pub grown-HasTables : HasTables c.mem q
    grown-HasTables = record {
      at_pml4 =
          rw
            (
              Grown-other (pde q) (pt_base + 4096 * (q / 2 ^ 9)) b.mem c.mem gc (pml4e q)
                  (omega arith) (ground arith),
              Grown-other (pdpe q) (pd_base + 4096 * (q / 2 ^ 18)) a.mem b.mem gb (pml4e q)
                  (omega arith) (ground arith),
            )
            (Grown-table (pml4e q) (pdp_base + 4096 * (q / 2 ^ 27)) s.mem a.mem ga (ground arith));
      at_pdp =
          rw
            (Grown-other (pde q) (pt_base + 4096 * (q / 2 ^ 9)) b.mem c.mem gc (pdpe q)
              (omega arith) (ground arith))
            (Grown-table (pdpe q) (pd_base + 4096 * (q / 2 ^ 18)) a.mem b.mem gb (ground arith));
      at_pd = Grown-table (pde q) (pt_base + 4096 * (q / 2 ^ 9)) b.mem c.mem gc (ground arith);
    }

    grown-same : (x : ℕ) → IsOuter x → walk c.mem x ≡ walk s.mem x
    grown-same x hx =
        walk-Grown_pd q (omega arith) outer b.mem c.mem x hx gc
        ∙ walk-Grown_pdp q (omega arith) outer a.mem b.mem x hx gb
        ∙ walk-Grown_pml4 q (omega arith) outer s.mem a.mem x hx ga

    grown-keeps :
        (x e : ℕ) → IsOuter x → HasEntry s.mem (page_of x) e → HasEntry c.mem (page_of x) e
    grown-keeps x e hx h =
        let h1 =
          HasEntry-Grown_pml4 q (page_of x) e s.mem a.mem (omega arith) (omega arith) outer hx h
            ga in
        let h2 =
          HasEntry-Grown_pdp q (page_of x) e a.mem b.mem (omega arith) (omega arith) outer hx h1
            gb in
        HasEntry-Grown_pd q (page_of x) e b.mem c.mem (omega arith) (omega arith) outer hx h2 gc

  -- One step of the way down.
  created :
      (tab idx : ℕ) (s : Vmm frames) {B : Type 0} (k : Vmm frames × ℕ → Outcome B) {x : B}
      → IsReady s.pool
      → (pt_create frames tab idx s >>= λ r. assert (not (r.1 == null)) >> k r) ≡ done x
      → (t : Vmm frames) × IsReady t.pool
        × PtCreated frames tab idx s t (child_addr tab idx)
        × (k (t, child_addr tab idx) ≡ done x)
  created tab idx s {B} k {x} ready e =
      let (r, made, rest) = >>=-eq-done (pt_create frames tab idx s) _ e in
      let (some, rest') = assert->>-eq-done (not (r.1 == null)) (k r) rest in
      let (ready', c) = pt_create-PtCreated frames tab idx s r.0 r.1 ready made (ground arith) in
      (
        r.0,
        ready',
        subst (λ z. PtCreated frames tab idx s r.0 z) c.table c,
        subst (λ z. k (r.0, z) ≡ done x) c.table rest',
      )

  module _ (v : ℕ) (outer : IsOuter v) (s : Vmm frames) (ready : IsReady s.pool) where
    pub create_tables-Prepared :
        (t : Vmm frames) (pt : ℕ)
        → create_tables frames v s ≡ done (t, pt)
        → IsReady t.pool × Prepared v s t × (pt ≡ pt_base + 4096 * (page_of v / 2 ^ 9))
    unfolding create_tables
    create_tables-Prepared t pt e =
        let (a, ra, ca, e1) = created pml4_vaddr (pml4_idx v) s _ ready e in
        let (b, rb, cb, e2) = created (child_addr pml4_vaddr (pml4_idx v)) (pdp_idx v) a _ ra e1 in
        let (c, rc, cc', e3) =
          created (child_addr (child_addr pml4_vaddr (pml4_idx v)) (pdp_idx v)) (pd_idx v) b _ rb
            e2 in
        subst
          (λ r. IsReady r.0.pool × Prepared v s r.0 × (r.1 ≡ pt_base + 4096 * (page_of v / 2 ^ 9)))
          (done-injective e3) (rc, prepared a b c ca cb cc', tables.2)
      where
        tables :
            (child_addr pml4_vaddr (pml4_idx v) ≡ pdp_base + 4096 * (page_of v / 2 ^ 27))
            × (child_addr (child_addr pml4_vaddr (pml4_idx v)) (pdp_idx v)
                ≡ pd_base + 4096 * (page_of v / 2 ^ 18))
            × (child_addr (child_addr (child_addr pml4_vaddr (pml4_idx v)) (pdp_idx v)) (pd_idx v)
                ≡ pt_base + 4096 * (page_of v / 2 ^ 9))
        tables = (
          table_pdp s.mem v,
          rw (table_pdp s.mem v) (table_pd s.mem v),
          rw (table_pdp s.mem v, table_pd s.mem v) (table_pt s.mem v),
        )

        prepared :
            (a b c : Vmm frames)
            → PtCreated frames pml4_vaddr (pml4_idx v) s a (child_addr pml4_vaddr (pml4_idx v))
            → PtCreated frames
                (child_addr pml4_vaddr (pml4_idx v))
                (pdp_idx v)
                a
                b
                (child_addr (child_addr pml4_vaddr (pml4_idx v)) (pdp_idx v))
            → PtCreated frames
                (child_addr (child_addr pml4_vaddr (pml4_idx v)) (pdp_idx v))
                (pd_idx v)
                b
                c
                (child_addr
                  (child_addr (child_addr pml4_vaddr (pml4_idx v)) (pdp_idx v))
                  (pd_idx v))
            → Prepared v s c
        prepared a b c ca cb cc' =
            let ga = rw (entry_pml4 s.mem v, tables.0) at ca.grown in
            let gb = rw (tables.1, tables.0, entry_pdp s.mem v) at cb.grown in
            let gc = rw (tables.2, tables.1, entry_pd s.mem v) at cc'.grown in
            record {
              tables = grown-HasTables v outer s a b c ga gb gc;
              same = grown-same v outer s a b c ga gb gc;
              keeps = grown-keeps v outer s a b c ga gb gc;
              brk = cc'.brk ∙ cb.brk ∙ ca.brk;
            }
