-- ===== src/Vmm/Steps.antt =====
-- The way down to a page table, when the frame allocator has a frame for every table that it may need.
use tmos.Base.{
  ℕ, suc, ◌+◌, ◌*◌, ◌/◌, ◌^◌, ◌≡◌, ◌≢◌, refl, ap, ◌∙◌, true, false, arith, ◌==◌, Bool-cases, inl,
  inr,
}
use tmos.Base.Outcome.{done}
use tmos.DList.{null}
use tmos.System.{paddr_invalid}
use tmos.Vmm.{
  pte_present, pte_huge, pml4_vaddr, pml4_idx, pdp_idx, pd_idx, entry_addr, child_addr,
  FrameAllocator, Vmm, pt_create, create_tables,
}
use tmos.Vmm.Entries.{pt_base, pd_base, pdp_base}
use tmos.Vmm.Walk.{
  page_of, pml4e, pdpe, pde, is_table, entry_pml4, entry_pdp, entry_pd, table_pdp, table_pd,
  table_pt,
}
use tmos.Vmm.Create.{Grown, Grown-table, Grown-other, new_table, pt_create-PtCreated}
use tmos.Vmm.Keeps.{IsOuter, HasTables}
use tmos.Vmm.Pages.{grown-HasTables}
use tmos.Vmm.Opens.{
  is_huge, is_open, is_open-pml4, is_open-pdp, is_open-pd, is_open-Grown_pml4, is_open-Grown_pdp,
  is_open-Grown_pd,
}

-- A count of the frames that the allocator can still hand out.
pub record Supply (frames : FrameAllocator) : Type 1 where
  pub Has : ℕ → frames.Pool → Type 0
  pub take :
      (k : ℕ) (s : frames.Pool)
      → Has (suc k) s
      → (t : frames.Pool) × (a : ℕ) × (frames.alloc s ≡ done (t, a)) × (a ≢ paddr_invalid) × Has k t
  pub less : (k : ℕ) (s : frames.Pool) → Has (suc k) s → Has k s

module _ (frames : FrameAllocator) (supply : Supply frames) where
  open frames use {Pool, alloc, IsReady}
  open supply use {Has, take, less}

  -- `_pt_create` at an entry that is not that of a huge page.
  pt_create-returns :
      (k tab idx : ℕ) (s : Vmm frames)
      → Has (suc k) s.pool
      → is_huge (s.mem (entry_addr tab idx)) ≡ false
      → (t : Vmm frames) × (pt_create frames tab idx s ≡ done (t, child_addr tab idx))
        × Has k t.pool
  unfolding pt_create
  pt_create-returns k tab idx s has small =
      elim (Bool-cases (pte_present (s.mem (entry_addr tab idx)))) [
        | inl on ↦
            let flat : pte_huge (s.mem (entry_addr tab idx)) ≡ false = ground arith in
            (s, rw (on, flat) refl, less k s.pool has)
        | inr off ↦
            let (pool, a, taken, some, rest) = take k s.pool has in
            let given : (a == paddr_invalid) ≡ false = ground arith in
            (new_table frames tab idx a pool s, rw (off, taken, given) refl, rest)
      ]

  -- One step of the way down, where the entry and the table have the addresses `p` and `child`.
  record Step (k tab idx p child : ℕ) (s t : Vmm frames) : Type 0 where
    pub returns : pt_create frames tab idx s ≡ done (t, child)
    pub ready : IsReady t.pool
    pub grown : Grown p child s.mem t.mem
    pub has : Has k t.pool

  pt_create-Step :
      (k tab idx p child : ℕ) (s : Vmm frames)
      → IsReady s.pool
      → Has (suc k) s.pool
      → entry_addr tab idx ≡ p
      → child_addr tab idx ≡ child
      → is_huge (s.mem p) ≡ false
      → child ≢ null
      → (t : Vmm frames) × Step k tab idx p child s t
  pt_create-Step k tab idx p child s ready has here to small some =
      let (t, returns, rest) = pt_create-returns k tab idx s has (rw here small) in
      let (ready', made) =
        pt_create-PtCreated frames tab idx s t (child_addr tab idx) ready returns (rw to some) in
      (
        t,
        record {
          returns = (rw to at returns);
          ready = ready';
          grown = rw (here, to) at made.grown;
          has = rest;
        },
      )

  module _ (v : ℕ) (outer : IsOuter v) where
    abbrev q : ℕ
    q = page_of v

    abbrev pdp_t : ℕ
    pdp_t = pdp_base + 4096 * (q / 2 ^ 27)

    abbrev pd_t : ℕ
    pd_t = pd_base + 4096 * (q / 2 ^ 18)

    abbrev pt_t : ℕ
    pt_t = pt_base + 4096 * (q / 2 ^ 9)

    -- What the creation leaves at each level.
    module _ (s a : Vmm frames) (ga : Grown (pml4e q) pdp_t s.mem a.mem) where
      after_pml4 : is_open s.mem q ≡ true → is_huge (a.mem (pdpe q)) ≡ false
      after_pml4 h =
          is_open-pdp a.mem q
            (is_open-Grown_pml4 q q s.mem a.mem (omega arith) (omega arith) outer outer h ga)
            (Grown-table (pml4e q) pdp_t s.mem a.mem ga (ground arith))

      module _ (b : Vmm frames) (gb : Grown (pdpe q) pd_t a.mem b.mem) where
        after_pdp : is_open s.mem q ≡ true → is_huge (b.mem (pde q)) ≡ false
        after_pdp h =
            let h1 =
              is_open-Grown_pml4 q q s.mem a.mem (omega arith) (omega arith) outer outer h ga in
            is_open-pd b.mem q
              (is_open-Grown_pdp q q a.mem b.mem (omega arith) (omega arith) outer outer h1 gb)
              (ap is_table
                  (Grown-other (pdpe q) pd_t a.mem b.mem gb (pml4e q) (omega arith) (ground arith))
                ∙ Grown-table (pml4e q) pdp_t s.mem a.mem ga (ground arith))
              (Grown-table (pdpe q) pd_t a.mem b.mem gb (ground arith))

        module _ (c : Vmm frames) (gc : Grown (pde q) pt_t b.mem c.mem) where
          open_after :
              (x : ℕ)
              → IsOuter x
              → is_open s.mem (page_of x) ≡ true
              → is_open c.mem (page_of x) ≡ true
          open_after x hx h =
              let h1 =
                is_open-Grown_pml4 q (page_of x) s.mem a.mem (omega arith) (omega arith) outer hx h
                  ga in
              let h2 =
                is_open-Grown_pdp q (page_of x) a.mem b.mem (omega arith) (omega arith) outer hx h1
                  gb in
              is_open-Grown_pd q (page_of x) b.mem c.mem (omega arith) (omega arith) outer hx h2 gc

    -- The three tables, created or found.
    pub record Descent (k : ℕ) (s c : Vmm frames) : Type 0 where
      pub returns : create_tables frames v s ≡ done (c, pt_t)
      pub ready : IsReady c.pool
      pub has : Has k c.pool
      pub tables : HasTables c.mem q
      pub opens :
          (a : ℕ) → IsOuter a → is_open s.mem (page_of a) ≡ true → is_open c.mem (page_of a) ≡ true

    Step-Descent :
        (k : ℕ) (s a b c : Vmm frames)
        → Step (suc (suc k)) pml4_vaddr (pml4_idx v) (pml4e q) pdp_t s a
        → Step (suc k) pdp_t (pdp_idx v) (pdpe q) pd_t a b
        → Step k pd_t (pd_idx v) (pde q) pt_t b c
        → Descent k s c
    unfolding create_tables
    Step-Descent k s a b c x y z =
        let (n1, n2, n3) : ((pdp_t == null) ≡ false)
            × ((pd_t == null) ≡ false)
            × ((pt_t == null) ≡ false) =
          (ground arith, ground arith, ground arith) in
        record {
          returns = rw (x.returns, n1, y.returns, n2, z.returns, n3) refl;
          ready = z.ready;
          has = z.has;
          tables = grown-HasTables frames v outer s a b c x.grown y.grown z.grown;
          opens = open_after s a x.grown b y.grown c z.grown;
        }

    pub create_tables-Descent :
        (k : ℕ) (s : Vmm frames)
        → IsReady s.pool
        → Has (suc (suc (suc k))) s.pool
        → is_open s.mem q ≡ true
        → (c : Vmm frames) × Descent k s c
    create_tables-Descent k s ready has h =
        let (a, x) =
          pt_create-Step (suc (suc k)) pml4_vaddr (pml4_idx v) (pml4e q) pdp_t s ready has
            (entry_pml4 s.mem v) (table_pdp s.mem v) (is_open-pml4 s.mem q h) (omega arith) in
        let (b, y) =
          pt_create-Step (suc k) pdp_t (pdp_idx v) (pdpe q) pd_t a x.ready x.has (entry_pdp s.mem v)
            (table_pd s.mem v) (after_pml4 s a x.grown h) (omega arith) in
        let (c, z) =
          pt_create-Step k pd_t (pd_idx v) (pde q) pt_t b y.ready y.has (entry_pd s.mem v)
            (table_pt s.mem v) (after_pdp s a x.grown b y.grown h) (omega arith) in
        (c, Step-Descent k s a b c x y z)
