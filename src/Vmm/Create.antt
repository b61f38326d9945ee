-- ===== src/Vmm/Create.antt =====
-- `_pt_create`, and that it changes no translation.
use tmos.Base.{
  ℕ, ◌+◌, ◌*◌, ◌/◌, ◌%◌, ◌^◌, ◌<◌, ◌≡◌, ◌≢◌, refl, ap, sym, bit_or, true, false, ◌&&◌, arith, ltb,
  leb, ◌==◌, if◌then◌else◌, Bool-cases, inl, inr,
}
use mathlib.Core.Path.{subst}
use native.Mathlib.Decide.{ℕ_discrete}
use tmos.Base.Outcome.{done, >>=-eq-done, done-injective}
use tmos.Base.Store.{Store, write}
use tmos.DList.{null}
use tmos.System.{paddr_invalid}
use tmos.Vmm.{
  pte_present, pte_huge, pml4_vaddr, entry_addr, child_addr, zero_page, FrameAllocator, Vmm,
  pt_create,
}
use tmos.Vmm.Entries.{pt_base, pd_base, pdp_base, pte_present-eq, pte_huge-eq, bit_or_frame}
use tmos.Vmm.Walk.{page_of, pml4e, pdpe, pde, pte, is_table, walk, walk_pdp, walk_pd, walk_pt}

-- The entry at `p` leads to the table at `child` afterwards: it did before, or it was absent and the
-- table is new and empty.
pub data Grown (p child : ℕ) (m m' : Store) : Type 0 where
  kept : is_table (m p) ≡ true → m' ≡ m → Grown p child m m'
  made :
      (e : ℕ)
      → is_table e ≡ true
      → pte_present (m p) ≡ false
      → ((q : ℕ)
          → m' q ≡ (if leb child q && ltb q (child + 4096) then 0 else if q == p then e else m q))
      → Grown p child m m'

absent_zero : pte_present 0 ≡ false
unfolding pte_present
absent_zero = refl

module _ (p child : ℕ) (m m' : Store) (g : Grown p child m m') where
  pub Grown-table : (leb child p && ltb p (child + 4096)) ≡ false → is_table (m' p) ≡ true
  Grown-table h = elim g [
    | kept t e ↦ rw e t
    | made e t off new ↦ ground (arith, new p, ap is_table (new p))
  ]

-- Outside the new table and its entry nothing changes.
pub Grown-other :
    (p child : ℕ) (m m' : Store)
    → Grown p child m m'
    → (q : ℕ) → q ≢ p
    → (leb child q && ltb q (child + 4096)) ≡ false
    → m' q ≡ m q
Grown-other p child m m' (kept t e) q ne out = ap (λ (f : Store). f q) e
Grown-other p child m m' (made e t off new) q ne out = ground (arith, new q)

module _ (p : ℕ) (low : p < 2 ^ 36) (outer : p / 2 ^ 27 ≢ 510) (m m' : Store) (a : ℕ)
    (elsewhere : page_of a / 2 ^ 27 ≢ 510) where
  abbrev q : ℕ
  q = page_of a

  pub walk-Grown_pml4 : Grown (pml4e p) (pdp_base + 4096 * (p / 2 ^ 27)) m m' → walk m' a ≡ walk m a
  walk-Grown_pml4 (kept t e) = rw e
  walk-Grown_pml4 (made e t off new) = elim (ℕ_discrete (q / 2 ^ 27) (p / 2 ^ 27)) [
    | yes same ↦
        let cell : pml4e q ≡ pml4e p = ap (λ (t : ℕ). pml4_vaddr + 8 * t) same in
        let empty : m' (pdpe q) ≡ 0 = ground (arith, new (pdpe q)) in
        let before : walk m a ≡ paddr_invalid = rw (cell, off) refl in
        let after : walk_pdp m' a ≡ paddr_invalid = rw (empty, absent_zero) refl in
        elim (Bool-cases (is_table (m' (pml4e q)))) [
          | inl t' ↦ rw (t', before) after
          | inr f ↦ rw (f, before) refl
        ]
    | no other ↦
        let e4 : m' (pml4e q) ≡ m (pml4e q) = ground (arith, new (pml4e q)) in
        let e3 : m' (pdpe q) ≡ m (pdpe q) = ground (arith, new (pdpe q)) in
        let e2 : m' (pde q) ≡ m (pde q) = ground (arith, new (pde q)) in
        let e1 : m' (pte q) ≡ m (pte q) = ground (arith, new (pte q)) in rw (e4, e3, e2, e1) refl
  ]

  pub walk-Grown_pdp : Grown (pdpe p) (pd_base + 4096 * (p / 2 ^ 18)) m m' → walk m' a ≡ walk m a
  walk-Grown_pdp (kept t e) = rw e
  walk-Grown_pdp (made e t off new) =
      let e4 : m' (pml4e q) ≡ m (pml4e q) = ground (arith, new (pml4e q)) in
      elim (ℕ_discrete (q / 2 ^ 18) (p / 2 ^ 18)) [
        | yes same ↦
            let cell : pdpe q ≡ pdpe p = ap (λ (t : ℕ). pdp_base + 8 * t) same in
            let empty : m' (pde q) ≡ 0 = ground (arith, new (pde q)) in
            let before : walk_pdp m a ≡ paddr_invalid = rw (cell, off) refl in
            let below : walk_pd m' a ≡ paddr_invalid = rw (empty, absent_zero) refl in
            let huge : (pte_present e ≡ true) × (pte_huge e ≡ false) = ground arith in
            let here : m' (pdpe q) ≡ e = ground (arith, new (pdpe q)) in
            let after : walk_pdp m' a ≡ paddr_invalid = rw (here, huge.0, huge.1) below in
            rw (e4, after, before) refl
        | no other ↦
            let e3 : m' (pdpe q) ≡ m (pdpe q) = ground (arith, new (pdpe q)) in
            let e2 : m' (pde q) ≡ m (pde q) = ground (arith, new (pde q)) in
            let e1 : m' (pte q) ≡ m (pte q) = ground (arith, new (pte q)) in
            rw (e4, e3, e2, e1) refl
      ]

  pub walk-Grown_pd : Grown (pde p) (pt_base + 4096 * (p / 2 ^ 9)) m m' → walk m' a ≡ walk m a
  walk-Grown_pd (kept t e) = rw e
  walk-Grown_pd (made e t off new) =
      let e4 : m' (pml4e q) ≡ m (pml4e q) = ground (arith, new (pml4e q)) in
      let e3 : m' (pdpe q) ≡ m (pdpe q) = ground (arith, new (pdpe q)) in
      elim (ℕ_discrete (q / 2 ^ 9) (p / 2 ^ 9)) [
        | yes same ↦
            let cell : pde q ≡ pde p = ap (λ (t : ℕ). pd_base + 8 * t) same in
            let empty : m' (pte q) ≡ 0 = ground (arith, new (pte q)) in
            let before : walk_pd m a ≡ paddr_invalid = rw (cell, off) refl in
            let below : walk_pt m' a ≡ paddr_invalid = rw (empty, absent_zero) refl in
            let huge : (pte_present e ≡ true) × (pte_huge e ≡ false) = ground arith in
            let here : m' (pde q) ≡ e = ground (arith, new (pde q)) in
            let after : walk_pd m' a ≡ paddr_invalid = rw (here, huge.0, huge.1) below in
            rw (e4, e3, after, before) refl
        | no other ↦
            let e2 : m' (pde q) ≡ m (pde q) = ground (arith, new (pde q)) in
            let e1 : m' (pte q) ≡ m (pte q) = ground (arith, new (pte q)) in
            rw (e4, e3, e2, e1) refl
      ]

module _ (frames : FrameAllocator) where
  open frames use {Pool, alloc, IsReady, alloc_frame}

  -- What a successful `_pt_create` returns and leaves.
  pub record PtCreated (tab idx : ℕ) (s : Vmm frames) (t : Vmm frames) (c : ℕ) : Type 0 where
    pub table : c ≡ child_addr tab idx
    pub grown : Grown (entry_addr tab idx) (child_addr tab idx) s.mem t.mem
    pub brk : t.brk ≡ s.brk

  frame_entry : (a : ℕ) → a % 4096 ≡ 0 → a < 2 ^ 52 → is_table (bit_or a 3) ≡ true
  frame_entry a page small =
      rw (bit_or_frame a 3 page small refl, pte_present-eq (a + 3), pte_huge-eq (a + 3))
        (ground arith)

  -- The state and the table that the allocation of a frame leads to.
  abbrev pub new_table : (tab idx frame : ℕ) (pool : Pool) → Vmm frames → Vmm frames
  new_table tab idx frame pool s =
      let m1 = write s.mem (entry_addr tab idx) 0 in
      let m2 = write m1 (entry_addr tab idx) (bit_or frame 3) in
      record s { mem = zero_page (child_addr tab idx) m2; pool = pool }

  new_table-PtCreated :
      (tab idx frame : ℕ) (pool : Pool) (s : Vmm frames)
      → pte_present (s.mem (entry_addr tab idx)) ≡ false
      → frame % 4096 ≡ 0
      → frame < 2 ^ 52
      → PtCreated tab idx s (new_table tab idx frame pool s) (child_addr tab idx)
  unfolding zero_page write
  new_table-PtCreated tab idx frame pool s off page small = record {
    table = refl;
    grown = made (bit_or frame 3) (frame_entry frame page small) off (λ q. ground arith);
    brk = refl;
  }

  pub pt_create-PtCreated :
      (tab idx : ℕ) (s t : Vmm frames) (c : ℕ)
      → IsReady s.pool
      → pt_create frames tab idx s ≡ done (t, c)
      → c ≢ null
      → IsReady t.pool × PtCreated tab idx s t c
  unfolding pt_create
  pt_create-PtCreated tab idx s t c ready e ne = elim (Bool-cases (pte_present old)) [
    | inl on ↦ elim (Bool-cases (pte_huge old)) [
      | inl huge ↦ absurd (ne (sym (ap (λ x. x.1) (done-injective (rw (on, huge) at e)))))
      | inr small ↦
          subst (λ x. IsReady x.0.pool × PtCreated tab idx s x.0 x.1)
            (done-injective (rw (on, small) at e))
            (
              ready,
              record {
                table = refl;
                grown = kept (let p : is_table old ≡ true = rw (on, small) in p) refl;
                brk = refl;
              },
            )
    ]
    | inr off ↦
        let (r, taken, rest) = >>=-eq-done (alloc s.pool) _ (rw off at e) in
        elim (Bool-cases (r.1 == paddr_invalid)) [
          | inl none ↦ absurd (cc (rw none at rest))
          | inr some ↦
              let (ready', page, small) =
                alloc_frame s.pool r.0 r.1 ready taken (λ z. ground arith) in
              subst (λ x. IsReady x.0.pool × PtCreated tab idx s x.0 x.1)
                (done-injective (rw some at rest))
                (ready', new_table-PtCreated tab idx r.1 r.0 s off page small)
        ]
  ]
    where
      old : ℕ
      old = s.mem (entry_addr tab idx)
