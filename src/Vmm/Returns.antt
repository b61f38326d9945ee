-- ===== src/Vmm/Returns.antt =====
-- `vmm_map_to` returns, when there are frames for the tables that it needs.
use tmos.Base.{
  ℕ, zero, suc, ◌+◌, ◌-◌, ◌*◌, ◌%◌, ◌≡◌, ◌≢◌, refl, ◌∙◌, bit_and, bit_or, true, not, arith, ◌==◌,
  if◌then◌else◌,
}
use tmos.Base.Bits.{bit_not, bit_and_mask, bit_and_field, bit_and_cleared}
use tmos.Base.Outcome.{done}
use tmos.Base.Store.{write}
use tmos.Base.Word.{u64}
use tmos.System.{paddr_algn_mask}
use tmos.Vmm.{
  vaddr_is_valid, FrameAllocator, Vmm, set_page, map_pages_to, vmm_map_to, vmm_translate,
}
use tmos.Vmm.Walk.{page_of, pte, entry_pt}
use tmos.Vmm.Keeps.{IsOuter}
use tmos.Vmm.Opens.{is_open, is_open-pt, is_open-write}
use tmos.Vmm.Mapping.{within, IsRange, IsRange-rest, vmm_translate-vmm_map_to}
use tmos.Vmm.Steps.{Supply, create_tables-Descent}

module _ (frames : FrameAllocator) (supply : Supply frames) where
  open frames use {Pool, alloc, IsReady}
  open supply use {Has, take, less}

  -- What a round of `vmm_map_to` leaves to the rounds behind it.
  record Round (v k : ℕ) (s u : Vmm frames) : Type 0 where
    pub ready : IsReady u.pool
    pub has : Has k u.pool
    pub opens :
        (a : ℕ)
        → IsOuter a
        → page_of a ≢ page_of v
        → is_open s.mem (page_of a) ≡ true
        → is_open u.mem (page_of a) ≡ true

  module _ (v : ℕ) (outer : IsOuter v) where
    abbrev q : ℕ
    q = page_of v

    set_page-returns :
        (k entry : ℕ) (s : Vmm frames)
        → IsReady s.pool
        → Has (suc (suc (suc k))) s.pool
        → is_open s.mem q ≡ true
        → (u : Vmm frames) × (set_page frames v entry s ≡ done u) × Round v k s u
    unfolding set_page
    set_page-returns k entry s ready has h =
        let (c, x) = create_tables-Descent frames supply v outer k s ready has h in
        let free =
          is_open-pt c.mem q (x.opens v outer h) x.tables.at_pml4 x.tables.at_pdp x.tables.at_pd in
        (
          record c { mem = write c.mem (pte q) entry },
          rw (x.returns, entry_pt s.mem v, free) refl,
          record {
            ready = x.ready;
            has = x.has;
            opens = λ a ha ne ho.
                is_open-write c.mem q (page_of a) entry (omega arith) (omega arith) outer ha ne
                ∙ x.opens a ha ho;
          },
        )

  abbrev needed : ℕ → ℕ
  needed zero = 0
  needed (suc n) = suc (suc (suc (needed n)))

  needed-eq : (n : ℕ) → 3 * n ≡ needed n
  needed-eq zero = refl
  needed-eq (suc n) = omega (arith, needed-eq n)

  map_pages_to-returns :
      (n v p flags : ℕ) (s : Vmm frames)
      → IsRange n v p flags
      → IsReady s.pool
      → Has (needed n) s.pool
      → ((a : ℕ) → IsOuter a → within n v a ≡ true → is_open s.mem (page_of a) ≡ true)
      → (t : Vmm frames) × (map_pages_to frames n v p flags s ≡ done t)
  unfolding map_pages_to
  map_pages_to-returns zero v p flags s r ready has opens = (s, refl)
  map_pages_to-returns (suc n) v p flags s r ready has opens =
      let outer : IsOuter v = omega (arith, r.pages) in
      let (u, set, round) =
        set_page-returns v outer (needed n) (bit_or p (bit_or flags 1)) s ready has
          (opens v outer (ground (arith, r.pages))) in
      let (next_v, next_p) : (u64 (v + 4096) ≡ v + 4096) × (u64 (p + 4096) ≡ p + 4096) =
        (omega (arith, r.pages), omega (arith, r, r.pages)) in
      let (t, rest) =
        map_pages_to-returns n (v + 4096) (p + 4096) flags u (IsRange-rest frames n v p flags r)
          round.ready round.has
          (λ a ha w.
            round.opens a ha (ground (arith, r.pages)) (opens a ha (ground (arith, r.pages)))) in
      (t, rw (set, next_v, next_p) rest)

  -- `vmm_map_to` of a range returns, when no huge page stands on the way to its pages, none of them is in
  -- use, and the frame allocator can still hand out three frames for each page; then `vmm_translate`
  -- takes each page of the range to its frame, at every offset, and every other valid address off the
  -- page tables where it took it before. The range starts at a valid address other than 0 and lies below
  -- 2 ^ 64 - 4096 and off the page tables, the frames below 2 ^ 52.
  pub vmm_map_to-returns :
      (n v p flags : ℕ) (s : Vmm frames)
      → IsRange n v p flags
      → v ≢ 0
      → vaddr_is_valid v ≡ true
      → IsReady s.pool
      → Has (3 * n) s.pool
      → ((a : ℕ) → IsOuter a → within n v a ≡ true → is_open s.mem (page_of a) ≡ true)
      → (a : ℕ) → IsOuter a
      → vaddr_is_valid a ≡ true
      → (t : Vmm frames) × (vmm_map_to frames v p n flags s ≡ done t)
        × (vmm_translate t.mem a ≡ (
            if within n v a
            then done (p + 4096 * (page_of a - page_of v) + a % 4096)
            else vmm_translate s.mem a))
  unfolding vmm_map_to
  vmm_map_to-returns n v p flags s r some ok ready has opens a ha valid =
      let (t, e) = map_pages_to-returns n v p flags s r ready (rw (needed-eq n) at has) opens in
      let kept : bit_and p paddr_algn_mask ≡ p = omega (arith, bit_and_field 12 44 p, r) in
      let page_frame : bit_and p (bit_not 64 paddr_algn_mask) ≡ 0 =
        bit_and_cleared 64 p paddr_algn_mask (omega (arith, r)) (omega arith) kept in
      let (nonzero, page, frame) : (not (v == 0) ≡ true)
          × ((bit_and v 0xfff == 0) ≡ true)
          × ((bit_and p (bit_not 64 paddr_algn_mask) == 0) ≡ true) =
        (ground arith, ground (arith, bit_and_mask 12 v, r.pages), ground (arith, page_frame)) in
      let returns : vmm_map_to frames v p n flags s ≡ done t = rw (nonzero, ok, page, frame) e in
      (t, returns, vmm_translate-vmm_map_to frames n v p flags s t r ready returns a ha valid)
