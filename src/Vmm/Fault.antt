-- ===== src/Vmm/Fault.antt =====
-- Demand paging: the page fault handler gives a reserved page its frame.
use native.Mathlib.Decide.{ℕ_discrete}
use tmos.Base.{
  ℕ, ◌+◌, ◌*◌, ◌/◌, ◌%◌, ◌^◌, ◌<◌, ◌≡◌, ◌≢◌, refl, ap, ◌∙◌, bit_and, bit_or, true, false, arith,
  ◌==◌, if◌then◌else◌,
}
use tmos.Base.Bits.{bit_not, bit_and_step, bit_and_field, bit_and_mask, div-bit_and}
use tmos.Base.Outcome.{done}
use tmos.Base.Store.{write}
use tmos.Base.Word.{u64}
use tmos.System.{paddr_invalid}
use tmos.Vmm.{
  pte_present, pte_paddr, pte_to_alloc, pte_flags, vaddr_is_valid, FrameAllocator, Vmm, vmm_map,
  page_fault, vmm_translate,
}
use tmos.Vmm.Entries.{pte_present-eq, pte_paddr-eq, bit_or_frame, bit_or-one}
use tmos.Vmm.Walk.{
  page_of, pte, walk, entry_pt, pt_child-pml4, pt_child-pdp, pt_child-pd, vmm_translate-walk,
}
use tmos.Vmm.Keeps.{IsOuter, HasTables, HasEntry-write}
use tmos.Vmm.Pages.{walk-HasTables, walk-write}
use tmos.Vmm.Mapping.{IsPages, within}
use tmos.Vmm.Reserve.{reserved-eq, vmm_map-ready}

-- The flags that the handler leaves.
abbrev pub granted : ℕ → ℕ
granted e = bit_and (bit_or (pte_flags e) 1) (bit_not 64 0x200)

granted-eq : (e : ℕ) → (granted e % 2 ≡ 1) × (granted e / 4096 % 2 ^ 40 ≡ 0)
unfolding pte_flags
granted-eq e =
    let f = bit_and e (bit_not 64 0x000ffffffffff000) in
    let off : f / 2 ^ 12 % 2 ^ 40 ≡ 0 =
      rw (div-bit_and 12 e (bit_not 64 0x000ffffffffff000))
        (omega (arith, bit_and_field 40 12 (e / 2 ^ 12))) in
    let y = bit_or f 1 in
    let odd : y ≡ f / 2 * 2 + 1 = bit_or-one f in
    let high : bit_and y (bit_not 64 0x200) / 2 ^ 12 ≡ y / 2 ^ 12 % 2 ^ 52 =
      div-bit_and 12 y (bit_not 64 0x200) ∙ bit_and_mask 52 (y / 2 ^ 12) in
    (omega (arith, bit_and_step y (bit_not 64 0x200)), omega arith)

granted_entry :
    (frame e : ℕ)
    → frame % 4096 ≡ 0
    → frame < 2 ^ 52
    → (pte_present (bit_or frame (granted e)) ≡ true)
      × (pte_paddr (bit_or frame (granted e)) ≡ frame)
granted_entry frame e page small =
    let (odd, high) = granted-eq e in
    rw
      (
        bit_or_frame frame (granted e) page small high,
        pte_present-eq (frame + granted e),
        pte_paddr-eq (frame + granted e),
      )
      (ground arith, omega arith)

module _ (frames : FrameAllocator) where
  open frames use {Pool, alloc, IsReady, alloc_frame}

  -- The state behind the handler.
  faulted : ℕ → ℕ → Pool → Vmm frames → Vmm frames
  faulted v frame pool s = record s {
    mem = write s.mem (pte (page_of v)) (bit_or frame (granted (s.mem (pte (page_of v)))));
    pool = pool;
  }

  module _ (v : ℕ) (s : Vmm frames) (h : HasTables s.mem (page_of v)) where
    page_fault-faulted :
        (err frame : ℕ) (pool : Pool)
        → (bit_and err 16 ≡ 0) × (bit_and err 8 ≡ 0) × (bit_and err 1 ≡ 0)
        → pte_to_alloc (s.mem (pte (page_of v))) ≡ true
        → alloc s.pool ≡ done (pool, frame)
        → frame ≢ paddr_invalid
        → page_fault frames v err s ≡ done (faulted v frame pool s)
    unfolding page_fault faulted
    page_fault-faulted err frame pool (e16, e8, e1) wanted taken some =
        let given : (frame == paddr_invalid) ≡ false = ground arith in
        rw
          (
            e16,
            e8,
            e1,
            pt_child-pml4 s.mem v,
            h.at_pml4,
            pt_child-pdp s.mem v,
            h.at_pdp,
            pt_child-pd s.mem v,
            h.at_pd,
            entry_pt s.mem v,
            wanted,
            taken,
            given,
          )
          (ground arith)

    page_fault-walk :
        (frame : ℕ) (pool : Pool)
        → IsOuter v
        → frame % 4096 ≡ 0
        → frame < 2 ^ 52
        → (a : ℕ) → IsOuter a
        → walk (faulted v frame pool s).mem a
          ≡ (if page_of a == page_of v then frame + a % 4096 else walk s.mem a)
    unfolding faulted
    page_fault-walk frame pool outer page small a ha = elim (ℕ_discrete (page_of a) (page_of v)) [
      | no other ↦ ground (arith, walk-write s.mem v a (new_entry frame) outer ha other)
      | yes same ↦
          let new = HasEntry-write s.mem (page_of v) (new_entry frame) (omega arith) outer h in
          let tables : HasTables (faulted v frame pool s).mem (page_of a) = rw same new.tables in
          let (on, at) = granted_entry frame (s.mem (pte (page_of v))) page small in
          let entry : (faulted v frame pool s).mem (pte (page_of a)) ≡ new_entry frame =
            rw same new.entry in
          let here : walk (faulted v frame pool s).mem a ≡ u64 (frame + a % 4096) =
            walk-HasTables (faulted v frame pool s).mem a tables ∙ rw (entry, on, at) refl in
          ground (arith, here)
    ]
      where
        new_entry : ℕ → ℕ
        new_entry frame = bit_or frame (granted (s.mem (pte (page_of v))))

  -- Demand paging. After `vmm_map` has returned, every address in the `n` pages is unmapped, and when
  -- it faults (neither a present page, nor an instruction fetch, nor a reserved bit) and the frame
  -- allocator hands out a frame, `vmm_page_fault_handler` returns: it has mapped the page of the address
  -- to that frame, at every offset, and no other translation off the page tables has changed. The pages
  -- lie below 2 ^ 64 - 4096 and off the page tables.
  pub page_fault-vmm_map :
      (n v flags : ℕ) (s t : Vmm frames)
      → IsPages n v
      → IsReady s.pool
      → vmm_map frames v n flags s ≡ done t
      → (a err frame : ℕ) (pool : Pool) → IsOuter a
      → vaddr_is_valid a ≡ true
      → within n v a ≡ true
      → (bit_and err 16 ≡ 0) × (bit_and err 8 ≡ 0) × (bit_and err 1 ≡ 0)
      → alloc t.pool ≡ done (pool, frame)
      → frame ≢ paddr_invalid
      → (b : ℕ) → IsOuter b
      → vaddr_is_valid b ≡ true
      → (vmm_translate t.mem a ≡ done paddr_invalid)
        × (u : Vmm frames) × (page_fault frames a err t ≡ done u)
        × (u.pool ≡ pool)
        × (vmm_translate u.mem b
            ≡ (if page_of b == page_of a then done (frame + b % 4096) else vmm_translate t.mem b))
  unfolding faulted
  page_fault-vmm_map n v flags s t r ready e a err frame pool ha valid inside code taken some b hb
        ok =
      let (ready', res) = vmm_map-ready frames n v flags s t r ready e in
      let h = res.inside a ha inside in
      let (absent, wanted) = reserved-eq flags in
      let (_, page, small) = alloc_frame t.pool pool frame ready' taken some in
      let before : walk t.mem a ≡ paddr_invalid =
        walk-HasTables t.mem a h.tables ∙ rw (h.entry, absent) refl in
      (
        vmm_translate-walk t.mem a valid ∙ ap done before,
        faulted a frame pool t,
        page_fault-faulted a t h.tables err frame pool code (rw h.entry wanted) taken some,
        refl,
        rw (vmm_translate-walk (faulted a frame pool t).mem b ok, vmm_translate-walk t.mem b ok)
            (ground (arith, page_fault-walk a t h.tables frame pool ha page small b hb)),
      )
