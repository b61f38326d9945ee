-- ===== src/Vmm/Mapping.antt =====
-- `vmm_map_to` against the translation: the pages of the range lead to the frames, and every other
-- address is translated as before.
use mathlib.Core.Path.{subst}
use tmos.Base.{
  ℕ, zero, suc, ◌+◌, ◌-◌, ◌*◌, ◌/◌, ◌%◌, ◌^◌, ◌≤◌, ◌<◌, ◌≡◌, ◌≢◌, ◌⊎◌, refl, ap, sym, ◌∙◌, bit_and,
  bit_or, Bool, true, false, not, ◌&&◌, arith, ltb, leb, ◌==◌, if◌then◌else◌,
}
use native.Mathlib.Decide.{ℕ_discrete}
use tmos.Base.Bits.{bit_not}
use tmos.Base.Outcome.{done, >>=-eq-done, assert->>-eq-done, done-injective}
use tmos.Base.Store.{Store, write, write_self}
use tmos.Base.Word.{u64}
use tmos.System.{paddr_invalid, paddr_algn_mask}
use tmos.Vmm.{
  pte_present, pte_paddr, pte_unused, entry_addr, pt_idx, vaddr_is_valid, FrameAllocator, Vmm,
  create_tables, set_page, map_pages_to, vmm_map_to, vmm_translate,
}
use tmos.Vmm.Entries.{pte_present-eq, pte_paddr-eq, bit_or_frame, bit_or-one}
use tmos.Vmm.Walk.{page_of, pte, walk, entry_pt, vmm_translate-walk}
use tmos.Vmm.Keeps.{IsOuter, HasTables, HasEntry, HasEntry-write}
use tmos.Vmm.Pages.{walk-HasTables, walk-write, Prepared, create_tables-Prepared}

unused_zero : (e : ℕ) → pte_unused e ≡ true → e ≡ 0
unfolding pte_unused
unused_zero e h = ground arith

absent_zero : (e : ℕ) → e ≡ 0 → pte_present e ≡ false
absent_zero e z = rw (pte_present-eq e, z) refl

-- `n` pages from that of `v` on, in the address space and off the tables.
pub record IsPages (n v : ℕ) : Type 0 where
  pub page : v % 4096 ≡ 0
  pub ends : v + 4096 * n < 2 ^ 64
  pub wraps : page_of v + n < 2 ^ 36
  pub outer : (page_of v + n ≤ 510 * 2 ^ 27) ⊎ (511 * 2 ^ 27 ≤ page_of v)

pub IsPages-rest : (n v : ℕ) → IsPages (suc n) v → IsPages n (v + 4096)
IsPages-rest n v r = record {
  page = omega (arith, r);
  ends = omega (arith, r);
  wraps = omega (arith, r);
  outer = ground (arith, r);
}

-- An address in the `n` pages from that of `v` on.
abbrev pub within : ℕ → ℕ → ℕ → Bool
within n v a = leb (page_of v) (page_of a) && ltb (page_of a) (page_of v + n)

-- As many frames, and flags that leave the address in an entry alone.
pub record IsRange (n v p flags : ℕ) : Type 0 where
  pub pages : IsPages n v
  pub frame : p % 4096 ≡ 0
  pub memory : p + 4096 * n ≤ 2 ^ 52
  pub clear : flags / 4096 % 2 ^ 40 ≡ 0

module _ (frames : FrameAllocator) where
  open frames use {IsReady}

  -- The page of `v` has the given entry in `t`, had none in `s`, and no other page changed.
  pub record PageSet (v entry : ℕ) (s t : Vmm frames) : Type 0 where
    pub unmapped : walk s.mem v ≡ paddr_invalid
    pub tables : HasTables t.mem (page_of v)
    pub entry_at : t.mem (pte (page_of v)) ≡ entry
    pub other : (a : ℕ) → IsOuter a → page_of a ≢ page_of v → walk t.mem a ≡ walk s.mem a
    pub keeps :
        (a e : ℕ)
        → IsOuter a
        → page_of a ≢ page_of v
        → HasEntry s.mem (page_of a) e
        → HasEntry t.mem (page_of a) e
    pub brk : t.brk ≡ s.brk

  module _ (v : ℕ) (outer : IsOuter v) (s : Vmm frames) (entry : ℕ) where
    written : (u : Vmm frames) → Vmm frames
    written u = record u { mem = write u.mem (pte (page_of v)) entry }

    written-PageSet :
        (u : Vmm frames)
        → Prepared frames v s u
        → u.mem (pte (page_of v)) ≡ 0
        → PageSet v entry s (written u)
    unfolding written write
    written-PageSet u p free = record {
      unmapped =
          sym (p.same v outer)
          ∙ walk-HasTables u.mem v p.tables
          ∙ rw (absent_zero (u.mem (pte (page_of v))) free) refl;
      tables = (HasEntry-write u.mem (page_of v) entry (omega arith) outer p.tables).tables;
      entry_at = write_self u.mem (pte (page_of v)) entry;
      other = λ a ha ne. walk-write u.mem v a entry outer ha ne ∙ p.same a ha;
      keeps = λ a e ha ne h.
          let k = p.keeps a e ha h in
          record {
            tables = record {
              at_pml4 = ground (arith, k.tables.at_pml4);
              at_pdp = ground (arith, k.tables.at_pdp);
              at_pd = ground (arith, k.tables.at_pd);
            };
            entry = ground (arith, k.entry);
          };
      brk = p.brk;
    }

    pub set_page-PageSet :
        (t : Vmm frames)
        → IsReady s.pool
        → set_page frames v entry s ≡ done t
        → IsReady t.pool × PageSet v entry s t
    unfolding set_page written
    set_page-PageSet t ready e =
        let (r, made, rest) = >>=-eq-done (create_tables frames v s) _ e in
        let (ready', p, table) = create_tables-Prepared frames v outer s ready r.0 r.1 made in
        let here : entry_addr r.1 (pt_idx v) ≡ pte (page_of v) =
          ap (λ z. entry_addr z (pt_idx v)) table ∙ entry_pt s.mem v in
        let (free, last) =
          assert->>-eq-done (pte_unused (r.0.mem (entry_addr r.1 (pt_idx v)))) _ rest in
        let free' : r.0.mem (pte (page_of v)) ≡ 0 =
          ap r.0.mem (sym here) ∙ unused_zero (r.0.mem (entry_addr r.1 (pt_idx v))) free in
        subst (λ x. IsReady x.pool × PageSet v entry s x)
          (ap (λ z. record r.0 { mem = write r.0.mem z entry }) (sym here) ∙ done-injective last)
          (ready', written-PageSet r.0 p free')

  -- The frame and the flags that an entry of `vmm_map_to` holds.
  present_entry :
      (p flags : ℕ)
      → p % 4096 ≡ 0
      → p < 2 ^ 52
      → flags / 4096 % 2 ^ 40 ≡ 0
      → (pte_present (bit_or p (bit_or flags 1)) ≡ true)
        × (pte_paddr (bit_or p (bit_or flags 1)) ≡ p)
  present_entry p flags page small clear =
      let e : bit_or p (bit_or flags 1) ≡ p + (flags / 2 * 2 + 1) =
        rw (bit_or-one flags) (bit_or_frame p (flags / 2 * 2 + 1) page small (omega arith)) in
      rw (e, pte_present-eq (p + (flags / 2 * 2 + 1)), pte_paddr-eq (p + (flags / 2 * 2 + 1)))
        (ground arith, omega arith)

  -- What a translation says when `n` pages from that of `v` on lead to the frames from `p` on.
  abbrev pub mapped : (n v p : ℕ) → Store → ℕ → ℕ
  mapped n v p m a =
      if within n v a then p + 4096 * (page_of a - page_of v) + a % 4096 else walk m a

  pub IsRange-rest :
      (n v p flags : ℕ) → IsRange (suc n) v p flags → IsRange n (v + 4096) (p + 4096) flags
  IsRange-rest n v p flags r = record {
    pages = IsPages-rest n v r.pages;
    frame = omega (arith, r);
    memory = omega (arith, r);
    clear = r.clear;
  }

  -- The first page of a range, and then the others.
  mapped-first :
      (n v p flags : ℕ) (s u : Vmm frames) (a : ℕ)
      → IsRange (suc n) v p flags
      → PageSet v (bit_or p (bit_or flags 1)) s u
      → IsOuter a
      → mapped n (v + 4096) (p + 4096) u.mem a ≡ mapped (suc n) v p s.mem a
  mapped-first n v p flags s u a r ps ha = elim (ℕ_discrete (page_of a) (page_of v)) [
    | yes same ↦
        let (on, at) = present_entry p flags r.frame (omega (arith, r)) r.clear in
        let tables : HasTables u.mem (page_of a) = rw same ps.tables in
        let entry : u.mem (pte (page_of a)) ≡ bit_or p (bit_or flags 1) =
          ap (λ q. u.mem (pte q)) same ∙ ps.entry_at in
        let here : walk u.mem a ≡ u64 (p + a % 4096) =
          walk-HasTables u.mem a tables ∙ rw (entry, on, at) refl in
        let whole : u64 (p + a % 4096) ≡ p + a % 4096 = omega (arith, r) in
        ground (arith, here, whole, r.pages)
    | no other ↦ ground (arith, ps.other a ha other, r.pages)
  ]

  map_pages_to-mapped :
      (n v p flags : ℕ) (s t : Vmm frames)
      → IsRange n v p flags
      → IsReady s.pool
      → map_pages_to frames n v p flags s ≡ done t
      → IsReady t.pool × ((a : ℕ) → IsOuter a → walk t.mem a ≡ mapped n v p s.mem a)
  unfolding map_pages_to
  map_pages_to-mapped zero v p flags s t r ready e =
      subst (λ x. IsReady x.pool × ((a : ℕ) → IsOuter a → walk x.mem a ≡ mapped zero v p s.mem a))
        (done-injective e) (ready, λ a ha. ground arith)
  map_pages_to-mapped (suc n) v p flags s t r ready e =
      let entry = bit_or p (bit_or flags 1) in
      let (u, set, rest) = >>=-eq-done (set_page frames v entry s) _ e in
      let (ready', ps) = set_page-PageSet v (omega (arith, r.pages)) s entry u ready set in
      let (next_v, next_p) : (u64 (v + 4096) ≡ v + 4096) × (u64 (p + 4096) ≡ p + 4096) =
        (omega (arith, r.pages), omega (arith, r, r.pages)) in
      let (ready'', rest') =
        map_pages_to-mapped n (v + 4096) (p + 4096) flags u t (IsRange-rest n v p flags r) ready'
          (rw (next_v, next_p) at rest) in
      (ready'', λ a ha. rest' a ha ∙ mapped-first n v p flags s u a r ps ha)

  -- The allocator is left ready, and what the walk through the tables finds.
  pub vmm_map_to-mapped :
      (n v p flags : ℕ) (s t : Vmm frames)
      → IsRange n v p flags
      → IsReady s.pool
      → vmm_map_to frames v p n flags s ≡ done t
      → IsReady t.pool × ((a : ℕ) → IsOuter a → walk t.mem a ≡ mapped n v p s.mem a)
  unfolding vmm_map_to
  vmm_map_to-mapped n v p flags s t r ready e =
      let (_, e1) = assert->>-eq-done (not (v == 0)) _ e in
      let (_, e2) = assert->>-eq-done (vaddr_is_valid v) _ e1 in
      let (_, e3) = assert->>-eq-done (bit_and v 4095 == 0) _ e2 in
      let (_, e4) = assert->>-eq-done (bit_and p (bit_not 64 paddr_algn_mask) == 0) _ e3 in
      map_pages_to-mapped n v p flags s t r ready e4

  -- When `vmm_map_to` of a range returns, `vmm_translate` takes each page of the range to its frame, at
  -- every offset, and every valid address outside the range, off the page tables themselves, where it
  -- took it before. The range lies below 2 ^ 64 - 4096 and off the page tables, the frames below 2 ^ 52.
  pub vmm_translate-vmm_map_to :
      (n v p flags : ℕ) (s t : Vmm frames)
      → IsRange n v p flags
      → IsReady s.pool
      → vmm_map_to frames v p n flags s ≡ done t
      → (a : ℕ) → IsOuter a
      → vaddr_is_valid a ≡ true
      → vmm_translate t.mem a ≡ (
          if within n v a
          then done (p + 4096 * (page_of a - page_of v) + a % 4096)
          else vmm_translate s.mem a)
  vmm_translate-vmm_map_to n v p flags s t r ready e a ha valid =
      rw (vmm_translate-walk t.mem a valid, vmm_translate-walk s.mem a valid)
        (ground (arith, (vmm_map_to-mapped n v p flags s t r ready e).1 a ha))
