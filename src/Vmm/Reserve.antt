-- ===== src/Vmm/Reserve.antt =====
-- The pages that `vmm_map` reserves: they have an entry that is not present and wants a frame.
use mathlib.Core.Path.{subst}
use native.Mathlib.Decide.{ℕ_discrete}
use tmos.Base.{ℕ, zero, suc, ◌+◌, ◌≡◌, refl, ◌∙◌, bit_and, bit_or, true, false, not, arith, ◌==◌}
use tmos.Base.Bits.{bit_at-bit_and, bit_at-bit_or, bit_at-lt, bit_not, bit_and-pow, bit_and_step}
use tmos.Base.Outcome.{done, >>=-eq-done, assert->>-eq-done, done-injective}
use tmos.Base.Word.{u64}
use tmos.Vmm.{
  pte_present, pte_to_alloc, vaddr_is_valid, FrameAllocator, Vmm, set_page, map_pages, vmm_map,
}
use tmos.Vmm.Entries.{pte_present-eq}
use tmos.Vmm.Walk.{page_of, walk}
use tmos.Vmm.Keeps.{IsOuter, HasEntry}
use tmos.Vmm.Mapping.{IsPages, IsPages-rest, within, PageSet, set_page-PageSet}

-- The entry of `vmm_map`.
abbrev pub reserved : ℕ → ℕ
reserved flags = bit_and (bit_or flags 0x200) (bit_not 64 1)

pub reserved-eq :
    (flags : ℕ) → (pte_present (reserved flags) ≡ false) × (pte_to_alloc (reserved flags) ≡ true)
unfolding pte_to_alloc
reserved-eq flags = (
  rw (pte_present-eq (reserved flags))
      (ground (arith, bit_and_step (bit_or flags 0x200) (bit_not 64 1))),
  ground (
    arith,
    bit_and-pow (reserved flags) 9,
    bit_at-bit_and (bit_or flags 0x200) (bit_not 64 1) 9,
    bit_at-bit_or flags 0x200 9,
    bit_at-lt flags 9,
  ),
)

module _ (frames : FrameAllocator) where
  open frames use {Pool, alloc, IsReady, alloc_frame}

  -- What `vmm_map` leaves: the entries of the pages, and everything else as it was.
  pub record Reserved (n v flags : ℕ) (s t : Vmm frames) : Type 0 where
    pub inside :
        (a : ℕ) → IsOuter a → within n v a ≡ true → HasEntry t.mem (page_of a) (reserved flags)
    pub other : (a : ℕ) → IsOuter a → within n v a ≡ false → walk t.mem a ≡ walk s.mem a
    pub keeps :
        (a e : ℕ)
        → IsOuter a
        → within n v a ≡ false
        → HasEntry s.mem (page_of a) e
        → HasEntry t.mem (page_of a) e

  -- The first page, and then the others.
  Reserved-first :
      (n v flags : ℕ) (s u t : Vmm frames)
      → IsPages (suc n) v
      → PageSet frames v (reserved flags) s u
      → Reserved n (v + 4096) flags u t
      → Reserved (suc n) v flags s t
  Reserved-first n v flags s u t r ps rest = record {
    inside = λ a ha w. elim (ℕ_discrete (page_of a) (page_of v)) [
      | yes same ↦
          let first : HasEntry u.mem (page_of v) (reserved flags) = record {
            tables = ps.tables;
            entry = ps.entry_at;
          } in
          rest.keeps a (reserved flags) ha (ground (arith, r)) (rw same first)
      | no different ↦ rest.inside a ha (ground (arith, r))
    ];
    other = λ a ha w. rest.other a ha (ground (arith, r)) ∙ ps.other a ha (ground (arith, r));
    keeps =
        λ a e ha w h. rest.keeps a e ha (ground (arith, r)) (ps.keeps a e ha (ground (arith, r)) h);
  }

  map_pages-Reserved :
      (n v flags : ℕ) (s t : Vmm frames)
      → IsPages n v
      → IsReady s.pool
      → map_pages frames n v flags s ≡ done t
      → IsReady t.pool × Reserved n v flags s t
  unfolding map_pages
  map_pages-Reserved zero v flags s t r ready e =
      subst (λ x. IsReady x.pool × Reserved zero v flags s x) (done-injective e)
        (
          ready,
          record {
            inside = λ a ha w. absurd (ground arith);
            other = λ a ha w. refl;
            keeps = λ a e ha w h. h;
          },
        )
  map_pages-Reserved (suc n) v flags s t r ready e =
      let (u, set, rest) = >>=-eq-done (set_page frames v (reserved flags) s) _ e in
      let (ready', ps) =
        set_page-PageSet frames v (omega (arith, r)) s (reserved flags) u ready set in
      let next : u64 (v + 4096) ≡ v + 4096 = omega (arith, r) in
      let (ready'', rest') =
        map_pages-Reserved n (v + 4096) flags u t (IsPages-rest n v r) ready' (rw next at rest) in
      (ready'', Reserved-first n v flags s u t r ps rest')

  pub vmm_map-ready :
      (n v flags : ℕ) (s t : Vmm frames)
      → IsPages n v
      → IsReady s.pool
      → vmm_map frames v n flags s ≡ done t
      → IsReady t.pool × Reserved n v flags s t
  unfolding vmm_map
  vmm_map-ready n v flags s t r ready e =
      let (_, e1) = assert->>-eq-done (not (v == 0)) _ e in
      let (_, e2) = assert->>-eq-done (vaddr_is_valid v) _ e1 in
      let (_, e3) = assert->>-eq-done (bit_and v 4095 == 0) _ e2 in
      map_pages-Reserved n v flags s t r ready e3
