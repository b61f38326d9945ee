-- ===== src/Kinit/Loop.antt =====
-- All sections of the kernel in the new page tables.
use mathlib.Core.Path.{subst}
use tmos.Base.{
  ℕ, zero, suc, ◌+◌, ◌-◌, ◌*◌, ◌^◌, ◌≤◌, ◌<◌, ◌≡◌, ◌⊎◌, inl, inr, ap, true, arith, ltb, Bool-cases,
  ltb→lt,
}
use tmos.Base.Outcome.{done, >>=-eq-done, done-injective}
use tmos.Base.Store.{Store}
use tmos.Vmm.{FrameAllocator, Vmm, vaddr_is_valid, vmm_translate}
use tmos.Kinit.{Elf64Shdr, shdr_at, remap_section, remap_sections}
use tmos.Kinit.Offsets.{IsBase, Offset}
use tmos.Kinit.Sections.{IsLoaded, Fits, Covers, remap_section-Offset}

-- The section header number `k`.
abbrev pub nth_shdr : Store → (p k : ℕ) → Elf64Shdr
nth_shdr m p k = shdr_at m (p + 64 * k)

nth_shdr-zero : (m : Store) (p : ℕ) → nth_shdr m p 0 ≡ shdr_at m p
nth_shdr-zero m p = let e : p + 64 * 0 ≡ p = omega arith in ap (shdr_at m) e

nth_shdr-suc : (m : Store) (p k : ℕ) → nth_shdr m p (suc k) ≡ nth_shdr m (p + 64) k
nth_shdr-suc m p k = let e : p + 64 * suc k ≡ p + 64 + 64 * k = omega arith in ap (shdr_at m) e

-- All sections of the kernel end below the end of the address space.
abbrev pub AllFit : (vbase : ℕ) → Store → (p end : ℕ) → Type 0
AllFit vbase m p end =
    (k : ℕ) → p + 64 * k < end → IsLoaded vbase (nth_shdr m p k) → Fits (nth_shdr m p k)

AllFit-first :
    (vbase : ℕ) (m : Store) (p end : ℕ)
    → p < end
    → AllFit vbase m p end
    → IsLoaded vbase (shdr_at m p)
    → Fits (shdr_at m p)
AllFit-first vbase m p end more fits =
    subst (λ e. IsLoaded vbase e → Fits e) (nth_shdr-zero m p) (fits 0 (omega arith))

AllFit-rest :
    (vbase : ℕ) (m : Store) (p end : ℕ) → AllFit vbase m p end → AllFit vbase m (p + 64) end
AllFit-rest vbase m p end fits k inside =
    subst (λ e. IsLoaded vbase e → Fits e) (nth_shdr-suc m p k) (fits (suc k) (omega arith))

module _ (vbase : ℕ) (b : IsBase vbase) (frames : FrameAllocator) where
  open frames use {IsReady}

  module _ (a : ℕ) (lo : vbase ≤ a) (up : a < 2 ^ 64) (valid : vaddr_is_valid a ≡ true) where
    -- One of the sections from `p` on covers the address.
    Covered : Store → (p end : ℕ) → Type 0
    Covered m p end =
        (k : ℕ) × (p + 64 * k < end) × IsLoaded vbase (nth_shdr m p k) × Covers (nth_shdr m p k) a

    Covered-next :
        (m : Store) (p end : ℕ)
        → Covered m p end
        → (IsLoaded vbase (shdr_at m p) × Covers (shdr_at m p) a) ⊎ Covered m (p + 64) end
    unfolding Covered
    Covered-next m p end (zero, inside, loaded, covers) =
        inl (subst (λ e. IsLoaded vbase e × Covers e a) (nth_shdr-zero m p) (loaded, covers))
    Covered-next m p end (suc k, inside, loaded, covers) =
        let (loaded', covers') =
          subst (λ e. IsLoaded vbase e × Covers e a) (nth_shdr-suc m p k) (loaded, covers) in
        inr (k, omega arith, loaded', covers')

    remap_sections-Offset :
        (fuel : ℕ) (m : Store) (p end : ℕ) (s t : Vmm frames)
        → AllFit vbase m p end
        → IsReady s.pool
        → remap_sections vbase frames fuel m p end s ≡ done t
        → Offset vbase a s.mem ⊎ Covered m p end
        → Offset vbase a t.mem
    unfolding remap_sections Covered
    remap_sections-Offset zero m p end s t fits ready done_t x = cc
    remap_sections-Offset (suc fuel) m p end s t fits ready done_t x =
        elim (Bool-cases (ltb p end)) [
          | inl more ↦
              let (u, one, rest) =
                >>=-eq-done (remap_section vbase frames (shdr_at m p) s) _ (rw more at done_t) in
              let (ready', after) =
                remap_section-Offset vbase b frames a lo up valid (shdr_at m p) s u
                  (AllFit-first vbase m p end (ltb→lt p end more) fits) ready one in
              remap_sections-Offset fuel m (p + 64) end u t (AllFit-rest vbase m p end fits) ready'
                rest
                (elim x [
                  | inl before ↦ inl (after (inl before))
                  | inr covered ↦ elim (Covered-next m p end covered) [
                    | inl here ↦ inl (after (inr here))
                    | inr later ↦ inr later
                  ]
                ])
          | inr stops ↦ elim x [
            | inl before ↦
                subst (λ y. Offset vbase a y.mem) (done-injective (rw stops at done_t)) before
            | inr (k, inside, _, _) ↦ absurd (ground arith)
          ]
        ]

  -- When the loop over the sections of the multiboot2 table returns, every address in the whole pages
  -- of a section that belongs to the kernel and takes memory is translated to the address less the
  -- kernel's base. The base is a page in the last 512 GiB, the sections of the kernel end below the end
  -- of the address space, and the frame allocator is ready before.
  pub remap_sections-translate :
      (fuel : ℕ) (m : Store) (p end : ℕ) (s t : Vmm frames)
      → AllFit vbase m p end
      → IsReady s.pool
      → remap_sections vbase frames fuel m p end s ≡ done t
      → (k : ℕ) → p + 64 * k < end
      → IsLoaded vbase (nth_shdr m p k)
      → (a : ℕ) → Covers (nth_shdr m p k) a
      → a < 2 ^ 64
      → vaddr_is_valid a ≡ true
      → vmm_translate t.mem a ≡ done (a - vbase)
  unfolding Covered
  remap_sections-translate fuel m p end s t fits ready done_t k inside loaded a covers up valid =
      remap_sections-Offset a (omega arith) up valid fuel m p end s t fits ready done_t
        (inr (k, inside, loaded, covers))
