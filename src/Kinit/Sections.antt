-- ===== src/Kinit/Sections.antt =====
-- The kernel's sections in the new page tables.
use mathlib.Core.Path.{subst}
use tmos.Base.{
  ℕ, ◌+◌, ◌*◌, ◌/◌, ◌%◌, ◌^◌, ◌≤◌, ◌<◌, ◌≡◌, ◌≢◌, ◌⊎◌, inl, inr, refl, bit_and, true, arith, ltb,
  ◌==◌, Bool-cases,
}
use tmos.Base.Bits.{bit_and_mask}
use tmos.Base.Outcome.{done, ◌>>◌, assert, assert->>-eq-done, done-injective}
use tmos.Base.Word.{sub64}
use tmos.Vmm.{FrameAllocator, Vmm, vaddr_is_valid, vmm_map_to}
use tmos.Kinit.Offsets.{IsBase, Offset, vmm_map_to-Offset}
use tmos.Kinit.{Elf64Shdr, section_flags, remap_section}

-- No flag of a section's pages is part of an address.
section_flags-clear : (f : ℕ) → section_flags f / 4096 % 2 ^ 40 ≡ 0
unfolding section_flags
section_flags-clear f = elim (Bool-cases (bit_and f 1 == 0)) [
  | inl w ↦ elim (Bool-cases (bit_and f 4 == 0)) [ inl x ↦ rw (w, x) refl | inr x ↦ rw (w, x) refl ]
  | inr w ↦ elim (Bool-cases (bit_and f 4 == 0)) [ inl x ↦ rw (w, x) refl | inr x ↦ rw (w, x) refl ]
]

-- The section belongs to the kernel and takes memory.
abbrev pub IsLoaded : ℕ → Elf64Shdr → Type 0
IsLoaded vbase e = (vbase ≤ e.sh_addr) × (bit_and e.sh_flags 2 ≢ 0)

-- The section ends below the end of the address space.
abbrev pub Fits : Elf64Shdr → Type 0
Fits e = e.sh_addr + e.sh_size < 2 ^ 64

-- An address of the kernel in one of the section's whole pages.
abbrev pub Covers : Elf64Shdr → ℕ → Type 0
Covers e a = (e.sh_addr ≤ a) × (a < e.sh_addr + e.sh_size / 4096 * 4096)

module _ (vbase : ℕ) (b : IsBase vbase) (frames : FrameAllocator) where
  open frames use {IsReady}

  module _ (a : ℕ) (lo : vbase ≤ a) (up : a < 2 ^ 64) (valid : vaddr_is_valid a ≡ true) where
    abbrev After : Elf64Shdr → (s t : Vmm frames) → Type 0
    After e s t =
        IsReady t.pool
        × (Offset vbase a s.mem ⊎ (IsLoaded vbase e × Covers e a) → Offset vbase a t.mem)

    -- A section that is left out covers nothing.
    skipped :
        (e : Elf64Shdr) (s t : Vmm frames)
        → ¬ IsLoaded vbase e
        → IsReady s.pool
        → done s ≡ done t
        → After e s t
    skipped e s t out ready same =
        subst (After e s) (done-injective same)
          (ready, λ x. elim x [ inl before ↦ before | inr (loaded, _) ↦ absurd (out loaded) ])

    -- A section that is mapped.
    mapped-Offset :
        (e : Elf64Shdr) (s t : Vmm frames)
        → Fits e
        → vbase ≤ e.sh_addr
        → IsReady s.pool
        → (assert (bit_and e.sh_addr 4095 == 0)
            >> vmm_map_to frames e.sh_addr
                (sub64 e.sh_addr vbase)
                (e.sh_size / 2 ^ 12)
                (section_flags e.sh_flags)
                s)
          ≡ done t
        → After e s t
    mapped-Offset e s t fits above ready done_t =
        let (aligned, maps) = assert->>-eq-done (bit_and e.sh_addr 4095 == 0) _ done_t in
        let page : e.sh_addr % 4096 ≡ 0 = ground (arith, aligned, bit_and_mask 12 e.sh_addr) in
        let (ready', after) =
          vmm_map_to-Offset vbase b frames a lo up valid (e.sh_size / 2 ^ 12) e.sh_addr
            (section_flags e.sh_flags) s t above page (omega arith) (section_flags-clear e.sh_flags)
            ready maps in
        (ready', λ x. after (elim x [ inl before ↦ inl before | inr (_, covers) ↦ inr covers ]))

    pub remap_section-Offset :
        (e : Elf64Shdr) (s t : Vmm frames)
        → (IsLoaded vbase e → Fits e)
        → IsReady s.pool
        → remap_section vbase frames e s ≡ done t
        → After e s t
    unfolding remap_section
    remap_section-Offset e s t fits ready done_t = elim (Bool-cases (ltb e.sh_addr vbase)) [
      | inl low ↦ skipped e s t (λ l. ground (arith, l.0)) ready (rw low at done_t)
      | inr high ↦ elim (Bool-cases (bit_and e.sh_flags 2 == 0)) [
        | inl none ↦ skipped e s t (λ l. ground (arith, l.1)) ready (rw (high, none) at done_t)
        | inr alloc ↦
            let above : vbase ≤ e.sh_addr = ground arith in
            mapped-Offset e s t (fits (above, ground arith)) above ready
              (rw (high, alloc) at done_t)
      ]
    ]
