-- ===== src/Kinit/Offsets.antt =====
-- A range of pages that is mapped at the kernel's base, as its sections and the bitmaps are.
use tmos.Base.{
  ℕ, ◌+◌, ◌-◌, ◌*◌, ◌/◌, ◌%◌, ◌^◌, ◌≤◌, ◌<◌, ◌≡◌, ◌⊎◌, inl, inr, refl, ◌∙◌, true, arith, Bool-cases,
}
use tmos.Base.Outcome.{done}
use tmos.Base.Store.{Store}
use tmos.Base.Word.{sub64}
use tmos.Vmm.{FrameAllocator, Vmm, vaddr_is_valid, vmm_map_to, vmm_translate}
use tmos.Vmm.Walk.{page_of}
use tmos.Vmm.Keeps.{IsOuter}
use tmos.Vmm.Mapping.{IsRange, within, vmm_map_to-mapped, vmm_translate-vmm_map_to}

-- Where the linker puts the kernel: on a page, in the last 512 GiB.
pub record IsBase (vbase : ℕ) : Type 0 where
  pub page : vbase % 4096 ≡ 0
  pub high : 2 ^ 64 - 2 ^ 39 ≤ vbase
  pub word : vbase < 2 ^ 64

high-IsOuter : (vbase a : ℕ) → IsBase vbase → vbase ≤ a → a < 2 ^ 64 → IsOuter a
high-IsOuter vbase a b lo up = omega (arith, b)

-- The translation that the kernel relies on.
abbrev pub Offset : (vbase a : ℕ) → Store → Type 0
Offset vbase a m = vmm_translate m a ≡ done (a - vbase)

offset-IsRange :
    (vbase n v flags : ℕ)
    → IsBase vbase
    → vbase ≤ v
    → v % 4096 ≡ 0
    → v + 4096 * n < 2 ^ 64
    → flags / 4096 % 2 ^ 40 ≡ 0
    → IsRange n v (sub64 v vbase) flags
offset-IsRange vbase n v flags b above page fits clear = record {
  pages = record {
    page = page;
    ends = fits;
    wraps = omega (arith, b);
    outer = inr (omega (arith, b));
  };
  frame = omega (arith, b);
  memory = omega (arith, b);
  clear = clear;
}

module _ (vbase : ℕ) (b : IsBase vbase) (frames : FrameAllocator) where
  open frames use {IsReady}

  module _ (a : ℕ) (lo : vbase ≤ a) (up : a < 2 ^ 64) (valid : vaddr_is_valid a ≡ true) where
    -- An address that was translated so before, or that lies in the range, is translated so; inside
    -- the range the offset is the same.
    pub vmm_map_to-Offset :
        (n v flags : ℕ) (s t : Vmm frames)
        → vbase ≤ v
        → v % 4096 ≡ 0
        → v + 4096 * n < 2 ^ 64
        → flags / 4096 % 2 ^ 40 ≡ 0
        → IsReady s.pool
        → vmm_map_to frames v (sub64 v vbase) n flags s ≡ done t
        → IsReady t.pool
          × (Offset vbase a s.mem ⊎ ((v ≤ a) × (a < v + n * 4096)) → Offset vbase a t.mem)
    vmm_map_to-Offset n v flags s t above page fits clear ready maps =
        let range = offset-IsRange vbase n v flags b above page fits clear in
        let outer = high-IsOuter vbase a b lo up in
        let says =
          vmm_translate-vmm_map_to frames n v (sub64 v vbase) flags s t range ready maps a outer
            valid in
        let inside : within n v a ≡ true
            → sub64 v vbase + 4096 * (page_of a - page_of v) + a % 4096 ≡ a - vbase =
          λ w. ground (arith, b, page) in
        (
          (vmm_map_to-mapped frames n v (sub64 v vbase) flags s t range ready maps).0,
          λ x. elim (Bool-cases (within n v a)) [
            | inl w ↦ says ∙ rw (w, inside w) refl
            | inr out ↦
                says
                ∙ rw out
                    (elim x [ inl before ↦ before | inr covers ↦ absurd (ground (arith, b, page)) ])
          ],
        )
