-- ===== src/Vmm/Drop.antt =====
-- The tables that `_do_free` frees because they are empty: no translation goes through them.
use native.Mathlib.Decide.{ℕ_discrete}
use tmos.Base.{
  ℕ, zero, suc, ◌+◌, ◌*◌, ◌/◌, ◌%◌, ◌^◌, ◌≤◌, ◌<◌, ◌≡◌, refl, ap, sym, ◌∙◌, true, false, not, arith,
  if◌then◌else◌, Bool-cases, inl, inr,
}
use tmos.Base.Outcome.{done, ◌>>=◌, >>=-eq-done, done-injective}
use tmos.Base.Store.{Store, write}
use tmos.Vmm.{
  pte_present, pte_paddr, pte_unused, pml4_vaddr, FrameAllocator, Vmm, all_unused, drop_table,
  drop_empty,
}
use tmos.Vmm.Entries.{pt_base, pd_base, pdp_base, pte_present-eq}
use tmos.Vmm.Walk.{page_of, pml4e, pdpe, pde, pte, is_table, walk}
use tmos.Vmm.Keeps.{IsOuter, HasTables}

unused_zero : (e : ℕ) → pte_unused e ≡ true → e ≡ 0
unfolding pte_unused
unused_zero e h = ground arith

absent_zero : (e : ℕ) → e ≡ 0 → pte_present e ≡ false
absent_zero e z = rw (pte_present-eq e, z) refl

-- The scan for a used entry reads every entry.
all_unused-zero :
    (n tab j : ℕ) (m : Store)
    → all_unused n tab j m ≡ true
    → (k : ℕ) → j ≤ k
    → k < j + n
    → m (tab + 8 * k) ≡ 0
unfolding all_unused
all_unused-zero zero tab j m e k lo up = absurd (omega arith)
all_unused-zero (suc n) tab j m e k lo up = elim (Bool-cases (pte_unused (m (tab + 8 * j)))) [
  | inr used ↦ absurd (cc (rw used at e))
  | inl free ↦ elim (ℕ_discrete j k) [
    | yes here ↦ ap (λ i. m (tab + 8 * i)) (sym here) ∙ unused_zero (m (tab + 8 * j)) free
    | no after ↦ all_unused-zero n tab (j + 1) m (rw free at e) k (omega arith) (omega arith)
  ]
]

-- A table without entries can go: no translation went through it.
module _ (m : Store) (v a : ℕ) (outer : IsOuter v) (elsewhere : IsOuter a) where
  abbrev q : ℕ
  q = page_of a

  walk-drop_pd :
      is_table (m (pde (page_of v))) ≡ true
      → all_unused 512 (pt_base + 4096 * (page_of v / 2 ^ 9)) 0 m ≡ true
      → walk (write m (pde (page_of v)) 0) a ≡ walk m a
  unfolding write
  walk-drop_pd t empty = elim (ℕ_discrete (q / 2 ^ 9) (page_of v / 2 ^ 9)) [
    | no other ↦ ground arith
    | yes same ↦
        let cell : pde q ≡ pde (page_of v) = ap (λ (t : ℕ). pd_base + 8 * t) same in
        let zero_at : pt_base + 4096 * (page_of v / 2 ^ 9) + 8 * (q % 512) ≡ pte q = omega arith in
        let zero_pte : m (pte q) ≡ 0 =
          ap m (sym zero_at)
          ∙ all_unused-zero 512 (pt_base + 4096 * (page_of v / 2 ^ 9)) 0 m empty (q % 512)
              (omega arith) (omega arith) in
        ground (arith, ap m cell, absent_zero (m (pte q)) zero_pte, absent_zero 0 refl)
  ]

  walk-drop_pdp :
      is_table (m (pdpe (page_of v))) ≡ true
      → all_unused 512 (pd_base + 4096 * (page_of v / 2 ^ 18)) 0 m ≡ true
      → walk (write m (pdpe (page_of v)) 0) a ≡ walk m a
  unfolding write
  walk-drop_pdp t empty = elim (ℕ_discrete (q / 2 ^ 18) (page_of v / 2 ^ 18)) [
    | no other ↦ ground arith
    | yes same ↦
        let cell : pdpe q ≡ pdpe (page_of v) = ap (λ (t : ℕ). pdp_base + 8 * t) same in
        let zero_at : pd_base + 4096 * (page_of v / 2 ^ 18) + 8 * (q / 2 ^ 9 % 512) ≡ pde q =
          omega arith in
        let zero_pde : m (pde q) ≡ 0 =
          ap m (sym zero_at)
          ∙ all_unused-zero 512 (pd_base + 4096 * (page_of v / 2 ^ 18)) 0 m empty (q / 2 ^ 9 % 512)
              (omega arith) (omega arith) in
        ground (arith, ap m cell, absent_zero (m (pde q)) zero_pde, absent_zero 0 refl)
  ]

  walk-drop_pml4 :
      is_table (m (pml4e (page_of v))) ≡ true
      → all_unused 512 (pdp_base + 4096 * (page_of v / 2 ^ 27)) 0 m ≡ true
      → walk (write m (pml4e (page_of v)) 0) a ≡ walk m a
  unfolding write
  walk-drop_pml4 t empty = elim (ℕ_discrete (q / 2 ^ 27) (page_of v / 2 ^ 27)) [
    | no other ↦ ground arith
    | yes same ↦
        let cell : pml4e q ≡ pml4e (page_of v) = ap (λ (t : ℕ). pml4_vaddr + 8 * t) same in
        let zero_at : pdp_base + 4096 * (page_of v / 2 ^ 27) + 8 * (q / 2 ^ 18 % 512) ≡ pdpe q =
          omega arith in
        let zero_pdpe : m (pdpe q) ≡ 0 =
          ap m (sym zero_at)
          ∙ all_unused-zero 512 (pdp_base + 4096 * (page_of v / 2 ^ 27)) 0 m empty
              (q / 2 ^ 18 % 512) (omega arith) (omega arith) in
        ground (arith, ap m cell, absent_zero (m (pdpe q)) zero_pdpe, absent_zero 0 refl)
  ]

module _ (frames : FrameAllocator) where
  open frames use {free}

  -- The memory behind `drop_table`.
  drop_table-mem :
      (p : ℕ) (s t : Vmm frames) → drop_table frames p s ≡ done t → t.mem ≡ write s.mem p 0
  unfolding drop_table
  drop_table-mem p s t e =
      let (u, taken, rest) = >>=-eq-done (free (pte_paddr (s.mem p)) s.pool) _ e in
      ap (λ x. x.mem) (sym (done-injective rest))

  module _ (v a : ℕ) (outer : IsOuter v) (elsewhere : IsOuter a) where
    drop_pml4-walk :
        (s t : Vmm frames)
        → is_table (s.mem (pml4e (page_of v))) ≡ true
        → (if not (all_unused 512 (pdp_base + 4096 * (page_of v / 2 ^ 27)) 0 s.mem)
            then done s
            else drop_table frames (pml4e (page_of v)) s)
          ≡ done t
        → walk t.mem a ≡ walk s.mem a
    drop_pml4-walk s t h e =
        elim (Bool-cases (all_unused 512 (pdp_base + 4096 * (page_of v / 2 ^ 27)) 0 s.mem)) [
          | inr used ↦ ap (λ x. walk x.mem a) (sym (done-injective (rw used at e)))
          | inl empty ↦
              ap (λ m. walk m a) (drop_table-mem (pml4e (page_of v)) s t (rw empty at e))
              ∙ walk-drop_pml4 s.mem v a outer elsewhere h empty
        ]

    drop_pdp-walk :
        (s t : Vmm frames)
        → is_table (s.mem (pml4e (page_of v))) ≡ true
        → is_table (s.mem (pdpe (page_of v))) ≡ true
        → (if not (all_unused 512 (pd_base + 4096 * (page_of v / 2 ^ 18)) 0 s.mem)
            then done s
            else (drop_table frames (pdpe (page_of v)) s >>= λ u.
                if not (all_unused 512 (pdp_base + 4096 * (page_of v / 2 ^ 27)) 0 u.mem)
                then done u
                else drop_table frames (pml4e (page_of v)) u))
          ≡ done t
        → walk t.mem a ≡ walk s.mem a
    unfolding write
    drop_pdp-walk s t h4 h3 e =
        elim (Bool-cases (all_unused 512 (pd_base + 4096 * (page_of v / 2 ^ 18)) 0 s.mem)) [
          | inr used ↦ ap (λ x. walk x.mem a) (sym (done-injective (rw used at e)))
          | inl empty ↦
              let (u, dropped, rest) =
                >>=-eq-done (drop_table frames (pdpe (page_of v)) s) _ (rw empty at e) in
              let mem = drop_table-mem (pdpe (page_of v)) s u dropped in
              let kept : u.mem (pml4e (page_of v)) ≡ s.mem (pml4e (page_of v)) =
                ap (λ m. m (pml4e (page_of v))) mem ∙ ground arith in
              drop_pml4-walk u t (ap is_table kept ∙ h4) rest
              ∙ ap (λ m. walk m a) mem
              ∙ walk-drop_pdp s.mem v a outer elsewhere h3 empty
        ]

    -- Freeing the empty tables from the page table upwards changes no translation.
    pub drop_empty-walk :
        (s t : Vmm frames)
        → HasTables s.mem (page_of v)
        → drop_empty frames
            (pml4e (page_of v))
            (pdp_base + 4096 * (page_of v / 2 ^ 27))
            (pdpe (page_of v))
            (pd_base + 4096 * (page_of v / 2 ^ 18))
            (pde (page_of v))
            (pt_base + 4096 * (page_of v / 2 ^ 9))
            s
          ≡ done t
        → walk t.mem a ≡ walk s.mem a
    unfolding drop_empty write
    drop_empty-walk s t h e =
        elim (Bool-cases (all_unused 512 (pt_base + 4096 * (page_of v / 2 ^ 9)) 0 s.mem)) [
          | inr used ↦ ap (λ x. walk x.mem a) (sym (done-injective (rw used at e)))
          | inl empty ↦
              let (u, dropped, rest) =
                >>=-eq-done (drop_table frames (pde (page_of v)) s) _ (rw empty at e) in
              let mem = drop_table-mem (pde (page_of v)) s u dropped in
              let kept4 : u.mem (pml4e (page_of v)) ≡ s.mem (pml4e (page_of v)) =
                ap (λ m. m (pml4e (page_of v))) mem ∙ ground arith in
              let kept3 : u.mem (pdpe (page_of v)) ≡ s.mem (pdpe (page_of v)) =
                ap (λ m. m (pdpe (page_of v))) mem ∙ ground arith in
              drop_pdp-walk u t (ap is_table kept4 ∙ h.at_pml4) (ap is_table kept3 ∙ h.at_pdp) rest
              ∙ ap (λ m. walk m a) mem
              ∙ walk-drop_pd s.mem v a outer elsewhere h.at_pd empty
        ]
