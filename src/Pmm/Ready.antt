-- ===== src/Pmm/Ready.antt =====
-- `_init` leaves a sound manager that counts its used blocks.
use mathlib.Core.Path.{subst}
use tmos.Base.{
  ℕ, zero, suc, ◌+◌, ◌-◌, ◌/◌, ◌^◌, ◌≤◌, ◌<◌, ◌≡◌, ◌⊎◌, ap, true, List, arith, ltb, leb, ◌==◌,
  if◌then◌else◌, Bool-cases, inl, inr, get_or, length,
}
use tmos.Base.Outcome.{done, undef, panic, >>=-eq-done, assert->>-eq-done, done-injective}
use tmos.Base.Store.{Store}
use tmos.Base.Word.{u64, sub64}
use tmos.Region.{region_type}
use tmos.Pmm.{Pmm, mark_used, mark_free, use_blocks, free_blocks}
use tmos.Pmm.Summary.{IsSound, SameFrame, SameFrame-refl, SameFrame-trans}
use tmos.Pmm.Marks.{IsCounted, use_blocks-Marked, free_blocks-Marked}
use tmos.Pmm.Init.{start_of, bitmap_bytes, find_region, all_used, free_regions, init}
use tmos.Pmm.Blank.{all_used-IsSound}

-- Sound and counted, with the bitmaps where they were.
record Keeps (s t : Pmm) : Type 0 where
  same : SameFrame s t
  sound : IsSound t
  counted : IsCounted t

Keeps-refl : (s : Pmm) → IsSound s → IsCounted s → Keeps s s
Keeps-refl s v c = record { same = SameFrame-refl s; sound = v; counted = c }

Keeps-trans : {s t u : Pmm} → Keeps s t → Keeps t u → Keeps s u
Keeps-trans p q = record {
  same = SameFrame-trans p.same q.same;
  sound = q.sound;
  counted = q.counted;
}

free_blocks-Keeps :
    (n i : ℕ) (s : Pmm)
    → IsSound s
    → IsCounted s
    → (i + n ≤ s.tot_blk) ⊎ (n ≡ 0)
    → Keeps s (free_blocks n i s)
unfolding free_blocks
free_blocks-Keeps zero i s v c x = Keeps-refl s v c
free_blocks-Keeps (suc n) i s v c (inr none) = absurd (omega arith)
free_blocks-Keeps (suc n) i s v c (inl inside) =
    let k = free_blocks-Marked (suc n) i s v inside in
    record { same = k.same; sound = k.sound; counted = k.counted c }

use_blocks-Keeps :
    (n i : ℕ) (s : Pmm)
    → IsSound s
    → IsCounted s
    → (i + n ≤ s.tot_blk) ⊎ (n ≡ 0)
    → Keeps s (use_blocks n i s)
unfolding use_blocks
use_blocks-Keeps zero i s v c x = Keeps-refl s v c
use_blocks-Keeps (suc n) i s v c (inr none) = absurd (omega arith)
use_blocks-Keeps (suc n) i s v c (inl inside) =
    let k = use_blocks-Marked (suc n) i s v inside in
    record { same = k.same; sound = k.sound; counted = k.counted c }

-- The blocks from `b` to `e`, also where there are none.
num-inside : (b e tot : ℕ) → leb e tot ≡ true → (b + (e - b) ≤ tot) ⊎ (e - b ≡ 0)
num-inside b e tot h = elim (Bool-cases (leb b e)) [
  | inl some ↦ inl (ground arith)
  | inr none ↦ inr (ground arith)
]

mark_free-Keeps :
    (start end : ℕ) (s t : Pmm)
    → IsSound s
    → IsCounted s
    → mark_free start end s ≡ done t
    → Keeps s t
unfolding mark_free
mark_free-Keeps start end s t v c e =
    let b = sub64 start s.base / 2 ^ 12 in
    let last = sub64 end s.base / 2 ^ 12 in
    let (_, e1) = assert->>-eq-done (leb s.base start) _ e in
    let (inside, e2) = assert->>-eq-done (leb last s.tot_blk) _ e1 in
    subst (Keeps s) (done-injective e2)
      (free_blocks-Keeps (last - b) b s v c (num-inside b last s.tot_blk inside))

mark_used-Keeps :
    (start end : ℕ) (s t : Pmm)
    → IsSound s
    → IsCounted s
    → mark_used start end s ≡ done t
    → Keeps s t
unfolding mark_used
mark_used-Keeps start end s t v c e =
    let b = sub64 start s.base / 2 ^ 12 in
    let last = sub64 end s.base / 2 ^ 12 in
    let (_, e1) = assert->>-eq-done (leb s.base start) _ e in
    let (inside, e2) = assert->>-eq-done (leb last s.tot_blk) _ e1 in
    subst (Keeps s) (done-injective e2)
      (use_blocks-Keeps (last - b) b s v c (num-inside b last s.tot_blk inside))

free_regions-Keeps :
    (n i : ℕ) (rs : List ℕ) (s t : Pmm)
    → IsSound s
    → IsCounted s
    → free_regions n i rs s ≡ done t
    → Keeps s t
unfolding free_regions
free_regions-Keeps zero i rs s t v c e = subst (Keeps s) (done-injective e) (Keeps-refl s v c)
free_regions-Keeps (suc n) i rs s t v c e = elim (Bool-cases (region_type (get_or rs i 0) == 1)) [
  | inl avail ↦
      let (u, freed, rest) =
        >>=-eq-done (mark_free (start_of rs i) (start_of rs (i - 1)) s) _ (rw avail at e) in
      let k = mark_free-Keeps (start_of rs i) (start_of rs (i - 1)) s u v c freed in
      Keeps-trans k (free_regions-Keeps n (i + 1) rs u t k.sound k.counted rest)
  | inr other ↦ free_regions-Keeps n (i + 1) rs s t v c (rw other at e)
]

-- When `_init` returns, the manager is sound, and its count of used blocks is right, whichever regions
-- it is given; it manages the memory from the start of the last region to that of the first. Memory holds words, and the bitmaps, in the region that is found for them, end below
-- the end of the address space.
pub init-IsSound :
    (vbase : ℕ) (mem : Store) (rs : List ℕ) (num fast_start fast_end : ℕ) (u : Pmm)
    (marked : List ℕ)
    → ((q : ℕ) → mem q < 2 ^ 64)
    → (let bytes = bitmap_bytes (sub64 (start_of rs 0) (start_of rs (num - 1)) / 2 ^ 12) in
        let found = find_region bytes (num - 1) rs in
        start_of found.1 found.0 + vbase + bytes < 2 ^ 64)
    → init vbase mem rs num fast_start fast_end ≡ done (u, marked)
    → IsSound u
      × IsCounted u
      × (u.base ≡ start_of rs (num - 1))
      × (u.tot_blk ≡ sub64 (start_of rs 0) (start_of rs (num - 1)) / 2 ^ 12)
      × (u.fast_start ≡ fast_start)
      × (u.fast_end ≡ fast_end)
unfolding init all_used
init-IsSound vbase mem rs num fast_start fast_end u marked words_only fits e =
    let mem_sz = sub64 (start_of rs 0) (start_of rs (num - 1)) in
    let bytes = bitmap_bytes (mem_sz / 2 ^ 12) in
    let found = find_region bytes (num - 1) rs in
    let place = start_of found.1 found.0 in
    let s = all_used vbase mem (start_of rs (num - 1)) mem_sz fast_start fast_end place in
    let (sound, counted) =
      all_used-IsSound vbase mem (start_of rs (num - 1)) mem_sz fast_start fast_end place
        (omega arith) words_only fits in
    let (_, e1) = assert->>-eq-done (ltb 1 num) _ e in
    let (_, _, e2) = >>=-eq-done (if ltb (length rs) num then undef else done tt) _ e1 in
    let (_, _, e3) = >>=-eq-done (if found.0 == 0 then panic else done tt) _ e2 in
    let (t, freed, e4) = >>=-eq-done (free_regions (num - 1) 1 found.1 s) _ e3 in
    let (r, used, e5) = >>=-eq-done (mark_used place (u64 (place + bytes)) t) _ e4 in
    let k = free_regions-Keeps (num - 1) 1 found.1 s t sound counted freed in
    let l = mark_used-Keeps place (u64 (place + bytes)) t r k.sound k.counted used in
    let same : r ≡ u = ap (λ x. x.0) (done-injective e5) in
    let frame = SameFrame-trans k.same l.same in
    subst
      (λ (x : Pmm).
        IsSound x
        × IsCounted x
        × (x.base ≡ s.base)
        × (x.tot_blk ≡ s.tot_blk)
        × (x.fast_start ≡ fast_start)
        × (x.fast_end ≡ fast_end))
      same (l.sound, l.counted, frame.base, frame.tot_blk, frame.fast_start, frame.fast_end)
