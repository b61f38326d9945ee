-- ===== src/Pmm/Marks.antt =====
-- `_mark_used` and `_mark_free`: which blocks they change, and that they keep the count and the
-- second bitmap right.
use tmos.Base.{
  ℕ, zero, suc, ◌+◌, ◌≤◌, ◌<◌, ◌≡◌, ap, Bool, true, false, ◌&&◌, arith, ltb, leb, ◌==◌,
  if◌then◌else◌, Bool-cases, inl, inr,
}
use native.Mathlib.Decide.{ℕ_discrete}
use tmos.Bitmap.{bm_test}
use tmos.Bitmap.Laws.{bm_test-bit_value}
use tmos.Pmm.{Pmm, set_bit, unset_bit, use_block, free_block, use_blocks, free_blocks}
use tmos.Pmm.Count.{count_used, count_used-le, count_used_one_more}
use tmos.Pmm.Summary.{
  IsSound, SameFrame, set_bit-SameFrame, unset_bit-SameFrame, bm0_bit-set_bit, bm0_bit-unset_bit,
  set_bit-IsSound, unset_bit-IsSound, IsSound-used_blk, SameFrame-refl, SameFrame-trans,
}

-- The manager's view of block `j`.
abbrev pub used_at : Pmm → ℕ → Bool
used_at s j = bm_test s.mem s.bm0 j

abbrev pub IsCounted : Pmm → Type 0
IsCounted s = s.used_blk ≡ count_used s.tot_blk (used_at s)

module _ (s : Pmm) (v : IsSound s) (i : ℕ) (below : i < s.tot_blk) where
  pub used_at-set_bit :
      (j : ℕ) → j < s.tot_blk → used_at (set_bit s i) j ≡ (if i == j then true else used_at s j)
  used_at-set_bit j hj = ground (
    arith,
    same.bm0,
    bm0_bit-set_bit s v i below j (omega arith),
    bm_test-bit_value (set_bit s i).mem s.bm0 j,
    bm_test-bit_value s.mem s.bm0 j,
  )
    where
      same : SameFrame s (set_bit s i)
      same = set_bit-SameFrame s i

  pub used_at-unset_bit :
      (j : ℕ) → j < s.tot_blk → used_at (unset_bit s i) j ≡ (if i == j then false else used_at s j)
  used_at-unset_bit j hj = ground (
    arith,
    same.bm0,
    bm0_bit-unset_bit s v i below j (omega arith),
    bm_test-bit_value (unset_bit s i).mem s.bm0 j,
    bm_test-bit_value s.mem s.bm0 j,
  )
    where
      same : SameFrame s (unset_bit s i)
      same = unset_bit-SameFrame s i

-- `t` is `s` with the blocks from `i` to `i + n` marked `b`.
pub record Marked (b : Bool) (i n : ℕ) (s t : Pmm) : Type 0 where
  pub same : SameFrame s t
  pub sound : IsSound t
  pub counted : IsCounted s → IsCounted t
  pub used :
      (j : ℕ) → j < s.tot_blk → used_at t j ≡ (if leb i j && ltb j (i + n) then b else used_at s j)

Marked-none : (b : Bool) (i : ℕ) (s : Pmm) → IsSound s → Marked b i 0 s s
Marked-none b i s v = record {
  same = SameFrame-refl s;
  sound = v;
  counted = λ c. c;
  used = λ j h. ground arith;
}

Marked-next :
    {b : Bool} {s t u : Pmm} (i n : ℕ)
    → Marked b i 1 s t
    → Marked b (i + 1) n t u
    → Marked b i (suc n) s u
Marked-next i n p q = record {
  same = SameFrame-trans p.same q.same;
  sound = q.sound;
  counted = λ c. q.counted (p.counted c);
  used = λ j h. ground (arith, p.used j h, q.used j (rw p.same.tot_blk h));
}

used_blk-set_bit : (s : Pmm) (i : ℕ) → (set_bit s i).used_blk ≡ s.used_blk
unfolding set_bit
used_blk-set_bit s i = ground arith

used_blk-unset_bit : (s : Pmm) (i : ℕ) → (unset_bit s i).used_blk ≡ s.used_blk
unfolding unset_bit
used_blk-unset_bit s i = ground arith

-- A new `used_blk` changes neither the places nor the map of used blocks.
Marked-of_bit :
    (b : Bool) (i : ℕ) (s t : Pmm) (n : ℕ)
    → SameFrame s t
    → IsSound t
    → ((j : ℕ) → j < s.tot_blk → used_at t j ≡ (if i == j then b else used_at s j))
    → (IsCounted s → n ≡ count_used s.tot_blk (used_at t))
    → Marked b i 1 s (record t { used_blk = n })
Marked-of_bit b i s t n same v used count = record {
  same = record {
    base = same.base;
    tot_blk = same.tot_blk;
    fast_start = same.fast_start;
    fast_end = same.fast_end;
    bm0 = same.bm0;
    bm1 = same.bm1;
  };
  sound = IsSound-used_blk n v;
  counted = λ c. rw same.tot_blk (count c);
  used = λ j h. ground (arith, used j h);
}

-- A block that is marked as wanted already is left alone.
Marked-same : (b : Bool) (i : ℕ) (s : Pmm) → IsSound s → used_at s i ≡ b → Marked b i 1 s s
Marked-same b i s v e = record {
  same = SameFrame-refl s;
  sound = v;
  counted = λ c. c;
  used = λ j h. elim (ℕ_discrete i j) [
    | yes p ↦ ground (arith, ap (used_at s) p)
    | no p ↦ ground arith
  ];
}

module _ (s : Pmm) (v : IsSound s) (i : ℕ) (below : i < s.tot_blk) where
  count-set_bit :
      used_at s i ≡ false
      → count_used s.tot_blk (used_at (set_bit s i)) ≡ count_used s.tot_blk (used_at s) + 1
  count-set_bit off =
      count_used_one_more i (used_at s) (used_at (set_bit s i)) off
        (ground (arith, used_at-set_bit s v i below i)) s.tot_blk below
        (λ j h ne. ground (arith, used_at-set_bit s v i below j))

  count-unset_bit :
      used_at s i ≡ true
      → count_used s.tot_blk (used_at s) ≡ count_used s.tot_blk (used_at (unset_bit s i)) + 1
  count-unset_bit on =
      count_used_one_more i (used_at (unset_bit s i)) (used_at s)
        (ground (arith, used_at-unset_bit s v i below i)) on s.tot_blk below
        (λ j h ne. ground (arith, used_at-unset_bit s v i below j))

  use_block-Marked : Marked true i 1 s (use_block i s)
  unfolding use_block
  use_block-Marked = elim (Bool-cases (used_at s i)) [
    | inl on ↦ rw on (Marked-same true i s v on)
    | inr off ↦ rw off (
        Marked-of_bit true i s (set_bit s i) _ (set_bit-SameFrame s i) (set_bit-IsSound s v i below)
          (used_at-set_bit s v i below)
          (λ c. omega (
            arith,
            c,
            v.small,
            count-set_bit off,
            used_blk-set_bit s i,
            count_used-le s.tot_blk (used_at (set_bit s i)),
          )))
  ]

  free_block-Marked : Marked false i 1 s (free_block i s)
  unfolding free_block
  free_block-Marked = elim (Bool-cases (used_at s i)) [
    | inr off ↦ rw off (Marked-same false i s v off)
    | inl on ↦ rw on (
        Marked-of_bit false i s (unset_bit s i) _ (unset_bit-SameFrame s i)
          (unset_bit-IsSound s v i below) (used_at-unset_bit s v i below)
          (λ c. omega (
            arith,
            c,
            v.small,
            count-unset_bit on,
            used_blk-unset_bit s i,
            count_used-le s.tot_blk (used_at s),
          )))
  ]

-- The loop of `_mark_used` marks its blocks, and keeps the count and the second bitmap right.
pub use_blocks-Marked :
    (n i : ℕ) (s : Pmm) → IsSound s → i + n ≤ s.tot_blk → Marked true i n s (use_blocks n i s)
unfolding use_blocks
use_blocks-Marked zero i s v h = Marked-none true i s v
use_blocks-Marked (suc n) i s v h =
    let first : Marked true i 1 s (use_block i s) = use_block-Marked s v i (omega arith) in
    Marked-next i n first
      (use_blocks-Marked n (i + 1) (use_block i s) first.sound (omega (arith, first.same.tot_blk)))

pub free_blocks-Marked :
    (n i : ℕ) (s : Pmm) → IsSound s → i + n ≤ s.tot_blk → Marked false i n s (free_blocks n i s)
unfolding free_blocks
free_blocks-Marked zero i s v h = Marked-none false i s v
free_blocks-Marked (suc n) i s v h =
    let first : Marked false i 1 s (free_block i s) = free_block-Marked s v i (omega arith) in
    Marked-next i n first (
      free_blocks-Marked n (i + 1) (free_block i s) first.sound (omega (arith, first.same.tot_blk)))
