-- ===== src/Pmm/Alloc.antt =====
-- `_alloc`: what it hands out.
use tmos.Base.{
  ℕ, zero, suc, ◌+◌, ◌-◌, ◌*◌, ◌/◌, ◌%◌, ◌^◌, ◌≤◌, ◌<◌, min, bit_and, ◌≡◌, ◌≢◌, refl, ◌∙◌, ap, ap₂,
  sym, Bool, true, false, arith, ◌==◌, if◌then◌else◌, Bool-cases, inl, inr, ==_iff, ◌⊎◌,
}
use mathlib.Core.Path.{subst₂}
use tmos.Base.Bits.{bit_at, bit_at-bit_and, bit_at-pow_self, zero-bit_at, bit_at-lt}
use tmos.Base.Outcome.{Outcome, done, panic, ◌>>=◌, >>=-eq-done, done-injective}
use tmos.Base.Word.{u64, shl}
use tmos.System.Rounding.{words_up, words_down}
use tmos.Bitmap.Laws.{bit_value, bm_test-bit_value}
use tmos.Pmm.{Pmm, bm0_word, bm1_word, int_bit, first_clear, take_frame, scan, alloc, set_bit}
use tmos.Pmm.Summary.{words, IsSound}
use tmos.Pmm.Marks.{used_at}

int_bit-cases :
    (j b : ℕ) → int_bit j ≡ done b → ((j < 31) × (b ≡ 2 ^ j)) ⊎ ((j ≡ 31) × (b ≡ 2 ^ 64 - 2 ^ 31))
unfolding int_bit
int_bit-cases j b e = ground arith

int_bit-lt : (j b : ℕ) → int_bit j ≡ done b → j < 32
int_bit-lt j b e = omega (arith, int_bit-cases j b e)

-- A shift that C defines finds the digit that it is meant to find.
int_bit-clear : (w j b : ℕ) → int_bit j ≡ done b → bit_and w b ≡ 0 → (j < 32) × (bit_at w j ≡ 0)
int_bit-clear w j b e z = elim (int_bit-cases j b e) [
  | inl (low, p) ↦ ground (
    arith,
    bit_at-bit_and w b j,
    ap (λ t. bit_at t j) z,
    zero-bit_at j,
    ap (λ t. bit_at t j) p,
    bit_at-pow_self j,
    bit_at-lt w j,
  )
  | inr (top, p) ↦ ground (
    arith,
    bit_at-bit_and w b j,
    ap (λ t. bit_at t j) z,
    zero-bit_at j,
    ap₂ bit_at p top,
    bit_at-lt w j,
  )
]

-- The search ends at a digit below 32 that is clear.
first_clear-clear :
    (n w j k : ℕ) → j ≤ 32 → 32 < j + n → first_clear n w j ≡ done k → (k < 32) × (bit_at w k ≡ 0)
unfolding first_clear
first_clear-clear zero w j k low h e = absurd (omega arith)
first_clear-clear (suc n) w j k low h e =
    let (b, p, q) = >>=-eq-done (int_bit j) _ e in
    elim (Bool-cases (bit_and w b == 0)) [
      | inl z ↦
          ground
            (arith, int_bit-clear w j b p ((==_iff (bit_and w b) 0).0 z), ap (bit_at w) (same z q))
      | inr more ↦
          first_clear-clear n w (j + 1) k (omega (arith, int_bit-lt j b p)) (omega arith)
            (rw more at q)
    ]
  where
    same : {c : Bool} → c ≡ true → (if c then done j else first_clear n w (j + 1)) ≡ done k → j ≡ k
    same z q = ground arith

-- What `_alloc` hands out at address `a`: a block of the fast range that was free. It marks that
-- block and nothing else.
pub record Taken (s t : Pmm) (a : ℕ) : Type 0 where
  pub frame : ℕ
  pub inside : frame < s.tot_blk
  pub from : s.fast_start / 4096 ≤ frame
  pub to : frame < s.fast_end / 4096
  pub was_free : used_at s frame ≡ false
  pub marked : t ≡ set_bit s frame
  pub address : a ≡ u64 (frame * 4096 + s.base)

module _ (s : Pmm) (v : IsSound s) (i : ℕ) (t : Pmm) (a : ℕ) where
  bm1_digit : (j : ℕ) → j < 64 → bit_at (bm1_word s i) j ≡ bit_value s.mem s.bm1 (i * 64 + j)
  bm1_digit j h =
      let (p, q) : ((i * 64 + j) / 64 ≡ i) × ((i * 64 + j) % 64 ≡ j) = omega arith in rw (p, q)

  bm0_digit : (w k : ℕ) → k < 64 → bit_at (bm0_word s w) k ≡ bit_value s.mem s.bm0 (w * 64 + k)
  bm0_digit w k h =
      let (p, q) : ((w * 64 + k) / 64 ≡ w) × ((w * 64 + k) % 64 ≡ k) = omega arith in rw (p, q)

  -- A clear digit `j` of word `i` of `bm1` names a word of `bm0`, and a clear digit of that a block.
  digit-word :
      (j : ℕ)
      → i < (words s + 63) / 64
      → j < 32
      → bit_at (bm1_word s i) j ≡ 0
      → i * 64 + j < words s
  digit-word j hi hj z = ground (arith, bm1_digit j, v.tail1 (i * 64 + j))

  digit-block :
      (w k : ℕ) → w < words s → k < 32 → bit_at (bm0_word s w) k ≡ 0 → w * 64 + k < s.tot_blk
  digit-block w k hw hk z = ground (arith, bm0_digit w k, v.tail0 (w * 64 + k))

  digit-free : (w k : ℕ) → k < 32 → bit_at (bm0_word s w) k ≡ 0 → used_at s (w * 64 + k) ≡ false
  digit-free w k hk z = ground (arith, bm0_digit w k, bm_test-bit_value s.mem s.bm0 (w * 64 + k))

  module _ (hi : i < (words s + 63) / 64) (lo : s.fast_start / 4096 ≤ i * 4096)
      (up : i * 4096 + 4096 ≤ s.fast_end / 4096) where
    -- With the digits found: the numbers that `_alloc` computes do not wrap.
    Taken-of_digits :
        (j k w f : ℕ)
        → w ≡ u64 (shl i 6 + j)
        → f ≡ u64 (shl w 6 + k)
        → (j < 32) × (bit_at (bm1_word s i) j ≡ 0)
        → (k < 32) × (bit_at (bm0_word s w) k ≡ 0)
        → Taken s (set_bit s f) (u64 (shl f 12 + s.base))
    Taken-of_digits j k w f ew ef (hj, zj) (hk, zk) = record {
      frame = f;
      inside = rw f_eq (digit-block w k w_in hk zk);
      from = omega arith;
      to = omega arith;
      was_free = rw f_eq (digit-free w k hk zk);
      marked = refl;
      address = omega (arith, v.small, digit-block w k w_in hk zk);
    }
      where
        w_eq : w ≡ i * 64 + j
        w_eq = omega (arith, v.small)

        w_in : w < words s
        w_in = rw w_eq (digit-word j hi hj zj)

        f_eq : f ≡ w * 64 + k
        f_eq = omega (arith, v.small)

    take_frame-digits :
        (j k w f : ℕ)
        → w ≡ u64 (shl i 6 + j)
        → f ≡ u64 (shl w 6 + k)
        → first_clear 64 (bm1_word s i) 0 ≡ done j
        → first_clear 64 (bm0_word s w) 0 ≡ done k
        → if◌then◌else◌ {A = Outcome (Pmm × ℕ)}
            (k == 64)
            panic
            (done (set_bit s f, u64 (shl f 12 + s.base)))
          ≡ done (t, a)
        → Taken s t a
    take_frame-digits j k w f ew ef ej ek last =
        subst₂ (Taken s) (ap (λ p. p.0) last') (ap (λ p. p.1) last') (
          Taken-of_digits j k w f ew ef
            (first_clear-clear 64 (bm1_word s i) 0 j (omega arith) (omega arith) ej) hk)
      where
        hk : (k < 32) × (bit_at (bm0_word s w) k ≡ 0)
        hk = first_clear-clear 64 (bm0_word s w) 0 k (omega arith) (omega arith) ek

        last' : ◌≡◌ {A = Pmm × ℕ} (set_bit s f, u64 (shl f 12 + s.base)) (t, a)
        last' = let e : (k == 64) ≡ false = ground arith in done-injective (rw e at last)

    take_frame-word :
        (j w : ℕ)
        → w ≡ u64 (shl i 6 + j)
        → first_clear 64 (bm1_word s i) 0 ≡ done j
        → (first_clear 64 (bm0_word s w) 0 >>= λ k.
            let f = u64 (shl w 6 + k) in
            if◌then◌else◌ {A = Outcome (Pmm × ℕ)}
              (k == 64)
              panic
              (done (set_bit s f, u64 (shl f 12 + s.base))))
          ≡ done (t, a)
        → Taken s t a
    take_frame-word j w ew ej rest =
        let (k, ek, last) = >>=-eq-done (first_clear 64 (bm0_word s w) 0) _ rest in
        take_frame-digits j k w (u64 (shl w 6 + k)) ew refl ej ek last

    take_frame-Taken : take_frame s i ≡ done (t, a) → Taken s t a
    unfolding take_frame
    take_frame-Taken e =
        let (j, ej, rest) = >>=-eq-done (first_clear 64 (bm1_word s i) 0) _ e in
        take_frame-word j (u64 (shl i 6 + j)) refl ej rest

scan-Taken :
    (s : Pmm) (v : IsSound s) (n i : ℕ) (t : Pmm) (a : ℕ)
    → n ≤ (words s + 63) / 64 - i
    → s.fast_start / 4096 ≤ i * 4096
    → n ≤ s.fast_end / 4096 / 4096 - i
    → scan n i s ≡ done (t, a)
    → a ≢ 2 ^ 64 - 1
    → Taken s t a
unfolding scan
scan-Taken s v zero i t a hi lo up e ne = absurd (ne (ap (λ p. p.1) (sym (done-injective e))))
scan-Taken s v (suc n) i t a hi lo up e ne = elim (Bool-cases (bm1_word s i == (2 ^ 64 - 1))) [
  | inl full ↦
      scan-Taken s v n (i + 1) t a (omega arith) (omega arith) (omega arith) (rw full at e) ne
  | inr more ↦ take_frame-Taken s v i t a (omega arith) lo (omega arith) (rw more at e)
]

-- The bounds of the search, in words of the second bitmap.
module _ (s : Pmm) (v : IsSound s) (fs : s.fast_start < 2 ^ 64) (fe : s.fast_end < 2 ^ 64) where
  abbrev first_word : ℕ
  first_word = (s.fast_start / 4096 + 4095) / 4096

  abbrev last_word : ℕ
  last_word = min ((words s + 63) / 64) (s.fast_end / 4096 / 4096)

  alloc-scan : alloc s ≡ (
      if s.used_blk == s.tot_blk
      then done (s, 2 ^ 64 - 1)
      else scan (last_word - first_word) first_word s)
  unfolding alloc
  alloc-scan = rw (
    words_up s.tot_blk (omega (arith, v.small)),
    words_up (words s) (omega (arith, v.small)),
    words_up (s.fast_start / 4096) (omega arith),
    words_up ((s.fast_start / 4096 + 63) / 64) (omega arith),
    words_down (s.fast_end / 4096) (omega arith),
    words_down (s.fast_end / 4096 / 64) (omega arith),
    first,
    last,
  )
    where
      first : ((s.fast_start / 4096 + 63) / 64 + 63) / 64 ≡ first_word
      first = omega arith

      last : s.fast_end / 4096 / 64 / 64 ≡ s.fast_end / 4096 / 4096
      last = omega arith

  -- What `_alloc` of a sound manager returns, if it returns and if it is not `PADDR_INVALID`, is the
  -- address of a block of the fast range that was free, and `_alloc` marks that block and changes
  -- nothing else.
  pub alloc-Taken : (t : Pmm) (a : ℕ) → alloc s ≡ done (t, a) → a ≢ 2 ^ 64 - 1 → Taken s t a
  alloc-Taken t a e ne = elim (Bool-cases (s.used_blk == s.tot_blk)) [
    | inl full ↦
        absurd (ne (ap (λ p. p.1) (sym (done-injective (rw full at (sym alloc-scan ∙ e))))))
    | inr room ↦
        scan-Taken s v (last_word - first_word) first_word t a (omega arith) (omega arith)
          (omega arith) (rw room at (sym alloc-scan ∙ e)) ne
  ]
