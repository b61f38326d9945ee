-- ===== src/Pmm/Blank.antt =====
-- The manager that `_init` starts with: all blocks are used.
use tmos.Base.{
  ℕ, zero, suc, ◌+◌, ◌-◌, ◌*◌, ◌/◌, ◌%◌, ◌^◌, ◌≤◌, ◌<◌, ◌≡◌, refl, ap, sym, ◌∙◌, Bool, true, arith,
  ◌==◌,
}
use tmos.Base.Bits.{bit_at}
use tmos.Base.Table.{holds_below, holds_below_sound}
use tmos.Base.Store.{Store, write, write_self}
use tmos.Base.Word.{u64}
use tmos.Bitmap.{bm_init, bm_sz}
use tmos.Bitmap.Laws.{bit_value, bm_test-bit_value}
use tmos.System.{round_up}
use tmos.System.Rounding.{round_up-eq}
use tmos.Pmm.{Pmm}
use tmos.Pmm.Summary.{IsSound, words}
use tmos.Pmm.Count.{count_used}
use tmos.Pmm.Marks.{used_at, IsCounted}
use tmos.Pmm.Init.{bitmap_bytes, fill_words, all_used}

fill_words-below : (n p : ℕ) (m : Store) (q : ℕ) → q < p → fill_words n p m q ≡ m q
unfolding fill_words write
fill_words-below zero p m q h = refl
fill_words-below (suc n) p m q h =
    ground (arith, fill_words-below n (p + 8) (write m p (2 ^ 64 - 1)) q (omega arith))

-- `memset` sets every bit of its words, and no cell outgrows a word.
fill_words-ones : (n p : ℕ) (m : Store) (k : ℕ) → k < n → fill_words n p m (p + 8 * k) ≡ 2 ^ 64 - 1
unfolding fill_words write
fill_words-ones zero p m k h = absurd (omega arith)
fill_words-ones (suc n) p m zero h =
    let here : p + 8 * 0 ≡ p = omega arith in
    ap (fill_words n (p + 8) (write m p (2 ^ 64 - 1))) here
    ∙ fill_words-below n (p + 8) (write m p (2 ^ 64 - 1)) p (omega arith)
    ∙ write_self m p (2 ^ 64 - 1)
fill_words-ones (suc n) p m (suc k) h =
    let next : p + 8 * suc k ≡ p + 8 + 8 * k = omega arith in
    ap (fill_words n (p + 8) (write m p (2 ^ 64 - 1))) next
    ∙ fill_words-ones n (p + 8) (write m p (2 ^ 64 - 1)) k (omega arith)

fill_words-lt :
    (n p : ℕ) (m : Store) → ((q : ℕ) → m q < 2 ^ 64) → (q : ℕ) → fill_words n p m q < 2 ^ 64
unfolding fill_words write
fill_words-lt zero p m h q = h q
fill_words-lt (suc n) p m h q = fill_words-lt n (p + 8) _ (λ r. ground (arith, h r)) q

ones_runs : holds_below 64 (λ i. bit_at (2 ^ 64 - 1) i == 1) ≡ true
unfolding holds_below
ones_runs = refl

bit_at-ones : (i : ℕ) → i < 64 → bit_at (2 ^ 64 - 1) i ≡ 1
bit_at-ones i h =
    ground (arith, holds_below_sound 64 (λ k. bit_at (2 ^ 64 - 1) k == 1) i ones_runs h)

count_used_all :
    (n : ℕ) (used : ℕ → Bool) → ((j : ℕ) → j < n → used j ≡ true) → count_used n used ≡ n
count_used_all zero used h = refl
count_used_all (suc n) used h =
    ground (arith, h n (omega arith), count_used_all n used (λ j less. h j (omega arith)))

-- All bits of both bitmaps are set, and the second stands behind the first.
record AllUsed (s : Pmm) : Type 0 where
  small : s.tot_blk < 2 ^ 52
  behind : s.bm1.start ≡ s.bm0.start + 8 * words s
  cells : (p : ℕ) → s.mem p < 2 ^ 64
  ones : (k : ℕ) → k < words s + (words s + 63) / 64 → s.mem (s.bm0.start + 8 * k) ≡ 2 ^ 64 - 1

module _ (s : Pmm) (v : AllUsed s) where
  bm0_ones : (j : ℕ) → j / 64 < words s → bit_value s.mem s.bm0 j ≡ 1
  bm0_ones j h =
      ap (λ x. bit_at x (j % 64)) (v.ones (j / 64) (omega arith))
      ∙ bit_at-ones (j % 64) (omega arith)

  bm1_ones : (w : ℕ) → w / 64 < (words s + 63) / 64 → bit_value s.mem s.bm1 w ≡ 1
  bm1_ones w h =
      let at : s.bm1.start + 8 * (w / 64) ≡ s.bm0.start + 8 * (words s + w / 64) =
        omega (arith, v.behind) in
      ap (λ p. bit_at (s.mem p) (w % 64)) at
      ∙ ap (λ x. bit_at x (w % 64)) (v.ones (words s + w / 64) (omega arith))
      ∙ bit_at-ones (w % 64) (omega arith)

  AllUsed-IsSound : IsSound s
  AllUsed-IsSound = record {
    small = v.small;
    apart = omega (arith, v.behind);
    cells = v.cells;
    full = λ w h e. bm1_ones w (omega arith);
    empty = λ w h e. absurd (omega (arith, e, v.ones w (omega arith)));
    tail0 = λ j lo up. bm0_ones j (omega arith);
    tail1 = λ w lo up. bm1_ones w (omega arith);
  }

  AllUsed-IsCounted : s.used_blk ≡ s.tot_blk → IsCounted s
  AllUsed-IsCounted all =
      all
      ∙ sym (
          count_used_all s.tot_blk (used_at s)
            (λ j h. ground (arith, bm_test-bit_value s.mem s.bm0 j, bm0_ones j (omega arith))))

-- The sizes of the bitmaps, in words.
bm0_bytes : (tot : ℕ) → tot < 2 ^ 52 → round_up tot 64 / 2 ^ 3 ≡ 8 * ((tot + 63) / 64)
bm0_bytes tot small = omega (arith, round_up-eq 6 tot (omega arith) (omega arith))

-- The bytes of both bitmaps, rounded up to whole pages.
pub bitmap_bytes-eq :
    (tot : ℕ)
    → tot < 2 ^ 52
    → bitmap_bytes tot
      ≡ (8 * ((tot + 63) / 64) + 8 * (((tot + 63) / 64 + 63) / 64) + 4095) / 4096 * 4096
unfolding bitmap_bytes
bitmap_bytes-eq tot small =
    let w = (tot + 63) / 64 in
    let bits : 8 * w / 2 ^ 3 ≡ w = omega arith in
    let sum : u64 (8 * w + 8 * ((w + 63) / 64)) ≡ 8 * w + 8 * ((w + 63) / 64) = omega arith in
    rw (bm0_bytes tot small, bits, bm0_bytes w (omega arith), sum)
      (round_up-eq 12 (8 * w + 8 * ((w + 63) / 64)) (omega arith) (omega arith))

bitmap_bytes-room :
    (tot : ℕ)
    → tot < 2 ^ 52
    → ((tot + 63) / 64 + ((tot + 63) / 64 + 63) / 64) ≤ bitmap_bytes tot / 2 ^ 3
bitmap_bytes-room tot small = omega (arith, bitmap_bytes-eq tot small)

-- The bitmaps of the first manager are filled, where they end below the end of the address space.
all_used-AllUsed :
    (vbase : ℕ) (mem : Store) (base mem_sz fast_start fast_end place : ℕ)
    → mem_sz < 2 ^ 64
    → ((q : ℕ) → mem q < 2 ^ 64)
    → place + vbase + bitmap_bytes (mem_sz / 2 ^ 12) < 2 ^ 64
    → AllUsed (all_used vbase mem base mem_sz fast_start fast_end place)
unfolding all_used bm_init bm_sz
all_used-AllUsed vbase mem base mem_sz fast_start fast_end place small words_only fits =
    let tot = mem_sz / 2 ^ 12 in
    let room = bitmap_bytes-room tot (omega arith) in
    let size = bm0_bytes tot (omega arith) in
    record {
      small = omega arith;
      behind = omega (arith, size, room, fits);
      cells = fill_words-lt (bitmap_bytes tot / 2 ^ 3) (u64 (place + vbase)) mem words_only;
      ones = λ k h.
          fill_words-ones (bitmap_bytes tot / 2 ^ 3) (u64 (place + vbase)) mem k
            (omega (arith, room));
    }

pub all_used-IsSound :
    (vbase : ℕ) (mem : Store) (base mem_sz fast_start fast_end place : ℕ)
    → mem_sz < 2 ^ 64
    → ((q : ℕ) → mem q < 2 ^ 64)
    → place + vbase + bitmap_bytes (mem_sz / 2 ^ 12) < 2 ^ 64
    → (let s = all_used vbase mem base mem_sz fast_start fast_end place in IsSound s × IsCounted s)
unfolding all_used
all_used-IsSound vbase mem base mem_sz fast_start fast_end place small words_only fits =
    let s = all_used vbase mem base mem_sz fast_start fast_end place in
    let v =
      all_used-AllUsed vbase mem base mem_sz fast_start fast_end place small words_only fits in
    (AllUsed-IsSound s v, AllUsed-IsCounted s v refl)
