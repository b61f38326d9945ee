-- ===== src/Pmm/Free.antt =====
-- `_free`, alone and after `_alloc`.
use tmos.Base.{
  ℕ, ◌-◌, ◌*◌, ◌/◌, ◌%◌, ◌^◌, ◌≤◌, ◌<◌, bit_and, ◌≡◌, ◌≢◌, ◌∙◌, ap, true, arith, ◌==◌,
  if◌then◌else◌,
}
use native.Mathlib.Decide.{ℕ_discrete}
use tmos.Base.Bits.{bit_not, bit_and_cleared}
use tmos.Base.Outcome.{done}
use tmos.System.{paddr_algn_mask}
use tmos.Region.Fields.{algn_mask-eq}
use tmos.Pmm.{Pmm, alloc, free, unset_bit}
use tmos.Pmm.Summary.{IsSound, SameFrame, set_bit-SameFrame, set_bit-IsSound}
use tmos.Pmm.Marks.{used_at, used_at-set_bit, used_at-unset_bit}
use tmos.Pmm.Alloc.{Taken, alloc-Taken}

-- A page-aligned address of 56 bits passes the first assertion of `_free`.
aligned-clear : (a : ℕ) → a < 2 ^ 56 → a % 4096 ≡ 0 → bit_and a (bit_not 64 paddr_algn_mask) ≡ 0
aligned-clear a h e =
    bit_and_cleared 64 a paddr_algn_mask (omega arith) (omega arith) (algn_mask-eq a ∙ omega arith)

-- `_free` of a page of the fast range that is in use returns, and clears its block.
pub free-eq :
    (s : Pmm) (a : ℕ)
    → a < 2 ^ 56
    → a % 4096 ≡ 0
    → s.fast_start ≤ a
    → a < s.fast_end
    → used_at s (a / 4096) ≡ true
    → free a s ≡ done (unset_bit s (a / 4096))
unfolding free
free-eq s a small page lo up on = ground (arith, aligned-clear a small page)

module _ (s : Pmm) (v : IsSound s) (t : Pmm) (a : ℕ) (x : Taken s t a) (zero_base : s.base ≡ 0)
    (page : s.fast_start % 4096 ≡ 0) (fe : s.fast_end < 2 ^ 56) where
  frame_of_address : (a ≡ x.frame * 4096) × (a / 4096 ≡ x.frame)
  frame_of_address = omega (arith, x.address, x.to)

  same : SameFrame s t
  same = rw x.marked (set_bit-SameFrame s x.frame)

  sound : IsSound t
  sound = rw x.marked (set_bit-IsSound s v x.frame x.inside)

  used_after : (j : ℕ) → j < s.tot_blk → used_at t j ≡ (if x.frame == j then true else used_at s j)
  used_after j h = rw x.marked (used_at-set_bit s v x.frame x.inside j h)

  used_again : (j : ℕ) → j < s.tot_blk → used_at (unset_bit t (a / 4096)) j ≡ used_at s j
  used_again j h = elim (ℕ_discrete x.frame j) [
    | yes e ↦ ground (
      arith,
      used_at-unset_bit t sound (a / 4096) (rw (frame_of_address.1, same.tot_blk) x.inside) j
          (rw same.tot_blk h),
      frame_of_address,
      x.was_free,
      ap (used_at s) e,
    )
    | no n ↦ ground (
      arith,
      used_at-unset_bit t sound (a / 4096) (rw (frame_of_address.1, same.tot_blk) x.inside) j
          (rw same.tot_blk h),
      frame_of_address,
      used_after j h,
    )
  ]

  free-Taken : free a t ≡ done (unset_bit t (a / 4096))
  free-Taken =
      free-eq t a (omega (arith, frame_of_address, x.to)) (omega (arith, frame_of_address))
        (omega (arith, frame_of_address, same.fast_start, x.from, page))
        (omega (arith, frame_of_address, same.fast_end, x.to))
        (rw frame_of_address.1 (ground (arith, used_after x.frame x.inside)))

-- A frame that `_alloc` of a sound manager handed out can be freed, and every block is then as it was
-- before, where the managed memory starts at address 0 and the fast range at a page below 2 ^ 56.
pub free-alloc :
    (s : Pmm) (v : IsSound s) (t : Pmm) (a : ℕ)
    → s.base ≡ 0
    → s.fast_start % 4096 ≡ 0
    → s.fast_start < 2 ^ 64
    → s.fast_end < 2 ^ 56
    → alloc s ≡ done (t, a)
    → a ≢ 2 ^ 64 - 1
    → (u : Pmm) × (free a t ≡ done u) × ((j : ℕ) → j < s.tot_blk → used_at u j ≡ used_at s j)
free-alloc s v t a b0 page fs fe e ne =
    let x : Taken s t a = alloc-Taken s v fs (omega arith) t a e ne in
    (unset_bit t (a / 4096), free-Taken s v t a x b0 page fe, used_again s v t a x b0 page fe)
