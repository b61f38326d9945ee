-- ===== src/Mmap/Moves.antt =====
-- `_move_right`: which entries it copies, and when it stops.
use tmos.Base.{ℕ, zero, suc, ◌+◌, ◌-◌, ◌≤◌, ◌<◌, ◌≡◌, ◌≢◌, ap, ◌&&◌, arith, ltb, leb, if◌then◌else◌}
use native.Mathlib.Decide.{ℕ_discrete}
use tmos.Base.Outcome.{done, panic}
use tmos.Base.Store.{Store, write}
use tmos.Region.{region_start}
use tmos.Mmap.{last_entry, shift_right, move_right}

-- The first entry at or behind `idx` that starts at 0 is at `last`.
pub record EndsAt (r : Store) (idx last : ℕ) : Type 0 where
  pub behind : idx ≤ last
  pub inside : last < 128
  pub end : region_start (r last) ≡ 0
  pub before : (k : ℕ) → idx ≤ k → k < last → region_start (r k) ≢ 0

last_entry-eq :
    (n idx last : ℕ) (r : Store)
    → EndsAt r idx last
    → n + idx ≡ 128
    → last_entry n r idx ≡ done last
unfolding last_entry
last_entry-eq zero idx last r v e = absurd (omega (arith, v))
last_entry-eq (suc n) idx last r v e = elim (ℕ_discrete idx last) [
  | yes here ↦ ground (arith, v.end, ap (λ k. region_start (r k)) here)
  | no after ↦ ground (
    arith,
    v.before idx (omega arith) (omega (arith, v)),
    last_entry-eq n (idx + 1) last r (record {
      behind = omega (arith, v);
      inside = v.inside;
      end = v.end;
      before = λ k lo up. v.before k (omega arith) up;
    }),
  )
]

-- `len` entries in front of `i - amt` are copied to in front of `i`.
shift_right-eq :
    (len i amt : ℕ) (r : Store) (q : ℕ)
    → len + amt ≤ i
    → shift_right len i amt r q ≡ (if leb (i - len) q && ltb q i then r (q - amt) else r q)
unfolding shift_right write
shift_right-eq zero i amt r q h = ground arith
shift_right-eq (suc len) i amt r q h =
    ground (arith, shift_right-eq len (i - 1) amt (write r (i - 1) (r (i - amt - 1))) q)

-- With room for `amt` entries more, `_move_right` returns, and the entries from `idx` to the last one
-- stand `amt` places further behind; no other entry changes.
pub move_right-eq :
    (idx amt last : ℕ) (r : Store)
    → EndsAt r idx last
    → last + amt < 128
    → (t : Store) × (move_right idx amt r ≡ done t)
      × ((q : ℕ) → t q ≡ (if leb (idx + amt) q && leb q (last + amt) then r (q - amt) else r q))
unfolding move_right
move_right-eq idx amt last r v room = (
  shift_right (last + 1 - idx) (idx + (last + 1 - idx) + amt) amt r,
  ground (arith, v, last_entry-eq (128 - idx) idx last r v (omega (arith, v))),
  λ q. ground (arith, v, shift_right-eq (last + 1 - idx) (idx + (last + 1 - idx) + amt) amt r q),
)

-- Without that room it stops the kernel.
move_right-panic :
    (idx amt last : ℕ) (r : Store)
    → EndsAt r idx last
    → 128 ≤ last + amt
    → move_right idx amt r ≡ panic
unfolding move_right
move_right-panic idx amt last r v full =
    ground (arith, v, last_entry-eq (128 - idx) idx last r v (omega (arith, v)))
