-- ===== src/Mmap/Ends.antt =====
-- The loop of `mmap_insert_region` ends.
use tmos.Base.{
  ℕ, zero, suc, ◌+◌, ◌-◌, ◌<◌, ◌≢◌, Bool, true, false, not, arith, ltb, leb, ◌==◌, if◌then◌else◌,
  Bool-cases, inl, inr,
}
use tmos.Base.Outcome.{>>=-ends, assert-ends, if-ends, Outcome, done, panic, no_fuel, assert}
use tmos.Base.Store.{Store, write}
use tmos.Region.{region_start, region_type}
use tmos.Mmap.{
  find_start, find_end, find_idx, last_entry, move_right, shift_left, move_left, insert_inside,
  insert_from, mmap_insert_region, page_addr,
}

last_entry-ends : (n i : ℕ) (r : Store) → last_entry n r i ≢ no_fuel
unfolding last_entry
last_entry-ends zero i r = λ e. cc
last_entry-ends (suc n) i r = elim (Bool-cases (region_start (r i) == 0)) [
  | inl z ↦ rw z (λ e. cc)
  | inr s ↦ rw s (last_entry-ends n (i + 1) r)
]

full_ends : (b : Bool) → if◌then◌else◌ {A = Outcome (Unit {0})} b panic (done tt) ≢ no_fuel
full_ends true = λ e. cc
full_ends false = λ e. cc

move_right-ends : (idx amt : ℕ) (r : Store) → move_right idx amt r ≢ no_fuel
unfolding move_right
move_right-ends idx amt r =
    >>=-ends (last_entry (128 - idx) r idx) _ (last_entry-ends (128 - idx) idx r)
      (λ i. >>=-ends _ _ (full_ends (leb 128 (i + amt))) (λ u. λ e. cc))

shift_left-ends : (n idx amt : ℕ) (r : Store) → shift_left n idx amt r ≢ no_fuel
unfolding shift_left
shift_left-ends zero idx amt r = λ e. cc
shift_left-ends (suc n) idx amt r =
    elim (Bool-cases (region_start (write r idx (r (idx + amt)) (idx + amt)) == 0)) [
      | inl z ↦ rw z (λ e. cc)
      | inr s ↦ rw s (shift_left-ends n (idx + 1) amt (write r idx (r (idx + amt))))
    ]

move_left-ends : (idx amt : ℕ) (r : Store) → move_left idx amt r ≢ no_fuel
unfolding move_left
move_left-ends idx amt r =
    >>=-ends (assert (leb amt idx)) _ (assert-ends (leb amt idx))
      (λ u. shift_left-ends (128 - (idx + amt)) idx amt r)

insert_inside-ends :
    (start end type i j : ℕ) (aligned : Bool) (r : Store)
    → insert_inside start end type i j aligned r ≢ no_fuel
unfolding insert_inside
insert_inside-ends start end type i j true r =
    if-ends (leb type (region_type (r i))) _ _ (λ _. λ e. cc)
      (λ _.
        if-ends (region_start (r j) == start) _ _ (λ _. λ e. cc)
          (λ _. >>=-ends (move_right j 1 r) _ (move_right-ends j 1 r) (λ r1. λ e. cc)))
insert_inside-ends start end type i j false r =
    if-ends (leb type (region_type (r i))) _ _ (λ _. λ e. cc)
      (λ _.
        if-ends (region_start (r j) == start) _ _
          (λ _. >>=-ends (move_right j 1 r) _ (move_right-ends j 1 r) (λ r1. λ e. cc))
          (λ _. >>=-ends (move_right j 2 r) _ (move_right-ends j 2 r) (λ r1. λ e. cc)))

insert_from-ends :
    (fuel start end type i j : ℕ) (aligned : Bool) (r : Store)
    → j - i < fuel
    → insert_from fuel start end type i j aligned r ≢ no_fuel
unfolding insert_from
insert_from-ends zero start end type i j aligned r h = absurd (omega arith)
insert_from-ends (suc fuel) start end type i j true r h =
    if-ends (not (ltb i j)) _ _ (λ _. insert_inside-ends start end type i j true r)
      (λ less.
        if-ends (leb type (region_type (r i))) _ _
          (λ _. insert_from-ends fuel start end type (i + 1) j true r (ground arith))
          (λ _.
            if-ends (region_type (r (i + 1)) == type) _ _
              (λ _.
                >>=-ends (move_left (i + 1) 1 r) _ (move_left-ends (i + 1) 1 r)
                  (λ r1. insert_from-ends fuel start end type i (j - 1) true r1 (ground arith)))
              (λ _. insert_from-ends fuel start end type (i + 1) j true _ (ground arith))))
insert_from-ends (suc fuel) start end type i j false r h =
    if-ends (not (ltb i j)) _ _ (λ _. insert_inside-ends start end type i j false r)
      (λ less.
        if-ends (leb type (region_type (r i))) _ _
          (λ _. insert_from-ends fuel start end type (i + 1) j true r (ground arith))
          (λ _.
            if-ends (not (region_type (r (i + 1)) == type)) _ _
              (λ _.
                >>=-ends (move_right i 1 r) _ (move_right-ends i 1 r) (λ r1.
                  insert_from-ends fuel start end type (i + 3) (j + 1) true _ (ground arith)))
              (λ _. insert_from-ends fuel start end type (i + 1) j true _ (ground arith))))

find_start-ends : (n start j : ℕ) (r : Store) → find_start n start r j ≢ no_fuel
unfolding find_start
find_start-ends zero start j r = λ e. cc
find_start-ends (suc n) start j r =
    if-ends (ltb start (region_start (r j))) _ _ (λ _. find_start-ends n start (j + 1) r)
      (λ _. λ e. cc)

find_end-ends : (n start end i : ℕ) (r : Store) → find_end n start end r i ≢ no_fuel
unfolding find_end
find_end-ends zero start end i r = λ e. cc
find_end-ends (suc n) start end i r =
    if-ends (ltb end (region_start (r i))) _ _ (λ _. find_end-ends n start end (i + 1) r)
      (λ _.
        >>=-ends (find_start (suc n) start r i) _ (find_start-ends (suc n) start i r)
          (λ j. λ e. cc))

-- On every map and every range the loop of `mmap_insert_region` ends: each round brings its two
-- indices closer, so the fuel that the model gives it is enough.
pub mmap_insert_region-ends :
    (start end type : ℕ) (r : Store) → mmap_insert_region start end type r ≢ no_fuel
unfolding mmap_insert_region find_idx
mmap_insert_region-ends start end type r =
    if-ends (start == end) _ _ (λ _. λ e. cc)
      (λ _. >>=-ends (assert (page_addr start)) _ (assert-ends (page_addr start)) (λ _.
        >>=-ends (assert (page_addr end)) _ (assert-ends (page_addr end)) (λ _.
          >>=-ends (find_end 128 start end r 0) _ (find_end-ends 128 start end 0 r) (λ idx.
            insert_from-ends (idx.1 - idx.0 + 1) start end type idx.0 idx.1 false r
              (omega arith)))))
