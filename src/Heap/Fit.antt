-- ===== src/Heap/Fit.antt =====
-- How `_get_size` and `_get_bin_idx` choose a bin, over every request that they accept.
use tmos.Base.{
  ℕ, ◌+◌, ◌-◌, ◌%◌, ◌≤◌, ◌<◌, ◌≡◌, refl, Bool, true, false, ◌&&◌, Option, none, some, arith, ltb,
  leb, ◌==◌, get_elem?,
}
use tmos.Base.Outcome.{Outcome, done, panic, undef, no_fuel, ◌>>=◌}
use tmos.Base.Table.{holds_below, holds_below_sound}
use tmos.System.{round_up}
use tmos.Heap.Sizes.{bin_sizes, get_size, get_bin_idx}

-- The bin of a request: its rounded size, its index, and the size of the bin there.
pub record Bin (req : ℕ) : Type 0 where
  pub size : ℕ
  pub index : ℕ
  pub memsz : ℕ
  pub rounds : get_size req ≡ done size
  pub indexes : get_bin_idx size ≡ done index
  pub in_table : get_elem? bin_sizes index ≡ some memsz
  pub holds : req ≤ size
  pub least : 24 ≤ size
  pub next_up : size < memsz
  pub bounded : memsz ≤ 3840
  pub words : memsz % 8 ≡ 0

abbrev fits : ℕ → ℕ → ℕ → Bool
fits req n c = leb req n && leb 24 n && ltb n c && leb c 3840 && (c % 8) == 0

abbrev fits_bin : ℕ → ℕ → Option ℕ → Bool
fits_bin req n none = false
fits_bin req n (some c) = fits req n c

abbrev fits_index : ℕ → ℕ → Outcome ℕ → Bool
fits_index req n (done k) = fits_bin req n (get_elem? bin_sizes k)
fits_index req n other = false

abbrev fits_size : ℕ → Outcome ℕ → Bool
fits_size req (done n) = fits_index req n (get_bin_idx n)
fits_size req other = false

fits_table : holds_below 3585 (λ req. fits_size req (get_size req)) ≡ true
unfolding holds_below get_size get_bin_idx round_up
fits_table = refl

module _ (req : ℕ) where
  Bin-of_size :
      (n k : ℕ) (c : Option ℕ)
      → get_size req ≡ done n
      → get_bin_idx n ≡ done k
      → get_elem? bin_sizes k ≡ c
      → fits_bin req n c ≡ true
      → Bin req
  Bin-of_size n k none r i t h = cc
  Bin-of_size n k (some c) r i t h = record {
    size = n;
    index = k;
    memsz = c;
    rounds = r;
    indexes = i;
    in_table = t;
    holds = ground arith;
    least = ground arith;
    next_up = ground arith;
    bounded = ground arith;
    words = ground arith;
  }

  Bin-of_index :
      (n : ℕ) (o : Outcome ℕ)
      → get_size req ≡ done n
      → get_bin_idx n ≡ o
      → fits_index req n o ≡ true
      → Bin req
  Bin-of_index n (done k) r i h = Bin-of_size n k (get_elem? bin_sizes k) r i refl h
  Bin-of_index n panic r i h = cc
  Bin-of_index n undef r i h = cc
  Bin-of_index n no_fuel r i h = cc

  Bin-of_outcome : (o : Outcome ℕ) → get_size req ≡ o → fits_size req o ≡ true → Bin req
  Bin-of_outcome (done n) r h = Bin-of_index n (get_bin_idx n) r refl h
  Bin-of_outcome panic r h = cc
  Bin-of_outcome undef r h = cc
  Bin-of_outcome no_fuel r h = cc

-- Every request of at most 3584 bytes has a bin of the table, of a size that is larger than the
-- rounded request.
pub request-Bin : (req : ℕ) → req < 3585 → Bin req
request-Bin req h =
    Bin-of_outcome req (get_size req) refl (holds_below_sound 3585 _ req fits_table h)

-- A larger request up to the last bin's size gets an index behind the table, and a larger one yet
-- fails the assertion.
abbrev past_table : Outcome ℕ → Bool
past_table (done k) = k == 54
past_table other = false

past : ℕ → Bool
past r = past_table (get_size (3585 + r) >>= get_bin_idx)

past_table_runs : holds_below 256 past ≡ true
unfolding holds_below past get_size get_bin_idx round_up
past_table_runs = refl

past_index : (o : Outcome ℕ) → past_table o ≡ true → o ≡ done 54
past_index (done k) h = ground arith
past_index panic h = cc
past_index undef h = cc
past_index no_fuel h = cc

pub large_request_index :
    (req : ℕ) → 3584 < req → req ≤ 3840 → (get_size req >>= get_bin_idx) ≡ done 54
unfolding past
large_request_index req lo hi =
    let e : 3585 + (req - 3585) ≡ req = omega arith in
    let h : (get_size (3585 + (req - 3585)) >>= get_bin_idx) ≡ done 54 =
      past_index _ (holds_below_sound 256 past (req - 3585) past_table_runs (omega arith)) in
    rw e at h

pub get_size_too_large : (req : ℕ) → 3840 < req → get_size req ≡ panic
unfolding get_size
get_size_too_large req h = ground arith
