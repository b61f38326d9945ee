-- ===== src/BiosMap/Sorted.antt =====
-- `_sort_map` sorts.
use native.Mathlib.Decide.{ℕ_discrete}
use tmos.Base.{
  ℕ, zero, suc, ◌+◌, ◌-◌, ◌≤◌, ◌<◌, ◌≡◌, refl, ap, ◌∙◌, arith, false, ◌&&◌, ltb, leb, ◌==◌,
  if◌then◌else◌, Bool-cases, inl, inr,
}
use tmos.Base.Outcome.{done}
use tmos.BiosMap.{BiosMap, end_of, swap_bios_region, find_max, sort_round, sort_from, sort_map}

-- An entry from `low` to `high` whose end none of those exceeds.
record IsMax (low high : ℕ) (mmap : BiosMap) (k : ℕ) : Type 0 where
  pub from : low ≤ k
  pub to : k < high
  pub most : (b : ℕ) → low ≤ b → b < high → end_of (mmap b) ≤ end_of (mmap k)

find_max-IsMax :
    (n low j k : ℕ) (mmap : BiosMap)
    → IsMax low j mmap k
    → IsMax low (j + n) mmap (find_max n j k mmap)
unfolding find_max
find_max-IsMax zero low j k mmap h = record {
  from = h.from;
  to = omega (arith, h.to);
  most = λ b lo up. h.most b lo (omega arith);
}
find_max-IsMax (suc n) low j k mmap h =
    let next : j + suc n ≡ j + 1 + n = omega arith in
    elim (Bool-cases (ltb (end_of (mmap k)) (end_of (mmap j)))) [
      | inl more ↦
          rw (next, more)
            (find_max-IsMax n low (j + 1) j mmap (record {
              from = omega (arith, h.from, h.to);
              to = omega arith;
              most = λ b lo up. elim (ℕ_discrete b j) [
                | yes here ↦ rw here (omega arith)
                | no before ↦ ground (arith, h.most b lo (omega arith))
              ];
            }))
      | inr less ↦
          rw (next, less)
            (find_max-IsMax n low (j + 1) k mmap (record {
              from = h.from;
              to = omega (arith, h.to);
              most = λ b lo up. elim (ℕ_discrete b j) [
                | yes here ↦ rw here (ground arith)
                | no before ↦ h.most b lo (omega arith)
              ];
            }))
    ]

-- The entries before `i` are in order, and none of the others exceeds them.
record IsSorted (len i : ℕ) (mmap : BiosMap) : Type 0 where
  pub ordered : (a b : ℕ) → a < i → a < b → b < len → end_of (mmap b) ≤ end_of (mmap a)

-- The same `len` entries in another order: no entry is lost or doubled.
pub record Moved (len : ℕ) (mmap mmap' : BiosMap) : Type 0 where
  pub source : ℕ → ℕ
  pub place : ℕ → ℕ
  pub moved : (k : ℕ) → mmap' k ≡ mmap (source k)
  pub there : (k : ℕ) → source (place k) ≡ k
  pub again : (k : ℕ) → place (source k) ≡ k
  pub outside : (k : ℕ) → len ≤ k → source k ≡ k

Moved-refl : (len : ℕ) (mmap : BiosMap) → Moved len mmap mmap
Moved-refl len mmap = record {
  source = λ k. k;
  place = λ k. k;
  moved = λ k. refl;
  there = λ k. refl;
  again = λ k. refl;
  outside = λ k h. refl;
}

Moved-trans : (len : ℕ) (l m n : BiosMap) → Moved len l m → Moved len m n → Moved len l n
Moved-trans len l m n x y = record {
  source = λ k. x.source (y.source k);
  place = λ k. y.place (x.place k);
  moved = λ k. y.moved k ∙ x.moved (y.source k);
  there = λ k. ap x.source (y.there (x.place k)) ∙ x.there k;
  again = λ k. ap y.place (x.again (y.source k)) ∙ y.again k;
  outside = λ k h. ap x.source (y.outside k h) ∙ x.outside k h;
}

abbrev swapped : (a b k : ℕ) → ℕ
swapped a b k = if k == a then b else if k == b then a else k

swapped-swapped : (a b k : ℕ) → swapped a b (swapped a b k) ≡ k
swapped-swapped a b k = ground arith

swap-swapped :
    (a b : ℕ) (mmap : BiosMap) (k : ℕ) → swap_bios_region a b mmap k ≡ mmap (swapped a b k)
unfolding swap_bios_region
swap-swapped a b mmap k = elim (ℕ_discrete k a) [
  | yes first ↦ rw first (ground arith)
  | no other ↦ elim (ℕ_discrete k b) [ yes second ↦ ground arith | no rest ↦ ground arith ]
]

swap-Moved :
    (len a b : ℕ) (mmap : BiosMap) → a < len → b < len → Moved len mmap (swap_bios_region a b mmap)
swap-Moved len a b mmap ha hb = record {
  source = swapped a b;
  place = swapped a b;
  moved = swap-swapped a b mmap;
  there = swapped-swapped a b;
  again = swapped-swapped a b;
  outside = λ k h. ground arith;
}

swap-IsSorted :
    (len i k : ℕ) (mmap : BiosMap)
    → IsSorted len i mmap
    → IsMax i len mmap k
    → IsSorted len (i + 1) (swap_bios_region i k mmap)
swap-IsSorted len i k mmap s m = record {
  ordered = λ a b lt ab bl.
      rw (swap-swapped i k mmap a, swap-swapped i k mmap b)
        (elim (ℕ_discrete a i) [
          | yes last ↦
              let here : swapped i k a ≡ k = ground arith in
              rw here (m.most (swapped i k b) (ground (arith, m.from)) (ground (arith, m.to)))
          | no before ↦
              let here : swapped i k a ≡ a = ground (arith, m.from) in
              rw here (
                s.ordered a (swapped i k b) (omega arith) (ground (arith, m.from))
                  (ground (arith, m.to)))
        ]);
}

keep-IsSorted :
    (len i k : ℕ) (mmap : BiosMap)
    → IsSorted len i mmap
    → IsMax i len mmap k
    → end_of (mmap i) ≡ end_of (mmap k)
    → IsSorted len (i + 1) mmap
keep-IsSorted len i k mmap s m same = record {
  ordered = λ a b lt ab bl. elim (ℕ_discrete a i) [
    | yes last ↦ rw (last, same) (m.most b (omega arith) bl)
    | no before ↦ s.ordered a b (omega arith) ab bl
  ];
}

sort_round-IsSorted :
    (len i : ℕ) (mmap : BiosMap)
    → i < len
    → IsSorted len i mmap
    → IsSorted len (i + 1) (sort_round len i mmap) × Moved len mmap (sort_round len i mmap)
unfolding sort_round
sort_round-IsSorted len i mmap lt s =
    let k = find_max (len - (i + 1)) (i + 1) i mmap in
    let all : i + 1 + (len - (i + 1)) ≡ len = omega arith in
    let first : IsMax i (i + 1) mmap i = record {
      from = omega arith;
      to = omega arith;
      most = λ b lo up. let here : b ≡ i = omega arith in rw here (omega arith);
    } in
    let m : IsMax i len mmap k =
      rw all at (find_max-IsMax (len - (i + 1)) i (i + 1) i mmap first) in
    elim (Bool-cases
      ((end_of (mmap i) == end_of (mmap k)) && leb ((mmap k).base) ((mmap i).base))) [
        | inl keep ↦ rw keep (keep-IsSorted len i k mmap s m (ground arith), Moved-refl len mmap)
        | inr swap ↦ rw swap (swap-IsSorted len i k mmap s m, swap-Moved len i k mmap lt m.to)
      ]

sort_from-IsSorted :
    (n len i : ℕ) (mmap : BiosMap)
    → i + n ≤ len
    → IsSorted len i mmap
    → IsSorted len (i + n) (sort_from n len i mmap) × Moved len mmap (sort_from n len i mmap)
unfolding sort_from
sort_from-IsSorted zero len i mmap h s =
    let none : i + 0 ≡ i = omega arith in rw none (s, Moved-refl len mmap)
sort_from-IsSorted (suc n) len i mmap h s =
    let next : i + suc n ≡ i + 1 + n = omega arith in
    let (t, moved) = sort_round-IsSorted len i mmap (omega arith) s in
    let (u, rest) = sort_from-IsSorted n len (i + 1) (sort_round len i mmap) (omega arith) t in
    (rw next u, Moved-trans len mmap (sort_round len i mmap) _ moved rest)

-- `_sort_map` of a map that is not empty returns the same entries in an order in which no entry ends
-- above one before it.
pub sort_map-Moved :
    (len : ℕ) (mmap : BiosMap)
    → 0 < len
    → (a b : ℕ) → a < b
    → b < len
    → (mmap' : BiosMap) × (sort_map len mmap ≡ done mmap')
      × Moved len mmap mmap'
      × (end_of (mmap' b) ≤ end_of (mmap' a))
unfolding sort_map
sort_map-Moved len mmap some a b ab bl =
    let (s, moved) =
      sort_from-IsSorted (len - 1) len 0 mmap (omega arith)
        (record { ordered = λ x y lt xy yl. absurd (omega arith) }) in
    let full : (len == 0) ≡ false = ground arith in
    (sort_from (len - 1) len 0 mmap, rw full refl, moved, s.ordered a b (omega arith) ab bl)
