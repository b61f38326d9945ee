-- ===== src/Kinit/Choice.antt =====
-- Which regions the physical memory manager is given.
use native.Mathlib.Decide.{ℕ_discrete}
use tmos.Base.{ℕ, zero, suc, ◌+◌, ◌-◌, ◌≤◌, ◌<◌, ◌≡◌, ◌≢◌, refl, ap, ◌∙◌, arith, ltb, true, length}
use tmos.Base.Store.{Store}
use tmos.Region.{region_start, region_type}
use tmos.Mmap.Moves.{EndsAt}
use tmos.Mmap.Splits.{EndsAt-next}
use tmos.Base.Outcome.{undef}
use tmos.Pmm.Init.{init}
use tmos.Kinit.{uint32_max, choose_regions, entries_from, init_pmm}

-- Behind the first available region the index stays.
choose_regions-kept :
    (n first tot last : ℕ) (r : Store)
    → EndsAt r tot last
    → last < n + tot
    → first < uint32_max
    → choose_regions n first tot r ≡ (first, last + 1)
unfolding choose_regions
choose_regions-kept zero first tot last r v enough set = absurd (omega (arith, v))
choose_regions-kept (suc n) first tot last r v enough set = elim (ℕ_discrete tot last) [
  | yes here ↦ ground (arith, v.end, ap (λ k. region_start (r k)) here)
  | no after ↦ ground (
    arith,
    v.before tot (omega arith) (omega (arith, v)),
    choose_regions-kept n first (tot + 1) last r (EndsAt-next r tot last v after) (omega arith) set,
  )
]

choose_regions-from :
    (n tot k last : ℕ) (r : Store)
    → EndsAt r tot last
    → last < n + tot
    → tot ≤ k
    → k ≤ last
    → 0 < k
    → region_type (r k) ≡ 1
    → ((i : ℕ) → tot ≤ i → i < k → region_type (r i) ≢ 1)
    → choose_regions n uint32_max tot r ≡ (k - 1, last + 1)
unfolding choose_regions
choose_regions-from zero tot k last r v enough lo up pos avail none = absurd (omega (arith, v))
choose_regions-from (suc n) tot k last r v enough lo up pos avail none = elim (ℕ_discrete tot k) [
  | yes here ↦ elim (ℕ_discrete k last) [
    | yes end ↦ ground (
      arith,
      avail,
      v.end,
      ap (λ i. region_type (r i)) here,
      ap (λ i. region_start (r i)) (here ∙ end),
      v,
    )
    | no inside ↦ ground (
      arith,
      avail,
      v,
      ap (λ i. region_type (r i)) here,
      v.before tot (omega arith) (omega (arith, v)),
      choose_regions-kept n (k - 1) (tot + 1) last r (EndsAt-next r tot last v (omega arith))
          (omega arith) (omega (arith, v)),
    )
  ]
  | no after ↦ ground (
    arith,
    none tot (omega arith) (omega arith),
    v.before tot (omega arith) (omega arith),
    choose_regions-from n (tot + 1) k last r (EndsAt-next r tot last v (omega arith)) (omega arith)
        (omega arith) up pos avail (λ i lo' up'. none i (omega arith) up'),
  )
]

-- When the map ends with its entry `last`, and its first available entry is at `k`, which is not the
-- entry at index 0, `_init_mem_mngr` takes `k - 1` for the first region, whose start is the end of the
-- first available one, and `last + 1`, the number of entries of the whole map, for their number.
choose_regions-eq :
    (k last : ℕ) (r : Store)
    → EndsAt r 0 last
    → 0 < k
    → k ≤ last
    → region_type (r k) ≡ 1
    → ((i : ℕ) → i < k → region_type (r i) ≢ 1)
    → choose_regions 128 uint32_max 0 r ≡ (k - 1, last + 1)
choose_regions-eq k last r v pos up avail none =
    choose_regions-from 128 0 k last r v (omega (arith, v)) (omega arith) up pos avail
      (λ i lo below. none i below)

length-entries_from : (n i : ℕ) (r : Store) → length (entries_from n i r) ≡ n
length-entries_from zero i r = refl
length-entries_from (suc n) i r = ap suc (length-entries_from n (i + 1) r)

-- That number counts from the start of the map and not from the first region that is given. So when
-- `k` and `last` come to more than 128, the physical memory manager's `init` reads behind the end of
-- the kernel's map, which is undefined.
pub init_pmm-undef :
    (vbase k last : ℕ) (mem r : Store)
    → EndsAt r 0 last
    → 0 < k
    → k ≤ last
    → region_type (r k) ≡ 1
    → ((i : ℕ) → i < k → region_type (r i) ≢ 1)
    → 128 < k + last
    → init_pmm vbase mem r ≡ undef
unfolding init_pmm init
init_pmm-undef vbase k last mem r v pos up avail none much =
    let choice = choose_regions-eq k last r v pos up avail none in
    let several : ltb 1 (last + 1) ≡ true = ground arith in
    let short : ltb (128 - (k - 1)) (last + 1) ≡ true = ground (arith, v) in
    rw (choice, several, length-entries_from (128 - (k - 1)) (k - 1) r, short) refl
