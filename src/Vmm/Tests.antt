-- ===== src/Vmm/Tests.antt =====
-- A page at 4 MiB, with frames that are counted up from 4096.
use tmos.Base.{
  ap, sym, Bool-cases, ℕ, zero, suc, ◌==◌, ◌-◌, ◌+◌, ◌*◌, ◌%◌, ◌^◌, ◌≤◌, ◌<◌, ◌≡◌, ◌≢◌, refl, true,
  false, ◌||◌, arith, ltb, if◌then◌else◌, inl, inr,
}
use tmos.Base.Outcome.{Outcome, done, done-injective}
use tmos.Base.Store.{Store, write}
use tmos.System.{paddr_invalid}
use tmos.Vmm.{
  pte_present, pte_huge, pte_paddr, pte_unused, pml4_idx, pdp_idx, pd_idx, pt_idx, pt_child,
  child_addr, zero_page, all_unused, vaddr_is_valid, FrameAllocator, Vmm, pt_create, create_tables,
  set_page, map_pages, map_pages_to, vmm_map, vmm_map_to, drop_table, drop_empty, free_page,
  free_pages, do_free_pages, page_fault, vmm_translate,
}
use tmos.Vmm.Mapping.{IsPages, IsRange, vmm_translate-vmm_map_to}
use tmos.Vmm.Steps.{Supply}
use tmos.Vmm.Returns.{vmm_map_to-returns}
use tmos.Vmm.Unmap.{vmm_translate-do_free_pages}
use tmos.Base.Table.{holds_below, holds_below_sound}
use tmos.System.{round_up, round_down}
use tmos.Bitmap.{bm_set}
use tmos.Bitmap.Laws.{bit_value}
use tmos.Pmm.{Pmm, alloc, scan, take_frame, first_clear, int_bit, set_bit}
use tmos.Pmm.Alloc.{Taken}
use tmos.Vmm.Frames.{bitmap_frames, IsManaged, page_fault-Taken}
use tmos.Vmm.Fault.{page_fault-vmm_map}

abbrev pub next_alloc : ℕ → Outcome (ℕ × ℕ)
next_alloc n = if ltb n (2 ^ 30) then done (n + 1, 4096 * n) else done (n, paddr_invalid)

pub next_frame :
    (s t a : ℕ)
    → 1 ≤ s
    → next_alloc s ≡ done (t, a)
    → a ≢ paddr_invalid
    → (1 ≤ t) × (a % 4096 ≡ 0) × (a < 2 ^ 52)
next_frame s t a ready e some = elim (Bool-cases (ltb s (2 ^ 30))) [
  | inl small ↦
      let (next, frame) : (s + 1 ≡ t) × (4096 * s ≡ a) = (
        ap (λ x. x.0) (done-injective (rw small at e)),
        ap (λ x. x.1) (done-injective (rw small at e)),
      ) in
      ground arith
  | inr none ↦ absurd (some (sym (ap (λ x. x.1) (done-injective (rw none at e)))))
]

abbrev pub counter : FrameAllocator
counter = record {
  Pool = ℕ;
  alloc = next_alloc;
  free = λ frame n. done n;
  IsReady = λ n. 1 ≤ n;
  alloc_frame = next_frame;
}

abbrev pub empty : Vmm counter
empty = record { mem = λ p. 0; pool = 1; brk = 0 }

abbrev pub or_empty : Outcome (Vmm counter) → Vmm counter
or_empty (done s) = s
or_empty other = empty

abbrev identity : Vmm counter
identity = or_empty (vmm_map_to counter 0x400000 0x7000 2 2 empty)

identity_done : vmm_map_to counter 0x400000 0x7000 2 2 empty ≡ done identity
unfolding vmm_map_to map_pages_to set_page create_tables pt_create child_addr pml4_idx pdp_idx
    pd_idx pt_idx pte_present pte_huge pte_unused zero_page write vaddr_is_valid
identity_done = refl

pages : IsPages 2 0x400000
pages = record {
  page = omega arith;
  ends = omega arith;
  wraps = omega arith;
  outer = inl (omega arith);
}

range : IsRange 2 0x400000 0x7000 2
range = record { pages = pages; frame = omega arith; memory = omega arith; clear = omega arith }

vmm_translate-vmm_map_to_example : vmm_translate identity.mem 0x401234 ≡ done 0x8234
unfolding vaddr_is_valid
vmm_translate-vmm_map_to_example =
    vmm_translate-vmm_map_to counter 2 0x400000 0x7000 2 empty identity range (omega arith)
      identity_done 0x401234 (omega arith) refl

taken_frame :
    (k s : ℕ)
    → s + suc k ≤ 2 ^ 30
    → (t : ℕ) × (a : ℕ) × (next_alloc s ≡ done (t, a)) × (a ≢ paddr_invalid) × (t + k ≤ 2 ^ 30)
taken_frame k s has =
    let small : ltb s (2 ^ 30) ≡ true = ground arith in
    (s + 1, 4096 * s, rw small refl, omega arith, omega arith)

abbrev counter_supply : Supply counter
counter_supply = record {
  Has = λ k n. n + k ≤ 2 ^ 30;
  take = taken_frame;
  less = λ k n h. omega arith;
}

vmm_map_to-returns_example :
    (t : Vmm counter) × (vmm_map_to counter 0x400000 0x7000 2 2 empty ≡ done t)
    × (vmm_translate t.mem 0x401234 ≡ done 0x8234)
unfolding vaddr_is_valid pte_present
vmm_map_to-returns_example =
    vmm_map_to-returns counter counter_supply 2 0x400000 0x7000 2 empty range (omega arith) refl
      (omega arith) (omega arith) (λ a ha w. refl) 0x401234 (omega arith) refl

-- Both pages go, and with them the three tables.
abbrev gone : Vmm counter
gone = or_empty (do_free_pages counter 0x400000 2 false identity)

gone_done : do_free_pages counter 0x400000 2 false identity ≡ done gone
unfolding do_free_pages free_pages free_page drop_empty drop_table all_unused pt_child vmm_map_to
    map_pages_to set_page create_tables pt_create child_addr pml4_idx pdp_idx pd_idx pt_idx
    pte_present pte_huge pte_unused pte_paddr zero_page write vaddr_is_valid
gone_done = refl

vmm_translate-do_free_pages_example : vmm_translate gone.mem 0x401234 ≡ done paddr_invalid
unfolding vaddr_is_valid
vmm_translate-do_free_pages_example =
    vmm_translate-do_free_pages counter 2 0x400000 false identity gone pages gone_done 0x401234
      (omega arith) refl

-- The second of two reserved pages faults.
abbrev lazy : Vmm counter
lazy = or_empty (vmm_map counter 0x400000 2 2 empty)

lazy_done : vmm_map counter 0x400000 2 2 empty ≡ done lazy
unfolding vmm_map map_pages set_page create_tables pt_create child_addr pml4_idx pdp_idx pd_idx
    pt_idx pte_present pte_huge pte_unused zero_page write vaddr_is_valid
lazy_done = refl

page_fault-vmm_map_example :
    (vmm_translate lazy.mem 0x401000 ≡ done paddr_invalid)
    × (u : Vmm counter) × (page_fault counter 0x401000 2 lazy ≡ done u)
    × (u.pool ≡ 5)
    × (vmm_translate u.mem 0x401234 ≡ done 0x4234)
unfolding vaddr_is_valid vmm_map map_pages set_page create_tables pt_create pte_present child_addr
    pml4_idx zero_page pdp_idx pd_idx pte_unused pt_idx write pte_huge
page_fault-vmm_map_example =
    page_fault-vmm_map counter 2 0x400000 2 empty lazy pages (omega arith) lazy_done 0x401000 2
      0x4000 5 (omega arith) refl refl (refl, refl, refl) refl (omega arith) 0x401234 (omega arith)
      refl

-- Blocks 64 to 67 of 128 are free: three for the tables and one for the page.
abbrev cells : Store
cells p = if p == 8 then 2 ^ 64 - 16 else if p == 16 then 2 ^ 64 - 3 else 2 ^ 64 - 1

abbrev four_free : Pmm
four_free = record {
  mem = cells;
  base = 0;
  mem_sz = 128 * 4096;
  tot_blk = 128;
  used_blk = 124;
  fast_start = 0;
  fast_end = 2 ^ 24;
  bm0 = record { start = 0; num_bits = 128 };
  bm1 = record { start = 16; num_bits = 2 };
}

tail_runs : holds_below 64 (λ w. ltb w 2 || bit_value cells four_free.bm1 w == 1) ≡ true
unfolding holds_below
tail_runs = refl

full_words : (w : ℕ) → w < 2 → cells (0 + 8 * w) ≡ 2 ^ 64 - 1 → bit_value cells four_free.bm1 w ≡ 1
full_words zero h e = refl
full_words (suc zero) h e = absurd (omega arith)
full_words (suc (suc w)) h e = absurd (omega arith)

empty_words : (w : ℕ) → w < 2 → cells (0 + 8 * w) ≡ 0 → bit_value cells four_free.bm1 w ≡ 0
empty_words zero h e = absurd (omega arith)
empty_words (suc zero) h e = absurd (omega arith)
empty_words (suc (suc w)) h e = absurd (omega arith)

four_free-IsManaged : IsManaged four_free
four_free-IsManaged = record {
  sound = record {
    small = omega arith;
    apart = omega arith;
    cells = λ p. ground arith;
    full = full_words;
    empty = empty_words;
    tail0 = λ j p q. absurd (omega arith);
    tail1 = λ w p q. ground (arith, holds_below_sound 64 _ w tail_runs);
  };
  aligned = omega arith;
  memory = omega arith;
  start = omega arith;
  end = omega arith;
}

abbrev booted : Vmm bitmap_frames
booted = record { mem = λ p. 0; pool = four_free; brk = 0 }

abbrev or_booted : Outcome (Vmm bitmap_frames) → Vmm bitmap_frames
or_booted (done s) = s
or_booted other = booted

abbrev paged : Vmm bitmap_frames
paged = or_booted (vmm_map bitmap_frames 0x400000 1 2 booted)

paged_done : vmm_map bitmap_frames 0x400000 1 2 booted ≡ done paged
unfolding vmm_map map_pages set_page create_tables pt_create child_addr pml4_idx pdp_idx pd_idx
    pt_idx pte_present pte_huge pte_unused zero_page write vaddr_is_valid alloc scan round_up
    round_down take_frame first_clear int_bit set_bit bm_set
paged_done = refl

one_page : IsPages 1 0x400000
one_page = record {
  page = omega arith;
  ends = omega arith;
  wraps = omega arith;
  outer = inl (omega arith);
}

next_block : alloc paged.pool ≡ done (set_bit paged.pool 67, 67 * 4096)
unfolding vmm_map map_pages set_page create_tables pt_create child_addr pml4_idx pdp_idx pd_idx
    pt_idx pte_present pte_huge pte_unused zero_page write vaddr_is_valid alloc scan round_up
    round_down take_frame first_clear int_bit set_bit bm_set
next_block = refl

page_fault-Taken_example :
    (u : Vmm bitmap_frames) × (page_fault bitmap_frames 0x400123 2 paged ≡ done u)
    × Taken paged.pool u.pool (67 * 4096)
    × (vmm_translate u.mem 0x400123 ≡ done (67 * 4096 + 0x123))
unfolding vaddr_is_valid
page_fault-Taken_example =
    page_fault-Taken 1 0x400000 2 booted paged one_page four_free-IsManaged paged_done 0x400123 2
      (67 * 4096) (set_bit paged.pool 67) (omega arith) refl refl (refl, refl, refl) next_block
      (omega arith)
