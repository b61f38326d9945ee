-- ===== src/Heap/Tests.antt =====
-- A heap of two pages and the theorems at it. Every word names the one before it, so the lists of
-- the bins at address 16 are empty.
use tmos.Base.{
  ℕ, ap, ◌⊎◌, false, ◌*◌, ◌+◌, ◌-◌, ◌≤◌, ◌<◌, ◌≡◌, refl, true, arith, ◌==◌, if◌then◌else◌,
}
use tmos.Base.Outcome.{done, undef}
use tmos.DList.{list_is_empty}
use tmos.Heap.{
  Heap, chunk_memsz, chunk_is_used, chunk_is_prev_used, heap_start, heap_end, heap_init,
  take_from_last, kmalloc, bin_head,
}
use tmos.Heap.Fit.{Bin, request-Bin}
use tmos.Heap.Last.{IsHeap, IsBinSize}
use tmos.Heap.Carve.{Carved, take_from_last-Carved, take_from_last-clobbers}
use tmos.Heap.Alloc.{heap_init-IsHeap, kmalloc-Carved, kmalloc-undef}

abbrev two_pages : Heap
two_pages = record {
  mem = λ q. if q == heap_start then 8186 else q - 8;
  last = heap_start;
  brk = heap_start + 8192;
  maps = λ vaddr n. true;
}

two_pages-IsHeap : IsHeap two_pages
two_pages-IsHeap = record {
  header = omega arith;
  least = omega arith;
  ends = refl;
  top = omega arith;
  behind = omega arith;
  not_header = omega arith;
}

empty_bins : (k : ℕ) → k < 54 → list_is_empty two_pages.mem (bin_head 16 k) ≡ true
unfolding list_is_empty
empty_bins k h = ground arith

bin_40 : IsBinSize 40
bin_40 = record { least = omega arith; most = omega arith; words = refl }

request-Bin_example : Bin 100
request-Bin_example = request-Bin 100 (omega arith)

abbrev no_pages : Heap
no_pages = record two_pages { brk = heap_start }

heap_init-IsHeap_example :
    (g : Heap) × (heap_init no_pages ≡ done g)
    × IsHeap g
    × (g.last ≡ heap_start)
    × (g.brk ≡ heap_start + 2 * 4096)
    × (chunk_memsz g.mem heap_start ≡ 2 * 4096 - 8)
    × (chunk_is_used g.mem heap_start ≡ false)
    × (chunk_is_prev_used g.mem heap_start ≡ true)
    × (list_is_empty g.mem (heap_start + 8) ≡ true)
    × ((q : ℕ) → (q < heap_start) ⊎ (heap_start + 24 ≤ q) → g.mem q ≡ no_pages.mem q)
heap_init-IsHeap_example = heap_init-IsHeap no_pages refl refl

kmalloc-Carved_example :
    (n : ℕ) × (g : Heap) × (p : ℕ) × (33 ≤ n)
    × (kmalloc 16 33 two_pages ≡ done (g, p))
    × Carved two_pages n g p
kmalloc-Carved_example =
    kmalloc-Carved 16 two_pages 33 (omega arith) (omega arith) two_pages-IsHeap (omega arith) refl
      empty_bins

kmalloc-undef_example : kmalloc 16 3600 two_pages ≡ undef
kmalloc-undef_example = kmalloc-undef 16 two_pages 3600 (omega arith) (omega arith)

-- What the first request returned.
first_block :
    (g : Heap) × (p : ℕ) × (take_from_last 40 two_pages ≡ done (g, p)) × Carved two_pages 40 g p
first_block = take_from_last-Carved two_pages 40 two_pages-IsHeap (omega arith) refl bin_40

take_from_last-clobbers_example :
    (k : Heap) × (r : ℕ) × (take_from_last 64 first_block.0 ≡ done (k, r))
    × (k.mem first_block.1 ≡ k.last + 8)
take_from_last-clobbers_example =
    take_from_last-clobbers two_pages 40 64 first_block.0 first_block.1 first_block.0 first_block.3
      refl refl (λ q h. refl) (record { least = omega arith; most = omega arith; words = refl })
      room mapped
  where
    room : first_block.0.brk + 4096 ≤ heap_end
    room = omega (arith, first_block.3.limit)

    mapped : first_block.0.maps first_block.0.brk 1 ≡ true
    mapped = ap (λ f. f first_block.0.brk 1) first_block.3.maps
