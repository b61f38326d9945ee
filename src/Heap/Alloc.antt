-- ===== src/Heap/Alloc.antt =====
-- `heap_init` and `kmalloc`.
use tmos.Base.{
  ℕ, ◌+◌, ◌-◌, ◌*◌, ◌≤◌, ◌<◌, bit_and, bit_or, ◌≡◌, ◌⊎◌, refl, true, false, arith, ◌==◌,
  get_elem?-some-lt,
}
use tmos.Base.Bits.{bit_not}
use tmos.Base.Store.{write}
use tmos.Base.Outcome.{done, panic, undef, >>=-eq-done}
use tmos.System.{is_aligned, page_size}
use tmos.DList.{list_init, list_is_empty}
use tmos.Heap.{
  Heap, heap_start, heap_end, bin_head, chunk_memsz, chunk_is_used, chunk_is_prev_used,
  chunk_set_free, chunk_set_prev_used, sbrk, heap_init, take_from, kmalloc,
}
use tmos.Heap.Sizes.{bin_sizes, get_size, get_bin_idx}
use tmos.Heap.Fit.{Bin, request-Bin, large_request_index, get_size_too_large}
use tmos.Heap.Last.{IsHeap, IsBinSize}
use tmos.Heap.Carve.{Carved, take_from_last-Carved}

or-two : bit_or (bit_and (2 * page_size - 8) (bit_not 64 1)) 2 ≡ 8186
or-two = refl

-- On a heap that is still empty, when its first two pages can be mapped, `heap_init` returns. The two
-- pages are one chunk, from the start of the heap to its end, free, with the mark that the chunk before
-- it is used, and with an empty list node; it is the last chunk of a well-formed heap, and only its
-- first three words have been written.
pub heap_init-IsHeap :
    (h : Heap)
    → h.brk ≡ heap_start
    → h.maps heap_start 2 ≡ true
    → (g : Heap) × (heap_init h ≡ done g)
      × IsHeap g
      × (g.last ≡ heap_start)
      × (g.brk ≡ heap_start + 2 * 4096)
      × (chunk_memsz g.mem heap_start ≡ 2 * 4096 - 8)
      × (chunk_is_used g.mem heap_start ≡ false)
      × (chunk_is_prev_used g.mem heap_start ≡ true)
      × (list_is_empty g.mem (heap_start + 8) ≡ true)
      × ((q : ℕ) → (q < heap_start) ⊎ (heap_start + 24 ≤ q) → g.mem q ≡ h.mem q)
unfolding heap_init sbrk is_aligned chunk_set_free chunk_set_prev_used list_init list_is_empty
    chunk_memsz chunk_is_used chunk_is_prev_used write
heap_init-IsHeap h b mapped = (
  record {
    mem = list_init (heap_start + 8) (
        chunk_set_prev_used heap_start
          (chunk_set_free heap_start (write h.mem heap_start (2 * page_size - 8))));
    last = heap_start;
    brk = heap_start + 8192;
    maps = h.maps;
  },
  rw (b, mapped) refl,
  record {
    header = omega arith;
    least = omega arith;
    ends = refl;
    top = omega arith;
    behind = omega arith;
    not_header = omega arith;
  },
  refl,
  refl,
  refl,
  refl,
  refl,
  refl,
  λ q outside. ground arith,
)

module _ (bins : ℕ) (h : Heap) where
  -- On a well-formed heap with a page left below its limit, which can be mapped, and with all 54 bins
  -- empty, `kmalloc` of 1 to 3584 bytes returns a chunk from the front of the last one, which holds the
  -- request, is marked as used and ends where the new last chunk begins; the heap is well formed again.
  pub kmalloc-Carved :
      (req : ℕ)
      → 0 < req
      → req ≤ 3584
      → IsHeap h
      → h.brk + 4096 ≤ heap_end
      → h.maps h.brk 1 ≡ true
      → ((k : ℕ) → k < 54 → list_is_empty h.mem (bin_head bins k) ≡ true)
      → (n : ℕ) × (g : Heap) × (p : ℕ) × (req ≤ n)
        × (kmalloc bins req h ≡ done (g, p))
        × Carved h n g p
  unfolding kmalloc take_from
  kmalloc-Carved req lo hi v more mapped empty =
      let b : Bin req = request-Bin req (omega arith) in
      let s : IsBinSize b.memsz = record {
        least = omega (arith, b.least, b.next_up);
        most = b.bounded;
        words = b.words;
      } in
      let (g, p, e, c) = take_from_last-Carved h b.memsz v more mapped s in
      let pos : (req == 0) ≡ false = ground arith in
      (
        b.memsz,
        g,
        p,
        omega (arith, b.holds, b.next_up),
        rw
            (
              pos,
              b.rounds,
              b.indexes,
              b.in_table,
              take_from,
              empty b.index (get_elem?-some-lt bin_sizes b.index b.memsz b.in_table),
            )
            e,
        c,
      )

  -- A request that the size limit still accepts, but for the last bin, reads behind the bins.
  pub kmalloc-undef : (req : ℕ) → 3584 < req → req ≤ 3840 → kmalloc bins req h ≡ undef
  unfolding kmalloc take_from
  kmalloc-undef req lo hi =
      let (n, e, i) = >>=-eq-done (get_size req) get_bin_idx (large_request_index req lo hi) in
      let pos : (req == 0) ≡ false = ground arith in rw (pos, e, i)

  -- A request above the limit stops the kernel.
  kmalloc-panic : (req : ℕ) → 3840 < req → kmalloc bins req h ≡ panic
  unfolding kmalloc
  kmalloc-panic req h =
      let pos : (req == 0) ≡ false = ground arith in rw (pos, get_size_too_large req h)
