-- ===== src/Heap.antt =====
-- The kernel heap of kernel/mem/heap.c: its chunks and bins over memory in words. A chunk is named
-- by its address: `memsz` stands there and the embedded list node 8 bytes behind.
pub mod Sizes
pub mod Fit
pub mod Split
pub mod Last
pub mod Carve
pub mod Alloc
mod Tests
use tmos.Base.{
  ℕ, ◌+◌, ◌-◌, ◌*◌, ◌^◌, bit_and, bit_or, Bool, not, Option, none, some, ltb, leb, ◌==◌, ◌&&◌, ◌||◌,
  if◌then◌else◌, get_elem?, List, [], ◌∷◌,
}
use tmos.Base.Bits.{bit_not}
use tmos.Base.Outcome.{Outcome, done, panic, undef, ◌>>=◌, ◌>>◌, assert}
use tmos.Base.Store.{Store, write}
use tmos.Base.Word.{u64, sub64, shr}
use tmos.System.{page_size, page_size_shift, is_aligned}
use tmos.DList.{null, prev_of, next_of, list_init, list_add_front, list_del, list_is_empty}
use tmos.Heap.Sizes.{bin_sizes, get_size, get_bin_idx}

-- `_heap.last`, the end of the heap that `ksbrk` keeps, and the memory; `maps` says whether `vmm_map`
-- of `n` pages at an address returns.
pub record Heap : Type 0 where
  pub mem : Store
  pub last : ℕ
  pub brk : ℕ
  pub maps : (vaddr n : ℕ) → Bool

-- KRNL_HEAP_START and KRNL_HEAP_END.
abbrev pub heap_start : ℕ
heap_start = 0xffff800000000000

abbrev pub heap_end : ℕ
heap_end = 0xffff810000000000

-- The header word of a chunk and the flags in it.
abbrev pub chunk_list : ℕ → ℕ
chunk_list chunk = chunk + 8

unfoldable pub chunk_is_used : Store → ℕ → Bool
chunk_is_used m chunk = not (bit_and (m chunk) 1 == 0)

unfoldable pub chunk_set_used : ℕ → Store → Store
chunk_set_used chunk m = write m chunk (bit_or (m chunk) 1)

unfoldable pub chunk_set_free : ℕ → Store → Store
chunk_set_free chunk m = write m chunk (bit_and (m chunk) (bit_not 64 1))

unfoldable pub chunk_set_prev_used : ℕ → Store → Store
chunk_set_prev_used chunk m = write m chunk (bit_or (m chunk) 2)

unfoldable pub chunk_is_prev_used : Store → ℕ → Bool
chunk_is_prev_used m chunk = not (bit_and (m chunk) 2 == 0)

unfoldable pub chunk_set_prev_free : ℕ → Store → Store
chunk_set_prev_free chunk m = write m chunk (bit_and (m chunk) (bit_not 64 2))

unfoldable pub chunk_memsz : Store → ℕ → ℕ
chunk_memsz m chunk = bit_and (m chunk) (bit_not 64 7)

unfoldable pub chunk_sz : Store → ℕ → ℕ
chunk_sz m chunk = u64 (chunk_memsz m chunk + 8)

unfoldable pub chunk_footer : Store → ℕ → ℕ
chunk_footer m chunk = u64 (chunk + chunk_memsz m chunk)

unfoldable pub chunk_addr_next : Store → ℕ → ℕ
chunk_addr_next m chunk = u64 (chunk + chunk_sz m chunk)

unfoldable pub chunk_header_from_footer : Store → ℕ → ℕ
chunk_header_from_footer m footer = sub64 footer (m footer)

unfoldable pub chunk_list_prev : Store → ℕ → ℕ
chunk_list_prev m chunk = sub64 (prev_of m (chunk_list chunk)) 8

unfoldable pub chunk_list_next : Store → ℕ → ℕ
chunk_list_next m chunk = sub64 (next_of m (chunk_list chunk)) 8

-- The footer of the chunk before, which has a footer if it is free.
unfoldable pub chunk_addr_prev_memsz : Store → ℕ → ℕ
chunk_addr_prev_memsz m chunk = m (sub64 chunk 8)

unfoldable pub chunk_addr_prev_sz : Store → ℕ → ℕ
chunk_addr_prev_sz m chunk = u64 (chunk_addr_prev_memsz m chunk + 8)

unfoldable pub chunk_addr_prev : Store → ℕ → ℕ
chunk_addr_prev m chunk =
    if chunk_is_prev_used m chunk then sub64 chunk (chunk_addr_prev_sz m chunk) else null

-- `_chunk_split_front`: the new right chunk, which becomes the last one, and the memory.
unfoldable pub split_front : ℕ → ℕ → Store → ℕ × Store
split_front left left_memsz m =
    let right = u64 (left + left_memsz + 8) in
    let m1 = write m right (sub64 (sub64 (chunk_memsz m left) left_memsz) 8) in
    let m2 = write m1 left (bit_or left_memsz (bit_and (m1 left) 7)) in
    let m3 = write m2 (chunk_footer m2 left) left_memsz in
    let m4 = write m3 (chunk_footer m3 right) (chunk_memsz m3 right) in
    (right, list_add_front (chunk_list left) (chunk_list right) m4)

-- `_chunk_split_rear`, which returns the right chunk and keeps the left one as it is named.
unfoldable pub split_rear : ℕ → ℕ → Store → ℕ × Store
split_rear left left_memsz m =
    let right = u64 (left + left_memsz + 8) in
    let m1 = write m right (sub64 (sub64 (chunk_memsz m left) left_memsz) 8) in
    let m2 = write m1 left (bit_or left_memsz (bit_and (m1 left) 7)) in
    let m3 = write m2 (chunk_footer m2 left) left_memsz in
    let m4 = write m3 (chunk_footer m3 right) (chunk_memsz m3 right) in
    (right, list_add_front (chunk_list left) (chunk_list right) m4)

-- `ksbrk` for a positive increment; where `vmm_map` of the pages behind the old end stops the kernel,
-- so does it.
unfoldable pub sbrk : ℕ → Heap → Outcome (Heap × ℕ)
sbrk increment h = do
  assert (is_aligned increment page_size)
  assert (leb (u64 (h.brk + increment)) heap_end)
  assert (h.maps h.brk (shr increment page_size_shift))
  done (record h { brk = u64 (h.brk + increment) }, h.brk)

unfoldable pub heap_init : Heap → Outcome Heap
heap_init h = do
  r ← sbrk (2 * page_size) h
  let last = r.1
  let m1 = write r.0.mem last (2 * page_size - 8)
  let m2 = chunk_set_prev_used last (chunk_set_free last m1)
  done
      (record { mem = list_init (chunk_list last) m2; last = last; brk = r.0.brk; maps = r.0.maps })

-- A chunk of `memsz` bytes from the front of the last chunk.
unfoldable pub take_from_last : ℕ → Heap → Outcome (Heap × ℕ)
take_from_last memsz h = do
  g ←
      (if ltb (sub64 (chunk_memsz h.mem h.last) memsz) page_size
        then (sbrk page_size h >>= λ r.
            done (record r.0 { mem = write r.0.mem h.last (u64 (r.0.mem h.last + page_size)) }))
        else done h)
  let split = split_front g.last memsz g.mem
  done (record g { mem = chunk_set_used g.last split.1; last = split.0 }, u64 (g.last + 8))

-- `memset(p, 0, 8 * n)`, word by word: the sizes of the bins are multiples of 8.
unfoldable pub zero_words : ℕ → ℕ → Store → Store
zero_words n p m a = if (leb p a) && (ltb a (p + 8 * n)) then 0 else m a

unfoldable pub heap_cur_end : Heap → ℕ
heap_cur_end h = u64 (h.last + 8 + h.mem h.last)

-- `_bins` is an array of 54 records of 32 bytes at an address of the linker's choice; the list head
-- of a bin stands 16 bytes into it.
module _ (bins : ℕ) where
  abbrev pub bin_head : ℕ → ℕ
  bin_head k = bins + 32 * k + 16

  -- The first chunk of a bin, taken off its list.
  unfoldable pub take_from_bin : ℕ → Heap → Heap × ℕ
  take_from_bin k h =
      let chunk = chunk_list_next h.mem (sub64 (bin_head k) 8) in
      let m1 = chunk_set_used chunk h.mem in
      let m2 =
        if next_of m1 (chunk_list chunk) == bin_head k
        then m1
        else chunk_set_prev_used (chunk_addr_next m1 chunk) m1 in
      (record h { mem = list_del (chunk_list chunk) m2 }, u64 (chunk + 8))

  -- The rest of `kmalloc` for bin `k`, given the size in its record. An index past the array of
  -- bins is undefined.
  unfoldable pub take_from : ℕ → Option ℕ → Heap → Outcome (Heap × ℕ)
  take_from k none h = undef
  take_from k (some memsz) h =
      if list_is_empty h.mem (bin_head k) then take_from_last memsz h else done (take_from_bin k h)

  unfoldable pub kmalloc : ℕ → Heap → Outcome (Heap × ℕ)
  kmalloc size h =
      if size == 0
      then done (h, null)
      else do binsz ← get_size size; k ← get_bin_idx binsz; take_from k (get_elem? bin_sizes k) h

  unfoldable pub kcalloc : ℕ → ℕ → Heap → Outcome (Heap × ℕ)
  kcalloc nmemb size h = if (nmemb == 0) || (size == 0) then done (h, null) else do
    binsz ← get_size (u64 (nmemb * size))
    r ← kmalloc binsz h
    done (record r.0 { mem = zero_words (shr binsz 3) r.1 r.0.mem }, r.1)

  unfoldable pub kfree : ℕ → Heap → Outcome Heap
  kfree ptr h = do
    assert ((ltb heap_start ptr) && (ltb ptr (heap_cur_end h)))
    let chunk = sub64 ptr 8
    (if chunk_is_used h.mem chunk then done tt else panic)
    k ← get_bin_idx (chunk_memsz h.mem chunk)
    let m1 = chunk_set_free chunk h.mem
    let m2 = write m1 (chunk_footer m1 chunk) (chunk_memsz m1 chunk)
    (if ltb k 54
        then done (record h { mem = list_add_front (bin_head k) (chunk_list chunk) m2 })
        else undef)
