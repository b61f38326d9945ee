-- ===== src/Heap/Last.antt =====
-- The last chunk of the heap: its invariant, and the allocation from it as a growth step and a split.
use tmos.Base.{
  ℕ, ◌+◌, ◌-◌, ◌*◌, ◌/◌, ◌%◌, ◌^◌, ◌≤◌, ◌<◌, ◌≡◌, ◌≢◌, refl, true, arith, ltb, if◌then◌else◌,
  Bool-cases, inl, inr,
}
use tmos.Base.Store.{write}
use tmos.Base.Word.{u64, sub64}
use tmos.Base.Outcome.{done}
use tmos.System.{is_aligned, page_size}
use tmos.Heap.{Heap, heap_end, chunk_set_used, split_front, sbrk, take_from_last}
use tmos.Heap.Split.{chunk_memsz-eq}

-- The last chunk ends at the break, holds a page less one header at least, and its `next` link
-- names no word behind its own list node.
pub record IsHeap (h : Heap) : Type 0 where
  pub header : h.mem h.last < 2 ^ 64
  pub least : 4088 ≤ h.mem h.last / 8 * 8
  pub ends : h.last + 8 + h.mem h.last / 8 * 8 ≡ h.brk
  pub top : h.brk ≤ heap_end
  pub behind : h.mem (h.last + 16) ≤ h.last + 8
  pub not_header : h.mem (h.last + 16) ≢ h.last

-- The sizes of the bins.
pub record IsBinSize (n : ℕ) : Type 0 where
  pub least : 24 ≤ n
  pub most : n ≤ 3840
  pub words : n % 8 ≡ 0

-- A page more at the end.
grown : Heap → Heap
grown h = record h { mem = write h.mem h.last (h.mem h.last + 4096); brk = h.brk + 4096 }

-- The heap that the split starts from.
pub ready : ℕ → Heap → Heap
unfolding grown
ready n h = if ltb (h.mem h.last / 8 * 8 - n) 4096 then grown h else h

-- The split and the flag, with room at hand.
abbrev pub carved : ℕ → Heap → Heap × ℕ
carved n g =
    let split = split_front g.last n g.mem in
    (record g { mem = chunk_set_used g.last split.1; last = split.0 }, u64 (g.last + 8))

module _ (h : Heap) (v : IsHeap h) (more : h.brk + 4096 ≤ heap_end)
    (mapped : h.maps h.brk 1 ≡ true) where
  grown-IsHeap : IsHeap (grown h)
  unfolding grown write
  grown-IsHeap = record {
    header = ground (arith, v);
    least = ground (arith, v);
    ends = ground (arith, v);
    top = ground (arith, v);
    behind = ground (arith, v);
    not_header = ground (arith, v);
  }

  sbrk-page : sbrk page_size h ≡ done (record h { brk = h.brk + 4096 }, h.brk)
  unfolding sbrk is_aligned
  sbrk-page = rw mapped (ground (arith, v))

  module _ (n : ℕ) (b : IsBinSize n) where
    pub ready-IsHeap : IsHeap (ready n h)
    unfolding ready
    ready-IsHeap = elim (Bool-cases (ltb (h.mem h.last / 8 * 8 - n) 4096)) [
      | inl small ↦ rw small grown-IsHeap
      | inr large ↦ rw large v
    ]

    pub ready_room : (4096 + n ≤ (ready n h).mem h.last / 8 * 8) × ((ready n h).last ≡ h.last)
    unfolding ready write
    ready_room = ground (arith, v)

    pub ready_behind : (ready n h).mem (h.last + 16) ≡ h.mem (h.last + 16)
    unfolding ready write
    ready_behind = ground (arith, v)

    pub ready_grows : h.brk ≤ (ready n h).brk
    unfolding ready grown
    ready_grows = ground (arith, v)

    pub ready_limit : (ready n h).brk ≤ h.brk + 4096
    unfolding ready grown
    ready_limit = ground (arith, v)

    pub ready_maps : (ready n h).maps ≡ h.maps
    unfolding ready grown
    ready_maps = elim (Bool-cases (ltb (h.mem h.last / 8 * 8 - n) 4096)) [
      | inl small ↦ rw small refl
      | inr large ↦ rw large refl
    ]

    pub take_from_last-eq : take_from_last n h ≡ done (carved n (ready n h))
    unfolding take_from_last ready grown
    take_from_last-eq =
        let size : sub64 (h.mem h.last / 8 * 8) n ≡ h.mem h.last / 8 * 8 - n =
          omega (arith, v, b) in
        let wraps : u64 (h.mem h.last + 4096) ≡ h.mem h.last + 4096 = omega (arith, v) in
        elim (Bool-cases (ltb (h.mem h.last / 8 * 8 - n) 4096)) [
          | inl small ↦ rw (chunk_memsz-eq h.mem h.last v.header, size, small, sbrk-page, wraps)
          | inr large ↦ rw (chunk_memsz-eq h.mem h.last v.header, size, large)
        ]
