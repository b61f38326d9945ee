-- ===== src/Vmm/Frames.antt =====
-- The bitmap manager of kernel/mem/bitmap.c as the frame allocator of the virtual memory manager. Its
-- bitmaps are a memory of their own.
use mathlib.Core.Path.{subst}
use tmos.Base.{ℕ, ◌+◌, ◌*◌, ◌%◌, ◌^◌, ◌≤◌, ◌<◌, ◌≡◌, ◌≢◌, sym, ◌∙◌, true, bit_and, arith}
use tmos.Base.Outcome.{done}
use tmos.System.{paddr_invalid}
use tmos.Pmm.{Pmm, alloc, free, set_bit}
use tmos.Pmm.Summary.{IsSound, set_bit-IsSound, set_bit-SameFrame}
use tmos.Pmm.Alloc.{Taken, alloc-Taken}
use tmos.Vmm.{FrameAllocator, Vmm, vmm_map, page_fault, vmm_translate, vaddr_is_valid}
use tmos.Vmm.Keeps.{IsOuter}
use tmos.Vmm.Mapping.{IsPages, within}
use tmos.Vmm.Reserve.{vmm_map-ready}
use tmos.Vmm.Fault.{page_fault-vmm_map}

-- A sound manager of frames that an entry can name.
pub record IsManaged (s : Pmm) : Type 0 where
  pub sound : IsSound s
  pub aligned : s.base % 4096 ≡ 0
  pub memory : s.base + 4096 * s.tot_blk ≤ 2 ^ 52
  pub start : s.fast_start < 2 ^ 64
  pub end : s.fast_end < 2 ^ 64

pub alloc-IsManaged :
    (s t : Pmm) (a : ℕ)
    → IsManaged s
    → alloc s ≡ done (t, a)
    → a ≢ paddr_invalid
    → IsManaged t × (a % 4096 ≡ 0) × (a < 2 ^ 52)
alloc-IsManaged s t a m e some =
    let k = alloc-Taken s m.sound m.start m.end t a e some in
    let same = set_bit-SameFrame s k.frame in
    let ready : IsManaged (set_bit s k.frame) = record {
      sound = set_bit-IsSound s m.sound k.frame k.inside;
      aligned = rw same.base m.aligned;
      memory = rw (same.base, same.tot_blk) m.memory;
      start = rw same.fast_start m.start;
      end = rw same.fast_end m.end;
    } in
    (
      subst IsManaged (sym k.marked) ready,
      omega (arith, k.address, k.inside, m.aligned, m.memory),
      omega (arith, k.address, k.inside, m.memory),
    )

abbrev pub bitmap_frames : FrameAllocator
bitmap_frames = record {
  Pool = Pmm;
  alloc = alloc;
  free = free;
  IsReady = IsManaged;
  alloc_frame = alloc-IsManaged;
}

-- Demand paging with the bitmap manager. After `vmm_map` has returned, when an address in its pages
-- faults and `_alloc` hands out a frame, `vmm_page_fault_handler` returns with the page of the address
-- mapped to that frame; the frame is a block of the fast range that was free, and of all the blocks
-- it alone is marked by the fault. The blocks are pages below 2 ^ 52, and the pages of `vmm_map` lie
-- below 2 ^ 64 - 4096 and off the page tables.
pub page_fault-Taken :
    (n v flags : ℕ) (s t : Vmm bitmap_frames)
    → IsPages n v
    → IsManaged s.pool
    → vmm_map bitmap_frames v n flags s ≡ done t
    → (a err frame : ℕ) (pool : Pmm) → IsOuter a
    → vaddr_is_valid a ≡ true
    → within n v a ≡ true
    → (bit_and err 16 ≡ 0) × (bit_and err 8 ≡ 0) × (bit_and err 1 ≡ 0)
    → alloc t.pool ≡ done (pool, frame)
    → frame ≢ paddr_invalid
    → (u : Vmm bitmap_frames) × (page_fault bitmap_frames a err t ≡ done u)
      × Taken t.pool u.pool frame
      × (vmm_translate u.mem a ≡ done (frame + a % 4096))
page_fault-Taken n v flags s t r m e a err frame pool ha valid inside code taken some =
    let (ready, _) = vmm_map-ready bitmap_frames n v flags s t r m e in
    let k = alloc-Taken t.pool ready.sound ready.start ready.end pool frame taken some in
    let (_, u, returns, rest, mapped) =
      page_fault-vmm_map bitmap_frames n v flags s t r m e a err frame pool ha valid inside code
        taken some a ha valid in
    (u, returns, subst (λ x. Taken t.pool x frame) (sym rest) k, mapped ∙ ground arith)
