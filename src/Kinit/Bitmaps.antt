-- ===== src/Kinit/Bitmaps.antt =====
-- `_remap_cb` of kernel/mem/bitmap.c: the bitmaps in the new page tables.
use tmos.Base.{ℕ, ◌+◌, ◌-◌, ◌*◌, ◌/◌, ◌%◌, ◌^◌, ◌≤◌, ◌<◌, ◌≡◌, inr, true, arith}
use tmos.Base.Outcome.{done}
use tmos.Pmm.{Pmm}
use tmos.Pmm.Init.{bitmap_bytes}
use tmos.Pmm.Blank.{bitmap_bytes-eq}
use tmos.Vmm.{FrameAllocator, Vmm, vaddr_is_valid, vmm_translate}
use tmos.Kinit.Offsets.{IsBase, vmm_map_to-Offset}
use tmos.Kinit.{remap_cb}

bitmap_bytes-pages : (tot : ℕ) → tot < 2 ^ 52 → bitmap_bytes tot / 2 ^ 12 * 4096 ≡ bitmap_bytes tot
bitmap_bytes-pages tot small = omega (arith, bitmap_bytes-eq tot small)

-- When `_remap_cb` returns, every address in the memory of the bitmaps, as `_init` reserves it, is
-- translated to the address less the kernel's base. The base is a page in the last 512 GiB, the bitmaps
-- stand on a page above it and end below the end of the address space.
pub remap_cb-translate :
    (vbase : ℕ) (b : IsBase vbase) (frames : FrameAllocator) (mgr : Pmm) (s t : Vmm frames) (a : ℕ)
    → mgr.tot_blk < 2 ^ 52
    → vbase ≤ mgr.bm0.start
    → mgr.bm0.start % 4096 ≡ 0
    → mgr.bm0.start + bitmap_bytes mgr.tot_blk < 2 ^ 64
    → frames.IsReady s.pool
    → remap_cb vbase frames mgr s ≡ done t
    → mgr.bm0.start ≤ a
    → a < mgr.bm0.start + bitmap_bytes mgr.tot_blk
    → vaddr_is_valid a ≡ true
    → vmm_translate t.mem a ≡ done (a - vbase)
unfolding remap_cb bitmap_bytes
remap_cb-translate vbase b frames mgr s t a small above page fits ready maps from to valid =
    let n = bitmap_bytes mgr.tot_blk / 2 ^ 12 in
    let whole = bitmap_bytes-pages mgr.tot_blk small in
    (vmm_map_to-Offset vbase b frames a (omega arith) (omega arith) valid n mgr.bm0.start 3 s t
        above page (omega (arith, whole)) (omega arith) ready maps).1
      (inr (from, omega (arith, whole)))
