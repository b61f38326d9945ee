-- ===== src/Multiboot2/Loads.antt =====
-- `mem_load_mb2_mmap` without a memory map.
use tmos.Base.{ℕ, ◌+◌, ◌<◌, ◌≡◌, refl, List, [], ◌∷◌, arith, length}
use tmos.Base.Outcome.{panic}
use tmos.Base.Store.{Store}
use tmos.Multiboot2.{mb2_get_tag, mem_load_mb2_mmap}
use tmos.Multiboot2.Format.{Tag, tag_bytes, find_tag, Lacks}
use tmos.Multiboot2.Tags.{IsTable, mb2_get_tag-mb2_table_load}

Lacks-find_tag : (type a : ℕ) (ts : List Tag) → Lacks type ts → find_tag type a ts ≡ 0
Lacks-find_tag type a [] h = refl
Lacks-find_tag type a (t ∷ ts) h =
    ground (arith, h.0, Lacks-find_tag type (a + length (tag_bytes t)) ts h.1)

-- `mem_load_mb2_mmap` stops the kernel when no table is loaded, and when the table, in the multiboot2
-- format, has no memory map among its tags, given more fuel than it has tags.
pub mem_load_mb2_mmap-panic :
    (m : Store) (a : ℕ) (ts : List Tag) (fuel : ℕ) (r : Store)
    → IsTable m a ts
    → Lacks 6 ts
    → length ts < fuel
    → (mem_load_mb2_mmap fuel m 0 r ≡ panic) × (mem_load_mb2_mmap fuel m a r ≡ panic)
unfolding mem_load_mb2_mmap mb2_get_tag
mem_load_mb2_mmap-panic m a ts fuel r v lacks enough =
    let found = (mb2_get_tag-mb2_table_load m a ts fuel 6 v enough).1 in
    let nothing = Lacks-find_tag 6 (a + 8) ts lacks in (refl, rw (found, nothing) refl)
