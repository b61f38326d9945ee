-- ===== src/Vmm.antt =====
-- The virtual memory manager of kernel/arch/x86_64/mem/vmm.c. The code reaches its page tables at
-- the virtual addresses of the recursive mapping, and so does the model: `mem` holds the words that
-- the processor sees at these addresses. A table whose parent entry is not present holds anything.
pub mod Entries
pub mod Walk
pub mod Create
pub mod Keeps
pub mod Pages
pub mod Mapping
pub mod Drop
pub mod Unmap
pub mod Opens
pub mod Steps
pub mod Returns
pub mod Reserve
pub mod Fault
pub mod Frames
pub mod Tests
use tmos.Base.{
  ℕ, zero, suc, ◌+◌, ◌-◌, ◌*◌, ◌^◌, ◌%◌, ◌<◌, ◌≡◌, ◌≢◌, bit_and, bit_or, Bool, true, false, not,
  ◌&&◌, ◌||◌, ltb, leb, ◌==◌, if◌then◌else◌,
}
use tmos.Base.Bits.{bit_not}
use tmos.Base.Int.{ℤ, pos, negsuc}
use tmos.Base.Outcome.{Outcome, done, panic, undef, no_fuel, ◌>>=◌, ◌>>◌, assert}
use tmos.Base.Store.{Store, write}
use tmos.Base.Word.{u64, shr, shl, sub64}
use tmos.System.{page_size, page_size_shift, paddr_algn_mask, paddr_invalid, is_aligned}
use tmos.Heap.{heap_end}
use tmos.DList.{null}

abbrev pub flg_present : ℕ
flg_present = 0x1

abbrev pub flg_writable : ℕ
flg_writable = 0x2

abbrev pub flg_huge_page : ℕ
flg_huge_page = 0x80

abbrev pub flg_to_alloc : ℕ
flg_to_alloc = 0x200

abbrev pub pte_paddr_mask : ℕ
pte_paddr_mask = 0x000ffffffffff000

abbrev pub pml4_vaddr : ℕ
pml4_vaddr = 0xffffff7fbfdfe000

-- The macros on an entry.
unfoldable pub pte_unused : ℕ → Bool
pte_unused e = e == 0

unfoldable pub pte_present : ℕ → Bool
pte_present e = not (bit_and e flg_present == 0)

unfoldable pub pte_huge : ℕ → Bool
pte_huge e = not (bit_and e flg_huge_page == 0)

unfoldable pub pte_to_alloc : ℕ → Bool
pte_to_alloc e = not (bit_and e flg_to_alloc == 0)

unfoldable pub pte_flags : ℕ → ℕ
pte_flags e = bit_and e (bit_not 64 pte_paddr_mask)

unfoldable pub pte_paddr : ℕ → ℕ
pte_paddr e = bit_and e pte_paddr_mask

unfoldable pub pml4_idx : ℕ → ℕ
pml4_idx addr = bit_and (shr addr 39) 0x1ff

unfoldable pub pdp_idx : ℕ → ℕ
pdp_idx addr = bit_and (shr addr 30) 0x1ff

unfoldable pub pd_idx : ℕ → ℕ
pd_idx addr = bit_and (shr addr 21) 0x1ff

unfoldable pub pt_idx : ℕ → ℕ
pt_idx addr = bit_and (shr addr 12) 0x1ff

unfoldable pub vaddr_is_valid : ℕ → Bool
vaddr_is_valid addr =
    (bit_and addr 0xfff8000000000000 == 0)
    || (bit_and addr 0xfff8000000000000 == 0xfff8000000000000)

-- `PT_CHILD`, and the address of `tab->e[idx]`.
unfoldable pub child_addr : ℕ → ℕ → ℕ
child_addr parent idx = bit_or (bit_or (shl parent 9) 0xffff000000000000) (shl idx 12)

abbrev pub entry_addr : ℕ → ℕ → ℕ
entry_addr tab idx = tab + 8 * idx

-- `_pt_child`: the table, or NULL.
unfoldable pub pt_child : Store → ℕ → ℕ → ℕ
pt_child m tab idx =
    let e = m (entry_addr tab idx) in
    if pte_present e && not (pte_huge e) then child_addr tab idx else null

-- `memset(ptr, 0, PAGE_SIZE)`.
unfoldable pub zero_page : ℕ → Store → Store
zero_page p m a = if leb p a && ltb a (p + 4096) then 0 else m a

unfoldable pub vmm_translate : Store → ℕ → Outcome ℕ
vmm_translate m vaddr = do
  assert (vaddr_is_valid vaddr)
  let off = bit_and vaddr 0xfff
  let pd_off = bit_and vaddr (0x1000 * 2 ^ 9 - 1)
  let pdp_off = bit_and vaddr (0x1000 * 2 ^ 18 - 1)
  let pdp = pt_child m pml4_vaddr (pml4_idx vaddr)
  let pdpe = m (entry_addr pdp (pdp_idx vaddr))
  let pd = pt_child m pdp (pdp_idx vaddr)
  let pde = m (entry_addr pd (pd_idx vaddr))
  let pt = pt_child m pd (pd_idx vaddr)
  let pte = m (entry_addr pt (pt_idx vaddr))
  done (
      if pdp == null
      then paddr_invalid
      else if not (pte_present pdpe)
      then paddr_invalid
      else if pte_huge pdpe
      then u64 (pte_paddr pdpe + pdp_off)
      else if pd == null
      then paddr_invalid
      else if not (pte_present pde)
      then paddr_invalid
      else if pte_huge pde
      then u64 (pte_paddr pde + pd_off)
      else if pt == null
      then paddr_invalid
      else if pte_present pte
      then u64 (pte_paddr pte + off)
      else paddr_invalid)

-- `for (j = 0; j < 512; j++) if (!PTE_UNUSED(tab->e[j])) { flag = 0; break; }`, with the rounds left.
unfoldable pub all_unused : ℕ → ℕ → ℕ → Store → Bool
all_unused zero tab j m = true
all_unused (suc n) tab j m =
    let rest = all_unused n tab (j + 1) m in
    if pte_unused (m (entry_addr tab j)) then rest else false

-- What the manager uses of `struct pmmgr`: `alloc` and `free`, and what it relies on: a frame that is
-- handed out is a page of the memory that an entry can name.
pub record FrameAllocator : Type 1 where
  pub Pool : Type 0
  pub alloc : Pool → Outcome (Pool × ℕ)
  pub free : ℕ → Pool → Outcome Pool
  pub IsReady : Pool → Type 0
  pub alloc_frame :
      (s t : Pool) (a : ℕ)
      → IsReady s
      → alloc s ≡ done (t, a)
      → a ≢ paddr_invalid
      → IsReady t × (a % 4096 ≡ 0) × (a < 2 ^ 52)

module _ (frames : FrameAllocator) where
  open frames use {Pool, alloc, free}

  -- `_brkptr`, the memory, and the state of `_PMMGR`, which is set.
  pub record Vmm : Type 0 where
    pub mem : Store
    pub pool : Pool
    pub brk : ℕ

  unfoldable pub pt_create : ℕ → ℕ → Vmm → Outcome (Vmm × ℕ)
  pt_create tab idx s =
      let e = s.mem (entry_addr tab idx) in
      let child = child_addr tab idx in
      if pte_present e then done (s, (if not (pte_huge e) then child else null)) else do
        r ← alloc s.pool
        assert (not (r.1 == paddr_invalid))
        let m1 = write s.mem (entry_addr tab idx) 0
        let m2 = write m1 (entry_addr tab idx) (bit_or r.1 (bit_or flg_present flg_writable))
        done (record s { mem = zero_page child m2; pool = r.0 }, child)

  -- The tables that lead to the page of `vaddr`, with an assertion behind each; the last one.
  unfoldable pub create_tables : ℕ → Vmm → Outcome (Vmm × ℕ)
  create_tables vaddr s = do
    a ← pt_create pml4_vaddr (pml4_idx vaddr) s
    assert (not (a.1 == null))
    b ← pt_create a.1 (pdp_idx vaddr) a.0
    assert (not (b.1 == null))
    c ← pt_create b.1 (pd_idx vaddr) b.0
    assert (not (c.1 == null))
    done c

  -- One round of `vmm_map` and `vmm_map_to`, for the entry that they store.
  unfoldable pub set_page : ℕ → ℕ → Vmm → Outcome Vmm
  set_page vaddr entry s = do
    r ← create_tables vaddr s
    let p = entry_addr r.1 (pt_idx vaddr)
    assert (pte_unused (r.0.mem p))
    done (record r.0 { mem = write r.0.mem p entry })

  unfoldable pub map_pages : ℕ → (vaddr flags : ℕ) → Vmm → Outcome Vmm
  map_pages zero vaddr flags s = done s
  map_pages (suc n) vaddr flags s =
      set_page vaddr (bit_and (bit_or flags flg_to_alloc) (bit_not 64 flg_present)) s
      >>= map_pages n (u64 (vaddr + page_size)) flags

  unfoldable pub vmm_map : (vaddr n flags : ℕ) → Vmm → Outcome Vmm
  vmm_map vaddr n flags s = do
    assert (not (vaddr == 0))
    assert (vaddr_is_valid vaddr)
    assert (bit_and vaddr 0xfff == 0)
    map_pages n vaddr flags s

  unfoldable pub map_pages_to : ℕ → (vaddr paddr flags : ℕ) → Vmm → Outcome Vmm
  map_pages_to zero vaddr paddr flags s = done s
  map_pages_to (suc n) vaddr paddr flags s =
      set_page vaddr (bit_or paddr (bit_or flags flg_present)) s
      >>= map_pages_to n (u64 (vaddr + page_size)) (u64 (paddr + page_size)) flags

  unfoldable pub vmm_map_to : (vaddr paddr n flags : ℕ) → Vmm → Outcome Vmm
  vmm_map_to vaddr paddr n flags s = do
    assert (not (vaddr == 0))
    assert (vaddr_is_valid vaddr)
    assert (bit_and vaddr 0xfff == 0)
    assert (bit_and paddr (bit_not 64 paddr_algn_mask) == 0)
    map_pages_to n vaddr paddr flags s

  -- `paddr = PTE_PADDR(tab->e[idx]); _PMMGR->free(paddr); tab->e[idx] = 0;`
  unfoldable pub drop_table : ℕ → Vmm → Outcome Vmm
  drop_table p s = do
    t ← free (pte_paddr (s.mem p)) s.pool
    done (record s { mem = write s.mem p 0; pool = t })

  -- The end of a round of `_do_free`: the tables that are empty now are freed, from the last one up.
  unfoldable pub drop_empty : (pml4e pdp pdpe pd pde pt : ℕ) → Vmm → Outcome Vmm
  drop_empty pml4e pdp pdpe pd pde pt s = if not (all_unused 512 pt 0 s.mem) then done s else do
    t ← drop_table pde s
    if not (all_unused 512 pd 0 t.mem) then done t else do
      u ← drop_table pdpe t
      if not (all_unused 512 pdp 0 u.mem) then done u else drop_table pml4e u

  unfoldable pub free_page : ℕ → Bool → Vmm → Outcome Vmm
  free_page vaddr do_free s = do
    let pdp = pt_child s.mem pml4_vaddr (pml4_idx vaddr)
    assert (not (pdp == null))
    let pd = pt_child s.mem pdp (pdp_idx vaddr)
    assert (not (pd == null))
    let pt = pt_child s.mem pd (pd_idx vaddr)
    assert (not (pt == null))
    let p = entry_addr pt (pt_idx vaddr)
    assert (not (pte_unused (s.mem p)))
    t ← (if do_free then free (pte_paddr (s.mem p)) s.pool else done s.pool)
    drop_empty (entry_addr pml4_vaddr (pml4_idx vaddr)) pdp (entry_addr pdp (pdp_idx vaddr)) pd
        (entry_addr pd (pd_idx vaddr)) pt (record s { mem = write s.mem p 0; pool = t })

  unfoldable pub free_pages : ℕ → ℕ → Bool → Vmm → Outcome Vmm
  free_pages zero vaddr do_free s = done s
  free_pages (suc n) vaddr do_free s =
      free_page vaddr do_free s >>= free_pages n (u64 (vaddr + page_size)) do_free

  unfoldable pub do_free_pages : ℕ → ℕ → Bool → Vmm → Outcome Vmm
  do_free_pages vaddr n do_free s = do
    assert (not (vaddr == 0))
    assert (vaddr_is_valid vaddr)
    assert (bit_and vaddr 0xfff == 0)
    free_pages n vaddr do_free s

  unfoldable pub vmm_free : (vaddr n : ℕ) → Vmm → Outcome Vmm
  vmm_free vaddr n s = do_free_pages vaddr n true s

  unfoldable pub vmm_unmap : (vaddr n : ℕ) → Vmm → Outcome Vmm
  vmm_unmap vaddr n s = do_free_pages vaddr n false s

  -- `ksbrk` for an increment that is positive, and for minus the decrement `diff`.
  unfoldable pub ksbrk_up : ℕ → Vmm → Outcome (Vmm × ℕ)
  ksbrk_up increment s = do
    assert (is_aligned increment page_size)
    assert (leb (u64 (s.brk + increment)) heap_end)
    t ← vmm_map s.brk (shr increment page_size_shift) flg_writable s
    done (record t { brk = u64 (t.brk + increment) }, s.brk)

  unfoldable pub ksbrk_down : ℕ → Vmm → Outcome (Vmm × ℕ)
  ksbrk_down diff s = do
    assert (is_aligned diff page_size)
    t ← vmm_free (sub64 s.brk diff) (shr diff page_size_shift) s
    done (record t { brk = sub64 t.brk diff }, s.brk)

  unfoldable pub ksbrk : ℤ → Vmm → Outcome (Vmm × ℕ)
  ksbrk (pos zero) s = ksbrk_down 0 s
  ksbrk (pos (suc n)) s = ksbrk_up (suc n) s
  ksbrk (negsuc n) s = ksbrk_down (n + 1) s

  -- `vmm_page_fault_handler`; `crash_and_burn` stops for ever, as a panic does.
  unfoldable pub page_fault : (addr err : ℕ) → Vmm → Outcome Vmm
  page_fault addr err s =
      let pdp = pt_child s.mem pml4_vaddr (pml4_idx addr) in
      let pd = pt_child s.mem pdp (pdp_idx addr) in
      let pt = pt_child s.mem pd (pd_idx addr) in
      let p = entry_addr pt (pt_idx addr) in
      if not (bit_and err 16 == 0)
      then panic
      else if not (bit_and err 8 == 0)
      then panic
      else if not (bit_and err 1 == 0)
      then done s
      else if (pdp == null) || (pd == null) || (pt == null)
      then panic
      else if pte_to_alloc (s.mem p)
      then (alloc s.pool >>= λ r.
          assert (not (r.1 == paddr_invalid))
          >> done (record s {
            mem = write s.mem p (
                bit_or r.1
                  (bit_and (bit_or (pte_flags (s.mem p)) flg_present) (bit_not 64 flg_to_alloc)));
            pool = r.0;
          }))
      else panic
