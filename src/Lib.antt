-- ===== src/Lib.antt =====
-- tmos: the memory managers, the kernel heap, the lists and the C library of the kernel.
--
-- The kernel of kernel/ learns from the boot loader which memory there is (kernel/multiboot2.c),
-- keeps track of the physical frames with the bitmaps of kernel/mem/bitmap.c, maps them to
-- virtual pages with the page tables of kernel/arch/x86_64/mem/vmm.c, which asks for a frame
-- where a page needs one, and hands out smaller blocks with the heap of kernel/mem/heap.c. All
-- stand on the macros and inline functions of include/tmos/ and on the memory functions of
-- libc/string.c.
--
--   * Base: the numbers, lists, tests and results that the other modules share. Memory is a function
--     from addresses to cells. A call comes to a value, to a stop in `__panic`, to a step that C
--     leaves undefined, or to a loop that is still running when its fuel is spent.
--   * System: `ROUND_UP`, `ROUND_DOWN`, `IS_ALIGNED` (include/tmos/system.h) and the sizes of
--     include/tmos/arch/x86_64/system.h.
--   * Region: `region_t` and its macros (include/tmos/memory.h).
--   * Bitmap: `struct bitmap` and its macros (include/tmos/ds/bitmap.h), over memory in words.
--   * Pmm: kernel/mem/bitmap.c. The record `Pmm` is `_mgr` with the memory that holds its bitmaps;
--     `set_bit`, `mark_used`, `mark_free`, `init`, `alloc` and `free` are `_set`, `_mark_used`,
--     `_mark_free`, `_init`, `_alloc` and `_free`. Pmm.Summary says how the second bitmap follows the
--     first, Pmm.Marks and Pmm.Ranges which blocks the marking changes, Pmm.Alloc and Pmm.Free what a
--     frame is that is handed out, and Pmm.Blank and Pmm.Ready what `_init` leaves.
--   * DList: the embedded list of include/tmos/ds/list.h, over memory in words.
--   * Heap: kernel/mem/heap.c. The record `Heap` is `_heap.last`, the break that `ksbrk` of
--     kernel/arch/x86_64/mem/vmm.c keeps, the memory, and whether `vmm_map` returns for the pages
--     that `sbrk`, the growing half of `ksbrk`, asks it for.
--     Heap.Sizes has the table of the bins and the two functions that choose one, Heap.Split and
--     Heap.Carve the allocation from the last chunk, and Heap.Alloc `heap_init` and `kmalloc` as a whole.
--   * Vmm: kernel/arch/x86_64/mem/vmm.c with include/tmos/arch/x86_64/memory.h. The store holds
--     the words at the virtual addresses of the recursive mapping, so that `pt_child` and
--     `pt_create` compute the addresses of the tables as the code does. `map_pages` and
--     `map_pages_to` are the loops of `vmm_map` and `vmm_map_to`, `free_pages` is that of
--     `_do_free`, `page_fault` is `vmm_page_fault_handler`. Vmm.Walk brings `vmm_translate` to
--     page numbers, Vmm.Create, Vmm.Keeps and Vmm.Drop are about tables that come and go,
--     Vmm.Pages about one page, and Vmm.Mapping, Vmm.Unmap, Vmm.Reserve and Vmm.Fault about the
--     operations as a whole. Vmm.Opens, Vmm.Steps and Vmm.Returns say when `vmm_map_to` comes to
--     its end, and Vmm.Frames gives the manager the frames of Pmm.
--   * Libc: libc/string.c over memory in bytes; Libc.Caseless has `stricmp` and `strnicmp`.
--   * Ctype: the table of libc/ctype.c and the macros of include/ctype.h.
--   * Vsprintf: kernel/vsprintf.c. Vsprintf.Number is `_number`, Vsprintf.Format the flags, the width, the
--     precision and the qualifier of a conversion, Vsprintf.Print the loop of `vsnprintf`, in a round
--     for each byte or conversion of the format, and `snprintf` and the others that call it. A write
--     goes through `put`, which counts the byte and stores it only inside the buffer. Vsprintf.Layout
--     and Vsprintf.Field are about the field of a number, Vsprintf.Inside and Vsprintf.Bounds about
--     the buffer, Vsprintf.Rest, Vsprintf.Rounds and Vsprintf.Ends about the rounds. The output is
--     undefined where its end would pass the end of the address space. A conversion that is not known
--     is undefined behind the end of the buffer, where the code does not leave its loop.
--   * Mmap: kernel/mem/memory.c. `struct mmap` is a function from indices to region words; an entry
--     behind its 128 is undefined to read. Mmap.Moves is about `_move_right`, Mmap.Splits about
--     `mmap_split_at`, Mmap.Ends about the loop of `mmap_insert_region`, whose fuel is the distance of
--     its two indices and one more.
--   * Multiboot2: kernel/multiboot2.c, over the bytes of the table. Multiboot2.Format writes such bytes from
--     tags, Multiboot2.Tags, Multiboot2.Loads and Multiboot2.Regions read them back. The walk over the
--     tags runs on fuel, a round for each tag and one more.
--   * Kinit: kernel/arch/x86_64/boot/kinit.c, with the section headers of include/tmos/elf.h, and
--     `_remap_cb` of kernel/mem/bitmap.c. Kinit.Choice is about `_init_mem_mngr`, Kinit.Offsets, Kinit.Sections
--     and Kinit.Loop about the kernel's sections in the new page tables, Kinit.Bitmaps about the bitmaps.
--   * Gdt: kernel/arch/x86_64/cpu/gdt.c with include/tmos/arch/x86_64/gdt.h and tss.h.
--   * Pit: kernel/arch/x86_64/dev/pit.c, with the gates of Idt and the port writes of Pic.
--   * Fmt: bootloader/stage2/util/fmt.c, as the list of the texts that the callback is given. Fmt.Items says
--     what a format means, with numerals of its own; Fmt.Numerals, Fmt.Numbers, Fmt.Output and Fmt.Returns
--     are about it, Fmt.Ends and Fmt.Rounds about the rounds.
--     The loop runs on fuel, a round for each run of text or conversion and one more.
--   * BiosMap: bootloader/stage2/mem.c, over the map as a function from indices to entries. BiosMap is
--     `_sort_map`, BiosMap.Translate `_translate`.
--   * IntUtil: `itoa`, `utoa`, `lltoa` and `ulltoa` of bootloader/stage2/util/intutil.c, with the bytes
--     that they store as the result.
--   * Pic: kernel/arch/x86_64/dev/pic.c, as the list of its port writes.
--   * Serial: kernel/arch/x86_64/serial.c. Serial.Text is about the output of a string, which runs on fuel
--     for the reads of the line status and on a round for each byte and one more.
--   * Klog: kernel/klog.c. Klog.Spin is the lock of kernel/arch/x86_64/spin.asm, Klog.Sends is about `klog`
--     and `__panic`. The log sends its buffer in 4096 rounds, as many as it has bytes.
--   * Idt: the gates of kernel/arch/x86_64/cpu/idt.c and `idt_init`. The reserved fields of an entry are left out.
--
-- Numbers of 64 bits wrap where the code's do (`u64`, `sub64`). The loops over a counter are recursion
-- on the rounds that are left. The loops that look for a NUL run on fuel, a round each: a string of
-- `n` bytes needs `n + 1`.
--
-- Not modelled: the change of the address space (`_setup_new_pml4`, `_do_with_new_pml4` and
-- `vmm_init` of kernel/arch/x86_64/mem/vmm.c), the invalidation of the TLB, the output to the
-- console, and assembly. The memory managers and the log are used by one processor, without interrupts but
-- for the page fault itself. The kernel's state does not overlap the multiboot2 table. In the
-- boot loader the code that only reads and writes ports, and the log are left out. The frame
-- allocator that the virtual memory manager calls through `struct pmmgr` is a parameter with a
-- law (`FrameAllocator`), and `crash_and_burn` stops as a panic does.
pub mod Base
pub mod BiosMap
pub mod Bitmap
pub mod Ctype
pub mod DList
pub mod Fmt
pub mod Gdt
pub mod Heap
pub mod Idt
pub mod IntUtil
pub mod Kinit
pub mod Klog
pub mod Libc
pub mod Mmap
pub mod Multiboot2
pub mod Pic
pub mod Pit
pub mod Pmm
pub mod Region
pub mod Serial
pub mod System
pub mod Vmm
pub mod Vsprintf
