-- ===== src/Lib.antt =====
-- os_labs: the core of the teaching kernel in lab8/code, a RISC-V uCore, with one allocator of
-- lab2.
--
-- Parts and files. A file `A.antt` holds the definitions of a part, `A/` what is proved about it.
-- - Prelude: tests on numbers, options as a monad, `assert`, lists and integers. A failed assertion,
--   which panics the kernel, is `none`.
-- - Strings: lab8/code/libs/string.c, over a memory that gives the byte at each address.
-- - LinkedList: lab8/code/libs/list.h, on a store of links; a node is a number. A ring is the list of
--   nodes that the links pass through.
-- - SkewHeap: lab8/code/libs/skew_heap.h, as trees; the comparison is a parameter.
-- - Pmm: lab8/code/kern/mm/default_pmm.c and lab2/code/best_fit_pmm.c, on LinkedList. A page is its
--   index. `Blocks` relates the linked free list to a list of blocks. `Pages` is alloc_pages and
--   free_pages of lab8/code/kern/mm/pmm.c on the first of them.
-- - Vmm: find_vma, insert_vma_struct, mm_map and user_mem_check of lab8/code/kern/mm/vmm.c, on the
--   list of the areas.
-- - UserMem: copy_from_user, copy_to_user and copy_string of the same file, on Strings and Vmm.
-- - Swap: lab8/code/kern/mm/swap_fifo.c, on LinkedList.
-- - Proc: get_pid, hash_proc, unhash_proc and find_proc of lab8/code/kern/process/proc.c, with
--   lab8/code/libs/hash.c.
-- - Sched: lab8/code/kern/schedule/sched.c and default_sched_stride.c, on SkewHeap: run queue, wakeup,
--   `schedule` and timers. A process is a number.
-- - Sync: lab8/code/kern/sync/wait.c and sem.c, on Sched. `__down` is two functions, up to the switch
--   inside `schedule()` and from its return on.
-- - Iobuf: lab8/code/kern/fs/iobuf.c, on Strings.
-- - Files: the table of open files of lab8/code/kern/fs/file.c, and the counts of inodes.
-- - Bitmap: lab8/code/kern/fs/sfs/bitmap.c; a word of the map is given by its bits.
-- - Sfs: lab8/code/kern/fs/sfs/sfs_io.c and sfs_inode.c, on Bitmap and Iobuf: the blocks of the disk, the
--   free blocks (`Freemap`), the blocks of a file by index (`Blockmap`, with `Entry`, `Append` and
--   `Truncate` on what changes them), reads, writes and lengths (`File`, with `IoRead` and `Length`),
--   and the entries of a directory by inode number or slot (`Directory`).
--   The state is a mounted file system and one inode; a transfer of one block by
--   lab8/code/kern/fs/devs/dev_disk0.c is one step.
-- - Family: set_links, remove_links, and the loops over children of do_exit and do_wait in
--   lab8/code/kern/process/proc.c, on Sched. `Chains` relates the pointers to a list of children.
-- - Paging: get_pte, get_page, page_insert and page_remove of lab8/code/kern/mm/pmm.c. The page
--   allocator is an interface, its operations and what they promise, which `Manager` fills with
--   `Pmm.Pages`.
-- - Monitor: lab8/code/kern/sync/monitor.c, as the steps of threads between the semaphore operations
--   that may block.
--
-- A C function is a function on the state of its part, under the same name; where a loop or a test
-- of it has a name of its own, a comment says which. Interrupts are off inside the functions that
-- save and restore them, so each runs as one step.
--
-- Integers wrap where the code can wrap: `size_t` at 2^64 in `strlen`, `unsigned int` at
-- 2^32 in the page managers, strides and hashes. The `long` of `strtol`, whose overflow C
-- leaves undefined, wraps at 2^64. Addresses do not wrap: an object does not run round
-- the end of the address space. Counts of waiters, openers and timers do not overflow.
--
-- Fuel. A loop that the code ends by reaching a NUL, the head of a list or the end of a range takes
-- fuel, and `none` then also means that the fuel ran out. Where a result states that such a
-- function returns, the fuel asked for is the number of rounds: the length of the string, the
-- number of free blocks, 2 * MAX_PID passes of get_pid, at most 2^64 areas of user_mem_check, and
-- the number of children. alloc_pages and free_pages give the manager as many rounds as there are
-- page numbers, and a few more. The loops over blocks of a file count down a number that the code
-- has.
--
-- Not modelled: traps, drivers, names in directories and the inode table of the file system, the
-- virtual file system, process creation, address spaces on page tables, swap_out, and output. Where
-- alloc_pages goes on to swap_out the model has no result. kmalloc is an argument that says whether
-- it gave memory.
pub mod Prelude
pub mod Strings
pub mod LinkedList
pub mod SkewHeap
pub mod Pmm
pub mod Vmm
pub mod UserMem
pub mod Swap
pub mod Proc
pub mod Sched
pub mod Sync
pub mod Iobuf
pub mod Files
pub mod Bitmap
pub mod Family
pub mod Monitor
pub mod Paging
pub mod Sfs
