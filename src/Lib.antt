-- ===== src/Lib.antt =====
-- A verification library for a small RISC-V kernel with processes, threads, virtual memory with
-- swapping, locks and a scheduler for two processors.
--
-- The parts, and how they interact. The lists of include/os/list.h are the kernel's only container:
-- each task is a node of exactly one queue (the ready queue, the sleep queue, or the queue of what it
-- waits for), and each page of user memory is a node of the present or the swapped pages. The
-- scheduler of kernel/sched moves tasks between queues, chooses the next one and has its pages
-- swapped in by kernel/mm, which allocates pages from a free list and maps them in three-level
-- page tables. The drivers report to the scheduler what the network card has done.
--
-- The files.
--   Base       shared names, lists and numbers: Boolean tests, bit operations as arithmetic, searches,
--              integers over the native numbers.
--   Queue      include/os/list.h: nodes by address, `next` and `prev` as functions (record `Links`). Chain
--              is one doubly linked list, Rep all lists of the memory at once (no node in two lists),
--              Iterate the loops over a list whose body may move the current node.
--   Layout     the addresses of the globals and the offsets in structs; any layout is allowed.
--   Mm         kernel/mm/mm.c and arch/riscv/include/pgtable.h: Pgtable are the entries (with
--              `get_pa`, `set_pfn`, ... on 64-bit words), State the record `Mm`, Kalloc the free list, Table the
--              page tables, Swap the page queues.
--   Kernel     the rest of the state: task blocks by address, locks, the processor's registers.
--   Sched      kernel/sched/sched.c, kernel/sched/time.c and the queue checks of kernel/net/net.c.
--   Lock       kernel/locking/lock.c: mutexes, barriers, conditions. Handover has the specification of a mutex as an
--              owner and a queue. `do_condition_wait` stops where the task blocks; when it runs again it goes on with
--              `do_mutex_lock_acquire`.
--   Strings    libs/string.c: Compare, Copy.
--   Mbox       the mailboxes of kernel/locking/lock.c: Ring is the buffer, Send and Open the operations. A send that
--              finds no room stops where the task blocks, and starts again with the mutex acquired.
--   Fs         kernel/fs/fs.c and include/os/fs.h, on a card given by its reads and writes of a sector (record
--              `Card`, laws `IsCard`). Bitmap is one sector of the block and inode maps, Alloc and Free the operations
--              on them; a shift of an `int` by more than 31 is open in C: what it gives is a parameter. Buffer has
--              sectors as bytes, Inode the state (record `FileSystem`) and the structs as they lie on the card,
--              Blocks the blocks of a file, Dentry the entries of a block and paths, Dirs and Removal the operations on
--              directories, Files the open files, Make `do_mkfs` and the start, Show what is printed, as a value.
--   Loader     kernel/loader/loader.c as it is built for the board: Search is which program has the name and where its
--              sectors start, Pages what is put on each page, Found both together.
--   Process    the second half of kernel/sched/sched.c: threads, the start of processes (Start, and Exec on names
--              that do_exec refuses), their end (Release, Exit). The address of `ret_from_kernel` and the table of programs are
--              parameters.
--   Irq        kernel/irq/irq.c: the choice of a handler by the cause, the page fault, the timer's tick.
--   Syscall    kernel/syscall/syscall.c: arguments and result of a system call.
--   Rand, Atoi tiny_libc/rand.c, tiny_libc/atoi.c.
--   Tests      a sample machine, and each theorem at it.
--
-- The state. A C object is a record; a global is a field of `Mm` or `Kernel`; `pcb_at` and `page_at` give
-- the object at an address, and `links` the list nodes inside objects. Memory for pages and page tables is a
-- function from addresses to 64-bit words. A handler is a function from state to state, or to `Option`
-- where it can run into an assertion or a list that does not end. `current_running`, which is a
-- register of each processor, is a field, and the kernel lock makes each handler one step. The clock, the
-- processor's number and the card's reports are fields that stay fixed for the length of a call.
--
-- Fuel and bounds. A loop over a list has fuel for 600 nodes (`list_fuel`): there are 16 + 2 task blocks and 512
-- page blocks, no list holds a node twice, and `IsSystem` asks for fewer nodes than that. Every theorem on a loop
-- proves that the fuel is enough. The loop over the pages of a program has fuel for one page per byte and one more.
-- Integers of type `int` that may be negative are integers (ℤ); identifiers, times
-- and counts are natural numbers, and their overflow at 2^31 or 2^64 is not modelled, but addresses, page table
-- entries and shifts wrap around at 2^64, and the `int`s of do_lseek at 2^32.
--
-- Not modelled: the BIOS, whose reads and writes of sectors are the parameter `Bios`; `switch_to` saves and loads
-- registers, of which the model keeps which task's context runs; the flushes of the TLB; the drivers, the
-- console and the user programs. The system calls' table and the start-up code are left out.
pub mod Base
pub mod Queue
pub mod Layout
pub mod Strings
pub mod Mm
pub mod Kernel
pub mod Loader
pub mod Sched
pub mod Lock
pub mod Mbox
pub mod Process
pub mod Irq
pub mod Atoi
pub mod Syscall
pub mod Rand
pub mod Fs
pub mod Tests
