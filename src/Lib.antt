-- ===== src/Lib.antt =====
-- FTL is a small operating system kernel in Rust, with libraries and a server that runs Linux
-- programs. This library models the parts of it that decide about memory, threads and scheduling.
--
-- How the parts work together. At start-up `init` of kernel/src/memory.rs takes the boot information
-- (kernel/src/boot.rs), collects the ranges that the kernel and the boot modules occupy in an
-- `ArrayVec`, sorts them with `bubble_sort`, and gives what `visit_unused_regions` leaves of each RAM
-- region to the `PageAllocator`, which keeps one `BumpAllocator` per region. Later the kernel asks
-- the `PageAllocator` for frames. A `Thread` is created blocked, is resumed by `unblock`, which
-- pushes it to the run queue of the `Scheduler`, and each of its system calls is an upcall into a
-- server; `return_to_user` picks the thread that runs next. `SharedRef` counts the references.
--
-- Files and code:
--   Base: numbers, lists, machine words, bits, and the outcome of a Rust function; Base/Held says which bytes
--     stand in a memory.
--   Align: libs/rust/ftl_utils/src/alignment.rs (align_down, align_up, is_aligned).
--   Bump: libs/rust/ftl_bump_allocator/src/lib.rs (BumpAllocator::new, alloc).
--   Malloc: libs/rust/ftl_malloc/src/lib.rs; FirstFit is first fit on a list of chunks, Loop and Serve are the loop of
--     malloc against it, Blocks is malloc and free.
--   ArrayVec: libs/rust/ftl_arrayvec/src/array_vec.rs; ArrayVec/Bounded is its contract, a list of
--     at most N values, which the clients use, and ArrayVec/ArrayString is array_string.rs.
--   Arch: kernel/src/arch/x64. Direct is the direct map of vmspace.rs (the constants, paddr2vaddr,
--     vaddr2paddr), Paging its page table entries (Pte) and the indices of an address, Tables its VmSpace (new, map and
--     walk_and_set) over memory: Tables/Walk is the processor's walk, Grow, Ensure and Leaf are the steps of
--     walk_and_set, Reach says which words a walk reads, Map, New and Kernel are the theorems on map and new. Registers is
--     thread.rs, the views of the saved registers by read_context and write_context. Boot is what the two parsers of
--     boot information share, Pvh is pvh.rs and Multiboot multiboot.rs, each with the format of what a loader
--     leaves in memory (Format; Multiboot/Parse is the proof); Pvh/Frames goes on to the frames of kernel/src/memory.rs. Mp is mp_table.rs; Mp/Expected says
--     what the entries mean, Mp/Format and Mp/Found write the tables to memory by the specification's description.
--   Memory: kernel/src/memory.rs; Visit is visit_unused_regions, Sort is bubble_sort, Page is
--     PageAllocator, Init is init, Global is GlobalAllocator.
--   Api: libs/rust/ftl_api/src; ErrorCode is error.rs, Handle is handle.rs.
--   Thread: kernel/src/thread.rs (State, Mutable, handle_syscall in its two sections, terminate,
--     unblock, read_context and write_context in their guard); Thread/Upcalls is the step relation
--     of their interleavings, Thread/Context the guard together with the registers.
--   Scheduler: kernel/src/scheduler.rs, CurrentThread of kernel/src/thread.rs, and clone and drop of
--     kernel/src/shared_ref.rs; Entry is kernel/src/syscall.rs together with handle_syscall of kernel/src/thread.rs, where
--     what the server does in its upcalls is an argument; Handles is the handles of kernel/src/shared_ref.rs, and
--     thread_unblock and thread_destroy of kernel/src/server.rs.
--   Initfs: kernel/src/initfs.rs (parse_hex, the InitFsLoader iterator); Initfs/Archive writes archives
--     by the format's description, as what the reader is held against.
--   Elf: libs/rust/ftl_elf/src/lib.rs; Elf/Parse writes files by the format's description.
--   Loader: kernel/src/loader.rs, which allocates the image, loads the segments (Segments) and relocates it (Relocations).
--   VmArea: kernel/src/vmarea.rs, over the page allocator; Fill is the pages, Stored and Access their bytes, and
--     Window says that a call of one area is one among the pages of all.
--   VmSpace: kernel/src/vmspace.rs, over what it asks of areas and page tables (a record of operations);
--     Mapped is the list of mappings, Pages the loop over the pages, Outcome is map, Read and Bytes are read_bytes. Areas
--     and Frames make that record of the areas of kernel/src/vmarea.rs, with the page tables as what a walk finds.
--   Lx: servers/lx/src; Stack is elf.rs (StackWriter, estimate_stack_size, build_initial_stack), in steps: Writes,
--     Sizes, Image, Reading and Program. Syscall is syscall.rs and errno.rs.
--   ByteSize: libs/rust/ftl_utils/src/formatter.rs.
--   Tests: runs on concrete inputs.
--
-- Conventions. The code is the debug build for a 64-bit target: an overflow, a failed assertion and
-- an index out of range are `panic`, which ends everything; so are a reference or a slice made of a pointer that is
-- not aligned, in the ELF parser and the loader. A number is a natural number, and a
-- `usize` is one below 2 ^ 64. What a function does while it holds a `SpinLock` is one step. An
-- object is named by its address, and a reference counter of zero stands for freed memory. The list
-- of the RAM regions and the kernel's own range are arguments. A loop recurs over
-- a list or over a count that the code computes before it; the loop over the entries of an archive
-- has fuel, one more than the archive has bytes, and each round moves on by a header at least; the loops that
-- copy a run of bytes in pieces have one round for each byte, and each piece has a byte or more;
-- the search of malloc has rounds, and one more than the free list has chunks are enough; the search for the end of
-- a PVH command line has rounds, enough if there are more than the line has bytes, and the loop over Multiboot2 tags
-- has rounds, enough if there are more than tags (with a tag of size 0 the loop does not end). A loop
-- over the entries of an MP table has the table's number of entries as its rounds, which is all the iterator gives.
--
-- Not modelled: assembly, device registers (the I/O APIC, the timer, the serial console), the control registers and
-- console output; the descriptor tables (gdt.rs, idt.rs); Process of servers/lx, which calls the kernel. Several
-- processors are modelled for one thread's sections, and not for the run queue.
pub mod Base
pub mod Align
pub mod Bump
pub mod Malloc
pub mod ArrayVec
pub mod ByteSize
pub mod Elf
pub mod Loader
pub mod VmArea
pub mod VmSpace
pub mod Lx
pub mod Arch
pub mod Memory
pub mod Api
pub mod Thread
pub mod Scheduler
pub mod Initfs
pub mod Tests
