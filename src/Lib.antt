-- ===== src/Lib.antt =====
-- The kernel in kernel/ (xv6 with a process listing, a choice of schedulers and reference-counted
-- pages), as pure functions with explicit state, and what they guarantee.
--
-- The parts, and the files that model them:
-- Base: tests, lists, maps, the outcome of a run (`ok`, `panic`, `blocked`, `out_of_fuel`), and
--   the two loops over a kernel table, `scan` (stop at the first index that passes) and `each`
--   (rewrite every slot).
-- Locks: kernel/spinlock.c and kernel/sleeplock.c. Exclusion is about every order of steps of any
--   number of processors, Nesting about `push_off` and `pop_off`.
-- Vm: kernel/vm.c. Walk has `walk`, `mappages` and `uvmunmap` over memory as words, with the free list
--   that `kalloc` takes pages from, where its assertion panics when the list is empty. The reference
--   counts and the junk that `kalloc` fills a page with are left to Kalloc, since each caller here
--   overwrites the page; the calls of `kfree` are recorded. Sizes has `uvmalloc`,
--   `uvmdealloc`, `uvmcopy`, `freewalk` and the like over them. Tree says what a page table is,
--   Grow, Lookup and Leaf are about `walk`, Mapped, Mapping and Pages about `mappages` and
--   `walkaddr`, Frames and Unmap about `uvmunmap`, Alloc, Grown and Enlarging about `uvmdealloc` and
--   `uvmalloc`, Create about `uvmcreate`. In the copies between the kernel and a process the
--   answer of `walkaddr` for each page is an argument; Copies is about them.
-- Kalloc: kernel/kalloc.c. A free page holds the pointer to the next one, as in the source;
--   `ref_count` wraps at 32 bits, FREE_PAGES at 64. PGNUM and `end`, which the sources use and do
--   not define, are parameters. Boot is about `kinit`, Chain and Pages about the
--   free list of an allocator that has pages, as `kinit` is meant to leave it and does not.
-- Proc: kernel/proc.c. `Table` is the array `proc` with `nextpid` and `initproc`; slot `i` is at
--   address `i + 1`, and other objects have other addresses. Each operation runs under its locks,
--   so it is one step. What memory management answers (a trapframe page, a page table, whether a
--   copy succeeds) is an argument. Lifecycle has `allocproc`, `fork`, `exit`, `wait`, `sleep` and
--   the steps of the scheduler; Handover has `sleep` and `wakeup` statement by statement, with the locks
--   that are left out elsewhere; Listing has `ps`; Schedulers has `schedset` and kernel/sysproc.c's
--   `sys_schedset`. `fork` counts references in the table of File, and `exit` drops them.
-- File: the reference counts of kernel/file.c.
-- Bio: kernel/bio.c, with the ring's pointers. Ring relates them to the list of the buffers in order,
--   Find is about the searches of `bget`, Ids about which block each buffer has, Order about
--   `binit` and `brelse`. `bget` stops before it waits for the buffer's lock.
-- Log: kernel/log.c over the disk and what `bread` of kernel/bio.c returns for each block. Loops is
--   about each of its loops; Recovery and Atomic about crashes, which are a bound on the number of
--   writes that reach the disk; Writes and Space about `log_write` and the reservations of
--   `begin_op` and `end_op`. The device number and the locks are left out.
-- Fs: kernel/fs.c, in Blocks (the map of free blocks), Table (the inodes in use), Content (the blocks of
--   a file) and Names (directories and paths). A block is what `bread` gives, by byte, and `log_write`
--   is recorded; `either_copyout` and `either_copyin` of kernel/proc.c are arguments. Bits, Marks, Taken
--   and Bitmap are about `balloc` and `bfree`, References about `iget`, `idup` and `iput`, Slots and
--   Stable about `bmap`, Paths about `skipelem`, Ends and Termination about `namex` and what it calls.
-- User: user/grep.c. Grep has the matcher, Lines the loop over the reads of a file, where how much each
--   read gives is an argument; Language says what a pattern means, Equivalence is about the matcher and
--   Output about the loop. Numbers has `printint` of user/printf.c and `atoi` of user/ulib.c.
-- Syscall: kernel/syscall.c without the strings; the table of calls is an argument. Memory has the calls
--   of kernel/sysproc.c about memory and time over the table of Proc and the page tables of Vm, with
--   `growproc` of kernel/proc.c; Break is about `sys_sbrk`.
-- Descriptors: the descriptors of kernel/sysfile.c, whose files are those of File; the argument that
--   `argint` fetches is an argument.
-- Pipe: kernel/pipe.c, whose files are those of File. Bytes is about the ring, Transfers about reads
--   and writes, Ends about opening and closing.
-- Strings: kernel/string.c. Blocks of memory are maps from addresses to bytes; strings are the
--   buffers that the pointers are into, and a read past a buffer's end is `none`.
--
-- Bounds and fuel: the loops over tables make NPROC = 64, NOFILE = 16 and NFILE = 100 rounds. The
-- loop of `freerange` runs on fuel of one round for each page below PHYSTOP, and each round goes up
-- by a page; the searches of `bget` on fuel for the NBUF buffers and the head; the copies of
-- kernel/vm.c on fuel of one round for each byte, and each round copies one; `mappages` on fuel for
-- the 2 ^ 26 pages below MAXVA, where `walk` panics; `readi` and `writei` on fuel of one round for
-- each byte; `namex` on fuel for the bytes of the path, since each round takes an element off it;
-- `printint` on fuel for the number, which each round divides; `freewalk` on the three levels of
-- the tables. The crash model gives each run a number of disk writes; a recovery of n blocks needs
-- n + 1. Process ids do not wrap in the model (an `int` that would need 2 ^ 31 processes).
--
-- Not modelled: the drivers, start-up code and assembly (hardware), the generated listings, and, so
-- far, `uvmfirst`, `kvmmake` and `kvminithart` of kernel/vm.c, kernel/exec.c, most of
-- kernel/sysfile.c, kernel/trap.c, and the user programs and their library but for user/grep.c and
-- the text of numbers.
pub mod Base
pub mod Bio
pub mod Descriptors
pub mod File
pub mod Fs
pub mod Kalloc
pub mod Locks
pub mod Log
pub mod Pipe
pub mod Proc
pub mod Strings
pub mod Syscall
pub mod User
pub mod Vm
