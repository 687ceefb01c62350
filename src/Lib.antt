-- ===== src/Lib.antt =====
-- The kernel of CS350 OS/161: models of its C code, and what is proved of them.
--
-- The parts, and the files that model them (paths from the root of the repository):
--   Kmalloc   what clients see of kmalloc (kern/lib/kheap.c): NULL, or a block of the size asked for
--   Memory    lib/libc/memcpy.c, memmove.c, memset.c, bzero.c, memcmp.c, on a memory of bytes
--   Strings   lib/libc/strlen.c, strcpy.c, strcat.c, strchr.c, strrchr.c, strcmp.c, strtok_r.c, atoi.c
--   Bitmap    kern/lib/bitmap.c
--   Queue     kern/lib/queue.c, the ring buffer of the run queue
--   Array     kern/lib/array.c, the growing array of the lists of threads
--   Threads   kern/thread/scheduler.c, and of kern/thread/thread.c sleeping, waking and mi_switch, over
--             Array and Queue
--   Synch     kern/thread/synch.c: semaphores, locks and condition variables, as steps of many threads
--   Process   kern/syscalls/process.c, the process table; Process.Wait has getpid and waitpid
--             (kern/syscalls/process_syscall.c) and _exit (kern/syscalls/file_syscall.c)
--   Files     kern/syscalls/fileDescriptor.c, the tables of open files, with the loop of md_forkentry that
--             shares them; Files.Io has read, write, open and close (kern/syscalls/file_syscall.c), for
--             any operations of a vnode
--   Fork      sys_fork and md_forkentry (kern/syscalls/process_syscall.c), over Process and Files
--   User      kern/lib/copyinout.c: copies between user and kernel memory, over Memory
--   Uio       kern/userprog/uio.c: uiomove and uiomovezeros, between two memories
--   Disk      kern/dev/lamebus/lhd.c: input and output on the sectors of a disk, over Uio
--   Sfs       kern/fs/sfs/sfs_io.c and kern/fs/sfs/sfs_vnode.c, over Disk and Bitmap: Sfs has the blocks of
--             the disk and the free map, Sfs.Map the map of a file's blocks, Sfs.FileIo reading and
--             writing, Sfs.Truncate the truncation of a file, Sfs.Dir the entries of a directory,
--             Sfs.Vnodes the table of vnodes and their counts (with kern/fs/vfs/vnode.c), and
--             Sfs.Names the operations on names; Sfs.Mount has kern/fs/sfs/sfs_fs.c; Sfs.Calls puts
--             sfs_read and sfs_write in the place of the vnode's operations in Files.Io
-- Base holds what they share: tests on numbers, lists as C arrays, and Outcome, which is a result or
-- a panic: a failed assertion, a call of panic, or an access outside the object that a pointer
-- names.
--
-- How the code is read. A function has the name of the C function. Its state is passed in and
-- returned. A pointer is an address, and 0 is NULL; where aliasing matters (Process, Files) the
-- structs stand in a heap from addresses to structs, with the addresses that are allocated. An int
-- that is never negative is a natural number, and an unsigned or an overflow is written out with % 2
-- ^ 32 or a test. What kmalloc and vfs_open do, where a copy faults, which bytes
-- of the buffer of a read or write are mapped, whether the status of waitpid can be stored, and
-- how the card of a disk answers each request, are parameters. An access of the kernel to user
-- memory that is not there is a panic. The code between splhigh and splx is
-- one step; a step ends where a thread sleeps. cpu_idle is a result of its own.
--
-- Bounds and fuel. A loop over a table runs over the entries left: 99 processes, 20 descriptors. The
-- doubling loops of q_grow and array_preallocate have 32 rounds: an int overflows before that.
-- q_grow calls q_addtail, which could call q_grow: once is enough, as addtail_append shows. The
-- loops over the sleepers have a round for each sleeper and one more. A loop to the end of a string
-- has as many rounds as is said, and returns none when they are too few: each theorem asks for one
-- more than the length of the string.
--
-- uiomove moves a byte at least in each round, and uiomovezeros too: a round more than the bytes is
-- enough. The loops over the sectors, blocks, slots and block numbers of a transfer run over those
-- left. sfs_rwblock tries eleven times.
--
-- Not modelled: execv, the creation and exit of threads, kheap.c, the paths and devices of
-- the virtual file system, virtual memory, formatted output, devices other than the disk, and
-- machine-dependent code.
pub mod Base
pub mod Kmalloc
pub mod Bitmap
pub mod Queue
pub mod Process
pub mod Array
pub mod Files
pub mod Fork
pub mod Memory
pub mod Strings
pub mod Synch
pub mod Threads
pub mod User
pub mod Uio
pub mod Disk
pub mod Sfs
