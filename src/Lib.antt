-- ===== src/Lib.antt =====
-- A verification library for xv6-l, a teaching kernel derived from xv6, with a multilevel feedback
-- queue scheduler, pages shared by all processes and a memo file.
--
-- The program's parts. A system call or a trap enters the kernel. Processes live in the process table
-- (xv6-l/proc.c), whose scheduler gives the CPUs to them and whose `sleep` and `wakeup` the other
-- parts wait with: the pipes (xv6-l/pipe.c), the log (xv6-l/log.c) that makes the changes of a file
-- system call one transaction on the disk, and the buffer cache (xv6-l/bio.c) between the log and the
-- disk. Open files (xv6-l/file.c) lead to pipes and inodes. The user programs stand on the system
-- calls.
--
-- Base: what the components share: the native numbers with their Boolean tests, lists, options,
-- and the lemmas about them.
--
-- Proc: the process table of xv6-l/proc.c. `Proc.Table` is the state, `Proc.Queue` the circular
-- queues (`qpush`, the queue part of `scheduler`), `Proc.Sched` the calls that run and stop
-- processes, `Proc.Life` the calls that create and end them. Pointers to processes are slot
-- numbers. A call that holds `ptable.lock` from its start to its end is one change of the table, and
-- `Proc.System` interleaves such changes of all CPUs in any order. The loop that drops stale queue
-- heads has the queue's count as fuel, which every round lowers.
--
-- Log: the write-ahead log of xv6-l/log.c, over a disk that is a function from block numbers to
-- contents. A block is written as a whole or not at all. `Log.Loops`, `Log.Restart` and `Log.Crash`
-- treat a power failure: the power is the number of disk writes that are still made, so that every
-- place where the power can fail is one number. `Log.Absorb` is about `log_write`, `Log.Reserve`
-- about the space that `begin_op` reserves and `end_op` gives back.
--
-- Pipe: the pipes of xv6-l/pipe.c. `Pipe.Fifo` compares the ring with a queue of bytes; the counters
-- wrap at 2 ^ 32 as in the source. `Pipe.System` is the sleeping and waking of any number of readers
-- and writers: a call runs to its end or until it sleeps, which is what holding the lock of the pipe
-- makes of it.
--
-- Grep: the regular expressions of xv6-l/grep.c (`match`, `matchhere`, `matchstar`), on strings as
-- lists of bytes. `Grep.Meaning` says independently of the code which texts an expression stands for.
--
-- Str: xv6-l/string.c and the string instructions of xv6-l/x86.h, on a memory that gives the byte
-- at each address. `strlen` has fuel, since a memory need not contain a NUL; fuel for one step more
-- than the length is enough.
--
-- Bio: the buffer cache of xv6-l/bio.c, with the sleep lock of a buffer (xv6-l/sleeplock.c) and the
-- disk of xv6-l/memide.c. `Bio.System` is the calls of all processes in any order; in its states the
-- contents of a block, as the rest of the kernel wrote them last, stand beside the cache; `Log` has
-- only those. A reference count wraps at 2 ^ 32; at most 64 processes (NPROC) hold
-- a reference and wait for a buffer's lock.
--
-- Fs: the file system of xv6-l/fs.c, above the log: a disk of blocks as `bread` returns them and
-- `log_write` leaves them. `Fs` has the bit map and `bmap`, `Fs.Rw` has `readi`, `writei` and
-- `iupdate`, `Fs.Trunc` has `itrunc`, `Fs.Path` has `skipelem`. `Fs.Cache` has the inode cache;
-- its calls come in any order (`Fs.Cache.Refs`), and `iput`, which releases the lock of the inode
-- before it gives up its reference, is two of them. `Fs.Alloc` has `ialloc`, `Fs.Dir` has
-- `dirlookup`, whose loop has fuel for one round more than the directory has bytes. `Fs.Map.slot`
-- numbers the blocks of a file; the contents of a file are one function from offsets to bytes
-- (`Fs.Rw.Content`). The loops of `readi` and `writei` have fuel for one round more than there are
-- bytes to copy, and a round copies at least one byte. The functions of a device are a parameter.
-- Block numbers are sums far below 2 ^ 31. `writei` counts the blocks that it passes to `log_write`
-- (`Fs.Rw.Logged`), which panics on a full log; elsewhere in `Fs` the log is taken to have room. At
-- most six entries of the log go to each block that the bytes reach into, so that an empty log of the
-- size that mkfs makes has room for the largest piece that `filewrite` passes on.
--
-- File: the table of open files of xv6-l/file.c and the descriptors of all processes
-- (xv6-l/sysfile.c), of which every call is one step. The loops run over the fixed tables (NFILE,
-- NOFILE). `sys_memo` stands on `Share` for the page of the memo.
--
-- Share: the pages that processes share by number (`getshared` and `releaseshared` of xv6-l/proc.c,
-- `sharevm` and `desharevm` of xv6-l/vm.c). Whether there is memory for a page or a page table is an
-- argument of each call.
--
-- Args: the checks of the arguments of system calls (xv6-l/syscall.c). A process has at most 2 ^ 31
-- bytes, since the kernel begins there (KERNBASE).
--
-- Not modelled: devices, traps, booting and assembly, which are code for hardware registers;
-- changes of directories and the rest of path lookup, the rest of virtual memory, the console, the
-- shells and the remaining user programs. xv6-o is an older copy of the same kernel. Mutual
-- exclusion by spin locks is an assumption: what a lock protects is one step of a model.
pub mod Args
pub mod Base
pub mod Proc
pub mod Log
pub mod Pipe
pub mod Bio
pub mod File
pub mod Fs
pub mod Grep
pub mod Share
pub mod Str
