-- ===== src/Lib.antt =====
-- The process table, the log, the buffer cache, open files, pipes and the page allocator of
-- TRON-BOSS-OS, an xv6 kernel for x86 with state lists and a multi-level feedback queue (Makefile:
-- CS333_P3P4 and CS333_P5 are defined, DEBUG and PRINT_SYSCALLS are not).
--
-- The program. proc.c keeps `ptable`: NPROC slots of `struct proc`, and a list of processes for
-- each state (free, embryo, sleep, running, zombie, and one ready list for each of the levels 0 to
-- MAX), strung together by the `next` field. The operations move processes from list to list under
-- `ptable.lock`; scheduler, yield, sleep and exit hand the CPU over by swtch.
--
-- A system call checks its arguments (syscall.c) and works on open files (file.c). Each operation on
-- the file system is a transaction of log.c between begin_op and end_op, which reads and writes
-- blocks through the buffer cache (bio.c), which reads and writes the disk by iderw.
--
-- Which file models which part:
--   Links.antt     addtofrontoflist, removefromfront, removefromlist, addtoreadyprioritylist
--                  (proc.c), as pointer code on `next` and the heads. Links/ relates the pointers
--                  to the sequences that they stand for.
--   Kernel.antt    the state: struct proc and struct cpu (proc.h), the trap frame (x86.h), ptable;
--                  and commands on it, which end with a value, in panic, or without fuel.
--   Kernel/Spinlock.antt  initlock, acquire, release, holding, pushcli, popcli (spinlock.c).
--   Table.antt     the invariant of ptable, and how a process is moved without breaking it.
--   Proc.antt      assertstate, the budget, sched (proc.c).
--   Proc/Walk      the loops `while(p)` over a list that proc.c writes out in many places.
--   Proc/Create    allocproc, userinit, growproc, fork.
--   Proc/Sched     yield, sleep, wakeup1, wakeup, scheduler.
--   Proc/Array     the original wakeup1, a loop over all slots (CS333_P3P4 not defined).
--   Proc/Promote   promotiononotherlists, promotiononreadylists.
--   Proc/Exit      exit, wait, adoptzombiechildren, checkforchildren.
--   Proc/Kill      kill.
--   Proc/Priority  setpriority, setprocpriority, setreadyprocpriority.
--   Pipe           pipealloc, pipewrite, piperead, pipeclose (pipe.c), with a state of its own: the
--                  ring buffer, the ends, the lock, and the wakeups that it sends to proc.c.
--   Kalloc         kinit1, kinit2, freerange, kfree, kalloc (kalloc.c), with a state of its own: the
--                  free list of pages and its lock. fork, exit and wait above only record their
--                  calls of kfree, and take what kalloc returns as an argument.
--   Log            log.c: install_trans, write_log, commit, recover_from_log on a disk, and begin_op,
--                  end_op, log_write on `struct log`.
--   Bio            bio.c: binit, bget, bread, bwrite, brelse, on the ring of buffers as pointers.
--   Ide            struct buf (buf.h), and iderw of memide.c, the disk in memory.
--   File           file.c: filealloc, filedup, fileclose, filestat, fileread, filewrite.
--   Icache         the inode cache of fs.c: iget, idup, ilock, iunlock, iput, iunlockput, with
--                  itrunc and iupdate; bfree is recorded in `freed`.
--   Content        writei of fs.c, on the bytes of a file; filewrite calls it.
--   Path           skipelem of fs.c, and the loop over it in namex.
--   Sysfile        argfd, fdalloc, sys_dup, sys_close of sysfile.c, on File and Syscall.
--   Syscall        syscall.c: fetchint, fetchstr, argint, argptr, argstr.
--   Strings        string.c, with stosb and stosl (x86.h), on a memory of bytes.
--   Examples       concrete states, and the theorems on them.
-- The child modules of each hold what is proved of it.
--
-- How the state corresponds. A `struct proc *` is a number: 0 for NULL, i + 1 for slot i. A
-- `struct proc **` is the position of a head in `struct StateLists`. `next` is kept apart from the
-- other fields. A `uint` is a natural number below 2 ^ 32 where it is computed with; the wrap-around
-- is written out. What kalloc, setupkvm, copyuvm, allocuvm, deallocuvm and namei return is an
-- argument; calls that return nothing of use here are recorded in `calls`. filedup and idup return
-- the pointer that they are given.
--
-- The disk. In Log a disk has `power` for some number of block writes, and writes behind that are
-- lost: `power` runs over all points at which the machine may stop. `seen` is the block as bread
-- gives it, and recovery starts with what is on the disk. In Bio a disk does what it is told. The
-- block is its words or bytes by their index. In Content the blocks are those of one file, by their
-- number in the file: bmap, which finds or allocates the disk block, is not modelled, nor is a full
-- disk, where balloc panics. The functions in devsw are a parameter.
--
-- Concurrency. One CPU is modelled. The lists are touched with `ptable.lock` held, so a section of
-- one CPU is atomic for the others; an acquire that has to wait goes on from the state in which the
-- lock is free. A function that calls swtch is two: up to the switch and behind it.
--
-- Fuel. A walk along a list has `loop_fuel` = 65 rounds, one more than there are slots. Under the
-- invariant a list has no process twice, so at most 64 of them: that the fuel is enough is part of
-- each theorem, which says that the operation returns. freerange has a round for each page of 32
-- bits of address and one more. The loops of bget have a round for each buffer and one more, which
-- is enough in a well-formed cache; filewrite and writei have one for each byte and one more; strlen has as many
-- as are given.
--
-- Not modelled: the machine stack of a new process, forkret's initialisation of the file system,
-- hlt of the idle loop, procdump and the other listings of proc.c, the other bodies of the system
-- calls (sysproc.c, sysfile.c), bmap, balloc, bfree (which panics for a block that is free), readi and the directories (fs.c), and the rest of
-- the repository (paging, console, traps, drivers, boot, user programs, mkfs).
pub mod Base
pub mod Links
pub mod Kernel
pub mod Table
pub mod Proc
pub mod Pipe
pub mod Kalloc
pub mod Log
pub mod Content
pub mod File
pub mod Strings
pub mod Ide
pub mod Bio
pub mod Syscall
pub mod Icache
pub mod Path
pub mod Sysfile
pub mod Examples
