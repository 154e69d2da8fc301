-- ===== src/Lib.antt =====
-- Verification library of the xv6 kernel in xv6-riscv/ (extended with copy-on-write fork, lazy
-- allocation, mmap, threads, a multi-level feedback queue and futexes).
--
-- Base holds what the parts share: Boolean tests and lists over the native numbers, updates of
-- families, and `Outcome`, the result of a routine that may call `panic`.
-- Memory has the constants and page macros of kernel/memlayout.h, kernel/param.h and kernel/riscv.h.
-- Bytes is kernel/string.c, over memory as a function of the address.
-- Kalloc is kernel/kalloc.c: the state is `kmem` with the words and fill bytes of free pages; kalloc,
-- kfree, krefinc, krefcnt, kfreepages, freerange and kinit have the names they have there.
-- Vm is kernel/vm.c and proc_mapstacks of kernel/proc.c: the state is the allocator with the contents of
-- its pages, as words of page tables and as bytes of user memory. Each function has its name there, with
-- its loop as a function of its own; Vm.Fault is vmfault (its branches are cow_fault, heap_fault and
-- vma_fault), Vm.User copyin, copyout and copyinstr, and Vm.Space kvmmake, freewalk and uvmfree.
-- Vm.Tables says which memory is a set of page tables: each table page has a place in a tree of its own.
-- Sleeplock is kernel/sleeplock.c, and Cache kernel/bio.c: the buffers with the pointers of their list.
-- bget and brelse have their names; the walk along the list is first, on fuel of one round for each buffer
-- and one for the head. They are cut where they take or leave the lock of a buffer.
-- File is kernel/file.c with the calls on descriptors of kernel/sysfile.c: the table of open files, the
-- descriptors of a process, and what fileclose asks of pipes and inodes as a list. filealloc, filedup,
-- fileclose, argfd, fdalloc, sys_dup, sys_close, pipealloc and sys_pipe have their names; dup_all and
-- close_all are the loops of kfork and kexit over the descriptors.
-- Log is kernel/log.c: the state is `struct log`, the disk, the buffers as bread shows them, and the
-- number of block writes left before the power fails. Every routine of the file is a definition of the
-- same name; end_op is also cut at its first release, since other processes may run there.
-- Proc is kernel/proc.h and kernel/proc.c: the table is a list of `struct proc`. Proc.Schedule has the
-- multi-level feedback queue (scheduler, yield, mlfq_tick, mlfq_boost, setpriority); Proc.Channel has
-- sleep, wakeup and kkill on the table, and Proc.Channel.Handshake the two sides of sleep and wakeup
-- one access to shared memory at a time.
-- Pipe is kernel/pipe.c: `struct pipe` with counters that wrap at 2 ^ 32; pipewrite (whose loop is
-- write_loop), piperead (read_loop) and pipeclose.
-- Spinlock is kernel/spinlock.c: acquire and release of any number of processors on one lock, cut at
-- each access to shared memory (`act`), and push_off and pop_off.
-- Console is the input buffer of kernel/console.c: consoleintr and consoleread.
-- Mmap is the regions of mmap in kernel/sysfile.c and kernel/proc.c: sys_mmap, vma_find_addr,
-- vma_alloc_slot, sys_munmap and proc_munmap, on the regions of one process; what proc_munmap asks of
-- the page table, the file system and the file table is the list of those calls.
-- Bitmap is balloc, bfree and bzero of kernel/fs.c, over the log (Log), with the bits of the words of a block.
-- Names is skipelem of kernel/fs.c, on the bytes of a path before the NUL.
-- Grep is the matcher of user/grep.c: match (match_re), matchhere and matchstar, on the bytes before the NUL.
--
-- Locks: a routine whose body runs under one spinlock is one atomic step. Where a routine sleeps or
-- releases its lock in the middle, it is cut there into steps.
-- Machine integers: a uint64 or uint keeps its wrap; an int is its bit pattern of 32 bits where the
-- code can reach a negative value. Block numbers and process numbers are taken not to overflow.
-- Fuel: a loop that is not counted takes fuel, and a theorem says how much is enough.
-- Not modelled: the rest of the file system above the log, the creation and the end of processes,
-- exec and the futexes; assembly, device drivers and boot, which work on registers; the other user
-- programs, and the tools that build the disk.
pub mod Base
pub mod Memory
pub mod Bytes
pub mod Kalloc
pub mod Log
pub mod Proc
pub mod Pipe
pub mod Mmap
pub mod Console
pub mod Spinlock
pub mod Vm
pub mod Sleeplock
pub mod Cache
pub mod File
pub mod Bitmap
pub mod Names
pub mod Grep
