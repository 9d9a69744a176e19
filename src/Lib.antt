-- ===== src/Lib.antt =====
-- A model of the kernel in xv6-sse-local, a variant of xv6, with theorems on its parts.
--
-- The kernel shares one machine between processes. Processes live in a table (proc.c) and sleep and
-- wake on addresses; they talk through pipes (pipe.c) and use files (file.c), which lie on inodes
-- (fs.c), whose blocks reach the disk in transactions of a log (log.c) over a cache of buffers
-- (bio.c, ide.c). Pages come from one free list (kalloc.c), and all move bytes with string.c.
--
-- The files, by the part of xv6-sse-local that each models:
--   Common    numbers, tests, lists and `Result`, in which `panic` is a value that ends a routine.
--   Memory    string.c, and stosb and stosl of x86.h, on a memory that maps 32-bit addresses to
--             bytes: memset, memcmp, memmove, strncmp, strncpy, safestrcpy, strlen.
--   Kalloc    kalloc.c: kfree, kalloc, freerange, kinit1 and kinit2. The free list runs through the
--             first word of each free page of that memory, as `struct run` does.
--   Pipe      pipe.c: pipewrite, piperead, pipeclose, and the fields that pipealloc sets. A call
--             is cut into stretches, each from its start or from a sleep to its end or the next sleep.
--   Proc      proc.c: the table, allocproc, userinit, fork, exit, wait, kill, sleep, wakeup, yield
--             and one choice of scheduler. A pointer to a process is its index in `ptable.proc`.
--             Proc/Reach has the steps that the whole table can take.
--   Log       log.c: begin_op, end_op, log_write, commit and recover_from_log. Log/Steps has the
--             steps that system calls take on it.
--   File      file.c: filealloc, filedup, fileclose, filestat, fileread, filewrite.
--   Path      fs.c: skipelem and namex.
--   Fs        fs.c: balloc, bfree and bzero on the free bitmap; Fs/Inode has iupdate, what ilock reads,
--             bmap, itrunc, readi and writei, on the blocks of a device as bread gives them; Fs/Cache
--             has iget, idup, iput and ialloc, Fs/Dir dirlookup and namecmp, Fs/Swap swapread and
--             swapwrite.
--   Console   console.c: consoleintr, consoleread, consolewrite, cgaputc and printint. What consputc is
--             given is a list; a stretch of consoleread ends where it sleeps.
--   Spinlock  spinlock.c: pushcli, popcli, holding, and the atomic steps of acquire and release.
--   Syscall   syscall.c: fetchint, fetchstr, argint, argptr, argstr.
-- A C function has the name of its definition; a loop or a part of a function that has a name of its
-- own stands before the function. Where a part calls another layer that is not its own, those calls
-- are the fields of a record `Services`. A theorem that relies on what they do has that as a
-- hypothesis, a record of laws; the others hold for every choice of them.
--
-- Concurrency: code between acquire and release of one spin lock is one step, since no other process
-- sees a state within it. A call that sleeps ends the step, and is entered again at its loop. The two
-- critical sections of end_op are two steps. In a file's transaction the calls of the other layers
-- stand one after the other, as the inode's lock keeps others out.
--
-- Integers: addresses and `off` of a file are taken modulo 2 ^ 32. References, sizes and pids are
-- natural numbers (the pids of the source overflow behind 2 ^ 31 calls of fork, which is left out);
-- `outstanding` of the log is signed.
--
-- Fuel: strlen gets more fuel than bytes before the NUL, freerange as many rounds as pages, and the
-- loop of filewrite as many as bytes, since a round that goes on has written one. The theorems on
-- these show that the fuel does not run out. namex gets one round more than the path has characters.
-- Scans of a table run over its size. balloc has a round for each block of the bitmap, and the loops
-- of readi and writei one for each byte, since a round moves at least one. Control-U takes at most
-- the 128 characters of the ring, and printint gets more rounds than a number has digits. dirlookup
-- has a round for each entry.
--
-- Crashes: the log's `Store` counts the disk writes that are done before the machine stops; writes
-- behind them are lost. A block is written whole or not at all. After the stop only the disk is left.
-- The buffer cache is seen as its clients see it: a block that was modified and not yet written, or
-- pinned by log_write, is in memory, and any other is as on the disk.
--
-- Not modelled: dirlink of fs.c, bio.c, ide.c (but for its test of a block number) and sleeplock.c,
-- whose effect the interface records and the log's block store state; vm.c, the dispatch and the
-- bodies of system calls, exec.c, the format loop of cprintf, the keyboard and the user programs, on
-- which no theorem here depends; boot, interrupt controllers, assembly and port I/O, which are
-- hardware; mkfs.c and the test programs.
pub mod Common
pub mod Memory
pub mod Kalloc
pub mod Pipe
pub mod Proc
pub mod Log
pub mod File
pub mod Fs
pub mod Console
pub mod Path
pub mod Spinlock
pub mod Syscall
