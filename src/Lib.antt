-- ===== src/Lib.antt =====
-- xv6, a small Unix for RISC-V: the core of the kernel, and the shell and the library of user
-- programs.
--
-- The kernel keeps a table of processes (kernel/proc.c), takes memory for them from a list of free
-- pages (kernel/kalloc.c), and guards what CPUs share by spinlocks (kernel/spinlock.c). Processes
-- talk through pipes (kernel/pipe.c) and read lines from the console (kernel/console.c). System
-- calls that change the file system run as transactions of a redo log (kernel/log.c) over the
-- buffer cache (kernel/bio.c), and change inodes and blocks (kernel/fs.c). Addresses of a process
-- are translated by page tables (kernel/vm.c). All of them use the byte functions of
-- kernel/string.c.
--
-- * Prelude (the names that all share): Prelude/Run is the outcome of kernel code (a value, a
--   panic, or a loop that ran out of fuel), Prelude/Lists has lists over native numbers,
--   Prelude/Int has integers.
-- * Str (kernel/string.c): memory is a function from addresses to bytes. Str/Copy, Str/Compare and
--   Str/Terminated have the theorems. strlen, whose loop has no bound in the code, runs on fuel:
--   any fuel above the length is enough.
-- * Kalloc (kernel/kalloc.c): the free list through the first word of each free page.
--   Kalloc/FreeList and Kalloc/Init have the theorems. freerange runs on fuel of one round for each
--   page and one more.
-- * Spin (kernel/spinlock.c): the CPUs' states, the lock, and where each CPU is in acquire and
--   release; `step` is one access of a CPU to what they share, and a schedule is a list of CPUs.
-- * Proc (kernel/proc.c, and the calls of kernel/sysproc.c that list processes): the table is a
--   function from slots to `struct proc`, with nextpid and initproc. Each function is one step,
--   since it holds p->lock or wait_lock; sleep, yield and exit are split at the call of sched.
--   Proc/Scan is about the loops over the table, Proc/Inv the invariant, Proc/Signals kill and
--   wakeup, Proc/Family allocproc and fork, Proc/Reap exit, Proc/Children wait, Proc/Listing the
--   calls of kernel/sysproc.c.
-- * Pipe (kernel/pipe.c): the ring with its wrapping counters; a pass of pipewrite or piperead
--   between two sleeps is a step, and a list of sleeps says what others do meanwhile. A kill may come
--   between any two bytes of pipewrite: killed(pr) is a function of the byte. Pipe/Queue
--   relates the ring to a queue, Pipe/Burst has single passes and Pipe/History sequences of them.
-- * Log (kernel/log.c): the header in memory, and a disk on which only the next `power` writes take
--   place, which models a crash after any write. Log/Recover, Log/Boot and Log/Commit are about
--   recovery and commit, Log/Write about log_write, Log/Reserve about the space that begin_op
--   reserves, with Log/Reserve/Credits for what each call may still write. The log that mkfs makes
--   holds one block less than begin_op gives out, so the model gives each call nine blocks, and not
--   MAXOPBLOCKS.
-- * Console (kernel/console.c): the input buffer with its three wrapping indices. Console/View is
--   the line editor that it implements, Console/Erasing, Console/Storing and Console/Editing prove
--   that. The loop for control-U has fuel for one round more than the buffer has places.
--
-- * Fs (kernel/fs.c, blocks and inode content): the disk is the bytes of each block as the buffer
--   cache shows them, with a mark on each block that log_write was called for. Fs/Bits and Fs/Words
--   are about bits and numbers in blocks, Fs/Alloc about balloc and bfree. Fs/Inode has bmap,
--   readi, writei, itrunc, iupdate and the part of ilock that reads an inode: Fs/Inode/Slots is the
--   invariant of a file, Fs/Inode/Grow and Fs/Inode/Bmap are about new blocks, Fs/Inode/Content,
--   Fs/Inode/Wrote, Fs/Inode/Write, Fs/Inode/Read and Fs/Inode/RoundTrip about the bytes, with
--   Fs/Inode/Read/Ends about what readi returns, and
--   Fs/Inode/Fields about the inode on the disk. Fs/Names has dirlookup, dirlink and namex over the
--   entries of directories, Fs/Names/Elements is about the names in a path, Fs/Names/Link about
--   dirlink and Fs/Names/Resolve about namex; namex has fuel for one round more than the path has
--   bytes. The loops of readi and writei have fuel for one round more than bytes, and a round
--   copies at least one.
-- * Vm (kernel/vm.c): page tables in the word memory of Kalloc. Vm/Walk is about translation, and
--   Vm/Copyin and Vm/Copyinstr about copies from user memory. The loops over pages have fuel for
--   each page and two rounds more, those of the copies for one round more than bytes; freewalk for
--   three levels.
-- * Bio (kernel/bio.c): the list of buffers in the order of their use. Bio/Order is about the
--   searches in it, and Bio/Unique about bget and brelse. The log's own view of the cache is in
--   Log.
-- * Fd (kernel/file.c, and the descriptors of kernel/sysfile.c): a process has a list with the open
--   file of each descriptor. Fd/Files is the table of open files with its reference counts, and the
--   loops over the descriptors in fork and exit of kernel/proc.c; Fd/Refs is about the counts.
-- * Printf (kernel/printf.c and user/printf.c): both printf functions, in Printf/Kernel and
--   Printf/User, to a list of characters. Printf/Numeral is about printint, Printf/Pieces about
--   whole formats. The loop of printint has the 16 places of its array as its fuel.
-- * Ulib (user/ulib.c): the memory of Str. A loop over a string has fuel, one more than its length
--   is enough; gets takes the input as a list. Ulib/Strings, Ulib/Lines and Ulib/Numbers have the
--   theorems.
-- * Sh (user/sh.c): the lexer is in Sh, the parser in Sh/Parser, over the list of the bytes that
--   are left; the recursion of the parser and each of its loops has fuel of one more than the
--   bytes, and each round takes one at least. Sh/Steps and Sh/Lexer are lemmas on single steps and
--   tokens, Sh/Args and Sh/Total are about every line. Sh/Syntax has the syntax of commands, with
--   their text and their meaning as commands of the shell; Sh/Written, Sh/Words, Sh/Blocks and
--   Sh/RoundTrip are about that text. Sh/Runcmd is runcmd, over the descriptors of Fd, and Sh/Main
--   what main does with a line.
-- * Grep (the matcher of user/grep.c): strings as lists of characters, with no fuel, since the
--   matcher goes down in the expression or in the text. Grep/Matching has the meaning of
--   expressions.
--
-- Machine-width counters wrap as in the code: modulo 2^32 for the indices of pipes and of the
-- console and for nextpid, and modulo 2^16 for the inode number in a directory entry. The theorems
-- that need pids to be new assume that nextpid is below the largest int. What other code returns,
-- kalloc, copyin, copyout and page tables where a function calls them, and which files open opens
-- for runcmd, is an argument of the model. Tests modules hold runs of the code and the theorems at
-- concrete inputs.
--
-- Not modelled: the table of inodes (the rest of kernel/fs.c), the calls of kernel/sysfile.c on
-- paths, fileread and filewrite of kernel/file.c, boot's part of kernel/vm.c, sleep locks, exec,
-- traps, the drivers, user/umalloc.c, and the user programs but for the shell and grep's matcher.
-- In the shell, nulterminate and a fork that fails. Of kernel/vm.c the functions other than walk,
-- walkaddr, copyin and copyinstr, and itrunc of kernel/fs.c, are modelled and have no theorem yet.
-- In Fs, that the blocks written go to the log is a mark only, and in Fs/Names, iget and iput are
-- their changes of the reference count. In Fd, what pipeclose and iput release is named and not
-- done. The scheduler is a step that switches to a runnable process; fairness is not stated.
pub mod Prelude
pub mod Str
pub mod Kalloc
pub mod Spin
pub mod Proc
pub mod Pipe
pub mod Log
pub mod Console
pub mod Fs
pub mod Vm
pub mod Grep
pub mod Bio
pub mod Fd
pub mod Printf
pub mod Ulib
pub mod Sh
