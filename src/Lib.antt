-- ===== src/Lib.antt =====
-- MIT xv6 (6.1810), the teaching operating system, as this repository keeps it: the kernel in
-- kernel/ and its user programs in user/. Each part below is a translation of the C source into
-- executable functions, with theorems about them.
--
-- The parts and their files:
--
-- * Str is kernel/string.c over the byte memory of Memory: memset, memcmp, memmove, memcpy,
--   strncmp, strncpy, safestrcpy, strlen. A C pointer is a natural number that does not wrap, and a
--   function that returns its destination returns the memory alone.
-- * Store is the disk behind the buffer cache, as the log uses it (bread, bwrite, bpin, bunpin of
--   kernel/bio.c): a block is its 256 words, a block write is atomic, and the writes that the disk
--   has carried out are kept in order, so that a power failure is a cut of that list.
-- * Log is kernel/log.c over Store: initlog, recover_from_log, read_head, write_head, write_log,
--   install_trans, commit, begin_op, end_op, log_write. A panic is a result. begin_op is one round
--   of its loop; end_op is split where it releases the lock (end_op, end_op_commit). Log.Calls has
--   the step relation of the file-system calls, each of which logs at most MAXOPBLOCKS different
--   blocks, as kernel/param.h has it, any of them more than once; Log.Reserve has what holds of it,
--   Log.Absorb is log_write by itself, and the other children are about crashes.
-- * Pipe is kernel/pipe.c: pipewrite, piperead and pipeclose, each as one run between two sleeps;
--   what the process table (killed) and the page table (copyin, copyout) answer are arguments.
--   pipealloc's set-up of the fields is `Pipe.fresh`.
--
-- * Bio is kernel/bio.c: the ring of buffers with its next and prev pointers, bget, brelse, bread,
--   bwrite, bpin, bunpin and binit. Bio.Links reads the ring as a list, and Bio.Search the loops of
--   bget as searches of it.
-- * Kalloc is kernel/kalloc.c over a memory of words: kfree, kalloc, freerange, kinit, with the
--   free list in the pages themselves. The linker's `end` is a parameter.
-- * Console is the input side of kernel/console.c: consoleintr and consoleread over the ring with
--   its counters of 32 bits. Console.Ring reads it as the finished lines and the edited line.
-- * Files is the table of kernel/file.c (filealloc, filedup, fileclose) and, of kernel/sysfile.c,
--   argfd, fdalloc, sys_dup and sys_close; what fileclose closes behind the table is a value.
-- * Paths is skipelem and namex of kernel/fs.c, with the references to inodes that they take and
--   drop; what the directories hold is an argument.
-- * Spinlock is kernel/spinlock.c on one CPU: initlock, acquire, release, holding, push_off,
--   pop_off.
-- * Process is kernel/proc.c: allocproc, freeproc, kfork, kexit, reparent, kwait, scheduler, yield,
--   sleep, wakeup, kkill, setkilled, over the table of processes and the table of Files.
--   Process.Step has them as a step relation, whose steps are what happens between two releases of
--   the locks, calls of wakeup on any channel among them; kfork and kexit are more than one. What
--   kalloc, proc_pagetable, uvmcopy and copyout answer is an argument. nextpid has 32 bits, and
--   Process.Step ends where it would overflow.
-- * Sleeplock is kernel/sleeplock.c over the processes of Process: initsleeplock, acquiresleep,
--   releasesleep, holdingsleep. acquiresleep is split where sleep switches to the scheduler.
-- * Printf is user/printf.c, with atoi of user/ulib.c: printint, printptr and vprintf, whose output
--   is a list of bytes. Printf.Format has formats as lists of their parts.
-- * Shell is the parser of user/sh.c: gettoken, peek and parsecmd with what it calls, over lists of
--   characters. Shell.Grammar has the commands as they are written.
-- * Fs is the free map of kernel/fs.c (bzero, balloc, bfree), over the bytes that bread returns for
--   each block; log_write is put on record, and Log is about what it does. There is one device.
-- * Inode is the contents of an inode in kernel/fs.c over Fs: bmap, iupdate, readi, writei, itrunc.
--   What either_copyin and either_copyout answer is an argument. Inode.Slots numbers the blocks of an
--   inode, and Inode.Content reads them as one array of bytes.
-- * Itable is the table of inodes in kernel/fs.c over Inode: ialloc, iget, idup, ilock and iput, the locks held
--   throughout. Process counts the references to directories with functions of its own.
-- * Grep is the matcher of user/grep.c over C strings as lists; Grep.Language is the meaning of a
--   pattern.
--
-- The loops are structural: they recur on the rounds that are left. strlen takes fuel, one
-- more than the length of the string; the scans of bget, one more than the number of buffers;
-- freerange, one more than the number of pages below its end; the loop of namex, one more than the
-- length of the path; balloc, one more than the blocks of the map; readi and writei, one more
-- than the bytes to copy; printint, 32 rounds, one for each bit; the parser, four times the length of
-- the line and eight. Each is proved to be enough, that of the parser on the lines of the grammar.
--
-- Outside Spinlock and Sleeplock the locks are not values of the model: a function, or a run, is
-- what the code does while it holds its lock. Not modelled: the rest of the file system, virtual
-- memory, system calls, the device drivers, the assembly, and the other user programs; nor the
-- test and grading scripts, which are no part of the system.
pub mod Base
pub mod Memory
pub mod Str
pub mod Shell
pub mod Sleeplock
pub mod Spinlock
pub mod Store
pub mod Log
pub mod Paths
pub mod Printf
pub mod Process
pub mod Pipe
pub mod Kalloc
pub mod Fs
pub mod Files
pub mod Itable
pub mod Inode
pub mod Grep
pub mod Bio
pub mod Console
