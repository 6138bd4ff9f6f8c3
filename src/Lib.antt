-- ===== src/Lib.antt =====
-- StarryOS, a Linux-compatible kernel on the ArceOS unikernel: the parts that carry its own logic.
--
-- A system call enters at src/syscall.rs, which counts the time of the task, converts the arguments
-- and calls a function of api/src/imp. Those functions check the pointers of the user program
-- (api/src/ptr.rs), look files up in the descriptor table of the process (api/src/file/mod.rs) and
-- read or change the state of the task and process (core/src/task.rs, core/src/time.rs).
--
-- Which file models which part:
--   Prelude            names, lists, texts and signed integers over the native numbers
--   Errno              LinuxResult, AxResult and the error codes that the code names
--   Pipe/Buffer        PipeRingBuffer of api/src/file/pipe.rs: the ring of 256 bytes
--   Pipe/Ends          Pipe of the same file: the two ends, read, write and poll. A pass of a loop that
--                      holds the mutex is one step; other threads act between the passes
--   TimeStat           core/src/time.rs and time_stat_output of core/src/task.rs: the user and system time
--   TimeValue          the conversions of api/src/time.rs and sys_nanosleep of api/src/imp/task/schedule.rs
--   SockAddr           api/src/sockaddr.rs: the socket address as it lies in memory
--   Wait               api/src/imp/task/wait.rs and is_clone_child of core/src/task.rs
--   Path/Hardlinks     HardlinkManager of api/src/path.rs
--   FdTable            the descriptor table of api/src/file/mod.rs, and sys_close, sys_dup, sys_dup2,
--                      sys_fcntl of api/src/imp/fs/fd_ops.rs and sys_pipe2 of api/src/imp/fs/pipe.rs
--   Memory             api/src/imp/mm/brk.rs and api/src/imp/mm/mmap.rs
--   Transfer           api/src/imp/fs/io.rs: read, write, their vectored forms, lseek and sendfile
--   Ptr                api/src/ptr.rs: the checks of pointers from user space
--   Path/Names         FilePath and handle_file_path of api/src/path.rs
--   Mount              api/src/imp/fs/mount.rs: the list of mounts
--   Getdents           DirBuffer and sys_getdents64 of api/src/imp/fs/ctl.rs
--   Links              the other calls of api/src/imp/fs/ctl.rs, over Path/Hardlinks and Path/Names
--   Stat               api/src/imp/fs/stat.rs, Kstat of api/src/file/mod.rs and the stat of files and
--                      directories of api/src/file/fs.rs
--   Open               sys_openat and sys_open of api/src/imp/fs/fd_ops.rs
--   Poll               api/src/imp/fs/io_mpx/poll.rs
--   Futex              FutexTable of core/src/futex.rs and sys_futex of api/src/imp/futex.rs
--   Signal             the sending functions of api/src/signal.rs and the calls of api/src/imp/signal.rs:
--                      Signal itself has sys_kill, Signal/Calls the calls to threads and with a siginfo, and
--                      Signal/Masks those on the blocked signals, the actions and the signal stack
--   Tables             add_thread_to_table of core/src/task.rs; the drop of ProcessData is in Clone/Dropping
--   Clone              api/src/imp/task/clone.rs, and api/src/imp/task/exit.rs in Clone/Exit
--   Loader             core/src/mm.rs: the loader of programs and scripts, and the mark of accesses to user
--                      memory
--   Execve             api/src/imp/task/execve.rs and map_trampoline of core/src/mm.rs
--   Entry              src/entry.rs and src/main.rs: the first process of each program and the list of programs,
--                      with the new address space of core/src/mm.rs
--   Traps              src/mm.rs (page faults), check_signals of api/src/signal.rs and the calls of
--                      api/src/imp/signal.rs that wait for signals or return from a handler
--   Stdio              api/src/file/stdio.rs and init_stdio of api/src/file/mod.rs: the console
--   Socket             api/src/file/net.rs: the two kinds of sockets as a file
--   Info               api/src/imp/sys.rs, api/src/imp/time.rs and api/src/imp/task/thread.rs
--   Syscall            src/syscall.rs: the table of the system calls, the answers and the time accounting
--
-- The crates below the kernel (axfs, axmm, axnet, axns, axprocess, axsignal, axtask, flatten_objects, xmas_elf,
-- core) are parameters: records of operations such as FdTable.Objects.FlattenObjects, Memory.Space.AddrSpace, Ptr.UserSpace and
-- Path.Hardlinks.Axfs, with hypotheses for what the code relies on. FdTable.Example and the modules
-- named Tests fill them with concrete functions. The maps of the link manager are association lists.
--
-- Machine words: a usize is a number below 2 ^ 64 and its sums and differences are taken modulo 2 ^ 64 where
-- the code can wrap (TimeStat, Path.Hardlinks); signed arguments are integers. A panic is the result none.
--
-- Sharing: where the code shares by an Arc, the model has the number of what the Arc points to, and a store
-- from numbers to contents (Futex.Futexes, Clone.World).
--
-- Fuel: the loops that wait for other threads (Pipe.Ends.read_loop and write_loop, Wait.wait_loop,
-- Poll.poll_loop) take the list of what the other threads do between two passes, or of the moments of the
-- passes; running out of that list is the result that says that the caller still waits. Ptr.scan takes fuel:
-- each step passes a page or an element below the end of the address space, so that twice its addresses and
-- two pages are enough. Transfer.do_sendfile takes fuel for
-- its passes: each passes a byte or ends the loop, so that one more than the length of the source is enough.
-- Getdents.fill takes fuel for the entries that are left in the directory, and one more. The loops over
-- vectors, descriptors and buffers are structural.
-- Loader.load_user_app takes fuel for its calls of itself: one more than the scripts and dynamic loaders on
-- the way to the program are enough; when files name each other without end, no number is.
-- Stdio.read_raw takes fuel for its passes, each of which fills a byte of the buffer or ends the loop, so that
-- the length of the buffer is enough. Stdio.try_again and Traps.suspend_loop take the list of what happens
-- between their passes.
--
-- Not modelled: the drivers, the file systems and the scheduler of ArceOS, which are other projects; the
-- boot code; the parser of ELF files and the layout of the data on the user stack, which are crates; the entry
-- into user mode, where the model of execve and of a new task ends; logging.
mod Prelude
pub mod Errno
pub mod Pipe
pub mod TimeStat
pub mod TimeValue
pub mod SockAddr
pub mod Wait
pub mod Path
pub mod FdTable
pub mod Memory
pub mod Transfer
pub mod Ptr
pub mod Syscall
pub mod Mount
pub mod Getdents
pub mod Futex
pub mod Poll
pub mod Signal
pub mod Clone
pub mod Stat
pub mod Open
pub mod Links
pub mod Tables
pub mod Loader
pub mod Execve
pub mod Entry
pub mod Stdio
pub mod Info
pub mod Traps
pub mod Socket
