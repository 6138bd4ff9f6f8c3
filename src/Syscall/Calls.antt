-- ===== src/Syscall/Calls.antt =====
-- The calls that src/syscall.rs makes: the numbers that it knows, and each function with its arguments.
use oscomp_test_listline.Prelude.{ℕ}
use oscomp_test_listline.Prelude.Int.{ℤ}

-- The values of the crate syscalls' `Sysno` that are matched; `other` stands for those that are not.
pub data Sysno : Type 0 where
  ioctl chdir mkdirat getdents64 linkat link unlinkat unlink getcwd openat «open» close dup : Sysno
  dup2 dup3 fcntl read readv write writev lseek sendfile poll mount umount2 pipe2 pipe stat : Sysno
  fstat lstat newfstatat fstatat statx brk mmap munmap mprotect getpid getppid gettid : Sysno
  sched_yield nanosleep execve set_tid_address arch_prctl clone fork exit exit_group wait4 : Sysno
  rt_sigprocmask rt_sigaction rt_sigpending rt_sigreturn rt_sigtimedwait rt_sigsuspend kill : Sysno
  tkill tgkill rt_sigqueueinfo rt_tgsigqueueinfo sigaltstack futex getuid geteuid getgid : Sysno
  getegid uname syslog gettimeofday times clock_gettime : Sysno
  other : ℕ → Sysno

-- A pointer to user space is its address. Those functions that take the trap frame find it in the state.
pub data Call : Type 0 where
  sys_ioctl sys_mkdirat sys_getdents64 sys_unlinkat sys_read sys_readv sys_write sys_writev :
      ℤ → ℕ → ℕ → Call
  sys_waitpid : ℤ → ℕ → ℕ → Call
  sys_chdir sys_unlink sys_brk sys_set_tid_address sys_uname sys_gettimeofday sys_times : ℕ → Call
  sys_linkat : ℤ → ℕ → ℤ → ℕ → ℤ → Call
  sys_link sys_getcwd sys_stat sys_lstat sys_munmap sys_nanosleep sys_rt_sigpending : ℕ → ℕ → Call
  sys_rt_sigsuspend sys_tkill sys_sigaltstack : ℕ → ℕ → Call
  sys_openat : ℤ → ℕ → ℤ → ℕ → Call
  sys_open : ℕ → ℤ → ℕ → Call
  sys_close sys_dup sys_exit sys_exit_group : ℤ → Call
  sys_dup2 : ℤ → ℤ → Call
  sys_fcntl : ℤ → ℤ → ℕ → Call
  sys_lseek : ℤ → ℤ → ℤ → Call
  sys_sendfile : ℤ → ℤ → ℕ → ℕ → Call
  sys_poll : ℕ → ℕ → ℤ → Call
  sys_mount : ℕ → ℕ → ℕ → ℤ → ℕ → Call
  sys_umount2 sys_pipe2 : ℕ → ℤ → Call
  sys_fstat sys_arch_prctl sys_kill sys_clock_gettime : ℤ → ℕ → Call
  sys_fstatat sys_rt_sigprocmask : ℤ → ℕ → ℕ → ℕ → Call
  sys_statx : ℤ → ℕ → ℕ → ℕ → ℕ → Call
  sys_mmap : ℕ → ℕ → ℕ → ℕ → ℤ → ℤ → Call
  sys_mprotect sys_execve sys_tgkill : ℕ → ℕ → ℕ → Call
  sys_getpid sys_getppid sys_gettid sys_sched_yield sys_fork sys_rt_sigreturn sys_getuid : Call
  sys_geteuid sys_getgid sys_getegid : Call
  sys_clone sys_rt_tgsigqueueinfo : ℕ → ℕ → ℕ → ℕ → ℕ → Call
  sys_rt_sigaction sys_rt_sigtimedwait sys_rt_sigqueueinfo : ℕ → ℕ → ℕ → ℕ → Call
  sys_futex : ℕ → ℕ → ℕ → ℕ → ℕ → ℕ → Call
  -- a call with the constant result 0
  zero_result : Call
