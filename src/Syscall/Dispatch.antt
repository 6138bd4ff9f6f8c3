-- ===== src/Syscall/Dispatch.antt =====
-- The table of src/syscall.rs from a number to the function that is called, with the conversions of the
-- arguments.
use oscomp_test_listline.Prelude.{
  ℕ, ◌-◌, ◌%◌, ◌^◌, Option, none, some, Bool, true, false, ltb, if◌then◌else◌,
}
use oscomp_test_listline.Prelude.Int.{ℤ, pos, negsuc, as_isize}
use oscomp_test_listline.Syscall.Calls.{
  Sysno, ioctl, chdir, mkdirat, getdents64, linkat, link, unlinkat, unlink, getcwd, openat, «open»,
  close, dup, dup2, dup3, fcntl, read, readv, write, writev, lseek, sendfile, poll, mount, umount2,
  pipe2, pipe, stat, fstat, lstat, newfstatat, fstatat, statx, brk, mmap, munmap, mprotect, getpid,
  getppid, gettid, sched_yield, nanosleep, execve, set_tid_address, arch_prctl, clone, fork, exit,
  exit_group, wait4, rt_sigprocmask, rt_sigaction, rt_sigpending, rt_sigreturn, rt_sigtimedwait,
  rt_sigsuspend, kill, tkill, tgkill, rt_sigqueueinfo, rt_tgsigqueueinfo, sigaltstack, futex,
  getuid, geteuid, getgid, getegid, uname, syslog, gettimeofday, times, clock_gettime, Call,
  sys_ioctl, sys_chdir, sys_mkdirat, sys_getdents64, sys_linkat, sys_link, sys_unlinkat, sys_unlink,
  sys_getcwd, sys_openat, sys_open, sys_close, sys_dup, sys_dup2, sys_fcntl, sys_read, sys_readv,
  sys_write, sys_writev, sys_lseek, sys_sendfile, sys_poll, sys_mount, sys_umount2, sys_pipe2,
  sys_stat, sys_fstat, sys_lstat, sys_fstatat, sys_statx, sys_brk, sys_mmap, sys_munmap,
  sys_mprotect, sys_getpid, sys_getppid, sys_gettid, sys_sched_yield, sys_nanosleep, sys_execve,
  sys_set_tid_address, sys_arch_prctl, sys_clone, sys_fork, sys_exit, sys_exit_group, sys_waitpid,
  sys_rt_sigprocmask, sys_rt_sigaction, sys_rt_sigpending, sys_rt_sigreturn, sys_rt_sigtimedwait,
  sys_rt_sigsuspend, sys_kill, sys_tkill, sys_tgkill, sys_rt_sigqueueinfo, sys_rt_tgsigqueueinfo,
  sys_sigaltstack, sys_futex, sys_getuid, sys_geteuid, sys_getgid, sys_getegid, sys_uname,
  sys_gettimeofday, sys_times, sys_clock_gettime, zero_result,
}

-- What the conditional compilation of the table depends on.
pub data Arch : Type 0 where
  x86_64 other_arch : Arch

abbrev pub is_x86_64 : Arch → Bool
is_x86_64 x86_64 = true
is_x86_64 other_arch = false

-- The argument registers of the trap frame.
pub record Args : Type 0 where
  pub arg0 : ℕ
  pub arg1 : ℕ
  pub arg2 : ℕ
  pub arg3 : ℕ
  pub arg4 : ℕ
  pub arg5 : ℕ

-- The conversions `as i32` and `as u32`.
unfoldable pub as_i32 : ℕ → ℤ
as_i32 n = let m = n % 2 ^ 32 in if ltb m (2 ^ 31) then pos m else negsuc (2 ^ 32 - 1 - m)

unfoldable pub as_u32 : ℕ → ℕ
as_u32 n = n % 2 ^ 32

-- The arms from `brk` on. `none` is the last arm, for a number that is not implemented, which is also where a number of another
-- architecture would go.
unfoldable pub dispatch_rest : Arch → Sysno → Args → Option Call
dispatch_rest arch brk a = some (sys_brk a.arg0)
dispatch_rest arch mmap a =
    some (sys_mmap a.arg0 a.arg1 (as_u32 a.arg2) (as_u32 a.arg3) (as_i32 a.arg4) (as_isize a.arg5))
dispatch_rest arch munmap a = some (sys_munmap a.arg0 a.arg1)
dispatch_rest arch mprotect a = some (sys_mprotect a.arg0 a.arg1 (as_u32 a.arg2))
dispatch_rest arch getpid a = some sys_getpid
dispatch_rest arch getppid a = some sys_getppid
dispatch_rest arch gettid a = some sys_gettid
dispatch_rest arch sched_yield a = some sys_sched_yield
dispatch_rest arch nanosleep a = some (sys_nanosleep a.arg0 a.arg1)
dispatch_rest arch execve a = some (sys_execve a.arg0 a.arg1 a.arg2)
dispatch_rest arch set_tid_address a = some (sys_set_tid_address a.arg0)
dispatch_rest arch arch_prctl a =
    if is_x86_64 arch then some (sys_arch_prctl (as_i32 a.arg0) a.arg1) else none
dispatch_rest arch clone a = some (sys_clone (as_u32 a.arg0) a.arg1 a.arg2 a.arg3 a.arg4)
dispatch_rest arch fork a = if is_x86_64 arch then some sys_fork else none
dispatch_rest arch exit a = some (sys_exit (as_i32 a.arg0))
dispatch_rest arch exit_group a = some (sys_exit_group (as_i32 a.arg0))
dispatch_rest arch wait4 a = some (sys_waitpid (as_i32 a.arg0) a.arg1 (as_u32 a.arg2))
dispatch_rest arch rt_sigprocmask a = some (sys_rt_sigprocmask (as_i32 a.arg0) a.arg1 a.arg2 a.arg3)
dispatch_rest arch rt_sigaction a = some (sys_rt_sigaction (as_u32 a.arg0) a.arg1 a.arg2 a.arg3)
dispatch_rest arch rt_sigpending a = some (sys_rt_sigpending a.arg0 a.arg1)
dispatch_rest arch rt_sigreturn a = some sys_rt_sigreturn
dispatch_rest arch rt_sigtimedwait a = some (sys_rt_sigtimedwait a.arg0 a.arg1 a.arg2 a.arg3)
dispatch_rest arch rt_sigsuspend a = some (sys_rt_sigsuspend a.arg0 a.arg1)
dispatch_rest arch kill a = some (sys_kill (as_i32 a.arg0) (as_u32 a.arg1))
dispatch_rest arch tkill a = some (sys_tkill (as_u32 a.arg0) (as_u32 a.arg1))
dispatch_rest arch tgkill a = some (sys_tgkill (as_u32 a.arg0) (as_u32 a.arg1) (as_u32 a.arg2))
dispatch_rest arch rt_sigqueueinfo a =
    some (sys_rt_sigqueueinfo (as_u32 a.arg0) (as_u32 a.arg1) a.arg2 a.arg3)
dispatch_rest arch rt_tgsigqueueinfo a =
    some (sys_rt_tgsigqueueinfo (as_u32 a.arg0) (as_u32 a.arg1) (as_u32 a.arg2) a.arg3 a.arg4)
dispatch_rest arch sigaltstack a = some (sys_sigaltstack a.arg0 a.arg1)
dispatch_rest arch futex a =
    some (sys_futex a.arg0 (as_u32 a.arg1) (as_u32 a.arg2) a.arg3 a.arg4 (as_u32 a.arg5))
dispatch_rest arch getuid a = some sys_getuid
dispatch_rest arch geteuid a = some sys_geteuid
dispatch_rest arch getgid a = some sys_getgid
dispatch_rest arch getegid a = some sys_getegid
dispatch_rest arch uname a = some (sys_uname a.arg0)
dispatch_rest arch syslog a = some zero_result
dispatch_rest arch gettimeofday a = some (sys_gettimeofday a.arg0)
dispatch_rest arch times a = some (sys_times a.arg0)
dispatch_rest arch clock_gettime a = some (sys_clock_gettime (as_i32 a.arg0) a.arg1)
dispatch_rest arch _ a = none

-- The table, from its first arm: the arms for files, and then the rest.
unfoldable pub dispatch : Arch → Sysno → Args → Option Call
unfolding dispatch_rest
dispatch arch ioctl a = some (sys_ioctl (as_i32 a.arg0) a.arg1 a.arg2)
dispatch arch chdir a = some (sys_chdir a.arg0)
dispatch arch mkdirat a = some (sys_mkdirat (as_i32 a.arg0) a.arg1 (as_u32 a.arg2))
dispatch arch getdents64 a = some (sys_getdents64 (as_i32 a.arg0) a.arg1 a.arg2)
dispatch arch linkat a =
    some (sys_linkat (as_i32 a.arg0) a.arg1 (as_i32 a.arg2) a.arg3 (as_i32 a.arg4))
dispatch arch link a = if is_x86_64 arch then some (sys_link a.arg0 a.arg1) else none
dispatch arch unlinkat a = some (sys_unlinkat (as_i32 a.arg0) a.arg1 (as_u32 a.arg2))
dispatch arch unlink a = if is_x86_64 arch then some (sys_unlink a.arg0) else none
dispatch arch getcwd a = some (sys_getcwd a.arg0 a.arg1)
dispatch arch openat a = some (sys_openat (as_i32 a.arg0) a.arg1 (as_i32 a.arg2) (as_u32 a.arg3))
dispatch arch «open» a =
    if is_x86_64 arch then some (sys_open a.arg0 (as_i32 a.arg1) (as_u32 a.arg2)) else none
dispatch arch close a = some (sys_close (as_i32 a.arg0))
dispatch arch dup a = some (sys_dup (as_i32 a.arg0))
dispatch arch dup2 a =
    if is_x86_64 arch then some (sys_dup2 (as_i32 a.arg0) (as_i32 a.arg1)) else none
dispatch arch dup3 a = some (sys_dup2 (as_i32 a.arg0) (as_i32 a.arg1))
dispatch arch fcntl a = some (sys_fcntl (as_i32 a.arg0) (as_i32 a.arg1) a.arg2)
dispatch arch read a = some (sys_read (as_i32 a.arg0) a.arg1 a.arg2)
dispatch arch readv a = some (sys_readv (as_i32 a.arg0) a.arg1 a.arg2)
dispatch arch write a = some (sys_write (as_i32 a.arg0) a.arg1 a.arg2)
dispatch arch writev a = some (sys_writev (as_i32 a.arg0) a.arg1 a.arg2)
dispatch arch lseek a = some (sys_lseek (as_i32 a.arg0) (as_isize a.arg1) (as_i32 a.arg2))
dispatch arch sendfile a = some (sys_sendfile (as_i32 a.arg0) (as_i32 a.arg1) a.arg2 a.arg3)
dispatch arch poll a =
    if is_x86_64 arch then some (sys_poll a.arg0 (as_u32 a.arg1) (as_i32 a.arg2)) else none
dispatch arch mount a = some (sys_mount a.arg0 a.arg1 a.arg2 (as_i32 a.arg3) a.arg4)
dispatch arch umount2 a = some (sys_umount2 a.arg0 (as_i32 a.arg1))
dispatch arch pipe2 a = some (sys_pipe2 a.arg0 (as_i32 a.arg1))
dispatch arch pipe a = if is_x86_64 arch then some (sys_pipe2 a.arg0 (pos 0)) else none
dispatch arch stat a = if is_x86_64 arch then some (sys_stat a.arg0 a.arg1) else none
dispatch arch fstat a = some (sys_fstat (as_i32 a.arg0) a.arg1)
dispatch arch lstat a = if is_x86_64 arch then some (sys_lstat a.arg0 a.arg1) else none
dispatch arch newfstatat a =
    if is_x86_64 arch
    then some (sys_fstatat (as_i32 a.arg0) a.arg1 a.arg2 (as_u32 a.arg3))
    else none
dispatch arch fstatat a =
    if is_x86_64 arch
    then none
    else some (sys_fstatat (as_i32 a.arg0) a.arg1 a.arg2 (as_u32 a.arg3))
dispatch arch statx a =
    some (sys_statx (as_i32 a.arg0) a.arg1 (as_u32 a.arg2) (as_u32 a.arg3) a.arg4)
dispatch arch sysno a = dispatch_rest arch sysno a
