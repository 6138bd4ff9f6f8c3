-- ===== src/Syscall.antt =====
-- src/syscall.rs: the handler of system calls, from the trap to the result.
pub mod Calls
pub mod Dispatch
pub mod Accounting
mod Tests
use oscomp_test_listline.Prelude.{ℕ, zero, suc, ◌%◌, ◌^◌, Option, none, some, List, [], ◌∷◌}
use oscomp_test_listline.Prelude.Int.{ℤ, pos, sub_ℕ}
use oscomp_test_listline.Errno.{LinuxError, enosys, LinuxResult, ok, err}
use oscomp_test_listline.TimeStat.{TimeStat, switch_into_kernel_mode, switch_into_user_mode}
use Calls.{Sysno, Call}
use Dispatch.{Arch, Args, dispatch}

-- The state of the kernel: the time accounting of the current task, and everything else.
pub record Kernel (S : Type 0) : Type 0 where
  pub time : TimeStat
  pub rest : S

-- One trap: the number, the arguments, and the clock at the entry and at the exit.
pub record Trap : Type 0 where
  pub number : ℕ
  pub args : Args
  pub enter : ℕ
  pub leave : ℕ

-- `sysno_from` is `Sysno::from` of the crate syscalls, `code` the number of an error (crate axerrno), and
-- `run` the function called, which has no result if it does not return (exit).
module _ {S : Type 0} (arch : Arch) (sysno_from : ℕ → Sysno) (code : LinuxError → ℕ)
    (run : Call → Kernel S → Option (LinuxResult ℤ × Kernel S)) where
  abbrev pub run_call : Option Call → Kernel S → Option (LinuxResult ℤ × Kernel S)
  run_call none k = some (err enosys, k)
  run_call (some c) k = run c k

  -- `unwrap_or_else(|err| -err.code() as _)`
  abbrev pub answer : LinuxResult ℤ → ℤ
  answer (ok z) = z
  answer (err e) = sub_ℕ 0 (code e)

  -- The last lines of the handler: the answer, and the accounting at the exit.
  abbrev pub leave_kernel : ℕ → Option (LinuxResult ℤ × Kernel S) → Option (ℤ × Kernel S)
  leave_kernel leave none = none
  leave_kernel leave (some (result, k)) =
      some (answer result, record k { time = switch_into_user_mode k.time leave })

  unfoldable pub handle_syscall : Kernel S → Trap → Option (ℤ × Kernel S)
  unfolding dispatch
  handle_syscall k t =
      let sysno = sysno_from (t.number % 2 ^ 32) in
      let entered = record k { time = switch_into_kernel_mode k.time t.enter } in
      leave_kernel t.leave (run_call (dispatch arch sysno t.args) entered)

  -- The traps of one task, one after another, up to one that does not return.
  unfoldable pub handle_all : Kernel S → List Trap → Option (List ℤ × Kernel S)
  handle_all k [] = some ([], k)
  handle_all k (t ∷ ts) = elim (handle_syscall k t) [
    | none ↦ none
    | some (ans, k') ↦ elim (handle_all k' ts) [
      | none ↦ none
      | some (answers, k'') ↦ some (ans ∷ answers, k'')
    ]
  ]
