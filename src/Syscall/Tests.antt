-- ===== src/Syscall/Tests.antt =====
-- The handler on a kernel whose state is a list of descriptors, with the numbers of x86_64.
use oscomp_test_listline.Prelude.{
  ℕ, ◌≡◌, refl, ap, inl, inr, List, [], ◌∷◌, Option, none, some, Option-cases, ◌++◌, ◌==◌,
  if◌then◌else◌, arith,
}
use oscomp_test_listline.Prelude.Int.{ℤ, pos, negsuc}
use oscomp_test_listline.Errno.{LinuxError, enosys, LinuxResult, ok}
use oscomp_test_listline.TimeStat.{new_time_stat, output}
use oscomp_test_listline.TimeStat.Accounting.{last_enter, kernel_time}
use oscomp_test_listline.Syscall.Calls.{
  Sysno, dup2, dup3, getpid, exit, other, Call, sys_dup2, sys_exit,
}
use oscomp_test_listline.Syscall.Dispatch.{Arch, x86_64, Args}
use oscomp_test_listline.Syscall.{Kernel, Trap, handle_syscall, handle_all}
use oscomp_test_listline.Syscall.Accounting.{spans, handle_all-account, dup3_ignores_flags}

abbrev numbers : ℕ → Sysno
numbers n =
    if n == 33
    then dup2
    else if n == 292
    then dup3
    else if n == 39
    then getpid
    else if n == 60
    then exit
    else other n

abbrev code : LinuxError → ℕ
code enosys = 38
code _ = 9

-- The result, and the descriptors that are recorded: `dup2` records the new one, `exit` does not return,
-- and all else returns 7.
abbrev effect : Call → Option (LinuxResult ℤ × List ℤ)
effect (sys_dup2 old new) = some (ok new, new ∷ [])
effect (sys_exit c) = none
effect _ = some (ok (pos 7), [])

abbrev run : Call → Kernel (List ℤ) → Option (LinuxResult ℤ × Kernel (List ℤ))
run c k = elim (effect c) [
  | none ↦ none
  | some (r, ds) ↦ some (r, record k { rest = ds ++ k.rest })
]

abbrev start : Kernel (List ℤ)
start = record { time = new_time_stat; rest = [] }

abbrev trap : ℕ → ℕ → ℕ → ℕ → Trap
trap number flags enter leave = record {
  number = number;
  args = record { arg0 = 1; arg1 = 5; arg2 = flags; arg3 = 0; arg4 = 0; arg5 = 0 };
  enter = enter;
  leave = leave;
}

abbrev traps : List Trap
traps = trap 39 0 100 110 ∷ trap 292 524288 200 230 ∷ trap 999 0 300 301 ∷ []

abbrev after : Kernel (List ℤ)
after = record {
  time = record new_time_stat {
    utime_ns = 300;
    stime_ns = 41;
    user_timestamp = 301;
    kernel_timestamp = 300;
  };
  rest = pos 5 ∷ [];
}

answers_of_traps :
    handle_all x86_64 numbers code run start traps ≡ some (pos 7 ∷ pos 5 ∷ negsuc 37 ∷ [], after)
unfolding handle_all handle_syscall oscomp_test_listline.Syscall.Dispatch.as_i32
    oscomp_test_listline.TimeStat.switch_into_user_mode
    oscomp_test_listline.TimeStat.switch_into_kernel_mode new_time_stat
answers_of_traps = refl

exit_does_not_return : handle_all x86_64 numbers code run start (trap 60 0 1 2 ∷ traps) ≡ none
unfolding handle_all handle_syscall
exit_does_not_return = refl

keeps :
    (c : Call) (k k' : Kernel (List ℤ)) (r : LinuxResult ℤ)
    → run c k ≡ some (r, k')
    → k'.time ≡ k.time
keeps c k k' r h = elim (Option-cases (effect c)) [
  | inl e ↦ absurd (ground arith)
  | inr ((z, ds), e) ↦
      let last : k' ≡ record k { rest = ds ++ k.rest } = ground arith in ap (λ w. w.time) last
]

handle_all-account_example :
    output after.time ≡ (last_enter 0 (spans traps), kernel_time (spans traps))
handle_all-account_example =
    handle_all-account x86_64 numbers code run keeps start after traps
      (pos 7 ∷ pos 5 ∷ negsuc 37 ∷ []) refl
      (
        omega arith,
        omega arith,
        (omega arith, omega arith, (omega arith, omega arith, omega arith)),
      )
      answers_of_traps

dup3_ignores_flags_concrete :
    handle_syscall x86_64 numbers code run start (trap 292 524288 1 2)
    ≡ handle_syscall x86_64 numbers code run start (trap 33 0 1 2)
dup3_ignores_flags_concrete =
    dup3_ignores_flags x86_64 numbers code run start (trap 292 524288 1 2) (trap 33 0 1 2) refl
      (inr (refl, refl)) refl refl refl refl
