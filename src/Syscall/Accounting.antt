-- ===== src/Syscall/Accounting.antt =====
-- What the handler of system calls does to the time accounting of the task, and its answers.
use oscomp_test_listline.Prelude.{
  ℕ, ◌%◌, ◌^◌, ◌≡◌, ◌⊎◌, inl, inr, refl, ap, ◌∙◌, List, [], ◌∷◌, Option, none, some, Option-cases,
  arith,
}
use oscomp_test_listline.Prelude.Int.{ℤ}
use oscomp_test_listline.Errno.{LinuxError, LinuxResult}
use oscomp_test_listline.TimeStat.{
  into_kernel, into_user, apply, apply_all, new_time_stat, output, switch_into_kernel_mode,
}
use oscomp_test_listline.TimeStat.Accounting as Time
use oscomp_test_listline.TimeStat.Accounting.{switches, Follow, last_enter, kernel_time, account}
use oscomp_test_listline.Syscall.Calls.{Sysno, dup2, dup3, Call}
use oscomp_test_listline.Syscall.Dispatch.{Arch, x86_64, Args, dispatch, as_i32}
use oscomp_test_listline.Syscall.{Kernel, Trap, handle_syscall, handle_all, run_call}

-- The times of the traps.
abbrev pub spans : List Trap → List Time.Call
spans [] = []
spans (t ∷ ts) = record { enter = t.enter; leave = t.leave } ∷ spans ts

module _ {S : Type 0} (arch : Arch) (sysno_from : ℕ → Sysno) (code : LinuxError → ℕ)
    (run : Call → Kernel S → Option (LinuxResult ℤ × Kernel S))
    (keeps : (c : Call) (k k' : Kernel S) (r : LinuxResult ℤ)
      → run c k ≡ some (r, k')
      → k'.time ≡ k.time) where
  run_call_time :
      (c : Option Call) (k k' : Kernel S) (r : LinuxResult ℤ)
      → run_call arch sysno_from code run c k ≡ some (r, k')
      → k'.time ≡ k.time
  run_call_time none k k' r h = ground arith
  run_call_time (some c) k k' r h = keeps c k k' r h

  handle_syscall_time :
      (k k' : Kernel S) (t : Trap) (z : ℤ)
      → handle_syscall arch sysno_from code run k t ≡ some (z, k')
      → k'.time ≡ apply (apply k.time (into_kernel t.enter)) (into_user t.leave)
  unfolding handle_syscall apply
  handle_syscall_time k k' t z h =
      let sysno = sysno_from (t.number % 2 ^ 32) in
      let entered = record k { time = switch_into_kernel_mode k.time t.enter } in
      elim (Option-cases (run_call arch sysno_from code run (dispatch arch sysno t.args) entered)) [
        | inl n ↦ absurd (ground arith)
        | inr ((r, k1), p) ↦
            let q = run_call_time (dispatch arch sysno t.args) entered k1 r p in ground (arith, q)
      ]

  handle_all_time :
      (k k' : Kernel S) (ts : List Trap) (answers : List ℤ)
      → handle_all arch sysno_from code run k ts ≡ some (answers, k')
      → k'.time ≡ apply_all k.time (switches (spans ts))
  unfolding handle_all apply_all
  handle_all_time k k' [] answers h = ground arith
  handle_all_time k k' (t ∷ ts) answers h =
      elim (Option-cases (handle_syscall arch sysno_from code run k t)) [
        | inl n ↦ absurd (ground arith)
        | inr ((z, k1), p) ↦ elim (Option-cases (handle_all arch sysno_from code run k1 ts)) [
          | inl n ↦ absurd (ground arith)
          | inr ((zs, k2), q) ↦
              let first = handle_syscall_time k k1 t z p in
              let rest = handle_all_time k1 k2 ts zs q in
              let last : k' ≡ k2 = ground arith in
              ap (λ w. w.time) last ∙ rest ∙ ap (λ s. apply_all s (switches (spans ts))) first
        ]
      ]

  -- A task that begins with a new accounting makes system calls that follow one another, all of which
  -- return, by functions that leave the accounting alone. Then the system time is the time between the
  -- entries and the exits, and the user time is the whole time up to the last entry.
  pub handle_all-account :
      (k k' : Kernel S) (ts : List Trap) (answers : List ℤ)
      → k.time ≡ new_time_stat
      → Follow 0 (spans ts)
      → handle_all arch sysno_from code run k ts ≡ some (answers, k')
      → output k'.time ≡ (last_enter 0 (spans ts), kernel_time (spans ts))
  handle_all-account k k' ts answers n f h =
      let e = handle_all_time k k' ts answers h in
      ap output (e ∙ ap (λ s. apply_all s (switches (spans ts))) n) ∙ account (spans ts) f

dup3_call :
    (arch : Arch) (s s' : Sysno) (a a' : Args)
    → s ≡ dup3
    → (s' ≡ dup3) ⊎ ((s' ≡ dup2) × (arch ≡ x86_64))
    → a.arg0 % 2 ^ 32 ≡ a'.arg0 % 2 ^ 32
    → a.arg1 % 2 ^ 32 ≡ a'.arg1 % 2 ^ 32
    → dispatch arch s a ≡ dispatch arch s' a'
unfolding dispatch as_i32
dup3_call arch s s' a a' e (inl f) p q = rw e (rw f (rw p (rw q refl)))
dup3_call arch s s' a a' e (inr (f, x)) p q = rw e (rw f (rw x (rw p (rw q refl))))

module _ {S : Type 0} (arch : Arch) (sysno_from : ℕ → Sysno) (code : LinuxError → ℕ)
    (run : Call → Kernel S → Option (LinuxResult ℤ × Kernel S)) where
  -- Two traps of `dup3` at the same times with the same two descriptors have the same answer and the same
  -- effect, whatever the flags and the other registers are, and so has a trap of `dup2` on x86_64.
  pub dup3_ignores_flags :
      (k : Kernel S) (t t' : Trap)
      → sysno_from (t.number % 2 ^ 32) ≡ dup3
      → (sysno_from (t'.number % 2 ^ 32) ≡ dup3)
        ⊎ ((sysno_from (t'.number % 2 ^ 32) ≡ dup2) × (arch ≡ x86_64))
      → t.args.arg0 % 2 ^ 32 ≡ t'.args.arg0 % 2 ^ 32
      → t.args.arg1 % 2 ^ 32 ≡ t'.args.arg1 % 2 ^ 32
      → t.enter ≡ t'.enter
      → t.leave ≡ t'.leave
      → handle_syscall arch sysno_from code run k t ≡ handle_syscall arch sysno_from code run k t'
  unfolding handle_syscall
  dup3_ignores_flags k t t' e f a b c d =
      let same =
        dup3_call arch (sysno_from (t.number % 2 ^ 32)) (sysno_from (t'.number % 2 ^ 32)) t.args
          t'.args e f a b in
      rw (same, handle_syscall) (rw (c, handle_syscall) (rw (d, handle_syscall) refl))
