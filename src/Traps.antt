-- ===== src/Traps.antt =====
-- src/mm.rs, api/src/signal.rs and the calls of api/src/imp/signal.rs that wait for signals: what happens at a
-- page fault and at the return to the user.
pub mod Actions
pub mod Faults
mod Tests
use oscomp_test_listline.Prelude.{
  ℕ, ◌+◌, List, [], ◌∷◌, Option, none, some, Bool, true, false, not, ◌&&◌, ◌==◌, if◌then◌else◌,
}
use oscomp_test_listline.Errno.{LinuxError, eagain, LinuxResult, ok, err, ◌>>=◌}
use oscomp_test_listline.Memory.Space.{MappingFlags}
use oscomp_test_listline.Signal.{Signals, check_sigset_size}
use oscomp_test_listline.FdTable.Objects.{FlattenObjects}
use oscomp_test_listline.Clone.{Process, World, put}
use oscomp_test_listline.Clone.Exit.{Event, do_exit}

-- `SignalOSAction`
pub data OsAction : Type 0 where
  terminate core_dump stop continues handler : OsAction

-- axsignal's managers of the thread's and the process's signals, a state `M`, with trap frames `F` and sets of
-- signals `S`: `check_signals` takes the next signal that is not blocked, if there is one, and prepares the
-- frame for its handler; the set is the one that the end of the handler restores.
pub record Manager (M F S : Type 0) : Type 0 where
  pub check_signals : Option S → M → F → Option (ℕ × OsAction) × M × F
  pub restore : M → F → M × F
  pub pending : M → S
  pub blocked : M → S
  pub set_blocked : S → M → M
  pub remove : ℕ → S → S
  pub retval : F → ℕ
  pub set_retval_eintr : F → F
  -- `wait_timeout`, which gives the `siginfo` of a signal
  pub wait_timeout : S → M → Option ℕ × M

-- What a check comes to: whether there was a signal, or the task ends with a code, and its whole group.
pub data Checked (M F : Type 0) : Type 0 where
  checked : Bool → M → F → Checked M F
  exits_group : ℕ → Checked M F

-- What a call that waits comes to, or its state when the schedule ends.
pub data Suspended (M F : Type 0) : Type 0 where
  resumes : LinuxResult ℕ → M → F → Suspended M F
  ends_group : ℕ → Suspended M F
  still_waits : M → F → Suspended M F

-- What the action of a signal does to the task.
unfoldable pub act_on : {M F : Type 0} → ℕ → OsAction → M → F → Checked M F
act_on signo terminate m tf = exits_group (128 + signo)
act_on signo core_dump m tf = exits_group (128 + signo)
act_on signo stop m tf = exits_group 1
act_on signo continues m tf = checked true m tf
act_on signo handler m tf = checked true m tf

module _ {M F S : Type 0} (signals : Manager M F S) where
  unfoldable pub check_signals : Option S → M → F → Checked M F
  unfolding act_on
  check_signals restore_blocked m tf =
      let (found, m', tf') = signals.check_signals restore_blocked m tf in
      elim found [
        | none ↦ checked false m' tf'
        | some (signo, os_action) ↦ act_on signo os_action m' tf'
      ]

  unfoldable pub post_trap_callback : Bool → M → F → Checked M F
  unfolding check_signals
  post_trap_callback from_user m tf =
      if not from_user then checked false m tf else check_signals none m tf

  unfoldable pub sys_rt_sigreturn : M → F → LinuxResult ℕ × M × F
  sys_rt_sigreturn m tf = let (m', tf') = signals.restore m tf in (ok (signals.retval tf'), m', tf')

  -- The loop of `sys_rt_sigsuspend`; the schedule has what happens during each `wait_signal`.
  unfoldable pub suspend_loop : S → List (M → M) → M → F → Suspended M F
  unfolding check_signals
  suspend_loop old_blocked [] m tf = elim (check_signals (some old_blocked) m tf) [
    | exits_group code ↦ ends_group code
    | checked b m' tf' ↦ if b then resumes (ok 0) m' tf' else still_waits m' tf'
  ]
  suspend_loop old_blocked (during ∷ later) m tf = elim (check_signals (some old_blocked) m tf) [
    | exits_group code ↦ ends_group code
    | checked b m' tf' ↦ elim b [
      | true ↦ resumes (ok 0) m' tf'
      | false ↦ suspend_loop old_blocked later (during m') tf'
    ]
  ]

module _ {M F X Info : Type 0} (S : Signals Info) (signals : Manager M F X) where
  -- `set` is what `get_as_mut` gives; beside the result stands what is stored.
  unfoldable pub sys_rt_sigpending : LinuxResult (Unit {0}) → ℕ → M → LinuxResult ℕ × Option X
  unfolding check_sigset_size
  sys_rt_sigpending set sigsetsize m = elim (check_sigset_size S sigsetsize >>= (λ u. set)) [
    | err e ↦ (err e, none)
    | ok u ↦ (ok 0, some (signals.pending m))
  ]

  -- `set` and `info` are what the pointers give; the timeout is in the schedule of `wait_timeout`.
  unfoldable pub sys_rt_sigtimedwait :
      LinuxResult X
      → LinuxResult (Unit {0})
      → Option (LinuxResult (Unit {0}))
      → ℕ
      → M
      → LinuxResult ℕ × Option ℕ × M
  unfolding check_sigset_size
  sys_rt_sigtimedwait set timeout info sigsetsize m =
      elim (check_sigset_size S sigsetsize >>= (λ u. set >>= (λ s. timeout >>= (λ v. ok s)))) [
        | err e ↦ (err e, none, m)
        | ok s ↦
            let (found, m') = signals.wait_timeout s m in
            elim found [
              | none ↦ (err eagain, none, m')
              | some sig ↦ elim info [
                | none ↦ (ok 0, none, m')
                | some ptr ↦ elim ptr [ err e ↦ (err e, none, m') | ok u ↦ (ok 0, some sig, m') ]
              ]
            ]
      ]

  -- 9 is SIGKILL and 19 SIGSTOP, which cannot be blocked.
  unfoldable pub sys_rt_sigsuspend : LinuxResult X → ℕ → List (M → M) → M → F → Suspended M F
  unfolding check_sigset_size suspend_loop
  sys_rt_sigsuspend set sigsetsize schedule m tf =
      elim (check_sigset_size S sigsetsize >>= (λ u. set)) [
        | err e ↦ resumes (err e) m tf
        | ok s ↦
            suspend_loop signals (signals.blocked m) schedule
              (signals.set_blocked (signals.remove 19 (signals.remove 9 s)) m)
              (signals.set_retval_eintr tf)
      ]

-- A fault that the handler does not take, that is resolved, or that ends the task: what others see of it.
pub data Fault (W : Type 0) : Type 0 where
  unhandled : Fault W
  resolved : W → Fault W
  segfaults : List Event → W → Fault W

-- `handle` is axmm's `handle_page_fault`; the others are the arguments of `do_exit`. 11 is SIGSEGV.
module _ {T A M S D P : Type 0} (fo : FlattenObjects T A)
    (handle : M → ℕ → MappingFlags → Bool × M) where
  unfoldable pub handle_page_fault :
      Process
      → LinuxResult ℕ
      → Bool
      → Bool
      → Bool
      → List ℕ
      → Bool
      → ℕ
      → MappingFlags
      → Bool
      → World T M S D P
      → Fault (World T M S D P)
  unfolding do_exit
  handle_page_fault process clear_tid has_futex last group_exited threads accessing vaddr
        access_flags is_user w =
      if not is_user && not accessing
      then unhandled
      else (let (found, s) = handle (w.spaces process.aspace) vaddr access_flags in
          let w' : World T M S D P = record w { spaces = put w.spaces process.aspace s } in
          if found
          then resolved w'
          else (let (events, w2) =
                do_exit fo process clear_tid has_futex last group_exited threads 11 true w' in
              segfaults events w2))
