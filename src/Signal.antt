-- ===== src/Signal.antt =====
-- api/src/imp/signal.rs and the sending functions of api/src/signal.rs. A call answers its result and the
-- signals that it hands to the signal managers (crate axsignal), in order.
pub mod Sending
pub mod Calls
pub mod Masks
pub mod Threads
mod Tests
use oscomp_test_listline.Prelude.{
  ℕ, zero, suc, ◌+◌, ◌%◌, ◌≡◌, List, [], ◌∷◌, ◌++◌, Option, none, some, Bool, true, false, not,
  ◌==◌, ◌&&◌, ◌||◌, if◌then◌else◌,
}
use oscomp_test_listline.Prelude.Int.{ℤ, pos, negsuc}
use oscomp_test_listline.Errno.{
  LinuxError, eperm, esrch, einval, LinuxResult, ok, err, ◌>>=◌, ok_or, is_ok,
}

-- What the calls use of axsignal: a `Signo` is its number, and `from_repr` is `none` for a number that is
-- no signal. `set_size` is `size_of::<SignalSet>()`.
pub record Signals (Info : Type 0) : Type 0 where
  pub from_repr : ℕ → Option ℕ
  pub new : ℕ → ℤ → Info
  pub set_signo : ℕ → Info → Info
  pub code : Info → ℤ
  pub set_size : ℕ

-- A live process of axprocess, and whether it has its `ProcessData`.
pub record Process : Type 0 where
  pub pid : ℕ
  pub is_init : Bool
  pub has_data : Bool

-- `process` is the pid of the thread's process.
pub record Thread : Type 0 where
  pub tid : ℕ
  pub process : ℕ
  pub has_data : Bool

-- The tables of core/src/task.rs, in the order of their keys, as far as their entries are alive.
pub record Tables : Type 0 where
  pub thread_table : List Thread
  pub process_table : List Process
  pub process_group_table : List (ℕ × List Process)

-- The process of the caller, and the processes of its group.
pub record Caller : Type 0 where
  pub pid : ℕ
  pub group : List Process

unfoldable pub processes : Tables → List Process
processes t = t.process_table

unfoldable pub find_process : ℕ → List Process → Option Process
find_process pid [] = none
find_process pid (p ∷ ps) = if p.pid == pid then some p else find_process pid ps

unfoldable pub find_thread : ℕ → List Thread → Option Thread
find_thread tid [] = none
find_thread tid (t ∷ ts) = if t.tid == tid then some t else find_thread tid ts

unfoldable pub find_group : ℕ → List (ℕ × List Process) → Option (List Process)
find_group pgid [] = none
find_group pgid ((g, ps) ∷ gs) = if g == pgid then some ps else find_group pgid gs

unfoldable pub get_process : Tables → ℕ → LinuxResult Process
unfolding find_process
get_process t pid = ok_or (find_process pid t.process_table) esrch

unfoldable pub get_thread : Tables → ℕ → LinuxResult Thread
unfolding find_thread
get_thread t tid = ok_or (find_thread tid t.thread_table) esrch

unfoldable pub get_process_group : Tables → ℕ → LinuxResult (List Process)
unfolding find_group
get_process_group t pgid = ok_or (find_group pgid t.process_group_table) esrch

-- A signal that a manager was given.
pub data Sent (Info : Type 0) : Type 0 where
  to_process : ℕ → Info → Sent Info
  to_thread : ℕ → Info → Sent Info

abbrev pub si_user : ℤ
si_user = pos 0

abbrev pub si_tkill : ℤ
si_tkill = negsuc 5

module _ {Info : Type 0} where
  unfoldable pub send_signal_thread : Thread → Info → LinuxResult {0} Unit × List (Sent Info)
  send_signal_thread t sig =
      if t.has_data then (ok tt, to_thread t.tid sig ∷ []) else (err eperm, [])

  unfoldable pub send_signal_process : Process → Info → LinuxResult {0} Unit × List (Sent Info)
  send_signal_process p sig =
      if p.has_data then (ok tt, to_process p.pid sig ∷ []) else (err eperm, [])

  unfoldable pub send_signal_process_group : List Process → Info → ℕ × List (Sent Info)
  unfolding send_signal_process
  send_signal_process_group [] sig = (0, [])
  send_signal_process_group (p ∷ ps) sig =
      let (r, now) = send_signal_process p sig in
      let (count, later) = send_signal_process_group ps sig in
      ((if is_ok r then 1 else 0) + count, now ++ later)

  -- The loop of `sys_kill` over all processes.
  unfoldable pub send_all : List Process → Info → LinuxResult ℕ × List (Sent Info)
  unfolding send_signal_process
  send_all [] sig = (ok 0, [])
  send_all (p ∷ ps) sig =
      let (count, later) = send_all ps sig in
      elim p.is_init [
        | true ↦ (count, later)
        | false ↦
            let (r, now) = send_signal_process p sig in
            elim r [ err e ↦ (err e, now) | ok u ↦ (count >>= (λ n. ok (suc n)), now ++ later) ]
      ]

  -- The `match` of `sys_kill`.
  unfoldable pub kill : Tables → Caller → ℤ → Info → LinuxResult ℕ × List (Sent Info)
  unfolding get_process get_process_group processes send_signal_process send_signal_process_group
      send_all
  kill t c (pos zero) sig =
      let (count, sent) = send_signal_process_group c.group sig in (ok count, sent)
  kill t c (pos (suc n)) sig = elim (get_process t (suc n)) [
    | err e ↦ (err e, [])
    | ok p ↦ let (r, sent) = send_signal_process p sig in (r >>= (λ u. ok 1), sent)
  ]
  kill t c (negsuc zero) sig = send_all (processes t) sig
  kill t c (negsuc (suc n)) sig = elim (get_process_group t (suc (suc n))) [
    | err e ↦ (err e, [])
    | ok ps ↦ let (count, sent) = send_signal_process_group ps sig in (ok count, sent)
  ]

module _ {Info : Type 0} (S : Signals Info) where
  unfoldable pub check_sigset_size : ℕ → LinuxResult {0} Unit
  check_sigset_size size = if size == S.set_size then ok tt else err einval

  -- `signo as u8` keeps the low 8 bits.
  unfoldable pub parse_signo : ℕ → LinuxResult ℕ
  parse_signo signo = ok_or (S.from_repr (signo % 256)) einval

  unfoldable pub make_siginfo : ℕ → ℤ → LinuxResult (Option Info)
  unfolding parse_signo
  make_siginfo signo code =
      if signo == 0 then ok none else parse_signo signo >>= (λ s. ok (some (S.new s code)))

  unfoldable pub sys_kill : Tables → Caller → ℤ → ℕ → LinuxResult ℕ × List (Sent Info)
  unfolding make_siginfo kill
  sys_kill t c pid signo = elim (make_siginfo signo si_user) [
    | err e ↦ (err e, [])
    | ok info ↦ elim info [ none ↦ (ok 0, []) | some sig ↦ kill t c pid sig ]
  ]
