-- ===== src/Signal/Calls.antt =====
-- The calls of api/src/imp/signal.rs that send to a thread or carry the caller's own `siginfo`.
use oscomp_test_listline.Prelude.{
  ℕ, List, [], none, some, Bool, true, false, not, ◌==◌, ◌&&◌, ◌||◌, if◌then◌else◌,
}
use oscomp_test_listline.Prelude.Int.{ℤ, pos, negsuc}
use oscomp_test_listline.Errno.{eperm, esrch, LinuxResult, ok, err, ◌>>=◌}
use oscomp_test_listline.Signal.{
  Signals, Thread, Process, Tables, Caller, Sent, si_tkill, get_thread, get_process,
  send_signal_thread, send_signal_process, check_sigset_size, parse_signo, make_siginfo,
}

abbrev pub is_negative : ℤ → Bool
is_negative (pos n) = false
is_negative (negsuc n) = true

abbrev pub is_tkill : ℤ → Bool
is_tkill (pos n) = false
is_tkill (negsuc n) = n == 5

unfoldable pub find_thread_in_group : Tables → ℕ → ℕ → LinuxResult Thread
unfolding get_thread
find_thread_in_group t tgid tid =
    get_thread t tid >>= (λ thr. if thr.process == tgid then ok thr else err esrch)

module _ {Info : Type 0} where
  -- The end of the calls that send to a thread, and of those to a process.
  unfoldable pub signal_thread : LinuxResult Thread → Info → LinuxResult ℕ × List (Sent Info)
  unfolding send_signal_thread
  signal_thread (err e) sig = (err e, [])
  signal_thread (ok thr) sig =
      let (r, sent) = send_signal_thread thr sig in (r >>= (λ u. ok 0), sent)

  unfoldable pub signal_process : LinuxResult Process → Info → LinuxResult ℕ × List (Sent Info)
  unfolding send_signal_process
  signal_process (err e) sig = (err e, [])
  signal_process (ok p) sig = let (r, sent) = send_signal_process p sig in (r >>= (λ u. ok 0), sent)

module _ {Info : Type 0} (S : Signals Info) where
  unfoldable pub sys_tkill : Tables → ℕ → ℕ → LinuxResult ℕ × List (Sent Info)
  unfolding make_siginfo get_thread signal_thread
  sys_tkill t tid signo = elim (make_siginfo S signo si_tkill) [
    | err e ↦ (err e, [])
    | ok info ↦ elim info [ none ↦ (ok 0, []) | some sig ↦ signal_thread (get_thread t tid) sig ]
  ]

  unfoldable pub sys_tgkill : Tables → ℕ → ℕ → ℕ → LinuxResult ℕ × List (Sent Info)
  unfolding make_siginfo find_thread_in_group signal_thread
  sys_tgkill t tgid tid signo = elim (make_siginfo S signo si_tkill) [
    | err e ↦ (err e, [])
    | ok info ↦ elim info [
      | none ↦ (ok 0, [])
      | some sig ↦ signal_thread (find_thread_in_group t tgid tid) sig
    ]
  ]

  -- `sig` is what `get_as_ref` gives for the pointer.
  unfoldable pub make_queue_signal_info : Caller → ℕ → ℕ → LinuxResult Info → LinuxResult Info
  unfolding parse_signo
  make_queue_signal_info c tgid signo sig = do
    s ← parse_signo S signo
    given ← sig
    let info = S.set_signo s given
    if not (c.pid == tgid) && (not (is_negative (S.code info)) || is_tkill (S.code info))
        then err eperm
        else ok info

  unfoldable pub sys_rt_sigqueueinfo :
      Tables → Caller → ℕ → ℕ → LinuxResult Info → ℕ → LinuxResult ℕ × List (Sent Info)
  unfolding check_sigset_size make_queue_signal_info get_process signal_process
  sys_rt_sigqueueinfo t c tgid signo sig size =
      elim (check_sigset_size S size >>= (λ u. make_queue_signal_info c tgid signo sig)) [
        | err e ↦ (err e, [])
        | ok info ↦ signal_process (get_process t tgid) info
      ]

  unfoldable pub sys_rt_tgsigqueueinfo :
      Tables → Caller → ℕ → ℕ → ℕ → LinuxResult Info → ℕ → LinuxResult ℕ × List (Sent Info)
  unfolding check_sigset_size make_queue_signal_info find_thread_in_group signal_thread
  sys_rt_tgsigqueueinfo t c tgid tid signo sig size =
      elim (check_sigset_size S size >>= (λ u. make_queue_signal_info c tgid signo sig)) [
        | err e ↦ (err e, [])
        | ok info ↦ signal_thread (find_thread_in_group t tgid tid) info
      ]
