-- ===== src/Signal/Tests.antt =====
-- Three processes of one group: init (1), 5 with a thread 6, and 7, whose data is gone. Signals are the
-- numbers from 1 to 64, and the sets of signals are lists of bits.
use oscomp_test_listline.Prelude.{
  ℕ, ◌≡◌, ◌≢◌, ◌⊎◌, refl, List, [], ◌∷◌, Option, none, some, Bool, true, false, not, leb, ◌&&◌,
  ◌||◌, ◌==◌, if◌then◌else◌, length, arith,
}
use oscomp_test_listline.Prelude.Int.{ℤ, pos, negsuc}
use oscomp_test_listline.Errno.{LinuxError, eperm, enomem, LinuxResult, ok, err}
use oscomp_test_listline.Signal.{
  Signals, Process, Tables, Caller, Sent, to_process, to_thread, si_user, parse_signo, sys_kill,
}
use oscomp_test_listline.Signal.Calls.{
  is_negative, is_tkill, sys_rt_sigqueueinfo, sys_rt_tgsigqueueinfo,
}
use oscomp_test_listline.Signal.Sending.{
  sent_to, receivers, addressees, sys_kill-sent, sys_kill_wraps, sys_kill_stops,
}
use oscomp_test_listline.Signal.Threads.{
  IsThreadOf, sys_rt_sigqueueinfo-sent, sys_rt_tgsigqueueinfo-sent,
}
use oscomp_test_listline.Signal.Masks.{
  SignalSets, Left, sys_rt_sigprocmask, SignalStack, sys_sigaltstack,
}
use oscomp_test_listline.Signal.Masks.Restoring.{
  IsBoolean, Changed, sys_rt_sigprocmask-restores, sys_rt_sigprocmask-member,
}

-- An info is its signal and its code.
abbrev signals : Signals (ℕ × ℤ)
signals = record {
  from_repr = λ n. if not (n == 0) && leb n 64 then some n else none;
  new = λ s code. (s, code);
  set_signo = λ s info. (s, info.1);
  code = λ info. info.1;
  set_size = 8;
}

abbrev init : Process
init = record { pid = 1; is_init = true; has_data = true }

abbrev five : Process
five = record { pid = 5; is_init = false; has_data = true }

abbrev seven : Process
seven = record { pid = 7; is_init = false; has_data = false }

abbrev tables : Tables
tables = record {
  thread_table = record { tid = 6; process = 5; has_data = true } ∷ [];
  process_table = init ∷ five ∷ seven ∷ [];
  process_group_table = (1, init ∷ five ∷ seven ∷ []) ∷ [];
}

abbrev caller : Caller
caller = record { pid = 1; group = init ∷ five ∷ seven ∷ [] }

nonzero : ◌≢◌ {A = ℕ} 15 0
nonzero h = omega arith

parsed : parse_signo signals 15 ≡ ok 15
unfolding parse_signo
parsed = refl

kill_group : (sys_kill signals tables caller (pos 0) 15).0 ≡ ok 2
unfolding sys_kill
kill_group = ground arith

sys_kill-sent_example :
    ((sys_kill signals tables caller (pos 0) 15).1
      ≡ sent_to (15, si_user) (receivers (addressees tables caller (pos 0))))
    × (2 ≡ length (receivers (addressees tables caller (pos 0))))
sys_kill-sent_example =
    sys_kill-sent signals tables caller (pos 0) 15 15 2 nonzero parsed kill_group

sys_kill_wraps_concrete :
    sys_kill signals tables caller (pos 5) 271 ≡ sys_kill signals tables caller (pos 5) 15
sys_kill_wraps_concrete = sys_kill_wraps signals tables caller (pos 5) 15 nonzero

sys_kill_stops_concrete :
    sys_kill signals tables caller (negsuc 0) 15 ≡ (err eperm, to_process 5 (15, si_user) ∷ [])
sys_kill_stops_concrete =
    sys_kill_stops signals tables caller 15 15 (init ∷ five ∷ []) seven [] nonzero parsed refl refl
      refl refl

abbrev no_more : List (Sent (ℕ × ℤ))
no_more = []

abbrev queued : ℕ × ℤ
queued = (15, negsuc 0)

queue_process :
    (sys_rt_sigqueueinfo signals tables caller 5 15 (ok queued) 8).1 ≡ to_process 5 queued ∷ []
unfolding sys_rt_sigqueueinfo
queue_process = refl

sys_rt_sigqueueinfo-sent_concrete :
    (no_more ≡ [])
    × (◌≡◌ {A = ℕ} 5 5)
    × ((caller.pid ≡ 5) ⊎ ((is_negative (negsuc 0) ≡ true) × (is_tkill (negsuc 0) ≡ false)))
sys_rt_sigqueueinfo-sent_concrete =
    sys_rt_sigqueueinfo-sent signals tables caller 5 15 (ok queued) 8 5 queued [] queue_process

queue_thread :
    (sys_rt_tgsigqueueinfo signals tables caller 5 6 15 (ok queued) 8).1 ≡ to_thread 6 queued ∷ []
unfolding sys_rt_tgsigqueueinfo
queue_thread = refl

sys_rt_tgsigqueueinfo-sent_example :
    let (r, sent) = sys_rt_tgsigqueueinfo signals tables caller 5 6 15 (ok queued) 8 in
    ((sent ≡ []) × ((e : LinuxError) × (r ≡ err e)))
    ⊎ ((i : ℕ × ℤ) × (sent ≡ to_thread 6 i ∷ [])
        × (r ≡ ok 0)
        × IsThreadOf tables 5 6
        × ((caller.pid ≡ 5)
            ⊎ ((is_negative (signals.code i) ≡ true) × (is_tkill (signals.code i) ≡ false))))
sys_rt_tgsigqueueinfo-sent_example =
    sys_rt_tgsigqueueinfo-sent signals tables caller 5 6 15 (ok queued) 8

-- A set of signals, by its members.
abbrev sets : SignalSets (ℕ → Bool)
sets = record {
  union = λ a b s. a s || b s;
  inter = λ a b s. a s && b s;
  complement = λ a s. not (a s);
}

sets-IsBoolean : IsBoolean sets (λ s a. a s)
sets-IsBoolean = record {
  member-union = λ s a b. refl;
  member-inter = λ s a b. refl;
  member-complement = λ s a. refl;
}

abbrev only : ℕ → ℕ → Bool
only k s = s == k

abbrev two : LinuxResult (Option (ℕ → Bool))
two = ok (some (only 2))

abbrev blocks : Left (ℕ → Bool)
blocks = sys_rt_sigprocmask signals sets 0 (ok (some (only 2))) (ok true) 8 (only 3)

blocks_ok : blocks.result ≡ ok 0
unfolding sys_rt_sigprocmask
blocks_ok = refl

sys_rt_sigprocmask-restores_concrete :
    (old : ℕ → Bool) × (blocks.written ≡ some old)
    × ((sys_rt_sigprocmask signals sets 2 (ok (some old)) (ok false) 8 blocks.state).state ≡ only 3)
    × ((sys_rt_sigprocmask signals sets 2 (ok (some old)) (ok false) 8 blocks.state).result ≡ ok 0)
sys_rt_sigprocmask-restores_concrete =
    sys_rt_sigprocmask-restores signals sets 0 (ok (some (only 2))) 8 (only 3) false blocks_ok

sys_rt_sigprocmask-member_example :
    ((e : LinuxError) × (blocks.result ≡ err e) × (blocks.state ≡ only 3))
    ⊎ ((blocks.result ≡ ok 0) × (two ≡ ok none) × (blocks.state ≡ only 3))
    ⊎ ((m : ℕ → Bool) × (blocks.result ≡ ok 0)
        × (two ≡ ok (some m))
        × Changed (λ s a. a s) 0 7 (only 3) m blocks.state)
sys_rt_sigprocmask-member_example =
    sys_rt_sigprocmask-member signals sets (λ s a. a s) 0 (ok (some (only 2))) (ok true) 8 (only 3)
      7 sets-IsBoolean

abbrev small : SignalStack
small = record { sp = 4096; size = 2048 }

abbrev region : ℕ → ℕ → LinuxResult {0} Unit
region sp size = ok tt

-- A stack of exactly the least size is refused.
small_refused : (sys_sigaltstack 2048 region (ok (some small)) (ok false) small).result ≡ err enomem
unfolding sys_sigaltstack
small_refused = refl
