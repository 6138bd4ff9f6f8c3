-- ===== src/Signal/Threads.antt =====
-- Signals to a thread, and signals with the caller's own `siginfo`.
use oscomp_test_listline.Prelude.{
  ℕ, ◌≡◌, ◌⊎◌, refl, sym, ap, ◌∙◌, inl, inr, List, [], ◌∷◌, some, true, false, Option-cases,
  Bool-cases, arith,
}
use oscomp_test_listline.Errno.{LinuxError, eperm, LinuxResult, ok, err, Result-cases}
use oscomp_test_listline.Signal.{
  Signals, Process, Thread, Tables, Caller, find_process, find_thread, get_process, get_thread,
  Sent, to_process, to_thread, send_signal_process, send_signal_thread, parse_signo,
  check_sigset_size,
}
use oscomp_test_listline.Signal.Calls.{
  is_negative, is_tkill, find_thread_in_group, signal_thread, signal_process,
  make_queue_signal_info, sys_rt_sigqueueinfo, sys_rt_tgsigqueueinfo,
}

find_process-pid :
    (pid : ℕ) (ps : List Process) (p : Process) → find_process pid ps ≡ some p → p.pid ≡ pid
unfolding find_process
find_process-pid pid [] p h = ground arith
find_process-pid pid (q ∷ ps) p h = ground (arith, find_process-pid pid ps p)

find_thread-tid :
    (tid : ℕ) (ts : List Thread) (t : Thread) → find_thread tid ts ≡ some t → t.tid ≡ tid
unfolding find_thread
find_thread-tid tid [] t h = ground arith
find_thread-tid tid (u ∷ ts) t h = ground (arith, find_thread-tid tid ts t)

get_process-pid : (t : Tables) (pid : ℕ) (p : Process) → get_process t pid ≡ ok p → p.pid ≡ pid
unfolding get_process
get_process-pid t pid p h = elim (Option-cases (find_process pid t.process_table)) [
  | inl e ↦ ground (arith, e)
  | inr (u, e) ↦
      let found : u.pid ≡ pid = find_process-pid pid t.process_table u e in ground (arith, e, found)
]

-- A thread of the table, by its number and the pid of its process.
abbrev pub IsThreadOf : Tables → ℕ → ℕ → Type 0
IsThreadOf t tgid tid =
    (thr : Thread) × (find_thread tid t.thread_table ≡ some thr) × (thr.process ≡ tgid)

find_thread_in_group_lem :
    (t : Tables) (tgid tid : ℕ) (thr : Thread)
    → find_thread_in_group t tgid tid ≡ ok thr
    → (thr.tid ≡ tid) × IsThreadOf t tgid tid
unfolding find_thread_in_group get_thread
find_thread_in_group_lem t tgid tid thr h = elim (Option-cases (find_thread tid t.thread_table)) [
  | inl e ↦ ground (arith, e)
  | inr (u, e) ↦
      let found : u.tid ≡ tid = find_thread-tid tid t.thread_table u e in
      (ground (arith, e, found), (u, e, ground (arith, e)))
]

module _ {Info : Type 0} where
  signal_process-sent :
      (r : LinuxResult Process) (sig i : Info) (pid : ℕ) (rest : List (Sent Info))
      → (signal_process r sig).1 ≡ to_process pid i ∷ rest
      → (p : Process) × (r ≡ ok p) × (pid ≡ p.pid) × (i ≡ sig) × (rest ≡ [])
  unfolding signal_process send_signal_process
  signal_process-sent (err e) sig i pid rest h = ground arith
  signal_process-sent (ok p) sig i pid rest h = (p, refl, ground arith, ground arith, ground arith)

module _ {Info : Type 0} (S : Signals Info) where
  make_queue_signal_info_lem :
      (c : Caller) (tgid signo : ℕ) (sig : LinuxResult Info) (i : Info)
      → make_queue_signal_info S c tgid signo sig ≡ ok i
      → (c.pid ≡ tgid) ⊎ ((is_negative (S.code i) ≡ true) × (is_tkill (S.code i) ≡ false))
  unfolding make_queue_signal_info
  make_queue_signal_info_lem c tgid signo sig i h = elim (Result-cases (parse_signo S signo)) [
    | inl (s, p) ↦ elim (Result-cases sig) [
      | inl (given, q) ↦ ground (arith, p, q)
      | inr (e, q) ↦ ground (arith, p, q)
    ]
    | inr (e, p) ↦ ground (arith, p)
  ]

  -- A signal that `rt_sigqueueinfo` sends is the only one, it goes to the process that is asked for, and if
  -- that is not the caller's own, then its `siginfo` does not pose as one of the kernel or of `tkill`: its
  -- code is negative and not SI_TKILL.
  pub sys_rt_sigqueueinfo-sent :
      (t : Tables) (c : Caller) (tgid signo : ℕ) (sig : LinuxResult Info) (size pid : ℕ) (i : Info)
      (rest : List (Sent Info))
      → (sys_rt_sigqueueinfo S t c tgid signo sig size).1 ≡ to_process pid i ∷ rest
      → (rest ≡ [])
        × (pid ≡ tgid)
        × ((c.pid ≡ tgid) ⊎ ((is_negative (S.code i) ≡ true) × (is_tkill (S.code i) ≡ false)))
  unfolding sys_rt_sigqueueinfo get_process
  sys_rt_sigqueueinfo-sent t c tgid signo sig size pid i rest h =
      elim (Result-cases (check_sigset_size S size)) [
        | inl (u, p) ↦ elim (Result-cases (make_queue_signal_info S c tgid signo sig)) [
          | inl (info, q) ↦
              let route : sys_rt_sigqueueinfo S t c tgid signo sig size
                  ≡ signal_process (get_process t tgid) info =
                rw (sys_rt_sigqueueinfo, p, q) in
              let (pr, found, who, same, only) =
                signal_process-sent (get_process t tgid) info i pid rest
                  (ap (λ r. r.1) (sym route) ∙ h) in
              (
                only,
                who ∙ get_process-pid t tgid pr found,
                make_queue_signal_info_lem c tgid signo sig i (q ∙ ap ok (sym same)),
              )
          | inr (e, q) ↦ ground (arith, p, q)
        ]
        | inr (e, p) ↦ ground (arith, p)
      ]

  -- Every `rt_tgsigqueueinfo` either fails and sends nothing, or answers 0 and sends one signal, to the thread
  -- that is asked for, which is a thread of the process that is asked for; if that is not the caller's own
  -- process, then the `siginfo` does not pose as one of the kernel or of `tkill`: its code is negative and not
  -- SI_TKILL.
  pub sys_rt_tgsigqueueinfo-sent :
      (t : Tables) (c : Caller) (tgid tid signo : ℕ) (sig : LinuxResult Info) (size : ℕ)
      → let (r, sent) = sys_rt_tgsigqueueinfo S t c tgid tid signo sig size in
        ((sent ≡ []) × ((e : LinuxError) × (r ≡ err e)))
        ⊎ ((i : Info) × (sent ≡ to_thread tid i ∷ [])
            × (r ≡ ok 0)
            × IsThreadOf t tgid tid
            × ((c.pid ≡ tgid) ⊎ ((is_negative (S.code i) ≡ true) × (is_tkill (S.code i) ≡ false))))
  unfolding sys_rt_tgsigqueueinfo signal_thread send_signal_thread
  sys_rt_tgsigqueueinfo-sent t c tgid tid signo sig size =
      elim (Result-cases (check_sigset_size S size)) [
        | inr (e, p) ↦ inl (ground (arith, p), (e, ground (arith, p)))
        | inl (u, p) ↦ elim (Result-cases (make_queue_signal_info S c tgid signo sig)) [
          | inr (e, q) ↦ inl (ground (arith, p, q), (e, ground (arith, p, q)))
          | inl (info, q) ↦ elim (Result-cases (find_thread_in_group t tgid tid)) [
            | inr (e, f) ↦ inl (ground (arith, p, q, f), (e, ground (arith, p, q, f)))
            | inl (thr, f) ↦
                let (numbered, member) = find_thread_in_group_lem t tgid tid thr f in
                let allowed = make_queue_signal_info_lem c tgid signo sig info q in
                elim (Bool-cases thr.has_data) [
                  | inr d ↦ inl (ground (arith, p, q, f, d), (eperm, ground (arith, p, q, f, d)))
                  | inl d ↦ inr (
                    info,
                    ground (arith, p, q, f, d, numbered),
                    ground (arith, p, q, f, d),
                    member,
                    allowed,
                  )
                ]
          ]
        ]
      ]
