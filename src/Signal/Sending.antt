-- ===== src/Signal/Sending.antt =====
-- Which processes a `kill` reaches.
use oscomp_test_listline.Prelude.{
  ℕ, zero, suc, ◌+◌, ◌%◌, ◌≡◌, ◌≢◌, refl, sym, ap, ◌∙◌, inl, inr, List, [], ◌∷◌, ◌++◌, Option, none,
  some, Bool, true, false, ◌==◌, ◌&&◌, ◌||◌, length, Option-cases, Bool-cases, arith,
}
use oscomp_test_listline.Prelude.Int.{ℤ, pos, negsuc}
use oscomp_test_listline.Errno.{eperm, ok, err, Result-cases}
use oscomp_test_listline.Signal.{
  Signals, Process, Tables, Caller, processes, find_process, find_group, get_process,
  get_process_group, Sent, to_process, si_user, send_signal_process, send_signal_process_group,
  send_all, kill, parse_signo, make_siginfo, sys_kill,
}

-- The processes that have their data.
abbrev pub receivers : List Process → List Process
receivers [] = []
receivers (p ∷ ps) = elim p.has_data [ true ↦ p ∷ receivers ps | false ↦ receivers ps ]

abbrev pub others_than_init : List Process → List Process
others_than_init [] = []
others_than_init (p ∷ ps) = elim p.is_init [
  | true ↦ others_than_init ps
  | false ↦ p ∷ others_than_init ps
]

-- The processes that the loop over all processes gets past.
abbrev pub can_send : List Process → Bool
can_send [] = true
can_send (p ∷ ps) = (p.is_init || p.has_data) && can_send ps

module _ {Info : Type 0} where
  abbrev pub sent_to : Info → List Process → List (Sent Info)
  sent_to sig [] = []
  sent_to sig (p ∷ ps) = to_process p.pid sig ∷ sent_to sig ps

abbrev pub singleton : Option Process → List Process
singleton none = []
singleton (some p) = p ∷ []

abbrev pub members : Option (List Process) → List Process
members none = []
members (some ps) = ps

-- Whom the first argument of `kill` names.
abbrev pub addressees : Tables → Caller → ℤ → List Process
addressees t c (pos zero) = c.group
addressees t c (pos (suc n)) = singleton (find_process (suc n) t.process_table)
addressees t c (negsuc zero) = others_than_init t.process_table
addressees t c (negsuc (suc n)) = members (find_group (suc (suc n)) t.process_group_table)

module _ {Info : Type 0} where
  length-sent_to : (sig : Info) (ps : List Process) → length (sent_to sig ps) ≡ length ps
  length-sent_to sig [] = refl
  length-sent_to sig (p ∷ ps) = ap suc (length-sent_to sig ps)

  group_lem :
      (ps : List Process) (sig : Info)
      → send_signal_process_group ps sig ≡ (length (receivers ps), sent_to sig (receivers ps))
  unfolding send_signal_process_group send_signal_process
  group_lem [] sig = refl
  group_lem (p ∷ ps) sig = rw (group_lem ps sig) ground arith

  send_all_lem :
      (ps : List Process) (sig : Info) (n : ℕ)
      → (send_all ps sig).0 ≡ ok n
      → ((send_all ps sig).1 ≡ sent_to sig (receivers (others_than_init ps)))
        × (n ≡ length (receivers (others_than_init ps)))
  unfolding send_all send_signal_process
  send_all_lem [] sig n h = ground arith
  send_all_lem (p ∷ ps) sig n h = elim (Bool-cases p.is_init) [
    | inl is ↦ ground (arith, send_all_lem ps sig n)
    | inr isnt ↦ elim (Result-cases (send_all ps sig).0) [
      | inl (m, e) ↦ let (same, count) = send_all_lem ps sig m e in ground (arith, same, count)
      | inr (e, q) ↦ ground arith
    ]
  ]

  kill_lem :
      (t : Tables) (c : Caller) (pid : ℤ) (sig : Info) (n : ℕ)
      → (kill t c pid sig).0 ≡ ok n
      → ((kill t c pid sig).1 ≡ sent_to sig (receivers (addressees t c pid)))
        × (n ≡ length (receivers (addressees t c pid)))
  unfolding kill get_process get_process_group processes send_signal_process
  kill_lem t c (pos zero) sig n h = ground (arith, group_lem c.group sig)
  kill_lem t c (pos (suc m)) sig n h = ground arith
  kill_lem t c (negsuc zero) sig n h = send_all_lem t.process_table sig n h
  kill_lem t c (negsuc (suc m)) sig n h =
      elim (Option-cases (find_group (suc (suc m)) t.process_group_table)) [
        | inl e ↦ ground (arith, e)
        | inr (ps, e) ↦ ground (arith, e, group_lem ps sig)
      ]

  send_all_stops :
      (before : List Process) (p : Process) (after : List Process) (sig : Info)
      → can_send before ≡ true
      → p.is_init ≡ false
      → p.has_data ≡ false
      → send_all (before ++ p ∷ after) sig ≡ (err eperm, sent_to sig (others_than_init before))
  unfolding send_all send_signal_process
  send_all_stops [] p after sig h i d = ground (arith, i, d)
  send_all_stops (b ∷ bs) p after sig h i d =
      let rest = send_all_stops bs p after sig (ground arith) i d in
      elim (Bool-cases b.is_init) [
        | inl is ↦ ground (arith, is, rest)
        | inr isnt ↦ ground (arith, isnt, rest)
      ]

module _ {Info : Type 0} (S : Signals Info) where
  sys_kill-kill :
      (t : Tables) (c : Caller) (pid : ℤ) (signo s : ℕ)
      → signo ≢ 0
      → parse_signo S signo ≡ ok s
      → sys_kill S t c pid signo ≡ kill t c pid (S.new s si_user)
  unfolding sys_kill make_siginfo
  sys_kill-kill t c pid signo s nonzero p =
      let asked : (signo == 0) ≡ false = ground arith in rw (sys_kill, make_siginfo, asked, p)

  make_siginfo_wraps :
      (signo : ℕ) (code : ℤ)
      → signo ≢ 0
      → make_siginfo S (signo + 256) code ≡ make_siginfo S signo code
  unfolding make_siginfo parse_signo
  make_siginfo_wraps signo code nonzero =
      let asked : (signo == 0) ≡ false = ground arith in
      let asked_more : (signo + 256 == 0) ≡ false = ground arith in
      let low : (signo + 256) % 256 ≡ signo % 256 = omega arith in
      rw (make_siginfo, parse_signo, asked, asked_more, low)

  -- When a `kill` with a signal succeeds, the signal was sent to exactly the processes that its first
  -- argument names, each once and in the order of the table, as far as they have their data, and the call
  -- answers how many these are.
  pub sys_kill-sent :
      (t : Tables) (c : Caller) (pid : ℤ) (signo s n : ℕ)
      → signo ≢ 0
      → parse_signo S signo ≡ ok s
      → (sys_kill S t c pid signo).0 ≡ ok n
      → ((sys_kill S t c pid signo).1 ≡ sent_to (S.new s si_user) (receivers (addressees t c pid)))
        × (n ≡ length (receivers (addressees t c pid)))
  sys_kill-sent t c pid signo s n nonzero p h =
      let route = sys_kill-kill t c pid signo s nonzero p in
      let (same, count) = kill_lem t c pid (S.new s si_user) n (ap (λ r. r.0) (sym route) ∙ h) in
      (ap (λ r. r.1) route ∙ same, count)

  -- `kill` with the pid -1 stops at the first process, other than init, that has no data: it fails with
  -- EPERM, and the processes before that one have the signal all the same.
  pub sys_kill_stops :
      (t : Tables) (c : Caller) (signo s : ℕ) (before : List Process) (p : Process)
      (after : List Process)
      → signo ≢ 0
      → parse_signo S signo ≡ ok s
      → t.process_table ≡ before ++ p ∷ after
      → can_send before ≡ true
      → p.is_init ≡ false
      → p.has_data ≡ false
      → sys_kill S t c (negsuc 0) signo
        ≡ (err eperm, sent_to (S.new s si_user) (others_than_init before))
  unfolding kill processes
  sys_kill_stops t c signo s before p after nonzero q e can i d =
      sys_kill-kill t c (negsuc 0) signo s nonzero q
      ∙ ap (λ ps. send_all ps (S.new s si_user)) e
      ∙ send_all_stops before p after (S.new s si_user) can i d

  -- Signal numbers that differ by 256 are one: a `kill` with `signo + 256` does what a `kill` with `signo`
  -- does.
  pub sys_kill_wraps :
      (t : Tables) (c : Caller) (pid : ℤ) (signo : ℕ)
      → signo ≢ 0
      → sys_kill S t c pid (signo + 256) ≡ sys_kill S t c pid signo
  unfolding sys_kill
  sys_kill_wraps t c pid signo nonzero = rw (sys_kill, make_siginfo_wraps signo si_user nonzero)
