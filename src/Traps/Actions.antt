-- ===== src/Traps/Actions.antt =====
-- What signals do to a task, and when a wait for a signal ends.
use oscomp_test_listline.Prelude.{
  ℕ, ◌+◌, ◌/◌, ◌%◌, ◌<◌, ◌≡◌, ◌⊎◌, refl, ap, ◌∙◌, sym, subst, inl, inr, List, [], ◌∷◌, Option, none,
  some, Bool, true, false, not, ◌&&◌, ◌==◌, Option-cases, Bool-cases, arith,
}
use oscomp_test_listline.Errno.{LinuxResult, ok}
use oscomp_test_listline.Signal.{Signals, check_sigset_size}
use oscomp_test_listline.Traps.{
  OsAction, terminate, core_dump, stop, continues, handler, Manager, Checked, checked, exits_group,
  resumes, act_on, check_signals, suspend_loop, sys_rt_sigsuspend,
}

data CheckedCases {M F : Type 0} (x : Checked M F) : Type 0 where
  ends : (code : ℕ) → x ≡ exits_group code → CheckedCases x
  goes_on : (b : Bool) (m : M) (tf : F) → x ≡ checked b m tf → CheckedCases x

Checked-cases : {M F : Type 0} (x : Checked M F) → CheckedCases x
Checked-cases (exits_group code) = ends code refl
Checked-cases (checked b m tf) = goes_on b m tf refl

module _ {M F X : Type 0} (signals : Manager M F X) where
  -- A task whose check ends it with a code was sent a signal that ends tasks. Unless the action is to stop, a
  -- signal below 128 can be told from the low 7 bits of the code, and bit 7, which says that a core was dumped,
  -- is set whether or not the action dumps one; if the action is to stop, the code is 1.
  pub check_signals-exits :
      (restore_blocked : Option X) (m : M) (tf : F) (code : ℕ)
      → check_signals signals restore_blocked m tf ≡ exits_group code
      → (signo : ℕ) × (action : OsAction) × ((signals.check_signals restore_blocked m tf).0
          ≡ some (signo, action))
        × (((action ≡ stop) × (code ≡ 1))
            ⊎ (((action ≡ terminate) ⊎ (action ≡ core_dump))
                × (signo < 128 → (code % 128 ≡ signo) × (code / 128 ≡ 1))))
  unfolding check_signals act_on
  check_signals-exits restore_blocked m tf code h =
      elim (Option-cases (signals.check_signals restore_blocked m tf).0) [
        | inl n ↦ ground (arith, h, n)
        | inr ((signo, terminate), n) ↦ (
          signo,
          terminate,
          n,
          inr (
            inl refl,
            λ b.
                (let code_eq : 128 + signo ≡ code = ground (arith, h, n) in
                  (omega (arith, b, code_eq), omega (arith, b, code_eq))),
          ),
        )
        | inr ((signo, core_dump), n) ↦ (
          signo,
          core_dump,
          n,
          inr (
            inr refl,
            λ b.
                (let code_eq : 128 + signo ≡ code = ground (arith, h, n) in
                  (omega (arith, b, code_eq), omega (arith, b, code_eq))),
          ),
        )
        | inr ((signo, stop), n) ↦ (signo, stop, n, inl (refl, ground (arith, h, n)))
        | inr ((signo, continues), n) ↦ ground (arith, h, n)
        | inr ((signo, handler), n) ↦ ground (arith, h, n)
      ]

  check_found :
      (restore_blocked : Option X) (m m' : M) (tf tf' : F)
      → check_signals signals restore_blocked m tf ≡ checked true m' tf'
      → (signo : ℕ) × (action : OsAction) × ((action ≡ continues) ⊎ (action ≡ handler))
        × (signals.check_signals restore_blocked m tf ≡ (some (signo, action), m', tf'))
  unfolding check_signals act_on
  check_found restore_blocked m m' tf tf' h =
      elim (Option-cases (signals.check_signals restore_blocked m tf).0) [
        | inl n ↦ ground (arith, h, n)
        | inr ((signo, terminate), n) ↦ ground (arith, h, n)
        | inr ((signo, core_dump), n) ↦ ground (arith, h, n)
        | inr ((signo, stop), n) ↦ ground (arith, h, n)
        | inr ((signo, continues), n) ↦ (signo, continues, inl refl, ground (arith, h, n))
        | inr ((signo, handler), n) ↦ (signo, handler, inr refl, ground (arith, h, n))
      ]

  check_idle :
      (restore_blocked : Option X) (m m' : M) (tf tf' : F)
      → check_signals signals restore_blocked m tf ≡ checked false m' tf'
      → signals.check_signals restore_blocked m tf ≡ (none, m', tf')
  unfolding check_signals act_on
  check_idle restore_blocked m m' tf tf' h =
      elim (Option-cases (signals.check_signals restore_blocked m tf).0) [
        | inl n ↦ ground (arith, h, n)
        | inr ((signo, terminate), n) ↦ ground (arith, h, n)
        | inr ((signo, core_dump), n) ↦ ground (arith, h, n)
        | inr ((signo, stop), n) ↦ ground (arith, h, n)
        | inr ((signo, continues), n) ↦ ground (arith, h, n)
        | inr ((signo, handler), n) ↦ ground (arith, h, n)
      ]

  -- What axsignal documents, with the members of the sets: a set without a signal, the set that is blocked
  -- after it was set, that a check takes no signal that is blocked, and that a check which finds none leaves
  -- the blocked set and the frame.
  pub record IsManager (member : ℕ → X → Bool) : Type 0 where
    pub member-remove :
        (k j : ℕ) (s : X) → member j (signals.remove k s) ≡ (not (j == k) && member j s)
    pub blocked-set_blocked : (s : X) (m : M) → signals.blocked (signals.set_blocked s m) ≡ s
    pub takes_unblocked :
        (old : Option X) (m m' : M) (tf tf' : F) (signo : ℕ) (action : OsAction)
        → signals.check_signals old m tf ≡ (some (signo, action), m', tf')
        → member signo (signals.blocked m) ≡ false
    pub keeps_blocked :
        (old : Option X) (m m' : M) (tf tf' : F)
        → signals.check_signals old m tf ≡ (none, m', tf')
        → signals.blocked m' ≡ signals.blocked m
    pub keeps_frame :
        (old : Option X) (m m' : M) (tf tf' : F)
        → signals.check_signals old m tf ≡ (none, m', tf')
        → tf' ≡ tf

  -- What happens while the thread sleeps does not change the set that it blocks.
  abbrev pub KeepsBlocked : List (M → M) → Type 0
  KeepsBlocked [] = Unit
  KeepsBlocked (during ∷ schedule) =
      ((m : M) → signals.blocked (during m) ≡ signals.blocked m) × KeepsBlocked schedule

  -- A check with `blocked` as the blocked set and `tf` as the frame, which finds a signal that the task
  -- survives and gives the state and the frame at the end; the handler is to restore `old`.
  pub record IsWoken (old blocked : X) (tf : F) (m' : M) (tf' : F) : Type 0 where
    pub m : M
    pub blocked_eq : signals.blocked m ≡ blocked
    pub signo : ℕ
    pub action : OsAction
    pub survives : (action ≡ continues) ⊎ (action ≡ handler)
    pub check_eq : signals.check_signals (some old) m tf ≡ (some (signo, action), m', tf')

module _ {M F X : Type 0} (signals : Manager M F X) (member : ℕ → X → Bool)
    (law : IsManager signals member) where
  found_here :
      (old : X) (m m1 m' : M) (tf tf1 tf' : F) (r : LinuxResult ℕ)
      → check_signals signals (some old) m tf ≡ checked true m1 tf1
      → resumes (ok 0) m1 tf1 ≡ resumes r m' tf'
      → (r ≡ ok 0) × IsWoken signals old (signals.blocked m) tf m' tf'
  found_here old m m1 m' tf tf1 tf' r c same =
      let (signo, action, survives, check) = check_found signals (some old) m m1 tf tf1 c in
      (
        ground (arith, same),
        record {
          m = m;
          blocked_eq = refl;
          signo = signo;
          action = action;
          survives = survives;
          check_eq = check ∙ ground (arith, same);
        },
      )

  suspend_loop-IsWoken :
      (old : X) (schedule : List (M → M)) (m m' : M) (tf tf' : F) (r : LinuxResult ℕ)
      → KeepsBlocked signals schedule
      → suspend_loop signals old schedule m tf ≡ resumes r m' tf'
      → (r ≡ ok 0) × IsWoken signals old (signals.blocked m) tf m' tf'
  unfolding suspend_loop
  suspend_loop-IsWoken old [] m m' tf tf' r keeps h =
      elim (Checked-cases (check_signals signals (some old) m tf)) [
        | ends code c ↦ ground (arith, h, c)
        | goes_on false m1 tf1 c ↦ ground (arith, h, c)
        | goes_on true m1 tf1 c ↦
            let same : resumes (ok 0) m1 tf1 ≡ resumes r m' tf' = sym (rw (suspend_loop, c)) ∙ h in
            found_here old m m1 m' tf tf1 tf' r c same
      ]
  suspend_loop-IsWoken old (during ∷ schedule) m m' tf tf' r (keep, keeps) h =
      elim (Checked-cases (check_signals signals (some old) m tf)) [
        | ends code c ↦ ground (arith, h, c)
        | goes_on true m1 tf1 c ↦
            let same : resumes (ok 0) m1 tf1 ≡ resumes r m' tf' = sym (rw (suspend_loop, c)) ∙ h in
            found_here old m m1 m' tf tf1 tf' r c same
        | goes_on false m1 tf1 c ↦
            let idle = check_idle signals (some old) m m1 tf tf1 c in
            let (answer, woken) =
              suspend_loop-IsWoken old schedule (during m1) m' tf1 tf' r keeps
                (sym (rw (suspend_loop, c)) ∙ h) in
            let blocked = keep m1 ∙ law.keeps_blocked (some old) m m1 tf tf1 idle in
            let frame = law.keeps_frame (some old) m m1 tf tf1 idle in
            (
              answer,
              subst (λ b. IsWoken signals old b tf m' tf') blocked
                  (subst (λ f. IsWoken signals old (signals.blocked (during m1)) f m' tf') frame
                    woken),
            )
      ]

  -- If `rt_sigsuspend` with a set that can be read and of the right size returns, where nothing that
  -- happens while the thread sleeps changes the set that it blocks and the managers are as axsignal
  -- documents them, then it answers 0, and it was woken by a check that found a signal which the task
  -- survives, with the frame that was set to EINTR, while just the signals of the set but SIGKILL (9) and
  -- SIGSTOP (19) were blocked: the signal is one of these two or is not in the set. What the check is given
  -- to restore is what was blocked before the call.
  pub sys_rt_sigsuspend-IsWoken :
      {Info : Type 0} (S : Signals Info) (s : X) (sigsetsize : ℕ) (schedule : List (M → M))
      (m m' : M) (tf tf' : F) (r : LinuxResult ℕ)
      → check_sigset_size S sigsetsize ≡ ok tt
      → KeepsBlocked signals schedule
      → sys_rt_sigsuspend S signals (ok s) sigsetsize schedule m tf ≡ resumes r m' tf'
      → (r ≡ ok 0)
        × ((blocked : X) × (woken : IsWoken signals
              (signals.blocked m)
              blocked
              (signals.set_retval_eintr tf)
              m'
              tf')
            × ((j : ℕ) → member j blocked ≡ (not (j == 9) && not (j == 19) && member j s))
            × ((woken.signo ≡ 9) ⊎ (woken.signo ≡ 19) ⊎ (member woken.signo s ≡ false)))
  unfolding sys_rt_sigsuspend
  sys_rt_sigsuspend-IsWoken S s sigsetsize schedule m m' tf tf' r size keeps h =
      let asked = signals.remove 19 (signals.remove 9 s) in
      let (answer, woken) =
        suspend_loop-IsWoken (signals.blocked m) schedule (signals.set_blocked asked m) m'
          (signals.set_retval_eintr tf) tf' r keeps (ground (arith, h, size)) in
      let members : (j : ℕ) → member j asked ≡ (not (j == 9) && not (j == 19) && member j s) = λ j.
        law.member-remove 19 j (signals.remove 9 s)
        ∙ ap (λ b. not (j == 19) && b) (law.member-remove 9 j s)
        ∙ elim (Bool-cases (j == 9)) [
          | inl a ↦ elim (Bool-cases (j == 19)) [
            | inl b ↦ ground (arith, a, b)
            | inr b ↦ ground (arith, a, b)
          ]
          | inr a ↦ ground (arith, a)
        ] in
      let set_eq : signals.blocked (signals.set_blocked asked m) ≡ asked =
        law.blocked-set_blocked asked m in
      let taken : member woken.signo asked ≡ false =
        ap (member woken.signo) (sym (woken.blocked_eq ∙ set_eq))
        ∙ law.takes_unblocked (some (signals.blocked m)) woken.m m' (signals.set_retval_eintr tf)
            tf' woken.signo woken.action woken.check_eq in
      (
        answer,
        (
          asked,
          record {
            m = woken.m;
            blocked_eq = woken.blocked_eq ∙ set_eq;
            signo = woken.signo;
            action = woken.action;
            survives = woken.survives;
            check_eq = woken.check_eq;
          },
          members,
          ground (arith, members woken.signo, taken),
        ),
      )
