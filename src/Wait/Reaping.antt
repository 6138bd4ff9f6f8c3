-- ===== src/Wait/Reaping.antt =====
-- Which child a call of `sys_waitpid` reaps, and when it waits.
use oscomp_test_listline.Prelude.{
  ℕ, ◌≡◌, ◌≢◌, ◌↔◌, ◌⊎◌, inl, inr, refl, List, [], ◌∷◌, none, some, Bool, true, false,
  if◌then◌else◌, arith, Bool-cases, Option-cases,
}
use oscomp_test_listline.Prelude.Int.{ℤ}
use oscomp_test_listline.Errno.{LinuxError, echild, LinuxResult, ok, err}
use oscomp_test_listline.Wait.{
  Process, WaitPid, Ends, Reply, returns, blocks, wait_pid, selects, select, find_zombie, reap,
  wait_loop, sys_waitpid, wnohang, wnowait, is_nil,
}

-- `child` is the first of the children that the filters let through and that has ended.
abbrev pub IsFirst : WaitPid → ℕ → Ends → List Process → Process → ℤ → Type 0
IsFirst w options ends [] child code = ⊥
IsFirst w options ends (c ∷ cs) child code =
    ((selects w options c ≡ true) × (ends c.pid ≡ some code) × (c ≡ child))
    ⊎ (((selects w options c ≡ false) ⊎ (ends c.pid ≡ none)) × IsFirst w options ends cs child code)

find_zombie-IsFirst :
    (w : WaitPid) (options : ℕ) (ends : Ends) (children : List Process) (child : Process) (code : ℤ)
    → find_zombie ends (select w options children) ≡ some (child, code)
    → IsFirst w options ends children child code
unfolding select find_zombie
find_zombie-IsFirst w options ends [] child code h = cc
find_zombie-IsFirst w options ends (c ∷ cs) child code h =
    let rest = find_zombie-IsFirst w options ends cs child code in
    elim (Bool-cases (selects w options c)) [
      | inl s ↦ elim (Option-cases (ends c.pid)) [
        | inl e ↦ inr (inr e, rest (ground arith))
        | inr (code', e) ↦ inl (s, ground arith, ground arith)
      ]
      | inr s ↦ inr (inl s, rest (ground arith))
    ]

find_zombie_first :
    (w : WaitPid) (options : ℕ) (ends : Ends) (children : List Process) (child : Process) (code : ℤ)
    → IsFirst w options ends children child code
    → find_zombie ends (select w options children) ≡ some (child, code)
unfolding select find_zombie
find_zombie_first w options ends [] child code h = absurd h
find_zombie_first w options ends (c ∷ cs) child code (inl h) = ground (arith, h.0, h.1, h.2)
find_zombie_first w options ends (c ∷ cs) child code (inr (inl s, h)) =
    ground (arith, s, find_zombie_first w options ends cs child code h)
find_zombie_first w options ends (c ∷ cs) child code (inr (inr e, h)) =
    ground (arith, e, find_zombie_first w options ends cs child code h)

find_zombie-some :
    (ends : Ends) (cs : List Process) {r : Process × ℤ}
    → find_zombie ends cs ≡ some r
    → is_nil cs ≡ false
unfolding find_zombie
find_zombie-some ends [] h = cc
find_zombie-some ends (c ∷ cs) h = refl

-- If some child that the arguments select has ended when the call is made, and the pointer is good, the
-- call returns at once whatever comes later: it reports the first such child, stores that child's exit
-- code exactly if the pointer is not null, and frees that child exactly if WNOWAIT is not given.
pub sys_waitpid_reaps :
    (own : ℕ) (children : List Process) (pid : ℤ) (exit_code : Bool) (options : ℕ) (ends : Ends)
    (schedule : List Ends) (child : Process) (code : ℤ)
    → IsFirst (wait_pid own pid) options ends children child code
    → sys_waitpid own children pid (ok exit_code) options (ends ∷ schedule)
      ≡ returns (
          ok (record {
            freed = if wnowait options then none else some child.pid;
            stored = if exit_code then some code else none;
            value = child.pid;
          }))
unfolding sys_waitpid
sys_waitpid_reaps own children pid exit_code options ends schedule child code h =
    let found = find_zombie_first (wait_pid own pid) options ends children child code h in
    ground (arith, found, find_zombie-some ends (select (wait_pid own pid) options children) found)

-- A property of some moment of the schedule.
abbrev pub Sometime : (Ends → Type 0) → List Ends → Type 0
Sometime P [] = ⊥
Sometime P (e ∷ es) = P e ⊎ Sometime P es

-- What the call may report after a moment `ends`.
abbrev pub Reaped : WaitPid → ℕ → Bool → List Process → Reply → Ends → Type 0
Reaped w options exit_code children r ends =
    (child : Process) × (code : ℤ) × IsFirst w options ends children child code
    × (r ≡ reap options exit_code (child, code))

wait_loop_sound :
    (w : WaitPid) (options : ℕ) (exit_code : Bool) (children : List Process) (schedule : List Ends)
    (r : Reply)
    → wait_loop options exit_code (select w options children) schedule ≡ returns (ok r)
    → Sometime (Reaped w options exit_code children r) schedule
      ⊎ ((wnohang options ≡ true) × (r ≡ record { freed = none; stored = none; value = 0 }))
unfolding wait_loop
wait_loop_sound w options exit_code children [] r h = cc
wait_loop_sound w options exit_code children (ends ∷ schedule) r h =
    elim (Option-cases (find_zombie ends (select w options children))) [
      | inr ((child, code), e) ↦ inl (
          inl (child, code, find_zombie-IsFirst w options ends children child code e, ground arith))
      | inl e ↦ elim (Bool-cases (wnohang options)) [
        | inl n ↦ inr (n, ground arith)
        | inr n ↦ elim (wait_loop_sound w options exit_code children schedule r (ground arith)) [
          | inl later ↦ inl (inr later)
          | inr other ↦ inr other
        ]
      ]
    ]

-- Whenever the call returns a result, over any schedule and with a good pointer, it is the reply for the
-- first child that is selected and has ended at some moment of the schedule, or WNOHANG is given and the
-- reply is 0 with nothing freed or stored.
pub sys_waitpid_sound :
    (own : ℕ) (children : List Process) (pid : ℤ) (exit_code : Bool) (options : ℕ)
    (schedule : List Ends) (r : Reply)
    → sys_waitpid own children pid (ok exit_code) options schedule ≡ returns (ok r)
    → Sometime (Reaped (wait_pid own pid) options exit_code children r) schedule
      ⊎ ((wnohang options ≡ true) × (r ≡ record { freed = none; stored = none; value = 0 }))
unfolding sys_waitpid
sys_waitpid_sound own children pid exit_code options schedule r h =
    elim (Bool-cases (is_nil (select (wait_pid own pid) options children))) [
      | inl e ↦ ground arith
      | inr e ↦
          wait_loop_sound (wait_pid own pid) options exit_code children schedule r (ground arith)
    ]

-- No child is selected.
abbrev pub NoneSelected : WaitPid → ℕ → List Process → Type 0
NoneSelected w options [] = Unit {0}
NoneSelected w options (c ∷ cs) = (selects w options c ≡ false) × NoneSelected w options cs

select_none :
    (w : WaitPid) (options : ℕ) (cs : List Process)
    → (is_nil (select w options cs) ≡ true) ↔ NoneSelected w options cs
unfolding select
select_none w options [] = (λ h. tt, λ h. refl)
select_none w options (c ∷ cs) =
    let ih = select_none w options cs in
    elim (Bool-cases (selects w options c)) [
      | inl e ↦ (λ h. ground arith, λ h. ground (arith, h.0))
      | inr e ↦ (λ h. (e, ih.0 (ground arith)), λ h. ground (arith, ih.1 h.1))
    ]

wait_loop_no_error :
    (options : ℕ) (exit_code : Bool) (cs : List Process) (schedule : List Ends) (e : LinuxError)
    → wait_loop options exit_code cs schedule ≢ returns (err e)
unfolding wait_loop
wait_loop_no_error options exit_code cs [] e h = cc
wait_loop_no_error options exit_code cs (ends ∷ schedule) e h =
    ground (arith, wait_loop_no_error options exit_code cs schedule e)

-- With a good pointer the call fails with ECHILD exactly if no child is selected, whatever the schedule.
pub sys_waitpid_echild :
    (own : ℕ) (children : List Process) (pid : ℤ) (exit_code : Bool) (options : ℕ)
    (schedule : List Ends)
    → (sys_waitpid own children pid (ok exit_code) options schedule ≡ returns (err echild))
      ↔ NoneSelected (wait_pid own pid) options children
unfolding sys_waitpid
sys_waitpid_echild own children pid exit_code options schedule =
    let sel = select (wait_pid own pid) options children in
    let iff = select_none (wait_pid own pid) options children in
    elim (Bool-cases (is_nil sel)) [
      | inl e ↦ (λ h. iff.0 e, λ h. ground arith)
      | inr e ↦ (
        λ h. absurd (wait_loop_no_error options exit_code sel schedule echild (ground arith)),
        λ h. absurd (ground (arith, iff.1 h)),
      )
    ]

-- With WNOHANG the call does not block: it returns after the first look at the children.
pub sys_waitpid-wnohang :
    (own : ℕ) (children : List Process) (pid : ℤ) (ptr : LinuxResult Bool) (options : ℕ)
    (ends : Ends) (schedule : List Ends)
    → wnohang options ≡ true
    → sys_waitpid own children pid ptr options (ends ∷ schedule) ≢ blocks
unfolding sys_waitpid
sys_waitpid-wnohang own children pid (err e) options ends schedule h k = ground arith
sys_waitpid-wnohang own children pid (ok b) options ends schedule h k =
    elim (Option-cases (find_zombie ends (select (wait_pid own pid) options children))) [
      | inl e ↦ ground arith
      | inr (r, e) ↦ ground arith
    ]
