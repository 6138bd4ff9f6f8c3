-- ===== src/Info/Answers.antt =====
-- What the answers about the system, the time and the task are worth.
use oscomp_test_listline.Prelude.{
  ℕ, suc, ◌-◌, ◌<◌, ◌≡◌, ◌≢◌, refl, sym, subst, ap, ◌∙◌, List, [], ◌∷◌, ◌++◌, map, some, Bool, true,
  false, leb, ◌==◌, length, replicate, length-append, length-replicate, Text, arith,
}
use oscomp_test_listline.Prelude.Int.{ℤ}
use oscomp_test_listline.Errno.{LinuxResult, ok}
use oscomp_test_listline.TimeValue.{
  TimeValue, Timespec, timespec_from_time_value, timespec_to_time_value,
}
use oscomp_test_listline.TimeValue.RoundTrip.{IsDuration, timespec_to-from}
use oscomp_test_listline.Clone.{Process, Task, World}
use oscomp_test_listline.Clone.Exit.{Event, clears, clear_tid_events, do_exit}
use oscomp_test_listline.FdTable.Objects.{FlattenObjects}
use oscomp_test_listline.Info.{
  pad_str, pad_all, Clocks, clock_time, sys_clock_gettime, sys_set_tid_address, set_gs, set_fs,
  get_fs, get_gs, Segments, arch_prctl,
}

-- A text as C reads it, up to the first 0.
unfoldable pub c_str : List ℕ → Text
c_str [] = []
c_str (c ∷ cs) = elim (c == 0) [ true ↦ [] | false ↦ c ∷ c_str cs ]

-- A text without a 0 that is shorter than its field.
abbrev pub NoNul : Text → Type 0
NoNul [] = Unit
NoNul (c ∷ cs) = (c ≢ 0) × NoNul cs

abbrev pub FitAll : List Text → Type 0
FitAll [] = Unit
FitAll (t ∷ ts) = ((length t < 65) × NoNul t) × FitAll ts

c_str-pad : (t : Text) (n : ℕ) → NoNul t → c_str (t ++ 0 ∷ replicate n 0) ≡ t
unfolding c_str
c_str-pad [] n clean = refl
c_str-pad (c ∷ cs) n (head_clean, rest_clean) =
    let other : (c == 0) ≡ false = ground (arith, head_clean) in
    rw (c_str, other, c_str-pad cs n rest_clean)

pad_str_lem :
    (t : Text)
    → length t < 65
    → NoNul t
    → (field : List ℕ) × (pad_str t ≡ some field) × (length field ≡ 65) × (c_str field ≡ t)
unfolding pad_str
pad_str_lem t short clean =
    let fits : leb (length t) 65 ≡ true = ground (arith, short) in
    let more : 65 - length t ≡ suc (64 - length t) = omega (arith, short) in
    (
      t ++ replicate (65 - length t) 0,
      rw (pad_str, fits),
      omega (
        arith,
        short,
        length-append t (replicate (65 - length t) 0),
        length-replicate {A = ℕ} (65 - length t) 0,
      ),
      ap (λ k. c_str (t ++ replicate k 0)) more ∙ c_str-pad t (64 - length t) clean,
    )

-- Texts without a 0 that are shorter than 65 bytes, as those of `uname`, become fields of 65 bytes each, and
-- C reads the same texts there.
pub pad_all-c_str :
    (ts : List Text)
    → FitAll ts
    → (fields : List (List ℕ)) × (pad_all ts ≡ some fields)
      × (map c_str fields ≡ ts)
      × (map length fields ≡ map (λ t. 65) ts)
unfolding pad_all
pad_all-c_str [] fits = ([], refl, refl, refl)
pad_all-c_str (t ∷ ts) ((short, clean), rest) =
    let (field, p, l, c) = pad_str_lem t short clean in
    let (fields, ps, cs, ls) = pad_all-c_str ts rest in
    (field ∷ fields, rw (pad_all, p, ps), rw (c, cs), rw (l, ls))

-- A clock that is supported is stored as a `timespec` that converts back to its time.
pub sys_clock_gettime-to_time_value :
    (c : Clocks) (clock_id : ℤ) (now : TimeValue)
    → clock_time c clock_id ≡ ok now
    → IsDuration now
    → (ts : Timespec) × (sys_clock_gettime c clock_id (ok tt) ≡ (ok 0, some ts))
      × (timespec_to_time_value ts ≡ some now)
unfolding sys_clock_gettime
sys_clock_gettime-to_time_value c clock_id now h d =
    (timespec_from_time_value now, rw (sys_clock_gettime, h), timespec_to-from now d)

-- The segment base that was set is the one that is read afterwards, also if the other one was set in between.
pub arch_prctl-set_get :
    (fs_addr gs_addr addr : ℕ) (ptr1 ptr2 : LinuxResult (Unit {0})) (tf : Segments)
    → let both = (arch_prctl set_gs gs_addr ptr2 (arch_prctl set_fs fs_addr ptr1 tf).2).2 in
      (arch_prctl get_fs addr (ok tt) both ≡ (ok 0, some fs_addr, both))
      × (arch_prctl get_gs addr (ok tt) both ≡ (ok 0, some gs_addr, both))
unfolding arch_prctl
arch_prctl-set_get fs_addr gs_addr addr ptr1 ptr2 tf = (refl, refl)

-- The first thing is that the word at the address is cleared.
abbrev pub Clears : ℕ → List Event → Type 0
Clears a events = (rest : List Event) × (events ≡ clears a ∷ rest)

module _ {T A M S D P : Type 0} (fo : FlattenObjects T A) where
  do_exit-Clears :
      (a : ℕ) (process : Process) (has_futex last group_exited group_exit : Bool) (threads : List ℕ)
      (exit_code : ℕ) (w : World T M S D P)
      → Clears a
          (do_exit fo process (ok a) has_futex last group_exited threads exit_code group_exit w).0
  unfolding do_exit clear_tid_events
  do_exit-Clears a process has_futex true group_exited group_exit threads exit_code w = (_, refl)
  do_exit-Clears a process has_futex false group_exited group_exit threads exit_code w = (_, refl)

  -- The address that `set_tid_address` was given is the first thing that the thread clears at its end, if the
  -- address can be written; `get_as_mut` is the check of the pointer.
  pub sys_set_tid_address-do_exit :
      (addr a : ℕ) (get_as_mut : ℕ → LinuxResult ℕ) (task : Task) (process : Process)
      (has_futex last group_exited group_exit : Bool) (threads : List ℕ) (exit_code : ℕ)
      (w : World T M S D P)
      → get_as_mut addr ≡ ok a
      → Clears a
          (do_exit fo process
            (get_as_mut (sys_set_tid_address addr task).1.clear_child_tid)
            has_futex
            last
            group_exited
            threads
            exit_code
            group_exit
            w).0
  unfolding sys_set_tid_address
  sys_set_tid_address-do_exit addr a get_as_mut task process has_futex last group_exited group_exit
        threads exit_code w g =
      subst
        (λ r.
          Clears a
            (do_exit fo process r has_futex last group_exited threads exit_code group_exit w).0)
        (sym g)
        (do_exit-Clears a process has_futex last group_exited group_exit threads exit_code w)
