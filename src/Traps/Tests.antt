-- ===== src/Traps/Tests.antt =====
-- A task that waits for a signal, one that a signal ends, and one that a fault ends.
use oscomp_test_listline.Traps.Faults.{IsEnded, handle_page_fault-segfaults}
use oscomp_test_listline.Prelude.{
  ℕ, ◌%◌, ◌/◌, ◌<◌, ◌≡◌, ◌⊎◌, refl, ap, sym, List, [], ◌∷◌, Option, none, some, Bool, true, false,
  ◌==◌, not, ◌&&◌, ◌||◌, Bool-cases, inl, inr, arith, if◌then◌else◌,
}
use oscomp_test_listline.Prelude.Int.{pos}
use oscomp_test_listline.Errno.{LinuxResult, ok}
use oscomp_test_listline.Memory.Space.{MappingFlags}
use oscomp_test_listline.FdTable.Example.{Table, tables}
use oscomp_test_listline.Clone.{Process, World}
use oscomp_test_listline.Clone.Exit.{Event}
use oscomp_test_listline.Signal.{Signals, check_sigset_size}
use oscomp_test_listline.Traps.{
  OsAction, terminate, core_dump, stop, handler, Manager, exits_group, check_signals, resumes,
  sys_rt_sigsuspend, Fault, segfaults, handle_page_fault,
}
use oscomp_test_listline.Traps.Actions.{
  IsManager, IsWoken, check_signals-exits, sys_rt_sigsuspend-IsWoken,
}

abbrev infos : Signals ℕ
infos = record {
  from_repr = λ n. some n;
  new = λ s code. s;
  set_signo = λ s info. s;
  code = λ info. pos 0;
  set_size = 8;
}

-- The state is the number of the pending signal, or 0, and the set that is blocked; 10 has a handler.
abbrev State : Type 0
State = ℕ × (ℕ → Bool)

abbrev answer : State → Bool → Bool → ℕ → Option (ℕ × OsAction) × State × ℕ
answer m true b tf = (none, m, tf)
answer m false true tf = (some (10, handler), (0, m.1), tf)
answer m false false tf = (some (m.0, terminate), (0, m.1), tf)

abbrev next_signal : Option (ℕ → Bool) → State → ℕ → Option (ℕ × OsAction) × State × ℕ
next_signal restore m tf = answer m (m.0 == 0 || m.1 (m.0)) (m.0 == 10) tf

abbrev manager : Manager State ℕ (ℕ → Bool)
manager = record {
  check_signals = next_signal;
  restore = λ m tf. (m, tf);
  pending = λ m j. j == m.0;
  blocked = λ m. m.1;
  set_blocked = λ s m. (m.0, s);
  remove = λ n s j. not (j == n) && s j;
  retval = λ tf. tf;
  set_retval_eintr = λ tf. 4;
  wait_timeout = λ s m. (none, m);
}

abbrev member : ℕ → (ℕ → Bool) → Bool
member j s = s j

idle_lem :
    (m m' : State) (a b : Bool) (tf tf' : ℕ)
    → answer m a b tf ≡ (none, m', tf')
    → (m'.1 ≡ m.1) × (tf' ≡ tf)
idle_lem m m' true b tf tf' h = (ap (λ x. x.1.1) (sym h), ap (λ x. x.2) (sym h))
idle_lem m m' false true tf tf' h = ground (arith, h)
idle_lem m m' false false tf tf' h = ground (arith, h)

manager-IsManager : IsManager manager member
manager-IsManager = record {
  member-remove = λ k j s. refl;
  blocked-set_blocked = λ s m. refl;
  takes_unblocked = λ old m m' tf tf' signo action h. elim (Bool-cases (m.0 == 0 || m.1 (m.0))) [
    | inl a ↦ ground (arith, h, a)
    | inr a ↦ elim (Bool-cases (m.0 == 10)) [
      | inl b ↦ ground (arith, h, a, b)
      | inr b ↦ ground (arith, h, a, b)
    ]
  ];
  keeps_blocked =
      λ old m m' tf tf' h. (idle_lem m m' (m.0 == 0 || m.1 (m.0)) (m.0 == 10) tf tf' h).0;
  keeps_frame = λ old m m' tf tf' h. (idle_lem m m' (m.0 == 0 || m.1 (m.0)) (m.0 == 10) tf tf' h).1;
}

abbrev nothing : ℕ → Bool
nothing j = false

size_fits : check_sigset_size infos 8 ≡ ok tt
unfolding check_sigset_size
size_fits = refl

abbrev code_143 : ℕ
code_143 = 143

ends_by : check_signals manager none (15, nothing) 7 ≡ exits_group 143
unfolding check_signals
ends_by = refl

check_signals-exits_concrete :
    (signo : ℕ) × (action : OsAction) × ((next_signal none (15, nothing) 7).0
      ≡ some (signo, action))
    × (((action ≡ stop) × (code_143 ≡ 1))
        ⊎ (((action ≡ terminate) ⊎ (action ≡ core_dump))
            × (signo < 128 → (code_143 % 128 ≡ signo) × (code_143 / 128 ≡ 1))))
check_signals-exits_concrete = check_signals-exits manager none (15, nothing) 7 143 ends_by

abbrev arrival : List (State → State)
arrival = (λ m. (10, m.1)) ∷ []

-- 5 and SIGKILL are to be blocked.
abbrev asked : ℕ → Bool
asked j = j == 5 || j == 9

abbrev at_the_end : State
at_the_end = (0, λ j. not (j == 19) && (not (j == 9) && asked j))

resumed :
    sys_rt_sigsuspend infos manager (ok asked) 8 arrival (0, nothing) 7
    ≡ resumes (ok 0) at_the_end 4
unfolding sys_rt_sigsuspend
resumed = refl

sys_rt_sigsuspend-IsWoken_example :
    (◌≡◌ {A = LinuxResult ℕ} (ok 0) (ok 0))
    × ((blocked : ℕ → Bool) × (woken : IsWoken manager nothing blocked 4 at_the_end 4) × ((j : ℕ)
          → blocked j ≡ (not (j == 9) && not (j == 19) && asked j))
        × ((woken.signo ≡ 9) ⊎ (woken.signo ≡ 19) ⊎ (asked woken.signo ≡ false)))
sys_rt_sigsuspend-IsWoken_example =
    sys_rt_sigsuspend-IsWoken manager member manager-IsManager infos asked 8 arrival (0, nothing)
      at_the_end 7 4 (ok 0) size_fits ((λ m. refl), tt) resumed

abbrev process : Process
process = record {
  pid = 2;
  parent = none;
  aspace = 0;
  signal_actions = 1;
  fd_table = 2;
  current_dir = 3;
  current_dir_path = 4;
  exit_signal = none;
}

abbrev world : World Table ℕ ℕ ℕ ℕ
world = record {
  processes = process ∷ [];
  tasks = [];
  written = [];
  fd_tables = λ i j. if j == 0 then some 10 else none;
  spaces = λ i. 0;
  actions = λ i. 0;
  dirs = λ i. 0;
  paths = λ i. 0;
  next_tid = 4;
  next = 5;
}

abbrev no_pages : ℕ → ℕ → MappingFlags → Bool × ℕ
no_pages s vaddr flags = (false, s)

abbrev reading : MappingFlags
reading = record { read = true; write = false; execute = false; user = true }

abbrev faulting : Fault (World Table ℕ ℕ ℕ ℕ)
faulting =
    handle_page_fault tables no_pages process (ok 64) false true true [] false 4096 reading true
      world

abbrev events_of : Fault (World Table ℕ ℕ ℕ ℕ) → List Event × World Table ℕ ℕ ℕ ℕ
events_of (segfaults events w) = (events, w)
events_of f = ([], world)

faults : faulting ≡ segfaults (events_of faulting).0 (events_of faulting).1
unfolding handle_page_fault
faults = refl

handle_page_fault-segfaults_example :
    ((◌≡◌ {A = Bool} true true) ⊎ (◌≡◌ {A = Bool} false true))
    × (◌≡◌ {A = Bool} false false)
    × IsEnded tables process true (events_of faulting).0 (events_of faulting).1
handle_page_fault-segfaults_example =
    handle_page_fault-segfaults tables no_pages process (ok 64) false true true [] false 4096
      reading true world (events_of faulting).1 (events_of faulting).0 faults
