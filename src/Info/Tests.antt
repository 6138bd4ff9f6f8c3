-- ===== src/Info/Tests.antt =====
-- The fields of `uname`, a clock, and a thread with an address to clear.
use oscomp_test_listline.Prelude.{
  ℕ, ◌≡◌, refl, List, [], ◌∷◌, map, length, none, some, true, false, codes, Text, arith,
}
use oscomp_test_listline.Prelude.Int.{pos}
use oscomp_test_listline.Errno.{LinuxResult, einval, ok, err}
use oscomp_test_listline.TimeValue.{TimeValue, Timespec, timespec_to_time_value}
use oscomp_test_listline.FdTable.Example.{Table, tables}
use oscomp_test_listline.Clone.{Process, Task, World}
use oscomp_test_listline.Clone.Exit.{do_exit}
use oscomp_test_listline.Info.{
  pad_all, utsname_texts, Clocks, clock_time, sys_clock_gettime, sys_set_tid_address, sys_uname,
  sys_arch_prctl, Segments,
}
use oscomp_test_listline.Info.Answers.{
  c_str, FitAll, pad_all-c_str, sys_clock_gettime-to_time_value, Clears,
  sys_set_tid_address-do_exit,
}

abbrev small_texts : List Text
small_texts = codes "ab" ∷ [] ∷ []

small_fit : FitAll small_texts
small_fit = (
  (omega arith, ((λ e. ground (arith, e)), ((λ e. ground (arith, e)), tt))),
  ((omega arith, tt), tt),
)

uname_fields :
    (fields : List (List ℕ)) × (sys_uname (ok tt) ≡ (ok 0, some fields))
    × (map c_str fields ≡ utsname_texts)
unfolding sys_uname c_str
uname_fields = (_, refl, refl)

pad_all-c_str_concrete :
    (fields : List (List ℕ)) × (pad_all small_texts ≡ some fields)
    × (map c_str fields ≡ small_texts)
    × (map length fields ≡ map (λ t. 65) small_texts)
pad_all-c_str_concrete = pad_all-c_str small_texts small_fit

abbrev noon : TimeValue
noon = record { secs = 43200; nanos = 5 }

abbrev clocks : Clocks
clocks = record {
  wall_time = noon;
  monotonic_time = record { secs = 7; nanos = 0 };
  monotonic_time_nanos = 7000000000;
  nanos_to_ticks = λ n. n;
}

unsupported : sys_clock_gettime clocks (pos 5) (ok tt) ≡ (err einval, none)
unfolding sys_clock_gettime
unsupported = refl

at_noon : clock_time clocks (pos 0) ≡ ok noon
unfolding clock_time
at_noon = refl

sys_clock_gettime-to_time_value_concrete :
    (ts : Timespec) × (sys_clock_gettime clocks (pos 0) (ok tt) ≡ (ok 0, some ts))
    × (timespec_to_time_value ts ≡ some noon)
sys_clock_gettime-to_time_value_concrete =
    sys_clock_gettime-to_time_value clocks (pos 0) noon at_noon
      (record { secs_fit = omega arith; nanos_fit = omega arith })

abbrev bases : Segments
bases = record { fs_base = 0; gs_base = 0 }

tls_kept :
    (sys_arch_prctl (pos 4099) 64 (ok tt) (sys_arch_prctl (pos 4098) 96 (ok tt) bases).2).1
    ≡ some 96
unfolding sys_arch_prctl
tls_kept = refl

abbrev thread : Task
thread = record {
  tid = 3;
  process = 2;
  context = record { sp = 0; tls = 0; retval = 0 };
  page_table_root = 0;
  set_child_tid = none;
  clear_child_tid = 0;
}

abbrev process : Process
process = record {
  pid = 2;
  parent = some 1;
  aspace = 0;
  signal_actions = 1;
  fd_table = 2;
  current_dir = 3;
  current_dir_path = 4;
  exit_signal = none;
}

abbrev world : World Table ℕ ℕ ℕ ℕ
world = record {
  processes = process ∷ [];
  tasks = thread ∷ [];
  written = [];
  fd_tables = λ i j. none;
  spaces = λ i. 0;
  actions = λ i. 0;
  dirs = λ i. 0;
  paths = λ i. 0;
  next_tid = 4;
  next = 5;
}

abbrev writable : ℕ → LinuxResult ℕ
writable a = ok a

sys_set_tid_address-do_exit_concrete :
    Clears 4096
      (do_exit tables process
        (writable (sys_set_tid_address 4096 thread).1.clear_child_tid)
        false
        true
        false
        []
        0
        false
        world).0
sys_set_tid_address-do_exit_concrete =
    sys_set_tid_address-do_exit tables 4096 4096 writable thread process false true false false [] 0
      world refl
