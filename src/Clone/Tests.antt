-- ===== src/Clone/Tests.antt =====
-- A process with the three standard descriptors, which forks.
use oscomp_test_listline.Prelude.{
  ltb, leb, Bool-cases, not, ◌+◌, inl, inr, ℕ, ◌≡◌, ◌⊎◌, refl, [], ◌∷◌, Option, none, some, true,
  false, ◌&&◌, ◌==◌, if◌then◌else◌, leb, arith,
}
use oscomp_test_listline.Errno.{einval, LinuxResult, ok, err}
use oscomp_test_listline.FdTable.Example.{Table, tables, table_get}
use oscomp_test_listline.Clone.{
  Process, Context, Task, World, Machine, vm, files, sighand, sys_clone,
}
use oscomp_test_listline.Clone.Dropping.{
  KernelSpace, drop_process_data, IsClearing, in_kernel, sys_clone-drop_process_data,
}
use oscomp_test_listline.Clone.Exit.{do_exit}
use oscomp_test_listline.Clone.Sharing.{IsChildOf}
use oscomp_test_listline.Clone.Children.{sys_clone-child, sys_clone-do_exit, sys_clone-thread}

abbrev machine : Machine ℕ ℕ
machine = record {
  clone_or_err = λ a. ok a;
  copy_from_kernel = λ a. ok a;
  default_actions = 0;
  from_repr = λ n. if leb 1 n && leb n 64 then some n else none;
  get_as_mut = λ a. ok tt;
}

abbrev shell : Process
shell = record {
  pid = 1;
  parent = none;
  aspace = 0;
  signal_actions = 1;
  fd_table = 2;
  current_dir = 3;
  current_dir_path = 4;
  exit_signal = none;
}

abbrev stdio : Table
stdio i = if i == 0 then some 10 else if i == 1 then some 11 else if i == 2 then some 11 else none

abbrev start : World Table ℕ ℕ ℕ ℕ
start = record {
  processes = shell ∷ [];
  tasks = [];
  written = [];
  fd_tables = λ i. stdio;
  spaces = λ i. 100;
  actions = λ i. 7;
  dirs = λ i. 0;
  paths = λ i. 0;
  next_tid = 2;
  next = 5;
}

abbrev context : Context
context = record { sp = 4096; tls = 0; retval = 57 }

-- CLONE_FILES and SIGCHLD.
abbrev with_files : ℕ
with_files = 1041

-- CLONE_VM, CLONE_SIGHAND and CLONE_THREAD.
abbrev with_thread : ℕ
with_thread = 67840

thread_only : sys_clone tables machine 65536 0 0 0 0 context shell start ≡ some (err einval, start)
unfolding sys_clone
thread_only = refl

abbrev Answer : Type 0
Answer = Option (LinuxResult ℕ × World Table ℕ ℕ ℕ ℕ)

abbrev world_of : Answer → World Table ℕ ℕ ℕ ℕ
world_of none = start
world_of (some (r, w)) = w

abbrev forked : World Table ℕ ℕ ℕ ℕ
forked = world_of (sys_clone tables machine with_files 0 0 0 0 context shell start)

forks : sys_clone tables machine with_files 0 0 0 0 context shell start ≡ some (ok 2, forked)
unfolding sys_clone
forks = refl

sys_clone-child_example :
    (◌≡◌ {A = ℕ} 2 2)
    × ((child : Process) × IsChildOf tables machine with_files 2 shell start forked child)
sys_clone-child_example =
    sys_clone-child tables machine with_files 0 0 0 0 2 context shell start forked refl forks

sys_clone-do_exit_example :
    (child : Process) × (forked.processes ≡ child ∷ shell ∷ [])
    × (let after = (do_exit tables child (ok 8192) false true false (2 ∷ []) 0 false forked).1 in
        ((files with_files ≡ false)
          × ((j : ℕ) → table_get (after.fd_tables 2) j ≡ table_get stdio j))
        ⊎ ((files with_files ≡ true) × ((j : ℕ) → table_get (after.fd_tables 2) j ≡ none)))
sys_clone-do_exit_example =
    sys_clone-do_exit tables machine with_files 0 0 0 0 2 context shell start forked (ok 8192) false
      false false (2 ∷ []) 0 (omega arith) refl forks

abbrev threaded : World Table ℕ ℕ ℕ ℕ
threaded = world_of (sys_clone tables machine with_thread 0 0 0 0 context shell start)

makes_thread :
    sys_clone tables machine with_thread 0 0 0 0 context shell start ≡ some (ok 2, threaded)
unfolding sys_clone
makes_thread = refl

sys_clone-thread_concrete :
    ((vm with_thread && sighand with_thread) ≡ true)
    × (threaded.processes ≡ shell ∷ [])
    × (threaded.fd_tables ≡ start.fd_tables)
    × ((task : Task) × (threaded.tasks ≡ task ∷ [])
        × (task.tid ≡ 2)
        × (task.process ≡ 1)
        × (task.page_table_root ≡ 0))
sys_clone-thread_concrete =
    sys_clone-thread tables machine with_thread 0 0 0 0 2 context shell start threaded refl
      makes_thread

-- CLONE_VM and SIGCHLD.
abbrev with_vm : ℕ
with_vm = 273

abbrev vforked : World Table ℕ ℕ ℕ ℕ
vforked = world_of (sys_clone tables machine with_vm 0 0 0 0 context shell start)

vforks : sys_clone tables machine with_vm 0 0 0 0 context shell start ≡ some (ok 2, vforked)
unfolding sys_clone oscomp_test_listline.FdTable.Example.table_ids
    oscomp_test_listline.FdTable.Example.ids_below table_get
vforks = refl

-- The kernel has two addresses from 8 on. The only address that is mapped in an address space is its number.
abbrev kernel : KernelSpace ℕ
kernel = record {
  base = 8;
  size = 2;
  clear_mappings = λ base size m. if leb base m && ltb m (base + size) then 0 else m;
  is_mapped = λ m a. not (m == 0) && m == a;
}

kernel-IsClearing : IsClearing kernel
kernel-IsClearing = record {
  clears = λ base size m a l u. elim (Bool-cases (leb base m && ltb m (base + size))) [
    | inl e ↦ ground (arith, l, u, e)
    | inr e ↦ ground (arith, l, u, e)
  ];
  keeps = λ base size m a o. elim (Bool-cases (leb base m && ltb m (base + size))) [
    | inl e ↦ elim o [ inl l ↦ ground (arith, l, e) | inr u ↦ ground (arith, u, e) ]
    | inr e ↦ ground (arith, e)
  ];
}

sys_clone-drop_process_data_example :
    (child : Process) × (vforked.processes ≡ child ∷ shell ∷ [])
    × (let after = drop_process_data kernel false child vforked in
        (a : ℕ)
        → kernel.is_mapped (after.spaces 0) a ≡ (
            kernel.is_mapped (vforked.spaces 0) a
            && not (vm with_vm && not false && in_kernel kernel a)))
sys_clone-drop_process_data_example =
    sys_clone-drop_process_data tables machine kernel kernel-IsClearing with_vm 0 0 0 0 2 context
      shell start vforked false (omega arith) refl vforks
