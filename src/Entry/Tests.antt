-- ===== src/Entry/Tests.antt =====
-- A kernel with the standard descriptors that starts a program, and a list of test cases.
use oscomp_test_listline.Prelude.{
  ℕ, ◌≡◌, refl, List, [], ◌∷◌, Option, none, some, true, false, ◌==◌, if◌then◌else◌, Text, codes,
  text_eq, arith,
}
use oscomp_test_listline.Errno.{not_found, other_errno, ok, err}
use oscomp_test_listline.Loader.{ElfFile, Formats, Layout}
use oscomp_test_listline.Execve.{ExecSpace}
use oscomp_test_listline.FdTable.Example.{Table, tables}
use oscomp_test_listline.Clone.{Process, Task}
use oscomp_test_listline.Entry.{
  Kernel, Boot, Run, aborts, spins, spawned, split_path, run_user_app, main,
}
use oscomp_test_listline.Entry.Starting.{IsStarted, run_user_app-IsStarted}
use oscomp_test_listline.Entry.Running.{join_commas, programs, run_programs, main-join_commas}

abbrev areas : ExecSpace (List ℕ)
areas = record {
  user_space = record { map_alloc = λ s a n f p. ok (a ∷ s); write = λ s a bytes. ok (a ∷ s) };
  unmap_user_areas = λ s. ok [];
  map_linear = λ s a p n f. ok (a ∷ s);
  signal_trampoline = 16384;
  trampoline_paddr = 0;
  to_linux = λ e. other_errno 22;
}

abbrev files : Formats ℕ
files = record {
  read = λ path. if text_eq path (codes "/bin/b") then ok [] else err not_found;
  canonicalize = λ path. ok path;
  elf_new = λ bytes.
      some (record { input = []; interp = none; ph_load = some []; entry = 4096; auxv = 0 });
  app_stack_region = λ args envs v a n. 1 ∷ 2 ∷ [];
  is_utf8 = λ bytes. true;
  trim = λ s. s;
}

abbrev places : Layout
places = record { stack_top = 65536; stack_size = 16384; heap_base = 32768; heap_size = 4096 }

abbrev boot : Boot (List ℕ) ℕ ℕ Text
boot = record {
  new_empty = ok [];
  copy_mappings_from = λ s. ok (99 ∷ s);
  separate_tables = false;
  default_actions = 0;
  set_current_dir = λ dir d p. some (5, dir);
  uspace_context = λ entry sp arg0. record { sp = sp; tls = 0; retval = arg0 };
}

abbrev stdio : Table
stdio i = if i == 0 then some 10 else if i == 1 then some 11 else if i == 2 then some 11 else none

abbrev kernel : Kernel Table (List ℕ) ℕ ℕ Text
kernel = record {
  world = record {
    processes = [];
    tasks = [];
    written = [];
    fd_tables = λ i. stdio;
    spaces = λ i. [];
    actions = λ i. 0;
    dirs = λ i. 0;
    paths = λ i. [];
    next_tid = 2;
    next = 0;
  };
  fd_table = stdio;
  current_dir = 0;
  current_dir_path = codes "/";
}

abbrev program : Text
program = codes "/bin/b"

abbrev kernel_of : Run Table (List ℕ) ℕ ℕ Text → Kernel Table (List ℕ) ℕ ℕ Text
kernel_of aborts = kernel
kernel_of spins = kernel
kernel_of (spawned tid name k) = k

abbrev run : Run Table (List ℕ) ℕ ℕ Text
run = run_user_app tables boot areas files places 1 1 (program ∷ []) [] kernel

abbrev after : Kernel Table (List ℕ) ℕ ℕ Text
after = kernel_of run

starts :
    run_user_app tables boot areas files places 1 1 (program ∷ []) [] kernel
    ≡ spawned 2 (codes "b") after
unfolding run_user_app oscomp_test_listline.Loader.load_user_app
    oscomp_test_listline.FdTable.Example.table_ids oscomp_test_listline.FdTable.Example.ids_below
    oscomp_test_listline.FdTable.Example.table_get
starts = refl

run_user_app-IsStarted_example :
    (exe_path : Text) × (rest : List Text) × (program ∷ [] ≡ exe_path ∷ rest)
    × (2 ≡ kernel.world.next_tid)
    × (codes "b" ≡ (split_path exe_path).1)
    × ((process : Process) × (task : Task) × IsStarted tables boot areas files places 1 exe_path
          (exe_path ∷ rest)
          []
          kernel
          after
          process
          task)
run_user_app-IsStarted_example =
    run_user_app-IsStarted tables boot areas files places 1 1 2 (codes "b") (program ∷ []) [] kernel
      after starts

-- One word; and a run that puts the arguments on a list.
abbrev one_word : Text → Option (List Text)
one_word t = some (t ∷ [])

abbrev note : List Text → List (List Text) → Option (List (List Text))
note args k = some (args ∷ k)

runs_both : main one_word note (codes "a,,b") [] ≡ some ((codes "b" ∷ []) ∷ (codes "a" ∷ []) ∷ [])
unfolding main
runs_both = refl

main-join_commas_example :
    main one_word note (join_commas (codes "a") ([] ∷ codes "b" ∷ [])) []
    ≡ run_programs one_word note (programs one_word note (codes "a" ∷ [] ∷ codes "b" ∷ [])) []
main-join_commas_example =
    main-join_commas one_word note (codes "a") ([] ∷ codes "b" ∷ []) [] (λ e. ground (arith, e), tt)
      (tt, ((λ e. ground (arith, e), tt), tt))
