-- ===== src/Entry.antt =====
-- src/entry.rs and src/main.rs, with the making of an address space of core/src/mm.rs: the kernel runs one
-- program after the other.
pub mod Running
pub mod Starting
mod Tests
use oscomp_test_listline.Prelude.{
  ℕ, suc, ◌+◌, List, [], ◌∷◌, ◌++◌, Option, none, some, Bool, true, false, not, ◌==◌, if◌then◌else◌,
  Text,
}
use oscomp_test_listline.Errno.{AxResult, ok, err, ◌>>=◌}
use oscomp_test_listline.Loader.{Formats, Layout, Loading, panics, loops, returns, load_user_app}
use oscomp_test_listline.Execve.{rsplit_once, ExecSpace, map_trampoline}
use oscomp_test_listline.FdTable.Objects.{FlattenObjects}
use oscomp_test_listline.FdTable.{copy_inner}
use oscomp_test_listline.Clone.{Process, Context, Task, World, put}

-- The tasks and processes, with the table of descriptors, the directory and its path of the kernel's own
-- namespace.
pub record Kernel (T M A D P : Type 0) : Type 0 where
  pub world : World T M A D P
  pub fd_table : T
  pub current_dir : D
  pub current_dir_path : P

-- axmm's `new_empty` with the configuration's base and size, `copy_mappings_from` of the kernel's space, and
-- whether the target has a page table of its own for the user (aarch64, loongarch64); the default signal
-- actions; axfs's `set_current_dir`; and `UspaceContext::new`.
pub record Boot (M A D P : Type 0) : Type 0 where
  pub new_empty : AxResult M
  pub copy_mappings_from : M → AxResult M
  pub separate_tables : Bool
  pub default_actions : A
  pub set_current_dir : Text → D → P → Option (D × P)
  pub uspace_context : ℕ → ℕ → ℕ → Context

-- A panic, a loader that its fuel does not bring to its end, or the new task; `name` is the task's.
pub data Run (T M A D P : Type 0) : Type 0 where
  aborts : Run T M A D P
  spins : Run T M A D P
  spawned : ℕ → Text → Kernel T M A D P → Run T M A D P

-- The directory of a path and the name.
unfoldable pub split_path : Text → Text × Text
unfolding rsplit_once
split_path path = elim (rsplit_once path) [ none ↦ ([], path) | some (dir, name) ↦ (dir, name) ]

module _ {M A D P : Type 0} (boot : Boot M A D P) where
  unfoldable pub copy_from_kernel : M → AxResult M
  copy_from_kernel s = if boot.separate_tables then ok s else boot.copy_mappings_from s

  unfoldable pub new_uspace : ExecSpace M → AxResult M
  unfolding copy_from_kernel map_trampoline
  new_uspace space = boot.new_empty >>= (λ s. copy_from_kernel s >>= (λ t. map_trampoline space t))

-- The process with the numbers that are next; `init` is the pid of the init process, and 17 is SIGCHLD.
unfoldable pub new_process : ℕ → ℕ → ℕ → Process
new_process init tid next = record {
  pid = tid;
  parent = some init;
  aspace = next;
  signal_actions = 1 + next;
  fd_table = 2 + next;
  current_dir = 3 + next;
  current_dir_path = 4 + next;
  exit_signal = some 17;
}

unfoldable pub new_task : Context → Process → Task
new_task context process = record {
  tid = process.pid;
  process = process.pid;
  context = context;
  page_table_root = process.aspace;
  set_child_tid = none;
  clear_child_tid = 0;
}

module _ {T M A D P : Type 0} (boot : Boot M A D P) where
  -- The process, its resources and its task; `t` is the copy of the kernel's table.
  unfoldable pub spawn_program :
      Process → ℕ → ℕ → M → T → D → P → Kernel T M A D P → Kernel T M A D P
  unfolding new_task
  spawn_program process entry_vaddr ustack_top uspace t dir path k =
      let w = k.world in
      let w' : World T M A D P = record w {
        processes = process ∷ w.processes;
        tasks = new_task (boot.uspace_context entry_vaddr ustack_top 2333) process ∷ w.tasks;
        fd_tables = put w.fd_tables process.fd_table t;
        spaces = put w.spaces process.aspace uspace;
        actions = put w.actions process.signal_actions boot.default_actions;
        dirs = put w.dirs process.current_dir dir;
        paths = put w.paths process.current_dir_path path;
        next_tid = suc w.next_tid;
        next = 5 + w.next;
      } in
      record k { world = w'; current_dir = dir; current_dir_path = path }

module _ {T O M A D P V : Type 0} (fo : FlattenObjects T O) (boot : Boot M A D P)
    (space : ExecSpace M) (formats : Formats V) (layout : Layout) where
  -- The part after the loader.
  unfoldable pub run_loaded : ℕ → Text → D → P → Kernel T M A D P → Loading M → Run T M A D P
  unfolding new_process spawn_program copy_inner
  run_loaded init name dir path k panics = aborts
  run_loaded init name dir path k loops = spins
  run_loaded init name dir path k (returns (err e) s) = aborts
  run_loaded init name dir path k (returns (ok (entry_vaddr, ustack_top)) s) =
      elim (copy_inner fo k.fd_table) [
        | none ↦ aborts
        | some t ↦
            let process = new_process init k.world.next_tid k.world.next in
            spawned process.pid name
              (spawn_program boot process entry_vaddr ustack_top s t dir path k)
      ]

  -- The function without the wait for the task.
  unfoldable pub run_user_app : ℕ → ℕ → List Text → List Text → Kernel T M A D P → Run T M A D P
  unfolding new_uspace split_path run_loaded
  run_user_app fuel init [] envs k = aborts
  run_user_app fuel init (exe_path ∷ rest) envs k = elim (new_uspace boot space) [
    | err e ↦ aborts
    | ok uspace ↦
        let (dir, name) = split_path exe_path in
        elim (boot.set_current_dir dir k.current_dir k.current_dir_path) [
          | none ↦ aborts
          | some (d, p) ↦
              run_loaded init name d p k
                (load_user_app space.user_space formats layout fuel uspace (exe_path ∷ rest) envs)
        ]
  ]

-- `split(',')` of `str`.
unfoldable pub split_commas : Text → List Text
split_commas [] = [] ∷ []
split_commas (c ∷ cs) =
    let rest = split_commas cs in
    if c == 44
    then [] ∷ rest
    else elim rest [ [] ↦ (c ∷ []) ∷ [] | part ∷ parts ↦ (c ∷ part) ∷ parts ]

-- What is left of a list of test cases: the empty ones are dropped by `filter`.
unfoldable pub nonempty : List Text → List Text
nonempty [] = []
nonempty ([] ∷ ts) = nonempty ts
nonempty ((c ∷ cs) ∷ ts) = (c ∷ cs) ∷ nonempty ts

-- `shlex::split`, and the run of a program with the wait for its end: `none` is a panic.
module _ {K : Type 0} (shlex_split : Text → Option (List Text))
    (run : List Text → K → Option K) where
  unfoldable pub run_all : List Text → K → Option K
  run_all [] k = some k
  run_all (testcase ∷ testcases) k = elim (shlex_split testcase) [
    | none ↦ run_all testcases k
    | some args ↦ elim args [
      | [] ↦ run_all testcases k
      | arg ∷ more ↦ elim (run (arg ∷ more) k) [ none ↦ none | some k' ↦ run_all testcases k' ]
    ]
  ]

  unfoldable pub main : Text → K → Option K
  unfolding run_all nonempty split_commas
  main list k = run_all (nonempty (split_commas list)) k
