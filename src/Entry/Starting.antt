-- ===== src/Entry/Starting.antt =====
-- The process that the kernel starts, and the programs that it runs.
use oscomp_test_listline.Clone.Stores.{put_here, put_other}
use oscomp_test_listline.Prelude.{
  ℕ, ◌+◌, ◌<◌, ◌≡◌, refl, sym, subst, ap, ◌∙◌, inl, inr, List, [], ◌∷◌, ◌++◌, some, Text,
  Option-cases, arith,
}
use oscomp_test_listline.Errno.{ok, err, Result-cases}
use oscomp_test_listline.Loader.{
  ElfFile, Formats, Layout, Loading, panics, loops, returns, program, next_args, load_program,
  load_user_app,
}
use oscomp_test_listline.Loader.Chain.{load_user_app-args}
use oscomp_test_listline.Execve.{ExecSpace}
use oscomp_test_listline.FdTable.Objects.{FlattenObjects}
use oscomp_test_listline.FdTable.Copying.{copy_inner_lem}
use oscomp_test_listline.Clone.{Process, Task, put}
use oscomp_test_listline.Entry.{
  Kernel, Boot, spawned, split_path, new_uspace, new_process, new_task, spawn_program, run_loaded,
  run_user_app,
}

module _ {T O M A D P V : Type 0} (fo : FlattenObjects T O) (boot : Boot M A D P)
    (space : ExecSpace M) (formats : Formats V) (layout : Layout) where
  -- What is true of the kernel after a program was started, with the new process and task.
  pub record IsStarted (init : ℕ) (exe_path : Text) (args envs : List Text)
      (k k' : Kernel T M A D P) (process : Process) (task : Task) : Type 0 where
    pub processes_eq : k'.world.processes ≡ process ∷ k.world.processes
    pub tasks_eq : k'.world.tasks ≡ task ∷ k.world.tasks
    pub pid_eq : process.pid ≡ k.world.next_tid
    pub parent_eq : process.parent ≡ some init
    pub task_process : task.process ≡ process.pid
    pub task_space : task.page_table_root ≡ process.aspace
    -- its descriptors are the kernel's, and its directory is the one that was set
    pub files_eq : (j : ℕ) → fo.get (k'.world.fd_tables process.fd_table) j ≡ fo.get k.fd_table j
    pub set_eq :
        boot.set_current_dir (split_path exe_path).0 k.current_dir k.current_dir_path
        ≡ some (k'.world.dirs process.current_dir, k'.world.paths process.current_dir_path)
    -- its memory is what the loader made
    pub fresh : M
    pub fresh_eq : new_uspace boot space ≡ ok fresh
    pub front : List Text
    pub elf : ElfFile V
    pub program_eq : next_args formats (front ++ args) ≡ program elf
    pub entry : ℕ
    pub sp : ℕ
    pub load_eq :
        load_program space.user_space formats layout fresh elf (front ++ args) envs
        ≡ returns (ok (entry, sp)) (k'.world.spaces process.aspace)
    pub context_eq : task.context ≡ boot.uspace_context entry sp 2333
    -- what the other processes have is untouched
    pub others_files : (i : ℕ) → i < k.world.next → k'.world.fd_tables i ≡ k.world.fd_tables i
    pub others_spaces : (i : ℕ) → i < k.world.next → k'.world.spaces i ≡ k.world.spaces i
    pub others_dirs : (i : ℕ) → i < k.world.next → k'.world.dirs i ≡ k.world.dirs i
    pub others_paths : (i : ℕ) → i < k.world.next → k'.world.paths i ≡ k.world.paths i
    pub others_actions : (i : ℕ) → i < k.world.next → k'.world.actions i ≡ k.world.actions i

  spawn_program-IsStarted :
      (init entry sp : ℕ) (exe_path : Text) (args front : List Text) (envs : List Text) (d : D)
      (p : P) (uspace s : M) (t : T) (elf : ElfFile V) (k : Kernel T M A D P)
      → new_uspace boot space ≡ ok uspace
      → boot.set_current_dir (split_path exe_path).0 k.current_dir k.current_dir_path ≡ some (d, p)
      → next_args formats (front ++ args) ≡ program elf
      → load_program space.user_space formats layout uspace elf (front ++ args) envs
        ≡ returns (ok (entry, sp)) s
      → ((j : ℕ) → fo.get t j ≡ fo.get k.fd_table j)
      → IsStarted init exe_path args envs k
          (spawn_program boot (new_process init k.world.next_tid k.world.next) entry sp s t d p k)
          (new_process init k.world.next_tid k.world.next)
          (new_task
            (boot.uspace_context entry sp 2333)
            (new_process init k.world.next_tid k.world.next))
  unfolding spawn_program new_process new_task
  spawn_program-IsStarted init entry sp exe_path args front envs d p uspace s t elf k u c n l same =
      record {
        processes_eq = refl;
        tasks_eq = refl;
        pid_eq = refl;
        parent_eq = refl;
        task_process = refl;
        task_space = refl;
        files_eq =
            λ j. ap (λ x. fo.get x j) (put_here k.world.fd_tables (2 + k.world.next) t) ∙ same j;
        set_eq =
            c
            ∙ ap (λ x. some (x, p)) (sym (put_here k.world.dirs (3 + k.world.next) d))
            ∙ ap (λ y. some (put k.world.dirs (3 + k.world.next) d (3 + k.world.next), y))
                (sym (put_here k.world.paths (4 + k.world.next) p));
        fresh = uspace;
        fresh_eq = u;
        front = front;
        elf = elf;
        program_eq = n;
        entry = entry;
        sp = sp;
        load_eq = l ∙ ap (returns (ok (entry, sp))) (sym (put_here k.world.spaces k.world.next s));
        context_eq = refl;
        others_files = λ i b. put_other k.world.fd_tables (2 + k.world.next) i t (omega (arith, b));
        others_spaces = λ i b. put_other k.world.spaces k.world.next i s (omega (arith, b));
        others_dirs = λ i b. put_other k.world.dirs (3 + k.world.next) i d (omega (arith, b));
        others_paths = λ i b. put_other k.world.paths (4 + k.world.next) i p (omega (arith, b));
        others_actions = λ i b.
            put_other k.world.actions (1 + k.world.next) i boot.default_actions (omega (arith, b));
      }

  run_loaded-IsStarted :
      (fuel init tid : ℕ) (exe_path name task_name : Text) (rest envs : List Text) (d : D) (p : P)
      (uspace : M) (k k' : Kernel T M A D P) (l : Loading M)
      → new_uspace boot space ≡ ok uspace
      → boot.set_current_dir (split_path exe_path).0 k.current_dir k.current_dir_path ≡ some (d, p)
      → load_user_app space.user_space formats layout fuel uspace (exe_path ∷ rest) envs ≡ l
      → run_loaded fo boot space formats layout init name d p k l ≡ spawned tid task_name k'
      → (tid ≡ k.world.next_tid)
        × (task_name ≡ name)
        × ((process : Process) × (task : Task) × IsStarted init exe_path
              (exe_path ∷ rest)
              envs
              k
              k'
              process
              task)
  unfolding run_loaded new_process
  run_loaded-IsStarted fuel init tid exe_path name task_name rest envs d p uspace k k' panics u c l
        h =
      ground arith
  run_loaded-IsStarted fuel init tid exe_path name task_name rest envs d p uspace k k' loops u c l
        h =
      ground arith
  run_loaded-IsStarted fuel init tid exe_path name task_name rest envs d p uspace k k'
        (returns (err e) s) u c l h =
      ground arith
  run_loaded-IsStarted fuel init tid exe_path name task_name rest envs d p uspace k k'
        (returns (ok (entry, sp)) s) u c l h =
      let (t, copied, same) = copy_inner_lem fo k.fd_table in
      let process = new_process init k.world.next_tid k.world.next in
      let (front, elf, n, loaded) =
        load_user_app-args space.user_space formats layout fuel uspace s (exe_path ∷ rest) envs
          entry sp l in
      let started =
        spawn_program-IsStarted init entry sp exe_path (exe_path ∷ rest) front envs d p uspace s t
          elf k u c n loaded same in
      let route : spawned process.pid name (spawn_program boot process entry sp s t d p k)
          ≡ spawned tid task_name k' =
        sym (rw (run_loaded, copied)) ∙ h in
      let same_kernel : spawn_program boot process entry sp s t d p k ≡ k' =
        ground (arith, route) in
      (
        ground (arith, route),
        ground (arith, route),
        (
          process,
          new_task (boot.uspace_context entry sp 2333) process,
          subst
              (λ x.
                IsStarted init exe_path (exe_path ∷ rest) envs k x process
                  (new_task (boot.uspace_context entry sp 2333) process))
              same_kernel started,
        ),
      )

  -- If a program is started, its process is a new child of the init process, with the next number as its pid
  -- and with one task, which is named by what follows the last slash of the path and has the address space of
  -- the process. Each of its descriptors is the same file as the kernel's; its directory is the one of the
  -- path; its memory is a new address space into which a program was loaded that was found from the
  -- arguments, and the task begins at the entry and the stack pointer of the loader. The descriptors,
  -- memory, directories, their paths and signal actions of the other processes are as before.
  pub run_user_app-IsStarted :
      (fuel init tid : ℕ) (name : Text) (args envs : List Text) (k k' : Kernel T M A D P)
      → run_user_app fo boot space formats layout fuel init args envs k ≡ spawned tid name k'
      → (exe_path : Text) × (rest : List Text) × (args ≡ exe_path ∷ rest)
        × (tid ≡ k.world.next_tid)
        × (name ≡ (split_path exe_path).1)
        × ((process : Process) × (task : Task) × IsStarted init exe_path
              (exe_path ∷ rest)
              envs
              k
              k'
              process
              task)
  unfolding run_user_app
  run_user_app-IsStarted fuel init tid name [] envs k k' h = ground arith
  run_user_app-IsStarted fuel init tid name (exe_path ∷ rest) envs k k' h =
      let dir = (split_path exe_path).0 in
      elim (Result-cases (new_uspace boot space)) [
        | inr (e, u) ↦ ground (arith, h, u)
        | inl (uspace, u) ↦
            elim (Option-cases (boot.set_current_dir dir k.current_dir k.current_dir_path)) [
              | inl c ↦ ground (arith, h, u, c)
              | inr ((d, p), c) ↦
                  let (a, b, started) =
                    run_loaded-IsStarted fuel init tid exe_path (split_path exe_path).1 name rest
                      envs d p uspace k k'
                      (load_user_app space.user_space formats layout fuel uspace (exe_path ∷ rest)
                        envs)
                      u c refl (ground (arith, h, u, c)) in
                  (exe_path, rest, refl, a, b, started)
            ]
      ]
