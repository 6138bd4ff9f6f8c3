-- ===== src/Clone.antt =====
-- api/src/imp/task/clone.rs and exit.rs, with the data of core/src/task.rs that they make. An `Arc` is the
-- number of what it points to; whoever has the number shares it.
pub mod Data
pub mod Children
pub mod Dropping
pub mod Exit
pub mod Sharing
pub mod Stores
mod Tests
pub use oscomp_test_listline.Clone.Data.{
  contains, vm, fs, files, sighand, parent_flag, thread_flag, settls, parent_settid, child_cleartid,
  child_settid, Process, Context, Task, World, put,
}
use oscomp_test_listline.Prelude.{
  ℕ, zero, suc, ◌+◌, ◌*◌, ◌/◌, ◌%◌, ◌^◌, ◌<◌, List, [], ◌∷◌, Option, none, some, Bool, true, false,
  not, ◌==◌, ◌&&◌, if◌then◌else◌,
}
use oscomp_test_listline.Errno.{LinuxError, einval, LinuxResult, ok, err, ◌>>=◌, ok_or}
use oscomp_test_listline.FdTable.Objects.{FlattenObjects}
use oscomp_test_listline.FdTable.{copy_inner}

unfoldable pub find_process : ℕ → List Process → Option Process
find_process pid [] = none
find_process pid (p ∷ ps) = if p.pid == pid then some p else find_process pid ps

-- The checks of the flags; the low 8 bits are the exit signal.
unfoldable pub check_flags : ℕ → LinuxResult {0} Unit
check_flags flags =
    if not (flags % 256 == 0) && (thread_flag flags && parent_flag flags)
    then err einval
    else if thread_flag flags && not (vm flags && sighand flags)
    then err einval
    else ok tt

unfoldable pub new_context : ℕ → ℕ → ℕ → Context → Context
new_context flags stack tls tf = record {
  sp = if stack == 0 then tf.sp else stack;
  tls = if settls flags then tls else tf.tls;
  retval = 0;
}

-- The pid of the parent of the new process.
unfoldable pub parent_of : ℕ → Process → LinuxResult ℕ
parent_of flags caller = if parent_flag flags then ok_or caller.parent einval else ok caller.pid

-- `clone_or_err` is axmm's, and `copy_from_kernel` of core/src/mm.rs copies mappings by it;
-- `from_repr` is `Signo::from_repr`, and `get_as_mut` the check of a user pointer.
pub record Machine (M S : Type 0) : Type 0 where
  pub clone_or_err : M → LinuxResult M
  pub copy_from_kernel : M → LinuxResult M
  pub default_actions : S
  pub from_repr : ℕ → Option ℕ
  pub get_as_mut : ℕ → LinuxResult {0} Unit

module _ {M S : Type 0} (m : Machine M S) where
  -- The place where the new task writes its own number.
  unfoldable pub child_tid_of : ℕ → ℕ → LinuxResult (Option ℕ)
  child_tid_of flags child_tid =
      if child_settid flags then m.get_as_mut child_tid >>= (λ u. ok (some child_tid)) else ok none

module _ {T A M S D P : Type 0} (fo : FlattenObjects T A) (m : Machine M S) where
  unfoldable pub clone_aspace : ℕ → Process → World T M S D P → LinuxResult (ℕ × World T M S D P)
  clone_aspace flags caller w =
      if vm flags
      then ok (caller.aspace, w)
      else m.clone_or_err (w.spaces caller.aspace) >>= (λ a.
        m.copy_from_kernel a
        >>= (λ b. ok (w.next, record w { spaces = put w.spaces w.next b; next = suc w.next })))

  -- The parent's actions are shared, if it has any data.
  unfoldable pub clone_actions : ℕ → ℕ → World T M S D P → ℕ × World T M S D P
  unfolding find_process
  clone_actions flags parent w =
      let fresh : ℕ × World T M S D P = (
        w.next,
        record w { actions = put w.actions w.next m.default_actions; next = suc w.next },
      ) in
      if sighand flags
      then elim (find_process parent w.processes) [ none ↦ fresh | some p ↦ (p.signal_actions, w) ]
      else fresh

  -- `none` is the panic of `copy_inner`.
  unfoldable pub clone_files : ℕ → Process → World T M S D P → Option (ℕ × World T M S D P)
  unfolding copy_inner
  clone_files flags caller w =
      if files flags
      then some (caller.fd_table, w)
      else elim (copy_inner fo (w.fd_tables caller.fd_table)) [
        | none ↦ none
        | some t ↦
            some (w.next, record w { fd_tables = put w.fd_tables w.next t; next = suc w.next })
      ]

  unfoldable pub clone_fs : ℕ → Process → World T M S D P → ℕ × ℕ × World T M S D P
  clone_fs flags caller w = if fs flags then (caller.current_dir, caller.current_dir_path, w) else (
    w.next,
    suc w.next,
    record w {
      dirs = put w.dirs w.next (w.dirs caller.current_dir);
      paths = put w.paths (suc w.next) (w.paths caller.current_dir_path);
      next = suc (suc w.next);
    },
  )

  -- The branch of `sys_clone` that makes a process.
  unfoldable pub new_process :
      ℕ → ℕ → Option ℕ → Process → World T M S D P → Option (LinuxResult Process × World T M S D P)
  unfolding parent_of clone_aspace clone_actions clone_files clone_fs
  new_process flags tid exit_signal caller w = elim (parent_of flags caller) [
    | err e ↦ some (err e, w)
    | ok parent ↦ elim (clone_aspace flags caller w) [
      | err e ↦ some (err e, w)
      | ok (aspace, w1) ↦
          let (signal_actions, w2) = clone_actions flags parent w1 in
          elim (clone_files flags caller w2) [
            | none ↦ none
            | some (fd_table, w3) ↦
                let (current_dir, current_dir_path, w4) = clone_fs flags caller w3 in
                let child : Process = record {
                  pid = tid;
                  parent = some parent;
                  aspace = aspace;
                  signal_actions = signal_actions;
                  fd_table = fd_table;
                  current_dir = current_dir;
                  current_dir_path = current_dir_path;
                  exit_signal = exit_signal;
                } in
                some (ok child, record w4 { processes = child ∷ w4.processes })
          ]
    ]
  ]

  unfoldable pub spawn_task : Task → World T M S D P → World T M S D P
  spawn_task task w = record w { tasks = task ∷ w.tasks }

  -- The process of the new task: the caller's, or a new one.
  unfoldable pub process_of :
      ℕ → ℕ → Option ℕ → Process → World T M S D P → Option (LinuxResult Process × World T M S D P)
  unfolding new_process
  process_of flags tid exit_signal caller w =
      if thread_flag flags then some (ok caller, w) else new_process flags tid exit_signal caller w

  -- The word for the new task's number in the parent's memory.
  unfoldable pub write_parent_tid : ℕ → ℕ → ℕ → World T M S D P → LinuxResult (World T M S D P)
  write_parent_tid flags parent_tid tid w =
      if parent_settid flags
      then m.get_as_mut parent_tid
        >>= (λ u. ok (record w { written = (parent_tid, tid) ∷ w.written }))
      else ok w

  -- The part of the call after its checks, with the number `tid` taken.
  unfoldable pub clone_task :
      ℕ
      → ℕ
      → ℕ
      → ℕ
      → Option ℕ
      → Context
      → Process
      → World T M S D P
      → Option (LinuxResult ℕ × World T M S D P)
  unfolding write_parent_tid process_of spawn_task
  clone_task flags tid parent_tid child_tid set_child_tid context caller w =
      elim (write_parent_tid flags parent_tid tid w) [
        | err e ↦ some (err e, w)
        | ok w1 ↦ elim (process_of flags tid (m.from_repr (flags % 256)) caller w1) [
          | none ↦ none
          | some (r, w2) ↦ elim r [
            | err e ↦ some (err e, w2)
            | ok p ↦
                let task : Task = record {
                  tid = tid;
                  process = p.pid;
                  context = context;
                  page_table_root = p.aspace;
                  set_child_tid = set_child_tid;
                  clear_child_tid = if child_cleartid flags then child_tid else 0;
                } in
                some (ok tid, spawn_task task w2)
          ]
        ]
      ]

  unfoldable pub sys_clone :
      ℕ
      → ℕ
      → ℕ
      → ℕ
      → ℕ
      → Context
      → Process
      → World T M S D P
      → Option (LinuxResult ℕ × World T M S D P)
  unfolding check_flags child_tid_of new_context clone_task
  sys_clone flags stack parent_tid child_tid tls tf caller w = elim (check_flags flags) [
    | err e ↦ some (err e, w)
    | ok u ↦ elim (child_tid_of m flags child_tid) [
      | err e ↦ some (err e, w)
      | ok set_child_tid ↦
          clone_task flags w.next_tid parent_tid child_tid set_child_tid
            (new_context flags stack tls tf) caller (record w { next_tid = suc w.next_tid })
    ]
  ]

  -- The exit signal is SIGCHLD.
  unfoldable pub sys_fork :
      Context → Process → World T M S D P → Option (LinuxResult ℕ × World T M S D P)
  unfolding sys_clone
  sys_fork tf caller w = sys_clone 17 0 0 0 0 tf caller w
