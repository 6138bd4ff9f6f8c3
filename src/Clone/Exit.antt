-- ===== src/Clone/Exit.antt =====
-- api/src/imp/task/exit.rs: what a task does at its end.
use oscomp_test_listline.Prelude.{
  ℕ, ◌*◌, ◌%◌, ◌^◌, List, [], ◌∷◌, ◌++◌, Option, none, some, Bool, true, false, not, ◌&&◌,
  if◌then◌else◌,
}
use oscomp_test_listline.Errno.{LinuxResult, ok, err}
use oscomp_test_listline.FdTable.Objects.{FlattenObjects}
use oscomp_test_listline.FdTable.{clear}
use oscomp_test_listline.Clone.{Process, find_process, World, put}

-- What others see of it, in order: a word of user memory is written, a task at its futex is woken, other
-- tasks run, the process exits, its parent is sent a signal or is woken, a thread is sent SIGKILL, the task
-- ends with its code.
pub data Event : Type 0 where
  clears notifies : ℕ → Event
  yields process_exits process_group_exits : Event
  signals_parent : ℕ → ℕ → Event
  wakes_parent : ℕ → Event
  kills_thread : ℕ → Event
  exits : ℕ → Event

abbrev pub kill_all : List ℕ → List Event
kill_all [] = []
kill_all (tid ∷ tids) = kills_thread tid ∷ kill_all tids

-- The parent, if it is alive and has its data, which are the processes of the list, is sent the exit signal,
-- if there is one, and is woken.
unfoldable pub tell_parent : List Process → Option ℕ → Option ℕ → List Event
unfolding find_process
tell_parent processes none signo = []
tell_parent processes (some parent) signo = elim (find_process parent processes) [
  | none ↦ []
  | some found ↦ elim signo [
    | none ↦ wakes_parent parent ∷ []
    | some n ↦ signals_parent parent n ∷ wakes_parent parent ∷ []
  ]
]

-- `clear_tid` is what `get_as_mut` gives for the address, `has_futex` whether the futex table has a queue
-- for it.
unfoldable pub clear_tid_events : LinuxResult ℕ → Bool → List Event
clear_tid_events (err e) has_futex = []
clear_tid_events (ok addr) has_futex =
    clears addr ∷ (if has_futex then notifies addr ∷ yields ∷ [] else yields ∷ [])

module _ {T A M S D P : Type 0} (fo : FlattenObjects T A) where
  -- `last` is the answer of `thread.exit`, whether this is the last thread; `group_exited` is the process's
  -- `is_group_exited`, and `threads` are its threads after that.
  unfoldable pub do_exit :
      Process
      → LinuxResult ℕ
      → Bool
      → Bool
      → Bool
      → List ℕ
      → ℕ
      → Bool
      → World T M S D P
      → List Event × World T M S D P
  unfolding clear_tid_events tell_parent
  do_exit process clear_tid has_futex last group_exited threads exit_code group_exit w =
      let kills =
        if group_exit && not group_exited then process_group_exits ∷ kill_all threads else [] in
      let ends = kills ++ exits exit_code ∷ [] in
      if last
      then (
        clear_tid_events clear_tid has_futex
            ++ process_exits
              ∷ (tell_parent w.processes process.parent process.exit_signal
                  ++ process_exits ∷ ends),
        record w {
          fd_tables = put w.fd_tables process.fd_table (clear fo (w.fd_tables process.fd_table));
        },
      )
      else (clear_tid_events clear_tid has_futex ++ ends, w)

  -- `exit_code << 8`, in 32 bits.
  unfoldable pub sys_exit :
      Process
      → LinuxResult ℕ
      → Bool
      → Bool
      → Bool
      → List ℕ
      → ℕ
      → World T M S D P
      → List Event × World T M S D P
  unfolding do_exit
  sys_exit process clear_tid has_futex last group_exited threads exit_code w =
      do_exit process clear_tid has_futex last group_exited threads (exit_code * 256 % 2 ^ 32) false
        w

  unfoldable pub sys_exit_group :
      Process
      → LinuxResult ℕ
      → Bool
      → Bool
      → Bool
      → List ℕ
      → ℕ
      → World T M S D P
      → List Event × World T M S D P
  unfolding do_exit
  sys_exit_group process clear_tid has_futex last group_exited threads exit_code w =
      do_exit process clear_tid has_futex last group_exited threads (exit_code * 256 % 2 ^ 32) true
        w
