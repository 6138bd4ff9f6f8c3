-- ===== src/Clone/Children.antt =====
-- What `clone` makes, and what the end of that does to the caller.
use oscomp_test_listline.Prelude.{
  ℕ, suc, ◌%◌, ◌<◌, ◌≡◌, ◌⊎◌, refl, sym, ap, subst, ◌∙◌, inl, inr, List, ◌∷◌, Option, none, some,
  Bool, true, false, ◌&&◌, if◌then◌else◌, Option-cases, arith,
}
use oscomp_test_listline.Errno.{LinuxResult, ok, Result-cases}
use oscomp_test_listline.FdTable.Objects.{FlattenObjects}
use oscomp_test_listline.FdTable.{clear}
use oscomp_test_listline.FdTable.Copying.{clear_lem}
use oscomp_test_listline.Clone.{
  vm, files, child_cleartid, sighand, thread_flag, Process, Context, Task, World, Machine, put,
  check_flags, new_context, new_process, process_of, write_parent_tid, child_tid_of, clone_task,
  spawn_task, sys_clone,
}
use oscomp_test_listline.Clone.Exit.{do_exit}
use oscomp_test_listline.Clone.Sharing.{IsChildOf, new_process_lem}

module _ {T A M S D P : Type 0} (fo : FlattenObjects T A) (m : Machine M S) where
  write_parent_tid_lem :
      (flags parent_tid tid : ℕ) (w w' : World T M S D P)
      → write_parent_tid fo m flags parent_tid tid w ≡ ok w'
      → (written : List (ℕ × ℕ)) × (w' ≡ record w { written = written })
  unfolding write_parent_tid
  write_parent_tid_lem flags parent_tid tid w w' h =
      elim (Result-cases (write_parent_tid fo m flags parent_tid tid w)) [
        | inl (w1, p) ↦ (w'.written, ground arith)
        | inr (e, p) ↦ ground (arith, p)
      ]

  clone_task_lem :
      (flags tid n parent_tid child_tid : ℕ) (set_child_tid : Option ℕ) (context : Context)
      (caller : Process) (w w' : World T M S D P)
      → thread_flag flags ≡ false
      → clone_task fo m flags tid parent_tid child_tid set_child_tid context caller w
        ≡ some (ok n, w')
      → (n ≡ tid) × ((child : Process) × IsChildOf fo m flags tid caller w w' child)
  unfolding clone_task process_of spawn_task
  clone_task_lem flags tid n parent_tid child_tid set_child_tid context caller w w' no_thread h =
      elim (Result-cases (write_parent_tid fo m flags parent_tid tid w)) [
        | inr (e, p) ↦ ground (arith, p)
        | inl (w1, p) ↦
            let es = m.from_repr (flags % 256) in
            elim (Option-cases (new_process fo m flags tid es caller w1)) [
              | inl q ↦ ground (arith, p, q)
              | inr ((r, w2), q) ↦ elim (Result-cases r) [
                | inr (e, k) ↦ ground (arith, p, q, k)
                | inl (child, k) ↦
                    let (written, same) = write_parent_tid_lem flags parent_tid tid w w1 p in
                    let made : new_process fo m flags tid es caller (record w { written = written })
                        ≡ some (ok child, w2) =
                      ap (new_process fo m flags tid es caller) (sym same)
                      ∙ q
                      ∙ ap (λ x. some (x, w2)) k in
                    let lem =
                      new_process_lem fo m flags tid es caller child
                        (record w { written = written }) w2 made in
                    let spawned : w' ≡ record w2 { tasks = w'.tasks } = ground (arith, p, q, k) in
                    (
                      ground (arith, p, q, k),
                      (
                        child,
                        subst (λ x. IsChildOf fo m flags tid caller w x child) (sym spawned) lem,
                      ),
                    )
              ]
            ]
      ]

  -- When `clone` without CLONE_THREAD succeeds, it has added one process, whose pid is the number that it
  -- answers and had not been given out. The process shares the caller's address space, table of descriptors
  -- and directory, or has its own that nobody else has, just as the flags CLONE_VM, CLONE_FILES and CLONE_FS
  -- say; each of its descriptors is the same file as the caller's, and no table that existed has changed.
  pub sys_clone-child :
      (flags stack parent_tid child_tid tls n : ℕ) (tf : Context) (caller : Process)
      (w w' : World T M S D P)
      → thread_flag flags ≡ false
      → sys_clone fo m flags stack parent_tid child_tid tls tf caller w ≡ some (ok n, w')
      → (n ≡ w.next_tid) × ((child : Process) × IsChildOf fo m flags w.next_tid caller w w' child)
  unfolding sys_clone
  sys_clone-child flags stack parent_tid child_tid tls n tf caller w w' no_thread h =
      elim (Result-cases (check_flags flags)) [
        | inr (e, p) ↦ ground (arith, p)
        | inl (u, p) ↦ elim (Result-cases (child_tid_of m flags child_tid)) [
          | inr (e, q) ↦ ground (arith, p, q)
          | inl (set_child_tid, q) ↦
              let context = new_context flags stack tls tf in
              let taken = record w { next_tid = suc w.next_tid } in
              let route : sys_clone fo m flags stack parent_tid child_tid tls tf caller w
                  ≡ clone_task fo m flags w.next_tid parent_tid child_tid set_child_tid context
                      caller taken =
                rw (sys_clone, p, q) in
              clone_task_lem flags w.next_tid n parent_tid child_tid set_child_tid context caller
                taken w' no_thread (sym route ∙ h)
        ]
      ]

  -- A process that `clone` made ends with the exit of its last thread: if it had its own table of
  -- descriptors, the caller's descriptors are what they were before the `clone`; if it shared the caller's
  -- table, by CLONE_FILES, the caller has no descriptor left.
  pub sys_clone-do_exit :
      (flags stack parent_tid child_tid tls n : ℕ) (tf : Context) (caller : Process)
      (w w' : World T M S D P) (clear_tid : LinuxResult ℕ)
      (has_futex group_exited group_exit : Bool) (threads : List ℕ) (exit_code : ℕ)
      → caller.fd_table < w.next
      → thread_flag flags ≡ false
      → sys_clone fo m flags stack parent_tid child_tid tls tf caller w ≡ some (ok n, w')
      → (child : Process) × (w'.processes ≡ child ∷ w.processes)
        × (let after =
              (do_exit fo child clear_tid has_futex true group_exited threads exit_code group_exit
                w').1 in
            ((files flags ≡ false)
              × ((j : ℕ)
                  → fo.get (after.fd_tables caller.fd_table) j
                    ≡ fo.get (w.fd_tables caller.fd_table) j))
            ⊎ ((files flags ≡ true)
                × ((j : ℕ) → fo.get (after.fd_tables caller.fd_table) j ≡ none)))
  unfolding do_exit
  sys_clone-do_exit flags stack parent_tid child_tid tls n tf caller w w' ct hf ge g threads code
        below no_thread h =
      let (number, (child, is_child)) =
        sys_clone-child flags stack parent_tid child_tid tls n tf caller w w' no_thread h in
      let (procs, pid, space, table, dir, path, copies, kept) = is_child in
      let cleared = clear fo (w'.fd_tables child.fd_table) in
      let left = put w'.fd_tables child.fd_table cleared in
      (
        child,
        procs,
        elim table [
          | inl (shared, same) ↦
              let emptied : left caller.fd_table ≡ cleared = ground (arith, same) in
              inr (
                shared,
                λ j. ap (λ t. fo.get t j) emptied ∙ clear_lem fo (w'.fd_tables child.fd_table) j,
              )
          | inr (own, fresh) ↦
              let untouched : left caller.fd_table ≡ w'.fd_tables caller.fd_table =
                ground (arith, fresh) in
              let before : w'.fd_tables caller.fd_table ≡ w.fd_tables caller.fd_table =
                elim (kept caller.fd_table) [ inl above ↦ absurd (omega arith) | inr e ↦ e ] in
              inl (own, λ j. ap (λ t. fo.get t j) (untouched ∙ before))
        ],
      )

  -- When `clone` with CLONE_THREAD succeeds, CLONE_VM and CLONE_SIGHAND are set too, no process is added and
  -- no table of descriptors changes; the one task that is added has the number that the call answers, belongs
  -- to the caller's process and runs in its address space.
  pub sys_clone-thread :
      (flags stack parent_tid child_tid tls n : ℕ) (tf : Context) (caller : Process)
      (w w' : World T M S D P)
      → thread_flag flags ≡ true
      → sys_clone fo m flags stack parent_tid child_tid tls tf caller w ≡ some (ok n, w')
      → ((vm flags && sighand flags) ≡ true)
        × (w'.processes ≡ w.processes)
        × (w'.fd_tables ≡ w.fd_tables)
        × ((task : Task) × (w'.tasks ≡ task ∷ w.tasks)
            × (task.tid ≡ n)
            × (task.process ≡ caller.pid)
            × (task.page_table_root ≡ caller.aspace))
  unfolding sys_clone check_flags clone_task process_of write_parent_tid spawn_task
  sys_clone-thread flags stack parent_tid child_tid tls n tf caller w w' is_thread h =
      elim (Result-cases (check_flags flags)) [
        | inr (e, p) ↦ ground (arith, p)
        | inl (u, p) ↦ elim (Result-cases (child_tid_of m flags child_tid)) [
          | inr (e, q) ↦ ground (arith, p, q)
          | inl (set_child_tid, q) ↦
              let taken = record w { next_tid = suc w.next_tid } in
              elim (Result-cases (write_parent_tid fo m flags parent_tid w.next_tid taken)) [
                | inr (e, r) ↦ ground (arith, p, q, r)
                | inl (w1, r) ↦
                    let (written, same) =
                      write_parent_tid_lem flags parent_tid w.next_tid taken w1 r in
                    let task : Task = record {
                      tid = w.next_tid;
                      process = caller.pid;
                      context = new_context flags stack tls tf;
                      page_table_root = caller.aspace;
                      set_child_tid = set_child_tid;
                      clear_child_tid = if child_cleartid flags then child_tid else 0;
                    } in
                    let spawned : w' ≡ spawn_task fo m task w1 = ground (arith, p, q, r) in
                    (
                      ground (arith, p),
                      ground (arith, spawned, same),
                      ground (arith, spawned, same),
                      (task, ground (arith, spawned, same), ground (arith, p, q, r), refl, refl),
                    )
              ]
        ]
      ]
