-- ===== src/Clone/Sharing.antt =====
-- What a new process shares with the caller of `clone`, step by step.
use oscomp_test_listline.Prelude.{
  ℕ, ◌≤◌, ◌≡◌, ◌⊎◌, ap, ◌∙◌, inl, inr, ◌∷◌, Option, some, Bool, true, false, ◌==◌, Bool-cases,
  Option-cases, arith,
}
use oscomp_test_listline.Errno.{ok, Result-cases}
use oscomp_test_listline.FdTable.Objects.{FlattenObjects}
use oscomp_test_listline.FdTable.Copying.{copy_inner_lem}
use oscomp_test_listline.Clone.{
  vm, fs, files, Process, World, Machine, put, parent_of, clone_aspace, clone_actions, clone_files,
  clone_fs, new_process,
}

-- The new `Arc` is the old one if the flag is set, and else one that nobody has had.
abbrev pub SharedOrNew : Bool → ℕ → ℕ → ℕ → Type 0
SharedOrNew flag next old new = ((flag ≡ true) × (new ≡ old)) ⊎ ((flag ≡ false) × (next ≤ new))

module _ {T A M S D P : Type 0} (fo : FlattenObjects T A) (m : Machine M S) where
  -- The tables and the processes are as they were, and numbers are only used up.
  abbrev pub Keeps : World T M S D P → World T M S D P → Type 0
  Keeps w w' = (w'.processes ≡ w.processes) × (w'.fd_tables ≡ w.fd_tables) × (w.next ≤ w'.next)

  clone_aspace_lem :
      (flags a : ℕ) (caller : Process) (w w' : World T M S D P)
      → clone_aspace fo m flags caller w ≡ ok (a, w')
      → SharedOrNew (vm flags) w.next caller.aspace a × Keeps w w'
  unfolding clone_aspace
  clone_aspace_lem flags a caller w w' h = elim (Bool-cases (vm flags)) [
    | inl yes_vm ↦ ground (arith, yes_vm)
    | inr no_vm ↦ ground (arith, no_vm)
  ]

  clone_actions_lem :
      (flags parent : ℕ) (w : World T M S D P) → Keeps w (clone_actions fo m flags parent w).1
  unfolding clone_actions
  clone_actions_lem flags parent w = ground arith

  clone_files_lem :
      (flags f : ℕ) (caller : Process) (w w' : World T M S D P)
      → clone_files fo m flags caller w ≡ some (f, w')
      → SharedOrNew (files flags) w.next caller.fd_table f
        × (w'.processes ≡ w.processes)
        × (w.next ≤ w'.next)
        × ((j : ℕ) → fo.get (w'.fd_tables f) j ≡ fo.get (w.fd_tables caller.fd_table) j)
        × ((i : ℕ) → (w.next ≤ i) ⊎ (w'.fd_tables i ≡ w.fd_tables i))
  unfolding clone_files
  clone_files_lem flags f caller w w' h = elim (Bool-cases (files flags)) [
    | inl shared ↦
        let number : f ≡ caller.fd_table = ground (arith, shared) in
        let tables : w'.fd_tables ≡ w.fd_tables = ground (arith, shared) in
        (
          inl (shared, number),
          ground (arith, shared),
          ground (arith, shared),
          λ j.
              ap (λ (t : ℕ → T). fo.get (t f) j) tables ∙ ap (λ k. fo.get (w.fd_tables k) j) number,
          λ i. inr (ap (λ (t : ℕ → T). t i) tables),
        )
    | inr copied ↦
        let (n, c, g) = copy_inner_lem fo (w.fd_tables caller.fd_table) in
        let number : f ≡ w.next = ground (arith, copied, c) in
        let tables : w'.fd_tables ≡ put w.fd_tables w.next n = ground (arith, copied, c) in
        let at : put w.fd_tables w.next n f ≡ n = ground (arith, number) in
        (
          inr (copied, ground (arith, number)),
          ground (arith, copied, c),
          ground (arith, copied, c),
          λ j. ap (λ (t : ℕ → T). fo.get (t f) j) tables ∙ ap (λ t. fo.get t j) at ∙ g j,
          λ i. elim (Bool-cases (w.next == i)) [
            | inl here ↦ inl (ground (arith, here))
            | inr there ↦
                let kept : put w.fd_tables w.next n i ≡ w.fd_tables i = ground (arith, there) in
                inr (ap (λ (t : ℕ → T). t i) tables ∙ kept)
          ],
        )
  ]

  clone_fs_lem :
      (flags : ℕ) (caller : Process) (w : World T M S D P)
      → let (dir, path, w') = clone_fs fo m flags caller w in
        SharedOrNew (fs flags) w.next caller.current_dir dir
        × SharedOrNew (fs flags) w.next caller.current_dir_path path
        × Keeps w w'
  unfolding clone_fs
  clone_fs_lem flags caller w = ground arith

  -- What a call that makes a process comes to.
  abbrev pub IsChildOf : ℕ → ℕ → Process → World T M S D P → World T M S D P → Process → Type 0
  IsChildOf flags tid caller w w' child =
      (w'.processes ≡ child ∷ w.processes)
      × (child.pid ≡ tid)
      × SharedOrNew (vm flags) w.next caller.aspace child.aspace
      × SharedOrNew (files flags) w.next caller.fd_table child.fd_table
      × SharedOrNew (fs flags) w.next caller.current_dir child.current_dir
      × SharedOrNew (fs flags) w.next caller.current_dir_path child.current_dir_path
      × ((j : ℕ) → fo.get (w'.fd_tables child.fd_table) j ≡ fo.get (w.fd_tables caller.fd_table) j)
      × ((i : ℕ) → (w.next ≤ i) ⊎ (w'.fd_tables i ≡ w.fd_tables i))

  pub new_process_lem :
      (flags tid : ℕ) (exit_signal : Option ℕ) (caller child : Process) (w w' : World T M S D P)
      → new_process fo m flags tid exit_signal caller w ≡ some (ok child, w')
      → IsChildOf flags tid caller w w' child
  unfolding new_process
  new_process_lem flags tid exit_signal caller child w w' h =
      elim (Result-cases (parent_of flags caller)) [
        | inr (e, p) ↦ ground (arith, p)
        | inl (parent, p) ↦ elim (Result-cases (clone_aspace fo m flags caller w)) [
          | inr (e, q) ↦ ground (arith, p, q)
          | inl ((a, w1), q) ↦
              let (actions, w2) = clone_actions fo m flags parent w1 in
              elim (Option-cases (clone_files fo m flags caller w2)) [
                | inl r ↦ ground (arith, p, q, r)
                | inr ((f, w3), r) ↦
                    let (dir, path, w4) = clone_fs fo m flags caller w3 in
                    let (space_lem, keeps1) = clone_aspace_lem flags a caller w w1 q in
                    let keeps2 : Keeps w1 w2 = clone_actions_lem flags parent w1 in
                    let (files_lem, procs3, next3, copies, kept) =
                      clone_files_lem flags f caller w2 w3 r in
                    let (dir_lem, path_lem, keeps4) = clone_fs_lem flags caller w3 in
                    let tables2 : w2.fd_tables ≡ w.fd_tables = keeps2.1 ∙ keeps1.1 in
                    let next2 : w.next ≤ w2.next = omega (arith, keeps1.2, keeps2.2) in
                    let next_3 : w.next ≤ w3.next = omega (arith, next2, next3) in
                    let made : child.fd_table ≡ f = ground (arith, p, q, r) in
                    let tables4 : w'.fd_tables ≡ w4.fd_tables = ground (arith, p, q, r) in
                    let tables3 : w'.fd_tables ≡ w3.fd_tables = tables4 ∙ keeps4.1 in
                    let procs4 : w'.processes ≡ child ∷ w4.processes = ground (arith, p, q, r) in
                    (
                      procs4 ∙ ap (◌∷◌ child) (keeps4.0 ∙ procs3 ∙ keeps2.0 ∙ keeps1.0),
                      ground (arith, p, q, r),
                      ground (arith, p, q, r, space_lem),
                      ground (arith, made, files_lem, next2),
                      ground (arith, p, q, r, dir_lem, next_3),
                      ground (arith, p, q, r, path_lem, next_3),
                      λ j.
                          ap (λ (t : ℕ → T). fo.get (t child.fd_table) j) tables3
                          ∙ ap (λ k. fo.get (w3.fd_tables k) j) made
                          ∙ copies j
                          ∙ ap (λ (t : ℕ → T). fo.get (t caller.fd_table) j) tables2,
                      λ i. elim (kept i) [
                        | inl above ↦ inl (omega (arith, above, next2))
                        | inr same ↦ inr (
                            ap (λ (t : ℕ → T). t i) tables3
                            ∙ same
                            ∙ ap (λ (t : ℕ → T). t i) tables2)
                      ],
                    )
              ]
        ]
      ]
