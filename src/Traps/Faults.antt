-- ===== src/Traps/Faults.antt =====
-- What a page fault does to a task.
use oscomp_test_listline.Prelude.{
  ℕ, ◌≡◌, ◌⊎◌, refl, sym, subst, ap, ◌∙◌, inl, inr, List, [], ◌∷◌, ◌++◌, append_assoc, none, Bool,
  true, false, not, ◌&&◌, if◌then◌else◌, Bool-cases, arith,
}
use oscomp_test_listline.Errno.{LinuxResult}
use oscomp_test_listline.Memory.Space.{MappingFlags}
use oscomp_test_listline.FdTable.Objects.{FlattenObjects}
use oscomp_test_listline.FdTable.{clear}
use oscomp_test_listline.FdTable.Copying.{clear_lem}
use oscomp_test_listline.Clone.{Process, World, put}
use oscomp_test_listline.Clone.Exit.{
  Event, exits, process_exits, process_group_exits, kill_all, tell_parent, clear_tid_events,
  do_exit,
}
use oscomp_test_listline.Traps.{segfaults, handle_page_fault}
use oscomp_test_listline.Clone.Stores.{put_here}

either_access : (a b : Bool) → not a && not b ≡ false → (a ≡ true) ⊎ (b ≡ true)
either_access true b h = inl refl
either_access false true h = inr refl
either_access false false h = ground (arith, h)

abbrev pub EndsWith : Event → List Event → Type 0
EndsWith e events = (before : List Event) × (events ≡ before ++ e ∷ [])

EndsWith-cons : (e x : Event) (ys : List Event) → EndsWith e ys → EndsWith e (x ∷ ys)
EndsWith-cons e x ys (before, h) = (x ∷ before, ap (λ zs. x ∷ zs) h)

EndsWith-append : (e : Event) (xs ys : List Event) → EndsWith e ys → EndsWith e (xs ++ ys)
EndsWith-append e xs ys (before, h) =
    (xs ++ before, ap (λ zs. xs ++ zs) h ∙ sym (append_assoc xs before (e ∷ [])))

module _ {T A M S D P : Type 0} (fo : FlattenObjects T A) where
  -- What the others see of a task that is ended by a fault, and its table of descriptors if it was the last of
  -- its process.
  pub record IsEnded (process : Process) (last : Bool) (events : List Event) (w : World T M S D P)
      : Type 0 where
    pub exits_last : EndsWith (exits 11) events
    pub closed : last ≡ true → (j : ℕ) → fo.get (w.fd_tables process.fd_table) j ≡ none

  do_exit-IsEnded :
      (process : Process) (clear_tid : LinuxResult ℕ) (has_futex last group_exited : Bool)
      (threads : List ℕ) (w : World T M S D P)
      → IsEnded process last
          (do_exit fo process clear_tid has_futex last group_exited threads 11 true w).0
          (do_exit fo process clear_tid has_futex last group_exited threads 11 true w).1
  unfolding do_exit
  do_exit-IsEnded process clear_tid has_futex true group_exited threads w =
      let kills = if not group_exited then process_group_exits ∷ kill_all threads else [] in
      let ends = kills ++ exits 11 ∷ [] in
      let told = tell_parent w.processes process.parent process.exit_signal in
      let here : EndsWith (exits 11) ends = (kills, refl) in
      let after_tell =
        EndsWith-append (exits 11) told (process_exits ∷ ends)
          (EndsWith-cons (exits 11) process_exits ends here) in
      record {
        exits_last =
            EndsWith-append (exits 11) (clear_tid_events clear_tid has_futex)
              (process_exits ∷ (told ++ process_exits ∷ ends))
              (EndsWith-cons (exits 11) process_exits (told ++ process_exits ∷ ends) after_tell);
        closed = λ l j.
            ap (λ t. fo.get t j)
              (put_here w.fd_tables process.fd_table (clear fo (w.fd_tables process.fd_table)))
            ∙ clear_lem fo (w.fd_tables process.fd_table) j;
      }
  do_exit-IsEnded process clear_tid has_futex false group_exited threads w =
      let kills = if not group_exited then process_group_exits ∷ kill_all threads else [] in
      record {
        exits_last =
            EndsWith-append (exits 11) (clear_tid_events clear_tid has_futex)
              (kills ++ exits 11 ∷ []) (kills, refl);
        closed = λ l j. ground (arith, l);
      }

  -- A page fault that ends its task came from the user or while the kernel accessed user memory, and the address
  -- space could not resolve it. The last that the others see of the task is its exit with SIGSEGV as the code;
  -- and if it was the last thread of its process, no descriptor is left in the table of the process.
  pub handle_page_fault-segfaults :
      (handle : M → ℕ → MappingFlags → Bool × M) (process : Process) (clear_tid : LinuxResult ℕ)
      (has_futex last group_exited : Bool) (threads : List ℕ) (accessing : Bool) (vaddr : ℕ)
      (access_flags : MappingFlags) (is_user : Bool) (w w' : World T M S D P) (events : List Event)
      → handle_page_fault fo handle process clear_tid has_futex last group_exited threads accessing
          vaddr access_flags is_user w
        ≡ segfaults events w'
      → ((is_user ≡ true) ⊎ (accessing ≡ true))
        × ((handle (w.spaces process.aspace) vaddr access_flags).0 ≡ false)
        × IsEnded process last events w'
  unfolding handle_page_fault
  handle_page_fault-segfaults handle process clear_tid has_futex last group_exited threads accessing
        vaddr access_flags is_user w w' events h =
      let s = (handle (w.spaces process.aspace) vaddr access_flags).1 in
      let w1 : World T M S D P = record w { spaces = put w.spaces process.aspace s } in
      let ended = do_exit-IsEnded process clear_tid has_futex last group_exited threads w1 in
      elim (Bool-cases (not is_user && not accessing)) [
        | inl c ↦ ground (arith, h, c)
        | inr c ↦ elim (Bool-cases (handle (w.spaces process.aspace) vaddr access_flags).0) [
          | inl f ↦ ground (arith, h, c, f)
          | inr f ↦
              let gone =
                do_exit fo process clear_tid has_futex last group_exited threads 11 true w1 in
              let ev : gone.0 ≡ events = ground (arith, h, c, f) in
              let ew : gone.1 ≡ w' = ground (arith, h, c, f) in
              (
                either_access is_user accessing c,
                f,
                subst (λ x. IsEnded process last x w') ev
                    (subst (λ y. IsEnded process last gone.0 y) ew ended),
              )
        ]
      ]
