-- ===== src/Links/Invariant.antt =====
-- The link manager under any sequence of the calls.
use oscomp_test_listline.Prelude.{
  ℕ, ◌≡◌, inl, inr, refl, sym, subst, List, [], ◌∷◌, Option, none, some, ◌==◌, Text, Option-cases,
  Bool-cases,
}
use oscomp_test_listline.Prelude.Int.{ℤ}
use oscomp_test_listline.Errno.{LinuxResult, ok, err, ◌>>=◌, map_err, Result-cases}
use oscomp_test_listline.Path.Hardlinks.{Axfs}
use oscomp_test_listline.Path.Hardlinks.Invariant.{
  IsCounted, create_link-IsCounted, remove_link-IsCounted,
}
use oscomp_test_listline.Path.Names.{Names, handle_file_path}
use oscomp_test_listline.Links.{
  State, Directories, with_files, sys_chdir, sys_mkdirat, link_paths, sys_linkat, unlink_path,
  sys_unlinkat,
}

pub data Call : Type 0 where
  chdir : LinuxResult Text → Call
  mkdirat : ℤ → LinuxResult Text → Call
  linkat : ℤ → LinuxResult Text → ℤ → LinuxResult Text → Call
  unlinkat : ℤ → LinuxResult Text → ℕ → Call

abbrev pub state_of : {F : Type 0} → State F → Option (LinuxResult ℕ × State F) → State F
state_of s none = s
state_of s (some (r, s')) = s'

module _ {F : Type 0} (names : Names) (fs : Axfs F) (dirs : Directories F) where
  with_files-manager : (s : State F) (r : LinuxResult F) → (with_files s r).1.manager ≡ s.manager
  with_files-manager s (ok f) = refl
  with_files-manager s (err e) = refl

  with_files-IsCounted :
      (s : State F) (r : LinuxResult F) → IsCounted s.manager → IsCounted (with_files s r).1.manager
  with_files-IsCounted s r c = subst IsCounted (sym (with_files-manager s r)) c

  link_paths-IsCounted :
      (s : State F) (old new : LinuxResult Text)
      → IsCounted s.manager
      → IsCounted (link_paths names fs dirs s old new).1.manager
  unfolding link_paths
  link_paths-IsCounted s (err e) new c = c
  link_paths-IsCounted s (ok old) (err e) c = c
  link_paths-IsCounted s (ok old) (ok new) c = create_link-IsCounted fs s.manager s.files new old c

  unlink_path-IsCounted :
      (s : State F) (path : Text) (flags : ℕ)
      → IsCounted s.manager
      → IsCounted (unlink_path names fs dirs s path flags).1.manager
  unfolding unlink_path
  unlink_path-IsCounted s path flags c = elim (Bool-cases (flags == 512)) [
    | inl b ↦
        rw (unlink_path, b)
          (with_files-IsCounted s (map_err names.to_linux (dirs.remove_dir s.files path)) c)
    | inr b ↦ elim (Result-cases (dirs.metadata_is_dir s.files path)) [
      | inr (e, m) ↦ rw (unlink_path, b, m) c
      | inl (is_directory, m) ↦ elim (Bool-cases is_directory) [
        | inl d ↦ rw (unlink_path, b, m, d) c
        | inr d ↦ rw (unlink_path, b, m, d) (remove_link-IsCounted fs s.manager s.files path c)
      ]
    ]
  ]

  mkdirat-IsCounted :
      (s : State F) (dirfd : ℤ) (path : LinuxResult Text)
      → IsCounted s.manager
      → IsCounted (state_of s (sys_mkdirat names fs dirs s dirfd path)).manager
  unfolding sys_mkdirat
  mkdirat-IsCounted s dirfd (err e) c = c
  mkdirat-IsCounted s dirfd (ok path) c =
      elim (Option-cases (handle_file_path names s.manager dirfd path)) [
        | inl n ↦ rw (sys_mkdirat, n) c
        | inr (r, n) ↦
            rw (sys_mkdirat, n)
              (with_files-IsCounted s
                (r >>= (λ p. map_err names.to_linux (dirs.create_dir s.files p))) c)
      ]

  linkat-IsCounted :
      (s : State F) (old_dirfd : ℤ) (old : LinuxResult Text) (new_dirfd : ℤ)
      (new : LinuxResult Text)
      → IsCounted s.manager
      → IsCounted (state_of s (sys_linkat names fs dirs s old_dirfd old new_dirfd new)).manager
  unfolding sys_linkat
  linkat-IsCounted s old_dirfd (err e) new_dirfd new c = c
  linkat-IsCounted s old_dirfd (ok old) new_dirfd (err e) c = c
  linkat-IsCounted s old_dirfd (ok old) new_dirfd (ok new) c =
      elim (Option-cases (handle_file_path names s.manager old_dirfd old)) [
        | inl n ↦ rw (sys_linkat, n) c
        | inr (r, n) ↦ elim (Result-cases r) [
          | inr (e, q) ↦ rw (sys_linkat, n, q) c
          | inl (p, q) ↦ elim (Option-cases (handle_file_path names s.manager new_dirfd new)) [
            | inl k ↦ rw (sys_linkat, n, q, k) c
            | inr (new_path, k) ↦
                rw (sys_linkat, n, q, k) (link_paths-IsCounted s (ok p) new_path c)
          ]
        ]
      ]

  unlinkat-IsCounted :
      (s : State F) (dirfd : ℤ) (path : LinuxResult Text) (flags : ℕ)
      → IsCounted s.manager
      → IsCounted (state_of s (sys_unlinkat names fs dirs s dirfd path flags)).manager
  unfolding sys_unlinkat
  unlinkat-IsCounted s dirfd (err e) flags c = c
  unlinkat-IsCounted s dirfd (ok path) flags c =
      elim (Option-cases (handle_file_path names s.manager dirfd path)) [
        | inl n ↦ rw (sys_unlinkat, n) c
        | inr (r, n) ↦ elim (Result-cases r) [
          | inr (e, q) ↦ rw (sys_unlinkat, n, q) c
          | inl (p, q) ↦ rw (sys_unlinkat, n, q) (unlink_path-IsCounted s p flags c)
        ]
      ]

module _ {F : Type 0} (names : F → Names) (fs : Axfs F) (dirs : Directories F) where
  -- The state after a call; the kernel stops at a panic, and the state is the one before it. `names s.files` is
  -- how names are resolved when the call is made: the current directory is part of the file system, and `chdir`
  -- changes it.
  unfoldable pub step : State F → Call → State F
  step s (chdir path) = (sys_chdir (names s.files) fs dirs s path).1
  step s (mkdirat dirfd path) = state_of s (sys_mkdirat (names s.files) fs dirs s dirfd path)
  step s (linkat old_dirfd old new_dirfd new) =
      state_of s (sys_linkat (names s.files) fs dirs s old_dirfd old new_dirfd new)
  step s (unlinkat dirfd path flags) =
      state_of s (sys_unlinkat (names s.files) fs dirs s dirfd path flags)

  unfoldable pub run : State F → List Call → State F
  unfolding step
  run s [] = s
  run s (c ∷ cs) = run (step s c) cs

  step-IsCounted :
      (s : State F) (call : Call) → IsCounted s.manager → IsCounted (step s call).manager
  unfolding step sys_chdir
  step-IsCounted s (chdir path) c =
      with_files-IsCounted (names s.files) fs dirs s
        (path >>= (λ p. map_err (names s.files).to_linux (dirs.set_current_dir s.files p))) c
  step-IsCounted s (mkdirat dirfd path) c = mkdirat-IsCounted (names s.files) fs dirs s dirfd path c
  step-IsCounted s (linkat old_dirfd old new_dirfd new) c =
      linkat-IsCounted (names s.files) fs dirs s old_dirfd old new_dirfd new c
  step-IsCounted s (unlinkat dirfd path flags) c =
      unlinkat-IsCounted (names s.files) fs dirs s dirfd path flags c

  -- Any sequence of `chdir`, `mkdirat`, `linkat` and `unlinkat`, whatever their arguments, errors and panics,
  -- and whatever the file system does, keeps the reference counts of the link manager equal to the numbers of
  -- its links. Each call resolves its paths with the current directory of that moment.
  pub run-IsCounted :
      (s : State F) (calls : List Call) → IsCounted s.manager → IsCounted (run s calls).manager
  unfolding run
  run-IsCounted s [] c = c
  run-IsCounted s (call ∷ calls) c = run-IsCounted (step s call) calls (step-IsCounted s call c)
