-- ===== src/Links.antt =====
-- The calls of api/src/imp/fs/ctl.rs on directories and links, over the link manager. A path is what the check
-- of its pointer gives.
pub mod Invariant
mod Tests
use oscomp_test_listline.Prelude.{
  ℕ, ◌≤◌, List, [], ◌∷◌, ◌++◌, Option, none, some, Bool, true, false, ◌==◌, leb, if◌then◌else◌,
  length, drop, Text,
}
use oscomp_test_listline.Prelude.Int.{ℤ, negsuc}
use oscomp_test_listline.Errno.{
  LinuxError, AxError, already_exists, invalid_input, enoent, eisdir, einval, erange, Result,
  LinuxResult, AxResult, ok, err, ◌>>=◌, map_err,
}
use oscomp_test_listline.Path.Hardlinks.{
  Axfs, LinkError, LinkManagerInner, create_link, remove_link,
}
use oscomp_test_listline.Path.Names.{Names, handle_file_path}

-- `From<LinkError> for AxError`
unfoldable pub link_error : LinkError → AxError
link_error LinkError.link_exists = already_exists
link_error LinkError.invalid_path = invalid_input
link_error LinkError.not_found = AxError.not_found
link_error LinkError.not_file = invalid_input

-- What the calls use of axfs::api besides the link manager: the file system after a change, or the error;
-- whether a path is a directory; the current directory; and whether `CString::new` takes a text.
pub record Directories (F : Type 0) : Type 0 where
  pub create_dir : F → Text → AxResult F
  pub remove_dir : F → Text → AxResult F
  pub set_current_dir : F → Text → AxResult F
  pub metadata_is_dir : F → Text → AxResult Bool
  pub current_dir : F → AxResult Text
  pub has_no_nul : Text → Bool

-- The state: the link manager and the file system.
pub record State (F : Type 0) : Type 0 where
  pub manager : LinkManagerInner
  pub files : F

module _ {F : Type 0} where
  abbrev pub with_files : State F → LinuxResult F → LinuxResult ℕ × State F
  with_files s (err e) = (err e, s)
  with_files s (ok f) = (ok 0, record s { files = f })

module _ {F : Type 0} (names : Names) (fs : Axfs F) (dirs : Directories F) where
  unfoldable pub sys_chdir : State F → LinuxResult Text → LinuxResult ℕ × State F
  sys_chdir s path =
      with_files s (path >>= (λ p. map_err names.to_linux (dirs.set_current_dir s.files p)))

  -- `none` is a panic in the path, here and below.
  unfoldable pub sys_mkdirat : State F → ℤ → LinuxResult Text → Option (LinuxResult ℕ × State F)
  unfolding handle_file_path
  sys_mkdirat s dirfd (err e) = some (err e, s)
  sys_mkdirat s dirfd (ok path) = elim (handle_file_path names s.manager dirfd path) [
    | none ↦ none
    | some r ↦ some (with_files s (r >>= (λ p. map_err names.to_linux (dirs.create_dir s.files p))))
  ]

  -- The part of `sys_linkat` after the paths.
  unfoldable pub link_paths :
      State F → LinuxResult Text → LinuxResult Text → LinuxResult ℕ × State F
  unfolding create_link link_error
  link_paths s (err e) new_path = (err e, s)
  link_paths s (ok old) (err e) = (err e, s)
  link_paths s (ok old) (ok new) =
      let (r, manager, files) = create_link fs s.manager s.files new old in
      (
        map_err (λ e. names.to_linux (link_error e)) r >>= (λ u. ok 0),
        record { manager = manager; files = files },
      )

  unfoldable pub sys_linkat :
      State F → ℤ → LinuxResult Text → ℤ → LinuxResult Text → Option (LinuxResult ℕ × State F)
  unfolding handle_file_path link_paths
  sys_linkat s old_dirfd (err e) new_dirfd new_path = some (err e, s)
  sys_linkat s old_dirfd (ok old) new_dirfd (err e) = some (err e, s)
  sys_linkat s old_dirfd (ok old) new_dirfd (ok new) =
      elim (handle_file_path names s.manager old_dirfd old) [
        | none ↦ none
        | some old_path ↦ elim old_path [
          | err e ↦ some (err e, s)
          | ok p ↦ elim (handle_file_path names s.manager new_dirfd new) [
            | none ↦ none
            | some new_path ↦ some (link_paths s (ok p) new_path)
          ]
        ]
      ]

  unfoldable pub sys_link :
      State F → LinuxResult Text → LinuxResult Text → Option (LinuxResult ℕ × State F)
  unfolding sys_linkat
  sys_link s old_path new_path = sys_linkat s (negsuc 99) old_path (negsuc 99) new_path

  -- The part of `sys_unlinkat` after the path. AT_REMOVEDIR is 0x200.
  unfoldable pub unlink_path : State F → Text → ℕ → LinuxResult ℕ × State F
  unfolding remove_link
  unlink_path s path flags =
      if flags == 512
      then with_files s (map_err names.to_linux (dirs.remove_dir s.files path))
      else elim (dirs.metadata_is_dir s.files path) [
        | err e ↦ (err (names.to_linux e), s)
        | ok is_directory ↦ elim is_directory [
          | true ↦ (err eisdir, s)
          | false ↦
              let (r, manager, files) = remove_link fs s.manager s.files path in
              (
                elim r [ none ↦ err enoent | some p ↦ ok 0 ],
                record { manager = manager; files = files },
              )
        ]
      ]

  unfoldable pub sys_unlinkat :
      State F → ℤ → LinuxResult Text → ℕ → Option (LinuxResult ℕ × State F)
  unfolding handle_file_path unlink_path
  sys_unlinkat s dirfd (err e) flags = some (err e, s)
  sys_unlinkat s dirfd (ok path) flags = elim (handle_file_path names s.manager dirfd path) [
    | none ↦ none
    | some r ↦ elim r [ err e ↦ some (err e, s) | ok p ↦ some (unlink_path s p flags) ]
  ]

  unfoldable pub sys_unlink : State F → LinuxResult Text → Option (LinuxResult ℕ × State F)
  unfolding sys_unlinkat
  sys_unlink s path = sys_unlinkat s (negsuc 99) path 0

  -- On the slice of user memory, `none` for the null pointer: the slice afterwards beside the result, which is
  -- the address `base` of the slice.
  unfoldable pub sys_getcwd : State F → ℕ → LinuxResult (Option (List ℕ)) → LinuxResult ℕ × List ℕ
  sys_getcwd s base (err e) = (err e, [])
  sys_getcwd s base (ok none) = (ok 0, [])
  sys_getcwd s base (ok (some buf)) = elim (map_err names.to_linux (dirs.current_dir s.files)) [
    | err e ↦ (err e, buf)
    | ok cwd ↦
        if dirs.has_no_nul cwd
        then (let bytes = cwd ++ 0 ∷ [] in
            if leb (length bytes) (length buf)
            then (ok base, bytes ++ drop (length bytes) buf)
            else (err erange, buf))
        else (err einval, buf)
  ]
