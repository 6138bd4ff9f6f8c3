-- ===== src/Open.antt =====
-- `sys_openat` of api/src/imp/fs/fd_ops.rs. The files and directories that it opens are axfs's.
pub mod Opened
mod Tests
use oscomp_test_listline.Prelude.{
  ℕ, ◌+◌, ◌*◌, ◌/◌, ◌%◌, ◌^◌, Option, none, some, Bool, true, false, not, ◌==◌, ◌||◌, if◌then◌else◌,
  Text, codes, starts_with,
}
use oscomp_test_listline.Prelude.Int.{ℤ, pos, negsuc}
use oscomp_test_listline.Errno.{
  LinuxError, AxError, is_a_directory, enotdir, LinuxResult, AxResult, ok, err, ◌>>=◌, ok_or,
}
use oscomp_test_listline.FdTable.Objects.{FlattenObjects}
use oscomp_test_listline.FdTable.{get_file_like, add_file_like}
use oscomp_test_listline.Path.Hardlinks.{LinkManagerInner}
use oscomp_test_listline.Path.Names.{Names, handle_file_path, is_at_fdcwd}

-- axfs's `OpenOptions`, as far as they are set.
pub record OpenOptions : Type 0 where
  pub read : Bool
  pub write : Bool
  pub append : Bool
  pub truncate : Bool
  pub create : Bool
  pub execute : Bool
  pub directory : Bool

-- A bit of the flags: O_CREAT is 6, O_TRUNC 9, O_APPEND 10, O_PATH 21, and O_DIRECTORY is 16, but 14 on
-- aarch64.
abbrev pub has_flag : ℕ → ℕ → Bool
has_flag flags k = flags / 2 ^ k % 2 == 1

unfoldable pub flags_to_options : ℕ → ℕ → OpenOptions
flags_to_options o_directory flags = record {
  read = not (flags % 4 == 1);
  write = not (flags % 4 == 0);
  append = has_flag flags 10;
  truncate = has_flag flags 9;
  create = has_flag flags 6;
  execute = has_flag flags 21;
  directory = has_flag flags o_directory;
}

-- What the call uses of axfs, for files `F` and directories `Dir`: `File::open` and `Directory::open_dir`,
-- or `open_file_at` and `open_dir_at` of a directory. `file` and `directory` are the objects of the
-- descriptor table that the call makes of these and a path, and `as_directory` is the `downcast`.
pub record FileSystem (A F Dir : Type 0) : Type 0 where
  pub open_file : Option Dir → Text → OpenOptions → AxResult F
  pub open_dir : Option Dir → Text → OpenOptions → AxResult Dir
  pub file : F → Text → A
  pub directory : Dir → Text → A
  pub as_directory : A → Option Dir
  pub o_directory : ℕ

module _ {T A F Dir : Type 0} (names : Names) (inner : LinkManagerInner) (fo : FlattenObjects T A)
    (fsys : FileSystem A F Dir) where
  -- `Directory::from_fd`
  unfoldable pub from_fd : T → ℤ → LinuxResult Dir
  unfolding get_file_like
  from_fd t fd = get_file_like fo t fd >>= (λ f. ok_or (fsys.as_directory f) enotdir)

  unfoldable pub dir_of : T → ℤ → Text → LinuxResult (Option Dir)
  unfolding from_fd starts_with
  dir_of t dirfd path =
      if starts_with path (codes "/") || is_at_fdcwd names inner dirfd
      then ok none
      else from_fd t dirfd >>= (λ d. ok (some d))

  unfoldable pub open_directory : T → Option Dir → Text → Text → OpenOptions → LinuxResult ℤ × T
  unfolding add_file_like
  open_directory t dir path real_path opts = elim (fsys.open_dir dir path opts) [
    | err e ↦ (err (names.to_linux e), t)
    | ok d ↦ add_file_like fo t (fsys.directory d real_path)
  ]

  unfoldable pub open_in : T → Option Dir → Text → Text → OpenOptions → LinuxResult ℤ × T
  unfolding add_file_like open_directory
  open_in t dir path real_path opts = elim opts.directory [
    | true ↦ open_directory t dir path real_path opts
    | false ↦ elim (fsys.open_file dir path opts) [
      | ok f ↦ add_file_like fo t (fsys.file f real_path)
      | err e ↦ elim e [
        | is_a_directory ↦ open_directory t dir path real_path opts
        | error ↦ (err (names.to_linux error), t)
      ]
    ]
  ]

  -- `none` is a panic in the path.
  unfoldable pub sys_openat : T → ℤ → LinuxResult Text → ℕ → Option (LinuxResult ℤ × T)
  unfolding flags_to_options dir_of handle_file_path open_in
  sys_openat t dirfd (err e) flags = some (err e, t)
  sys_openat t dirfd (ok path) flags = elim (dir_of t dirfd path) [
    | err e ↦ some (err e, t)
    | ok dir ↦ elim (handle_file_path names inner dirfd path) [
      | none ↦ none
      | some r ↦ elim r [
        | err e ↦ some (err e, t)
        | ok real_path ↦
            some (open_in t dir path real_path (flags_to_options fsys.o_directory flags))
      ]
    ]
  ]

  -- AT_FDCWD is -100.
  unfoldable pub sys_open : T → LinuxResult Text → ℕ → Option (LinuxResult ℤ × T)
  unfolding sys_openat
  sys_open t path flags = sys_openat t (negsuc 99) path flags
