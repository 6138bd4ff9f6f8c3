-- ===== src/Stat.antt =====
-- api/src/imp/fs/stat.rs, with `Kstat` of api/src/file/mod.rs and the `stat` of the files and directories of
-- api/src/file/fs.rs. The file system is axfs's.
pub mod Agreement
mod Tests
use oscomp_test_listline.Prelude.{
  ℕ, zero, suc, ◌+◌, ◌*◌, ◌/◌, ◌%◌, ◌^◌, List, [], ◌∷◌, Option, none, some, Bool, true, false, not,
  ◌==◌, ◌||◌, if◌then◌else◌, Text,
}
use oscomp_test_listline.Prelude.Int.{ℤ, pos, negsuc}
use oscomp_test_listline.Errno.{
  LinuxError, AxError, is_a_directory, enoent, LinuxResult, AxResult, ok, err, ◌>>=◌, map_err,
}
use oscomp_test_listline.FdTable.Objects.{FlattenObjects}
use oscomp_test_listline.FdTable.{get_file_like}
use oscomp_test_listline.Path.Hardlinks.{LinkManagerInner}
use oscomp_test_listline.Path.Names.{Names, handle_file_path}

pub record Kstat : Type 0 where
  pub ino : ℕ
  pub nlink : ℕ
  pub uid : ℕ
  pub gid : ℕ
  pub mode : ℕ
  pub size : ℕ
  pub blocks : ℕ
  pub blksize : ℕ

-- `Default for Kstat`
unfoldable pub default_kstat : Kstat
default_kstat = record {
  ino = 1;
  nlink = 1;
  uid = 1;
  gid = 1;
  mode = 0;
  size = 0;
  blocks = 0;
  blksize = 4096;
}

-- The fields of `stat` that are set; the others are 0. The casts keep the bits.
pub record Stat : Type 0 where
  pub st_ino : ℕ
  pub st_nlink : ℕ
  pub st_mode : ℕ
  pub st_uid : ℕ
  pub st_gid : ℕ
  pub st_size : ℕ
  pub st_blksize : ℕ
  pub st_blocks : ℕ

unfoldable pub to_stat : Kstat → Stat
to_stat value = record {
  st_ino = value.ino;
  st_nlink = value.nlink;
  st_mode = value.mode;
  st_uid = value.uid;
  st_gid = value.gid;
  st_size = value.size;
  st_blksize = value.blksize;
  st_blocks = value.blocks;
}

pub record Statx : Type 0 where
  pub stx_blksize : ℕ
  pub stx_attributes : ℕ
  pub stx_nlink : ℕ
  pub stx_uid : ℕ
  pub stx_gid : ℕ
  pub stx_mode : ℕ
  pub stx_ino : ℕ
  pub stx_size : ℕ
  pub stx_blocks : ℕ

-- `stx_mode` has 16 bits.
unfoldable pub to_statx : Kstat → Statx
to_statx value = record {
  stx_blksize = value.blksize;
  stx_attributes = value.mode;
  stx_nlink = value.nlink;
  stx_uid = value.uid;
  stx_gid = value.gid;
  stx_mode = value.mode % 2 ^ 16;
  stx_ino = value.ino;
  stx_size = value.size;
  stx_blocks = value.blocks;
}

-- axfs's `FileAttr`: the number of the file type, and the permission bits, of which there are 9.
pub record Metadata : Type 0 where
  pub file_type : ℕ
  pub perm : ℕ
  pub size : ℕ
  pub blocks : ℕ

-- `File::stat`, for the answer of `get_attr`. The permissions lie below the type, so that `|` is a sum.
unfoldable pub file_stat : (AxError → LinuxError) → AxResult Metadata → LinuxResult Kstat
unfolding default_kstat
file_stat to_linux attr = map_err to_linux attr >>= (λ metadata. ok (record default_kstat {
  mode = metadata.file_type * 2 ^ 12 + metadata.perm;
  size = metadata.size;
  blocks = metadata.blocks;
  blksize = 512;
}))

-- `Directory::stat`: S_IFDIR and the permissions 0o755.
unfoldable pub directory_stat : LinuxResult Kstat
unfolding default_kstat
directory_stat = ok (record default_kstat { mode = 4 * 2 ^ 12 + 493 })

-- `File::open` for reading, with what `get_attr` of the file answers, and `Directory::open_dir`.
pub record FileSystem : Type 0 where
  pub open_file : Text → AxResult (AxResult Metadata)
  pub open_dir : Text → AxResult {0} Unit

abbrev pub at_empty_path : ℕ → Bool
at_empty_path flags = flags / 2 ^ 12 % 2 == 1

abbrev pub is_none_or_empty : Option Text → Bool
is_none_or_empty none = true
is_none_or_empty (some []) = true
is_none_or_empty (some (c ∷ cs)) = false

abbrev pub unwrap_or_default : Option Text → Text
unwrap_or_default none = []
unwrap_or_default (some p) = p

-- `*buf.get_as_mut()? = value.into()`: the value is computed first. The result is what is written.
module _ {A : Type 0} where
  abbrev pub assign : LinuxResult {0} Unit → LinuxResult A → LinuxResult A
  assign buf value = value >>= (λ a. buf >>= (λ u. ok a))

module _ (names : Names) (fsys : FileSystem) where
  unfoldable pub stat_at_path : Text → LinuxResult Kstat
  unfolding file_stat directory_stat
  stat_at_path path = elim (fsys.open_file path) [
    | ok attr ↦ file_stat names.to_linux attr
    | err e ↦ elim e [
      | is_a_directory ↦ map_err names.to_linux (fsys.open_dir path) >>= (λ u. directory_stat)
      | error ↦ err (names.to_linux error)
    ]
  ]

  unfoldable pub sys_stat : LinuxResult Text → LinuxResult {0} Unit → LinuxResult Stat
  unfolding stat_at_path to_stat
  sys_stat path statbuf = path >>= (λ p. assign statbuf (stat_at_path p >>= (λ k. ok (to_stat k))))

  unfoldable pub sys_lstat : LinuxResult Text → LinuxResult {0} Unit → LinuxResult Stat
  unfolding sys_stat
  sys_lstat path statbuf = sys_stat path statbuf

-- `method` is `FileLike::stat` of the objects of the table.
module _ {T A : Type 0} (names : Names) (inner : LinkManagerInner) (fsys : FileSystem)
    (fo : FlattenObjects T A) (method : A → LinuxResult Kstat) where
  unfoldable pub sys_fstat : T → ℤ → LinuxResult {0} Unit → LinuxResult Stat
  unfolding get_file_like to_stat
  sys_fstat t fd statbuf =
      assign statbuf (get_file_like fo t fd >>= (λ f. method f >>= (λ k. ok (to_stat k))))

  -- The value that `sys_fstatat` writes, before `into`. `none` is a panic in the path.
  unfoldable pub fstatat_value : T → ℤ → Option Text → ℕ → Option (LinuxResult Kstat)
  unfolding get_file_like handle_file_path stat_at_path
  fstatat_value t dirfd path flags =
      if is_none_or_empty path
      then (if at_empty_path flags
          then some (get_file_like fo t dirfd >>= method)
          else some (err enoent))
      else elim (handle_file_path names inner dirfd (unwrap_or_default path)) [
        | none ↦ none
        | some p ↦ some (p >>= stat_at_path names fsys)
      ]

  unfoldable pub sys_fstatat :
      T → ℤ → LinuxResult (Option Text) → LinuxResult {0} Unit → ℕ → Option (LinuxResult Stat)
  unfolding fstatat_value to_stat
  sys_fstatat t dirfd (err e) statbuf flags = some (err e)
  sys_fstatat t dirfd (ok path) statbuf flags = elim (fstatat_value t dirfd path flags) [
    | none ↦ none
    | some r ↦ some (assign statbuf (r >>= (λ k. ok (to_stat k))))
  ]

  -- The value that `sys_statx` writes is made by the same steps.
  unfoldable pub statx_value : T → ℤ → Option Text → ℕ → Option (LinuxResult Kstat)
  unfolding get_file_like handle_file_path stat_at_path
  statx_value t dirfd path flags =
      if is_none_or_empty path
      then (if at_empty_path flags
          then some (get_file_like fo t dirfd >>= method)
          else some (err enoent))
      else elim (handle_file_path names inner dirfd (unwrap_or_default path)) [
        | none ↦ none
        | some p ↦ some (p >>= stat_at_path names fsys)
      ]

  unfoldable pub sys_statx :
      T → ℤ → LinuxResult (Option Text) → ℕ → LinuxResult {0} Unit → Option (LinuxResult Statx)
  unfolding statx_value to_statx
  sys_statx t dirfd (err e) flags statxbuf = some (err e)
  sys_statx t dirfd (ok path) flags statxbuf = elim (statx_value t dirfd path flags) [
    | none ↦ none
    | some r ↦ some (assign statxbuf (r >>= (λ k. ok (to_statx k))))
  ]
