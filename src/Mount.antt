-- ===== src/Mount.antt =====
-- api/src/imp/fs/mount.rs: the list of the mounted file systems. Mounting records a pair of paths.
pub mod Layers
pub mod Undo
mod Tests
use oscomp_test_listline.Prelude.{
  ℕ, List, [], ◌∷◌, ◌++◌, Option, none, some, Bool, true, false, not, ◌||◌, ltb, ◌==◌,
  if◌then◌else◌, Text, codes, text_eq, starts_with, length,
}
use oscomp_test_listline.Prelude.Int.{ℤ, pos, negsuc}
use oscomp_test_listline.Errno.{LinuxError, eperm, LinuxResult, ok, err}

pub record MountedFs : Type 0 where
  pub device : Text
  pub mnt_dir : Text

unfoldable pub check_mounted : List MountedFs → Text → Bool
unfolding starts_with
check_mounted [] path = false
check_mounted (m ∷ mounted) path = starts_with path m.mnt_dir || check_mounted mounted path

-- `retain`
unfoldable pub retain_others : Text → List MountedFs → List MountedFs
unfolding text_eq
retain_others path [] = []
retain_others path (m ∷ mounted) =
    let rest = retain_others path mounted in if text_eq m.mnt_dir path then rest else m ∷ rest

unfoldable pub umount_fat_fs : List MountedFs → Text → Bool × List MountedFs
unfolding retain_others
umount_fat_fs mounted mount_path =
    let rest = retain_others mount_path mounted in (ltb (length rest) (length mounted), rest)

-- `exists` is axfs's `absolute_path_exists`, and `handle` is `handle_file_path` at `AT_FDCWD`, where a
-- panic is `none`. The texts are those that `get_as_str` has read from user space.
module _ (exists : Text → Bool) (handle : Text → Option (LinuxResult Text)) where
  unfoldable pub mount_fat_fs : List MountedFs → Text → Text → Bool × List MountedFs
  mount_fat_fs mounted device_path mount_path =
      if exists mount_path
      then (true, mounted ++ (record { device = device_path; mnt_dir = mount_path } ∷ []))
      else (false, mounted)

  unfoldable pub sys_mount :
      List MountedFs
      → LinuxResult Text
      → LinuxResult Text
      → LinuxResult Text
      → ℤ
      → Option (LinuxResult ℤ) × List MountedFs
  unfolding check_mounted mount_fat_fs text_eq
  sys_mount mounted (err e) target fs_type flags = (some (err e), mounted)
  sys_mount mounted (ok source) (err e) fs_type flags = (some (err e), mounted)
  sys_mount mounted (ok source) (ok target) (err e) flags = (some (err e), mounted)
  sys_mount mounted (ok source) (ok target) (ok fs_type) flags = elim (handle source) [
    | none ↦ (none, mounted)
    | some (err e) ↦ (some (err e), mounted)
    | some (ok device_path) ↦ elim (handle target) [
      | none ↦ (none, mounted)
      | some (err e) ↦ (some (err e), mounted)
      | some (ok mount_path) ↦
          if not (text_eq fs_type (codes "vfat"))
          then (some (err eperm), mounted)
          else if not (exists mount_path)
          then (some (err eperm), mounted)
          else if check_mounted mounted mount_path
          then (some (err eperm), mounted)
          else (let (done, mounted') = mount_fat_fs mounted device_path mount_path in
              if done then (some (ok (pos 0)), mounted') else (some (err eperm), mounted'))
    ]
  ]

  abbrev pub is_zero : ℤ → Bool
  is_zero (pos n) = n == 0
  is_zero (negsuc n) = false

  unfoldable pub sys_umount2 :
      List MountedFs → LinuxResult Text → ℤ → Option (LinuxResult ℤ) × List MountedFs
  unfolding umount_fat_fs
  sys_umount2 mounted (err e) flags = (some (err e), mounted)
  sys_umount2 mounted (ok target) flags = elim (handle target) [
    | none ↦ (none, mounted)
    | some (err e) ↦ (some (err e), mounted)
    | some (ok mount_path) ↦
        if not (is_zero flags)
        then (some (err eperm), mounted)
        else if not (exists mount_path)
        then (some (err eperm), mounted)
        else (let (done, mounted') = umount_fat_fs mounted mount_path in
            if done then (some (ok (pos 0)), mounted') else (some (err eperm), mounted'))
  ]
