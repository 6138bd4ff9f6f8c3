-- ===== src/Stat/Tests.antt =====
-- A directory of a file "/a" of 10 bytes, with the table of the standard descriptors.
use oscomp_test_listline.Prelude.{
  ℕ, ◌%◌, ◌^◌, ◌≡◌, ◌⊎◌, refl, ◌++◌, Option, none, some, if◌then◌else◌, ◌==◌, codes, text_eq,
  starts_with,
}
use oscomp_test_listline.Prelude.Int.{pos, negsuc}
use oscomp_test_listline.Errno.{
  LinuxError, enoent, ebadf, not_found, is_a_directory, LinuxResult, ok, err,
}
use oscomp_test_listline.FdTable.Example.{Table, tables}
use oscomp_test_listline.Path.Hardlinks.{new_manager}
use oscomp_test_listline.Path.Names.{Names, handle_file_path}
use oscomp_test_listline.Stat.{
  Kstat, Stat, Statx, directory_stat, FileSystem, sys_stat, sys_fstat, sys_fstatat, sys_statx,
}
use oscomp_test_listline.Stat.Agreement.{
  sys_statx-sys_fstatat, sys_fstatat-sys_stat, sys_fstatat-sys_fstat,
}

abbrev names : Names
names = record {
  canonicalize = λ p. if starts_with p (codes "/") then some p else some (codes "/" ++ p);
  trim = λ p. p;
  file_path = λ fd. err ebadf;
  directory_path = λ fd. ok (codes "/mnt");
  to_linux = λ e. enoent;
}

abbrev fsys : FileSystem
fsys = record {
  open_file = λ p.
      if text_eq p (codes "/a")
      then ok (ok (record { file_type = 8; perm = 420; size = 10; blocks = 1 }))
      else err is_a_directory;
  open_dir = λ p. if text_eq p (codes "/") then ok tt else err not_found;
}

abbrev stdio : Table
stdio i = if i == 0 then some 10 else none

abbrev method : ℕ → LinuxResult Kstat
method n = directory_stat

absolute_path : handle_file_path names new_manager (negsuc 99) (codes "/a") ≡ some (ok (codes "/a"))
unfolding handle_file_path new_manager
absolute_path = refl

stat_file :
    sys_stat names fsys (ok (codes "/a")) (ok tt)
    ≡ ok (record {
      st_ino = 1;
      st_nlink = 1;
      st_mode = 33188;
      st_uid = 1;
      st_gid = 1;
      st_size = 10;
      st_blksize = 512;
      st_blocks = 1;
    })
unfolding sys_stat text_eq
stat_file = refl

sys_fstatat-sys_stat_concrete :
    sys_fstatat names new_manager fsys tables method stdio
      (negsuc 99)
      (ok (some (codes "/a")))
      (ok tt)
      0
    ≡ some (sys_stat names fsys (ok (codes "/a")) (ok tt))
sys_fstatat-sys_stat_concrete =
    sys_fstatat-sys_stat names new_manager fsys tables method stdio (negsuc 99) (codes "/a") (ok tt)
      0 refl absolute_path

sys_fstatat-sys_fstat_concrete :
    sys_fstatat names new_manager fsys tables method stdio (pos 0) (ok none) (ok tt) 4096
    ≡ some (sys_fstat names new_manager fsys tables method stdio (pos 0) (ok tt))
sys_fstatat-sys_fstat_concrete =
    sys_fstatat-sys_fstat names new_manager fsys tables method stdio (pos 0) none (ok tt) 4096 refl
      refl

abbrev statx_a : Option (LinuxResult Statx)
statx_a =
    sys_statx names new_manager fsys tables method stdio (negsuc 99) (ok (some (codes "/a"))) 0
      (ok tt)

abbrev fstatat_a : Option (LinuxResult Stat)
fstatat_a =
    sys_fstatat names new_manager fsys tables method stdio (negsuc 99) (ok (some (codes "/a")))
      (ok tt) 0

sys_statx-sys_fstatat_example :
    ((statx_a ≡ none) × (fstatat_a ≡ none))
    ⊎ ((e : LinuxError) × (statx_a ≡ some (err e)) × (fstatat_a ≡ some (err e)))
    ⊎ ((s : Stat) × (x : Statx) × (statx_a ≡ some (ok x))
        × (fstatat_a ≡ some (ok s))
        × (x.stx_mode ≡ s.st_mode % 2 ^ 16)
        × (x.stx_attributes ≡ s.st_mode)
        × (x.stx_size ≡ s.st_size)
        × (x.stx_ino ≡ s.st_ino)
        × (x.stx_nlink ≡ s.st_nlink)
        × (x.stx_blocks ≡ s.st_blocks)
        × (x.stx_blksize ≡ s.st_blksize)
        × (x.stx_uid ≡ s.st_uid)
        × (x.stx_gid ≡ s.st_gid))
sys_statx-sys_fstatat_example =
    sys_statx-sys_fstatat names new_manager fsys tables method stdio (negsuc 99)
      (ok (some (codes "/a"))) (ok tt) 0
