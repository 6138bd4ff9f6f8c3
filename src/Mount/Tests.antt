-- ===== src/Mount/Tests.antt =====
-- Two directories, "/mnt" and "/mnt2", where every path exists.
use oscomp_test_listline.Prelude.{◌≡◌, ◌≢◌, refl, [], ◌∷◌, Option, some, Bool, true, Text, codes}
use oscomp_test_listline.Prelude.Int.{pos}
use oscomp_test_listline.Errno.{LinuxResult, eperm, ok, err}
use oscomp_test_listline.Mount.{MountedFs, sys_mount, sys_umount2}
use oscomp_test_listline.Mount.Layers.{IsLayered}
use oscomp_test_listline.Mount.Undo.{
  sys_umount2-sys_mount, sys_mount-IsLayered, sys_mount_refuses_siblings, sys_umount2-IsLayered,
}

abbrev exists : Text → Bool
exists path = true

abbrev handle : Text → Option (LinuxResult Text)
handle path = some (ok path)

abbrev mnt : MountedFs
mnt = record { device = codes "/dev/a"; mnt_dir = codes "/mnt" }

mount_one :
    sys_mount exists handle [] (ok (codes "/dev/a")) (ok (codes "/mnt")) (ok (codes "vfat")) (pos 0)
    ≡ (some (ok (pos 0)), mnt ∷ [])
unfolding sys_mount
mount_one = refl

mount_sibling :
    sys_mount exists handle
      (mnt ∷ [])
      (ok (codes "/dev/b"))
      (ok (codes "/mnt2"))
      (ok (codes "vfat"))
      (pos 0)
    ≡ (some (err eperm), mnt ∷ [])
unfolding sys_mount
mount_sibling = refl

sys_umount2-sys_mount_example :
    sys_umount2 exists handle (mnt ∷ []) (ok (codes "/mnt")) (pos 0) ≡ (some (ok (pos 0)), [])
sys_umount2-sys_mount_example =
    sys_umount2-sys_mount exists handle [] (mnt ∷ []) (ok (codes "/dev/a")) (ok (codes "/mnt"))
      (ok (codes "vfat")) (pos 0) (pos 0) mount_one

sys_mount-IsLayered_concrete : IsLayered (
    (sys_mount exists handle
      (mnt ∷ [])
      (ok (codes "/dev/b"))
      (ok (codes "/a"))
      (ok (codes "vfat"))
      (pos 0)).1)
sys_mount-IsLayered_concrete =
    sys_mount-IsLayered exists handle (mnt ∷ []) (ok (codes "/dev/b")) (ok (codes "/a"))
      (ok (codes "vfat")) (pos 0) (tt, tt)

sys_mount_refuses_siblings_concrete :
    (sys_mount exists handle
      (mnt ∷ [])
      (ok (codes "/dev/b"))
      (ok (codes "/mnt2"))
      (ok (codes "vfat"))
      (pos 0)).0
    ≢ some (ok (pos 0))
sys_mount_refuses_siblings_concrete =
    sys_mount_refuses_siblings exists handle [] [] mnt (ok (codes "/dev/b")) (ok (codes "vfat"))
      (codes "/mnt2") (codes "2") (pos 0) (pos 0) refl

sys_umount2-IsLayered_concrete :
    IsLayered ((sys_umount2 exists handle (mnt ∷ []) (ok (codes "/mnt")) (pos 0)).1)
sys_umount2-IsLayered_concrete =
    sys_umount2-IsLayered exists handle (mnt ∷ []) (ok (codes "/mnt")) (pos 0) (tt, tt)
