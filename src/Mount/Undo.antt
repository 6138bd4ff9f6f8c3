-- ===== src/Mount/Undo.antt =====
-- What the two system calls do to the list of mounts.
use oscomp_test_listline.Prelude.{
  ◌≡◌, ◌≢◌, ◌⊎◌, sym, subst, ap, ◌∙◌, refl, inl, inr, List, [], ◌∷◌, ◌++◌, Option, some, Bool, true,
  false, Text, codes, text_eq, length-append, Option-cases, Bool-cases, arith,
}
use oscomp_test_listline.Prelude.Int.{ℤ, pos}
use oscomp_test_listline.Errno.{Result-cases, LinuxResult, ok, err}
use oscomp_test_listline.Mount.{
  MountedFs, check_mounted, retain_others, umount_fat_fs, mount_fat_fs, sys_mount, sys_umount2,
  is_zero,
}
use oscomp_test_listline.Mount.Layers.{
  IsLayered, IsLayered-append, IsLayered-retain, retain_others_new, check_mounted_below,
}

module _ (exists : Text → Bool) (handle : Text → Option (LinuxResult Text)) where
  -- What a mount that succeeds has found, and its effect.
  abbrev Mounts : List MountedFs → LinuxResult Text → List MountedFs → Type 0
  Mounts mounted target mounted' =
      (text device path : Text) × (target ≡ ok text)
      × (handle text ≡ some (ok path))
      × (exists path ≡ true)
      × (check_mounted mounted path ≡ false)
      × (mounted' ≡ mounted ++ (record { device = device; mnt_dir = path } ∷ []))

  abbrev Refused : Option (LinuxResult ℤ) × List MountedFs → List MountedFs → Type 0
  Refused r mounted = ((z : ℤ) → r.0 ≢ some (ok z)) × (r.1 ≡ mounted)

  abbrev Outcome :
      Option (LinuxResult ℤ) × List MountedFs → List MountedFs → LinuxResult Text → Type 0
  Outcome r mounted target =
      ((r.0 ≡ some (ok (pos 0))) × Mounts mounted target r.1) ⊎ Refused r mounted

  -- The tests after both paths are known.
  decide :
      (mounted : List MountedFs) (source text fs_type device path : Text) (flags : ℤ)
      → handle source ≡ some (ok device)
      → handle text ≡ some (ok path)
      → Outcome
          (sys_mount exists handle mounted (ok source) (ok text) (ok fs_type) flags)
          mounted
          (ok text)
  unfolding sys_mount mount_fat_fs
  decide mounted source text fs_type device path flags a b =
      elim (Bool-cases (text_eq fs_type (codes "vfat"))) [
        | inr v ↦ inr (λ z h. absurd (ground arith), ground arith)
        | inl v ↦ elim (Bool-cases (exists path)) [
          | inr e ↦ inr (λ z h. absurd (ground arith), ground arith)
          | inl e ↦ elim (Bool-cases (check_mounted mounted path)) [
            | inl c ↦ inr (λ z h. absurd (ground arith), ground arith)
            | inr c ↦ inl (ground arith, (text, device, path, refl, b, e, c, ground arith))
          ]
        ]
      ]

  sys_mount_cases :
      (mounted : List MountedFs) (source target fs_type : LinuxResult Text) (flags : ℤ)
      → Outcome (sys_mount exists handle mounted source target fs_type flags) mounted target
  unfolding sys_mount
  sys_mount_cases mounted (err e) target fs_type flags = inr (λ z h. absurd cc, refl)
  sys_mount_cases mounted (ok source) (err e) fs_type flags = inr (λ z h. absurd cc, refl)
  sys_mount_cases mounted (ok source) (ok target) (err e) flags = inr (λ z h. absurd cc, refl)
  sys_mount_cases mounted (ok source) (ok target) (ok fs_type) flags =
      elim (Option-cases (handle source)) [
        | inl n ↦ inr (λ z h. absurd (ground arith), ground arith)
        | inr (r, n) ↦ elim (Result-cases r) [
          | inr (e, x) ↦ inr (λ z h. absurd (ground arith), ground arith)
          | inl (device, x) ↦ elim (Option-cases (handle target)) [
            | inl n' ↦ inr (λ z h. absurd (ground arith), ground arith)
            | inr (r', n') ↦ elim (Result-cases r') [
              | inr (e, x') ↦ inr (λ z h. absurd (ground arith), ground arith)
              | inl (path, x') ↦
                  decide mounted source target fs_type device path flags (ground arith)
                    (ground arith)
            ]
          ]
        ]
      ]

  -- If mounting succeeds, then unmounting the same target with no flags succeeds and gives the list of mounts
  -- from before.
  pub sys_umount2-sys_mount :
      (mounted mounted' : List MountedFs) (source target fs_type : LinuxResult Text) (flags z : ℤ)
      → sys_mount exists handle mounted source target fs_type flags ≡ (some (ok z), mounted')
      → sys_umount2 exists handle mounted' target (pos 0) ≡ (some (ok (pos 0)), mounted)
  unfolding sys_umount2 umount_fat_fs
  sys_umount2-sys_mount mounted mounted' source target fs_type flags z h =
      elim (sys_mount_cases mounted source target fs_type flags) [
        | inr (fails, s) ↦ absurd (fails z (ap (λ r. r.0) h))
        | inl (y, (text, device, path, t, p, e, c, l)) ↦
            let new : MountedFs = record { device = device; mnt_dir = path } in
            let after : mounted' ≡ mounted ++ (new ∷ []) = sym (ap (λ r. r.1) h) ∙ l in
            let back = retain_others_new mounted device path c in
            let longer = length-append mounted (new ∷ []) in
            rw t (rw after (ground (arith, p, e, back, longer)))
      ]

  -- A mount keeps the order of layers: no mount directory begins with that of an earlier mount.
  pub sys_mount-IsLayered :
      (mounted : List MountedFs) (source target fs_type : LinuxResult Text) (flags : ℤ)
      → IsLayered mounted
      → IsLayered ((sys_mount exists handle mounted source target fs_type flags).1)
  sys_mount-IsLayered mounted source target fs_type flags i =
      elim (sys_mount_cases mounted source target fs_type flags) [
        | inr (fails, s) ↦ subst IsLayered (sym s) i
        | inl (y, (text, device, path, t, p, e, c, l)) ↦
            subst IsLayered (sym l)
              (IsLayered-append mounted (record { device = device; mnt_dir = path }) i c)
      ]

  -- A target whose path begins, as a text, with the directory of a mount cannot be mounted, although the
  -- path may be that of a sibling of the directory, such as "/mnt2" beside "/mnt".
  pub sys_mount_refuses_siblings :
      (before after : List MountedFs) (m : MountedFs) (source fs_type : LinuxResult Text)
      (text rest : Text) (flags z : ℤ)
      → handle text ≡ some (ok (m.mnt_dir ++ rest))
      → (sys_mount exists handle (before ++ (m ∷ after)) source (ok text) fs_type flags).0
        ≢ some (ok z)
  sys_mount_refuses_siblings before after m source fs_type text rest flags z h =
      elim (sys_mount_cases (before ++ (m ∷ after)) source (ok text) fs_type flags) [
        | inr (fails, s) ↦ fails z
        | inl (y, (text', device, path, t, p, e, c, l)) ↦ λ w.
            let below = check_mounted_below before after m rest in
            let same : path ≡ m.mnt_dir ++ rest = ground arith in
            let found : check_mounted (before ++ (m ∷ after)) path ≡ true = rw same below in
            absurd (ground arith)
      ]

  sys_umount2_list :
      (mounted : List MountedFs) (target : LinuxResult Text) (flags : ℤ)
      → ((sys_umount2 exists handle mounted target flags).1 ≡ mounted)
        ⊎ ((path : Text) × ((sys_umount2 exists handle mounted target flags).1
              ≡ retain_others path mounted))
  unfolding sys_umount2 umount_fat_fs
  sys_umount2_list mounted (err e) flags = inl refl
  sys_umount2_list mounted (ok target) flags = elim (Option-cases (handle target)) [
    | inl n ↦ inl (ground arith)
    | inr (r, n) ↦ elim (Result-cases r) [
      | inr (e, x) ↦ inl (ground arith)
      | inl (path, x) ↦ elim (Bool-cases (is_zero exists handle flags)) [
        | inr f ↦ inl (ground arith)
        | inl f ↦ elim (Bool-cases (exists path)) [
          | inr e ↦ inl (ground arith)
          | inl e ↦ inr (path, ground arith)
        ]
      ]
    ]
  ]

  -- An unmount keeps the order of layers: no mount directory begins with that of an earlier mount.
  pub sys_umount2-IsLayered :
      (mounted : List MountedFs) (target : LinuxResult Text) (flags : ℤ)
      → IsLayered mounted
      → IsLayered ((sys_umount2 exists handle mounted target flags).1)
  sys_umount2-IsLayered mounted target flags i = elim (sys_umount2_list mounted target flags) [
    | inl e ↦ subst IsLayered (sym e) i
    | inr (path, e) ↦ subst IsLayered (sym e) (IsLayered-retain path mounted i)
  ]
