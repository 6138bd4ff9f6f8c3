-- ===== src/Mount/Layers.antt =====
-- The order of the mounts in the list, and how the list changes.
use oscomp_test_listline.Prelude.{
  ◌≡◌, subst, refl, inl, inr, List, [], ◌∷◌, ◌++◌, true, false, Text, text_eq, text_eq_refl,
  text_eq_sound, starts_with, Bool-cases, arith,
}
use oscomp_test_listline.Mount.{MountedFs, check_mounted, retain_others}

starts_with-append : (t u : Text) → starts_with (t ++ u) t ≡ true
unfolding starts_with
starts_with-append [] u = refl
starts_with-append (x ∷ t) u = ground (arith, starts_with-append t u)

starts_with_refl : (t : Text) → starts_with t t ≡ true
unfolding starts_with
starts_with_refl [] = refl
starts_with_refl (x ∷ t) = ground (arith, starts_with_refl t)

retain_others_unmounted :
    (mounted : List MountedFs) (path : Text)
    → check_mounted mounted path ≡ false
    → retain_others path mounted ≡ mounted
unfolding check_mounted retain_others
retain_others_unmounted [] path h = refl
retain_others_unmounted (m ∷ mounted) path h = elim (Bool-cases (text_eq m.mnt_dir path)) [
  | inl e ↦
      let same = text_eq_sound m.mnt_dir path e in
      let found : starts_with path m.mnt_dir ≡ true = rw same (starts_with_refl path) in
      absurd (ground arith)
  | inr e ↦ let rest = retain_others_unmounted mounted path (ground arith) in ground arith
]

pub retain_others_new :
    (mounted : List MountedFs) (device path : Text)
    → check_mounted mounted path ≡ false
    → retain_others path (mounted ++ (record { device = device; mnt_dir = path } ∷ [])) ≡ mounted
unfolding check_mounted retain_others
retain_others_new [] device path h = ground (arith, text_eq_refl path)
retain_others_new (m ∷ mounted) device path h = elim (Bool-cases (text_eq m.mnt_dir path)) [
  | inl e ↦
      let same = text_eq_sound m.mnt_dir path e in
      let found : starts_with path m.mnt_dir ≡ true = rw same (starts_with_refl path) in
      absurd (ground arith)
  | inr e ↦ let rest = retain_others_new mounted device path (ground arith) in ground arith
]

-- No text of the list begins with `dir`.
abbrev Outside : Text → List MountedFs → Type 0
Outside dir [] = Unit
Outside dir (m ∷ mounted) = (starts_with m.mnt_dir dir ≡ false) × Outside dir mounted

-- No mount directory begins with that of an earlier mount.
abbrev pub IsLayered : List MountedFs → Type 0
IsLayered [] = Unit
IsLayered (m ∷ mounted) = Outside m.mnt_dir mounted × IsLayered mounted

Outside-append :
    (dir : Text) (mounted : List MountedFs) (m : MountedFs)
    → Outside dir mounted
    → starts_with m.mnt_dir dir ≡ false
    → Outside dir (mounted ++ (m ∷ []))
Outside-append dir [] m o h = (h, tt)
Outside-append dir (x ∷ mounted) m o h = (o.0, Outside-append dir mounted m o.1 h)

pub IsLayered-append :
    (mounted : List MountedFs) (m : MountedFs)
    → IsLayered mounted
    → check_mounted mounted m.mnt_dir ≡ false
    → IsLayered (mounted ++ (m ∷ []))
unfolding check_mounted
IsLayered-append [] m l h = (tt, tt)
IsLayered-append (x ∷ mounted) m l h = (
  Outside-append x.mnt_dir mounted m l.0 (ground arith),
  IsLayered-append mounted m l.1 (ground arith),
)

Outside-retain :
    (dir path : Text) (mounted : List MountedFs)
    → Outside dir mounted
    → Outside dir (retain_others path mounted)
unfolding retain_others
Outside-retain dir path [] o = tt
Outside-retain dir path (m ∷ mounted) o =
    let rest = Outside-retain dir path mounted o.1 in
    elim (Bool-cases (text_eq m.mnt_dir path)) [
      | inl e ↦
          let same : retain_others path mounted ≡ retain_others path (m ∷ mounted) = ground arith in
          subst (Outside dir) same rest
      | inr e ↦
          let same : (m ∷ retain_others path mounted) ≡ retain_others path (m ∷ mounted) =
            ground arith in
          subst (Outside dir) same (o.0, rest)
    ]

pub IsLayered-retain :
    (path : Text) (mounted : List MountedFs)
    → IsLayered mounted
    → IsLayered (retain_others path mounted)
unfolding retain_others
IsLayered-retain path [] l = tt
IsLayered-retain path (m ∷ mounted) l =
    let rest = IsLayered-retain path mounted l.1 in
    elim (Bool-cases (text_eq m.mnt_dir path)) [
      | inl e ↦
          let same : retain_others path mounted ≡ retain_others path (m ∷ mounted) = ground arith in
          subst IsLayered same rest
      | inr e ↦
          let same : (m ∷ retain_others path mounted) ≡ retain_others path (m ∷ mounted) =
            ground arith in
          subst IsLayered same (Outside-retain m.mnt_dir path mounted l.0, rest)
    ]

pub check_mounted_below :
    (before after : List MountedFs) (m : MountedFs) (rest : Text)
    → check_mounted (before ++ (m ∷ after)) (m.mnt_dir ++ rest) ≡ true
unfolding check_mounted
check_mounted_below [] after m rest = ground (arith, starts_with-append m.mnt_dir rest)
check_mounted_below (x ∷ before) after m rest =
    ground (arith, check_mounted_below before after m rest)
