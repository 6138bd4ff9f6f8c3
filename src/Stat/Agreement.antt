-- ===== src/Stat/Agreement.antt =====
-- The calls for metadata compared with each other.
use oscomp_test_listline.Prelude.{
  ℕ, ◌%◌, ◌^◌, ◌≡◌, ◌⊎◌, refl, ap, inl, inr, Option, none, some, true, false, Text, Option-cases,
}
use oscomp_test_listline.Prelude.Int.{ℤ}
use oscomp_test_listline.Errno.{LinuxError, LinuxResult, ok, err, ◌>>=◌, Result-cases}
use oscomp_test_listline.FdTable.Objects.{FlattenObjects}
use oscomp_test_listline.FdTable.{get_file_like}
use oscomp_test_listline.Path.Hardlinks.{LinkManagerInner}
use oscomp_test_listline.Path.Names.{Names, handle_file_path}
use oscomp_test_listline.Stat.{
  Kstat, Stat, Statx, to_stat, to_statx, FileSystem, at_empty_path, is_none_or_empty, assign,
  sys_stat, sys_fstat, fstatat_value, sys_fstatat, statx_value, sys_statx,
}

module _ {A B C : Type 0} where
  bind_assoc :
      (r : LinuxResult A) (f : A → LinuxResult B) (g : B → LinuxResult C)
      → ((r >>= f) >>= g) ≡ (r >>= (λ a. f a >>= g))
  bind_assoc (ok a) f g = refl
  bind_assoc (err e) f g = refl

module _ {T A : Type 0} (names : Names) (inner : LinkManagerInner) (fsys : FileSystem)
    (fo : FlattenObjects T A) (method : A → LinuxResult Kstat) where
  same_value :
      (t : T) (dirfd : ℤ) (path : Option Text) (flags : ℕ)
      → statx_value names inner fsys fo method t dirfd path flags
        ≡ fstatat_value names inner fsys fo method t dirfd path flags
  unfolding statx_value fstatat_value
  same_value t dirfd path flags = refl

  -- `statx` and `fstatat`, asked for the same file with pointers that are equally good, do the same: both
  -- fail with one error, both panic, or both report the same metadata, of which `statx` gives the mode in 16
  -- bits and, again, as the attributes.
  pub sys_statx-sys_fstatat :
      (t : T) (dirfd : ℤ) (path : LinuxResult (Option Text)) (buf : LinuxResult {0} Unit)
      (flags : ℕ)
      → ((sys_statx names inner fsys fo method t dirfd path flags buf ≡ none)
          × (sys_fstatat names inner fsys fo method t dirfd path buf flags ≡ none))
        ⊎ ((e : LinuxError) × (sys_statx names inner fsys fo method t dirfd path flags buf
              ≡ some (err e))
            × (sys_fstatat names inner fsys fo method t dirfd path buf flags ≡ some (err e)))
        ⊎ ((s : Stat) × (x : Statx) × (sys_statx names inner fsys fo method t dirfd path flags buf
              ≡ some (ok x))
            × (sys_fstatat names inner fsys fo method t dirfd path buf flags ≡ some (ok s))
            × (x.stx_mode ≡ s.st_mode % 2 ^ 16)
            × (x.stx_attributes ≡ s.st_mode)
            × (x.stx_size ≡ s.st_size)
            × (x.stx_ino ≡ s.st_ino)
            × (x.stx_nlink ≡ s.st_nlink)
            × (x.stx_blocks ≡ s.st_blocks)
            × (x.stx_blksize ≡ s.st_blksize)
            × (x.stx_uid ≡ s.st_uid)
            × (x.stx_gid ≡ s.st_gid))
  unfolding sys_statx sys_fstatat
  sys_statx-sys_fstatat t dirfd (err e) buf flags = inr (inl (e, refl, refl))
  sys_statx-sys_fstatat t dirfd (ok path) buf flags =
      let same = same_value t dirfd path flags in
      elim (Option-cases (fstatat_value names inner fsys fo method t dirfd path flags)) [
        | inl n ↦ inl (rw (sys_statx, same, n), rw (sys_fstatat, n))
        | inr (r, n) ↦ elim (Result-cases r) [
          | inr (e, q) ↦ inr (inl (e, rw (sys_statx, same, n, q), rw (sys_fstatat, n, q)))
          | inl (k, q) ↦ elim (Result-cases buf) [
            | inr (e, b) ↦ inr (inl (e, rw (sys_statx, same, n, q, b), rw (sys_fstatat, n, q, b)))
            | inl (u, b) ↦ inr (
                inr (
                  to_stat k,
                  to_statx k,
                  rw (sys_statx, same, n, q, b),
                  rw (sys_fstatat, n, q, b),
                  refl,
                  refl,
                  refl,
                  refl,
                  refl,
                  refl,
                  refl,
                  refl,
                  refl,
                ))
          ]
        ]
      ]

  -- `fstatat` agrees with `stat` on a path that is not empty and that `handle_file_path` leaves as it is:
  -- the directory and the flags make no difference.
  pub sys_fstatat-sys_stat :
      (t : T) (dirfd : ℤ) (path : Text) (buf : LinuxResult {0} Unit) (flags : ℕ)
      → is_none_or_empty (some path) ≡ false
      → handle_file_path names inner dirfd path ≡ some (ok path)
      → sys_fstatat names inner fsys fo method t dirfd (ok (some path)) buf flags
        ≡ some (sys_stat names fsys (ok path) buf)
  unfolding sys_fstatat fstatat_value sys_stat
  sys_fstatat-sys_stat t dirfd path buf flags given h = rw (sys_fstatat, fstatat_value, given, h)

  -- `fstatat` with AT_EMPTY_PATH and no path, or the empty one, is `fstat` of the directory.
  pub sys_fstatat-sys_fstat :
      (t : T) (dirfd : ℤ) (path : Option Text) (buf : LinuxResult {0} Unit) (flags : ℕ)
      → is_none_or_empty path ≡ true
      → at_empty_path flags ≡ true
      → sys_fstatat names inner fsys fo method t dirfd (ok path) buf flags
        ≡ some (sys_fstat names inner fsys fo method t dirfd buf)
  unfolding sys_fstatat fstatat_value sys_fstat
  sys_fstatat-sys_fstat t dirfd path buf flags empty allowed =
      rw (sys_fstatat, fstatat_value, empty, allowed)
        (ap (λ r. some (assign buf r))
          (bind_assoc (get_file_like fo t dirfd) method (λ k. ok (to_stat k))))
