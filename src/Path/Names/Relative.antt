-- ===== src/Path/Names/Relative.antt =====
-- The paths that `handle_file_path` makes of a relative path and a descriptor.
use oscomp_test_listline.Prelude.{
  ◌≡◌, ◌≢◌, ◌⊎◌, ◌∙◌, refl, inl, inr, [], ◌∷◌, ◌++◌, some, true, false, Text, codes, starts_with,
  ends_with, text_eq, Bool-cases,
}
use mathlib.Core.List.{reverse-append}
use oscomp_test_listline.Prelude.Int.{ℤ}
use oscomp_test_listline.Errno.{ok}
use oscomp_test_listline.Path.Hardlinks.{LinkManagerInner, is_dir}
use oscomp_test_listline.Path.Names.{Names, new_path, join, linux, is_at_fdcwd, handle_file_path}

starts_with-append :
    (t u : Text) → starts_with t (codes "/") ≡ true → starts_with (t ++ u) (codes "/") ≡ true
unfolding starts_with
starts_with-append [] u h = cc
starts_with-append (x ∷ t) u h = h

is_dir-append : (t : Text) → is_dir (t ++ codes "/") ≡ true
unfolding is_dir ends_with starts_with
is_dir-append t = rw (is_dir, ends_with, reverse-append t (codes "/"))

text_eq-empty : (t : Text) → t ≢ [] → text_eq t [] ≡ false
unfolding text_eq
text_eq-empty [] h = absurd (h refl)
text_eq-empty (c ∷ t) h = refl

module _ (names : Names) (inner : LinkManagerInner) where
  -- The file path of the directory that a descriptor names: the current one for AT_FDCWD.
  abbrev pub IsBase : ℤ → Text → Type 0
  IsBase dirfd base =
      ((is_at_fdcwd names inner dirfd ≡ true) × (new_path names inner [] ≡ some (ok base)))
      ⊎ ((is_at_fdcwd names inner dirfd ≡ false)
          × ((path : Text) × (names.directory_path dirfd ≡ ok path)
              × (new_path names inner path ≡ some (ok base))))

  -- A path that is relative and not empty, with the descriptor of a directory whose path is absolute (the
  -- current one for AT_FDCWD), gives what an absolute path gives with any descriptor: the path of the
  -- directory, with a slash put at its end if it has none there, followed by the relative path.
  pub handle_file_path_relative :
      (dirfd other : ℤ) (path base : Text)
      → starts_with path (codes "/") ≡ false
      → path ≢ []
      → IsBase dirfd base
      → starts_with base (codes "/") ≡ true
      → (dir : Text) × ((dir ≡ base) ⊎ ((is_dir base ≡ false) × (dir ≡ base ++ codes "/")))
        × (is_dir dir ≡ true)
        × (handle_file_path names inner dirfd path
            ≡ handle_file_path names inner other (dir ++ path))
  unfolding handle_file_path join
  handle_file_path_relative dirfd other path base r n b a =
      let nonempty = text_eq-empty path n in
      let joined : handle_file_path names inner dirfd path
          ≡ linux names inner (join names inner base path) =
        elim b [
          | inl (c, e) ↦ rw (handle_file_path, r, nonempty, c, e)
          | inr (c, (p, d, e)) ↦ rw (handle_file_path, r, nonempty, c, d, e)
        ] in
      elim (Bool-cases (is_dir base)) [
        | inl d ↦
            let lead = starts_with-append base path a in
            (base, inl refl, d, joined ∙ rw (join, handle_file_path, d, lead))
        | inr d ↦
            let lead =
              starts_with-append (base ++ codes "/") path (starts_with-append base (codes "/") a) in
            (
              base ++ codes "/",
              inr (d, refl),
              is_dir-append base,
              joined ∙ rw (join, handle_file_path, d, lead),
            )
      ]
