-- ===== src/Open/Opened.antt =====
-- What `openat` does to the table of descriptors.
use oscomp_test_listline.Prelude.{
  ℕ, ◌<◌, ◌≡◌, ◌⊎◌, refl, sym, subst, ap, ◌∙◌, inl, inr, Option, none, some, false, ◌==◌,
  if◌then◌else◌, Text, Option-cases, Bool-cases, arith,
}
use oscomp_test_listline.Prelude.Int.{ℤ, pos}
use oscomp_test_listline.Errno.{
  LinuxError, AxError, already_exists, invalid_input, invalid_data, not_found, is_a_directory,
  other_ax, emfile, LinuxResult, ok, err, Result-cases,
}
use oscomp_test_listline.FdTable.Objects.{FlattenObjects, ax_file_limit}
use oscomp_test_listline.FdTable.{add_file_like}
use oscomp_test_listline.Path.Hardlinks.{LinkManagerInner}
use oscomp_test_listline.Path.Names.{Names, handle_file_path}
use oscomp_test_listline.Open.{
  OpenOptions, flags_to_options, FileSystem, dir_of, open_directory, open_in, sys_openat,
}

module _ {T A F Dir : Type 0} (names : Names) (inner : LinkManagerInner) (fo : FlattenObjects T A)
    (fsys : FileSystem A F Dir) where
  -- The object is a directory, or, if the options do not ask for one, a file, with the path.
  abbrev pub IsOpened : OpenOptions → Text → A → Type 0
  IsOpened opts real_path a =
      ((d : Dir) × (a ≡ fsys.directory d real_path))
      ⊎ ((f : F) × (opts.directory ≡ false) × (a ≡ fsys.file f real_path))

  -- The call failed and left the table, or it has added the object.
  abbrev pub Added : OpenOptions → Text → T → LinuxResult ℤ × T → Type 0
  Added opts real_path t r =
      ((e : LinuxError) × (r ≡ (err e, t)))
      ⊎ ((id : ℕ) × (t' : T) × (a : A) × (r ≡ (ok (pos id), t'))
          × (id < ax_file_limit)
          × (fo.get t id ≡ none)
          × ((j : ℕ) → fo.get t' j ≡ (if id == j then some a else fo.get t j))
          × IsOpened opts real_path a)

  add_file_like_lem :
      (opts : OpenOptions) (real_path : Text) (t : T) (a : A)
      → IsOpened opts real_path a
      → Added opts real_path t (add_file_like fo t a)
  unfolding add_file_like
  add_file_like_lem opts real_path t a o = elim (Option-cases (fo.add t a)) [
    | inl n ↦ inl (emfile, ground (arith, n))
    | inr ((id, t'), n) ↦
        let (below, free) = fo.add_fresh t a id t' n in
        inr (id, t', a, ground (arith, n), below, free, λ j. fo.get-add t a id t' j n, o)
  ]

  open_directory_lem :
      (t : T) (dir : Option Dir) (path real_path : Text) (opts : OpenOptions)
      → Added opts real_path t (open_directory names inner fo fsys t dir path real_path opts)
  unfolding open_directory
  open_directory_lem t dir path real_path opts = elim (Result-cases (fsys.open_dir dir path opts)) [
    | inr (e, p) ↦ rw (open_directory, p) (inl (names.to_linux e, refl))
    | inl (d, p) ↦
        rw (open_directory, p)
          (add_file_like_lem opts real_path t (fsys.directory d real_path) (inl (d, refl)))
  ]

  open_in_fails :
      (t : T) (dir : Option Dir) (path real_path : Text) (opts : OpenOptions) (e : AxError)
      → opts.directory ≡ false
      → fsys.open_file dir path opts ≡ err e
      → Added opts real_path t (open_in names inner fo fsys t dir path real_path opts)
  unfolding open_in
  open_in_fails t dir path real_path opts is_a_directory b p =
      let route : open_in names inner fo fsys t dir path real_path opts
          ≡ open_directory names inner fo fsys t dir path real_path opts =
        ground (arith, b, p) in
      subst (Added opts real_path t) (sym route) (open_directory_lem t dir path real_path opts)
  open_in_fails t dir path real_path opts already_exists b p =
      rw (open_in, b, p) (inl (names.to_linux already_exists, refl))
  open_in_fails t dir path real_path opts invalid_input b p =
      rw (open_in, b, p) (inl (names.to_linux invalid_input, refl))
  open_in_fails t dir path real_path opts invalid_data b p =
      rw (open_in, b, p) (inl (names.to_linux invalid_data, refl))
  open_in_fails t dir path real_path opts not_found b p =
      rw (open_in, b, p) (inl (names.to_linux not_found, refl))
  open_in_fails t dir path real_path opts (other_ax n) b p =
      rw (open_in, b, p) (inl (names.to_linux (other_ax n), refl))

  open_in_lem :
      (t : T) (dir : Option Dir) (path real_path : Text) (opts : OpenOptions)
      → Added opts real_path t (open_in names inner fo fsys t dir path real_path opts)
  unfolding open_in
  open_in_lem t dir path real_path opts = elim (Bool-cases opts.directory) [
    | inl b ↦
        let route : open_in names inner fo fsys t dir path real_path opts
            ≡ open_directory names inner fo fsys t dir path real_path opts =
          ground (arith, b) in
        subst (Added opts real_path t) (sym route) (open_directory_lem t dir path real_path opts)
    | inr b ↦ elim (Result-cases (fsys.open_file dir path opts)) [
      | inr (e, p) ↦ open_in_fails t dir path real_path opts e b p
      | inl (f, p) ↦
          let route : open_in names inner fo fsys t dir path real_path opts
              ≡ add_file_like fo t (fsys.file f real_path) =
            ground (arith, b, p) in
          subst (Added opts real_path t) (sym route)
            (add_file_like_lem opts real_path t (fsys.file f real_path) (inr (f, b, refl)))
    ]
  ]

  -- `openat` panics in the path, or fails and leaves the table of descriptors as it is, or answers a
  -- descriptor that was free. Then that one alone is changed, and refers to a directory, or, if O_DIRECTORY is
  -- not set, to a file, that carries the path of `handle_file_path`.
  pub sys_openat_lem :
      (t : T) (dirfd : ℤ) (path : Text) (flags : ℕ)
      → (sys_openat names inner fo fsys t dirfd (ok path) flags ≡ none)
        ⊎ ((e : LinuxError) × (sys_openat names inner fo fsys t dirfd (ok path) flags
              ≡ some (err e, t)))
        ⊎ ((real_path : Text) × (r : LinuxResult ℤ × T) × (handle_file_path names inner dirfd path
              ≡ some (ok real_path))
            × (sys_openat names inner fo fsys t dirfd (ok path) flags ≡ some r)
            × Added (flags_to_options fsys.o_directory flags) real_path t r)
  unfolding sys_openat
  sys_openat_lem t dirfd path flags =
      elim (Result-cases (dir_of names inner fo fsys t dirfd path)) [
        | inr (e, p) ↦ inr (inl (e, ground (arith, p)))
        | inl (dir, p) ↦ elim (Option-cases (handle_file_path names inner dirfd path)) [
          | inl q ↦ inl (ground (arith, p, q))
          | inr (r, q) ↦ elim (Result-cases r) [
            | inr (e, k) ↦ inr (inl (e, ground (arith, p, q, k)))
            | inl (real_path, k) ↦
                let opts = flags_to_options fsys.o_directory flags in
                inr (
                  inr (
                    real_path,
                    open_in names inner fo fsys t dir path real_path opts,
                    q ∙ ap some k,
                    ground (arith, p, q, k),
                    open_in_lem t dir path real_path opts,
                  ))
          ]
        ]
      ]
