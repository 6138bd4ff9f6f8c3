-- ===== src/FdTable/Dup.antt =====
-- What the calls that make and close descriptors do to the table.
use oscomp_test_listline.Prelude.{
  ℕ, ◌≤◌, ◌<◌, ◌≡◌, ◌≢◌, ◌↔◌, ◌⊎◌, inl, inr, refl, ap, none, some, false, if◌then◌else◌, ◌==◌,
  arith, Option-cases,
}
use oscomp_test_listline.Prelude.Int.{ℤ, pos, as_usize}
use oscomp_test_listline.Errno.{ebadf, emfile, ok, err}
use oscomp_test_listline.FdTable.Objects.{FlattenObjects, ax_file_limit}
use oscomp_test_listline.FdTable.{same_int, after_remove, sys_close, sys_dup, sys_dup2, sys_pipe2}

module _ {T A : Type 0} (fo : FlattenObjects T A) where
  -- `sys_dup` of a descriptor that is not open is EBADF. Of an open one it is EMFILE, with the table as it
  -- was, or a descriptor that was not in use and is below the limit; that one then refers to the same
  -- file, and every other descriptor refers to what it did.
  pub sys_dup_lem :
      (t : T) (fd : ℤ)
      → ((fo.get t (as_usize fd) ≡ none) × (sys_dup fo t fd ≡ (err ebadf, t)))
        ⊎ ((f : A) × (fo.get t (as_usize fd) ≡ some f)
            × ((sys_dup fo t fd ≡ (err emfile, t))
                ⊎ ((id : ℕ) × (t' : T) × (sys_dup fo t fd ≡ (ok (pos id), t'))
                    × (id < ax_file_limit)
                    × (fo.get t id ≡ none)
                    × ((j : ℕ) → fo.get t' j ≡ (if id == j then some f else fo.get t j)))))
  unfolding sys_dup
  sys_dup_lem t fd = elim (Option-cases (fo.get t (as_usize fd))) [
    | inl e ↦ inl (e, ground arith)
    | inr (f, e) ↦ elim (Option-cases (fo.add t f)) [
      | inl a ↦ inr (f, e, inl (ground arith))
      | inr ((id, t'), a) ↦
          let fresh = fo.add_fresh t f id t' a in
          inr (f, e, inr (id, t', ground arith, fresh.0, fresh.1, λ j. fo.get-add t f id t' j a))
    ]
  ]

  -- Removing an identifier, in use or not, leaves it unused and every other one as it was.
  get-after_remove :
      (t : T) (i j : ℕ)
      → fo.get (after_remove fo t (fo.remove t i)) j ≡ (if i == j then none else fo.get t j)
  get-after_remove t i j = elim (Option-cases (fo.get t i)) [
    | inl e ↦ ground (arith, e, fo.remove_unused t i e)
    | inr (f, e) ↦
        let (t', r) = fo.remove_used t i f e in ground (arith, r, fo.get-remove t i f t' j r)
  ]

  -- `sys_dup2` of an open descriptor to another one that is below the limit answers the new one, which
  -- then refers to the old one's file whether or not it was open before; every other descriptor refers to
  -- what it did.
  pub sys_dup2_lem :
      (t : T) (old_fd : ℤ) (new_fd : ℕ) (f : A)
      → fo.get t (as_usize old_fd) ≡ some f
      → same_int old_fd (pos new_fd) ≡ false
      → new_fd < ax_file_limit
      → (t' : T) × (sys_dup2 fo t old_fd (pos new_fd) ≡ some (ok (pos new_fd), t'))
        × ((j : ℕ) → fo.get t' j ≡ (if new_fd == j then some f else fo.get t j))
  unfolding sys_dup2
  sys_dup2_lem t old_fd new_fd f e n b =
      let t₁ = after_remove fo t (fo.remove t new_fd) in
      let free : fo.get t₁ new_fd ≡ none = ground (arith, get-after_remove t new_fd new_fd) in
      let (t₂, a) = fo.add_at_free t₁ new_fd f b free in
      (
        t₂,
        ground (arith, e, n, a),
        λ j. ground (arith, fo.get-add_at t₁ new_fd f t₂ j a, get-after_remove t new_fd j),
      )

  -- `sys_dup2` of an open descriptor to any other number that is no descriptor below the limit, a negative
  -- one included, panics.
  pub sys_dup2_panics :
      (t : T) (old_fd new_fd : ℤ) (f : A)
      → fo.get t (as_usize old_fd) ≡ some f
      → same_int old_fd new_fd ≡ false
      → ax_file_limit ≤ as_usize new_fd
      → sys_dup2 fo t old_fd new_fd ≡ none
  unfolding sys_dup2
  sys_dup2_panics t old_fd new_fd f e n b =
      let t₁ = after_remove fo t (fo.remove t (as_usize new_fd)) in
      ground (arith, e, n, fo.add_at_refuses t₁ (as_usize new_fd) f (inl b))

  -- `sys_close` succeeds exactly on an open descriptor; afterwards that one is not open, so that closing it
  -- again is EBADF, and every other descriptor refers to what it did. When it fails the table is as it was.
  pub sys_close_lem :
      (t : T) (fd : ℤ)
      → let (r, t') = sys_close fo t fd in
        ((r ≡ ok (pos 0)) ↔ (fo.get t (as_usize fd) ≢ none))
        × ((j : ℕ) → fo.get t' j ≡ (if as_usize fd == j then none else fo.get t j))
        × ((sys_close fo t' fd).0 ≡ err ebadf)
  unfolding sys_close
  sys_close_lem t fd = elim (Option-cases (fo.get t (as_usize fd))) [
    | inl e ↦
        let r = fo.remove_unused t (as_usize fd) e in
        ((λ h. ground (arith, r), λ h. absurd (h e)), λ j. ground (arith, r, e), ground (arith, r))
    | inr (f, e) ↦
        let (t', r) = fo.remove_used t (as_usize fd) f e in
        let gone : fo.get t' (as_usize fd) ≡ none =
          ground (arith, fo.get-remove t (as_usize fd) f t' (as_usize fd) r) in
        (
          (λ h k. cc (e, k), λ h. ground (arith, r)),
          λ j. ground (arith, r, fo.get-remove t (as_usize fd) f t' j r),
          ground (arith, r, fo.remove_unused t' (as_usize fd) gone),
        )
  ]

  -- `sys_pipe2` with a good pointer never panics. It stores two different descriptors that were not in use
  -- and now refer to the two ends, every other one being as before; or it is EMFILE, and every descriptor
  -- refers to what it did, also where the first end had already been added.
  pub sys_pipe2_lem :
      (r w : A) (t : T)
      → ((t' : T) × (sys_pipe2 fo r w (ok tt) t ≡ some (err emfile, t'))
          × ((j : ℕ) → fo.get t' j ≡ fo.get t j))
        ⊎ ((a b : ℕ) × (t' : T) × (sys_pipe2 fo r w (ok tt) t ≡ some (ok (pos a, pos b), t'))
            × (a ≢ b)
            × (fo.get t a ≡ none)
            × (fo.get t b ≡ none)
            × ((j : ℕ)
                → fo.get t' j ≡ (if b == j then some w else if a == j then some r else fo.get t j)))
  unfolding sys_pipe2
  sys_pipe2_lem r w t = elim (Option-cases (fo.add t r)) [
    | inl e ↦ inl (t, ground arith, λ j. refl)
    | inr ((a, t₁), e) ↦
        let fresh = fo.add_fresh t r a t₁ e in
        let here = fo.get-add t r a t₁ a e in
        let used : fo.get t₁ a ≡ some r = ground (arith, here) in
        elim (Option-cases (fo.add t₁ w)) [
          | inr ((b, t₂), k) ↦
              let fresh' = fo.add_fresh t₁ w b t₂ k in
              inr (
                a,
                b,
                t₂,
                ground arith,
                λ (s : a ≡ b). cc (ap (fo.get t₁) s, used, fresh'.1),
                fresh.1,
                ground (arith, fo.get-add t r a t₁ b e),
                λ j. ground (arith, fo.get-add t₁ w b t₂ j k, fo.get-add t r a t₁ j e),
              )
          | inl k ↦
              let (t₃, d) = fo.remove_used t₁ a r used in
              inl (
                t₃,
                ground arith,
                λ j. ground (arith, fo.get-remove t₁ a r t₃ j d, fo.get-add t r a t₁ j e, fresh.1),
              )
        ]
  ]
