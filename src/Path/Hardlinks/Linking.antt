-- ===== src/Path/Hardlinks/Linking.antt =====
-- What the operations on links do to the links and to the files.
use oscomp_test_listline.Prelude.{
  ◌<◌, ◌≡◌, ◌↔◌, inl, inr, Option, none, some, true, false, if◌then◌else◌, ◌==◌, arith,
  Option-cases, Text, text_eq, text_eq_sound, get, remove, get-remove_self,
}
use oscomp_test_listline.Errno.{ok, err}
use oscomp_test_listline.Path.Hardlinks.{
  Axfs, not_file, LinkManagerInner, is_dir, real_path, or_zero, decrease_ref_count, add_link,
  atomic_link_update, atomic_link_remove, create_link, remove_link,
}
use oscomp_test_listline.Path.Hardlinks.Counting.{count}
use oscomp_test_listline.Path.Hardlinks.Invariant.{IsCounted, get-insert, get_same, counted_pos}

-- The file system after a removal, which leaves it as it was where it fails.
abbrev pub or_same : {F : Type 0} → F → Option F → F
or_same f none = f
or_same f (some f') = f'

module _ {F : Type 0} (fs : Axfs F) where
  -- A link is created exactly for a target that exists and is written as a directory, with a slash at its
  -- end; and the answer is that it is not a file, with nothing
  -- changed, exactly for one that exists and is written as a file.
  pub create_link_accepts :
      (i : LinkManagerInner) (f : F) (src dst : Text)
      → (((create_link fs i f src dst).0 ≡ ok tt)
          ↔ ((fs.exists f dst ≡ true) × (is_dir dst ≡ true)))
        × ((create_link fs i f src dst ≡ (err not_file, i, f))
            ↔ ((fs.exists f dst ≡ true) × (is_dir dst ≡ false)))
  unfolding create_link
  create_link_accepts i f src dst = (
    (λ h. ground arith, λ h. ground (arith, h.0, h.1)),
    (λ h. ground arith, λ h. ground (arith, h.0, h.1)),
  )

  decrease-links :
      (i : LinkManagerInner) (f : F) (path : Text)
      → (decrease_ref_count fs i f path).1.links ≡ i.links
  unfolding decrease_ref_count
  decrease-links i f path = ground arith

  decrease-file :
      (i : LinkManagerInner) (f : F) (path : Text)
      → 0 < or_zero (get path i.ref_counts)
      → (decrease_ref_count fs i f path).2
        ≡ (if or_zero (get path i.ref_counts) == 1 then or_same f (fs.remove_file f path) else f)
  unfolding decrease_ref_count
  decrease-file i f path h = ground arith

  update-links :
      (i : LinkManagerInner) (f : F) (src dst w : Text)
      → get w (atomic_link_update fs i f src dst).0.links
        ≡ (if text_eq src w then some dst else get w i.links)
  unfolding atomic_link_update add_link
  update-links i f src dst w = elim (Option-cases (get src i.links)) [
    | inl e ↦ ground (arith, e, get-insert src w dst i.links)
    | inr (old, e) ↦ ground (
      arith,
      e,
      get-insert src w dst (decrease_ref_count fs i f old).1.links,
      decrease-links i f old,
      text_eq_sound old dst,
      get_same src w i.links,
    )
  ]

  -- After a link has been created, its source resolves to the target and every other path resolves as
  -- before.
  pub real_path-create_link :
      (i : LinkManagerInner) (f : F) (src dst w : Text)
      → IsCounted i
      → (create_link fs i f src dst).0 ≡ ok tt
      → real_path (create_link fs i f src dst).1 w ≡ (if text_eq src w then dst else real_path i w)
  unfolding create_link real_path
  real_path-create_link i f src dst w c h = ground (arith, update-links i f src dst w)

  -- Removing a link that exists answers its target; the path resolves to itself from then on, and the
  -- target's file is removed exactly if no other link to the target is left.
  pub remove_link_found :
      (i : LinkManagerInner) (f : F) (src dst : Text)
      → IsCounted i
      → get src i.links ≡ some dst
      → let (r, i', f') = remove_link fs i f src in
        (r ≡ some dst)
        × (get src i'.links ≡ none)
        × (f' ≡ (if count dst i.links == 1 then or_same f (fs.remove_file f dst) else f))
  unfolding remove_link atomic_link_remove
  remove_link_found i f src dst c e =
      let i₀ : LinkManagerInner = record i { links = remove src i.links } in
      let pos = counted_pos fs i src dst c e in
      (
        ground (arith, e),
        ground (arith, e, decrease-links i₀ f dst, get-remove_self src i.links),
        ground (arith, e, decrease-file i₀ f dst pos, c.counted dst),
      )
