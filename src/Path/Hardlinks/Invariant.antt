-- ===== src/Path/Hardlinks/Invariant.antt =====
-- The reference counts against the numbers of links.
use oscomp_test_listline.Prelude.{
  ℕ, ◌+◌, ◌-◌, ◌<◌, ◌≡◌, ◌≢◌, inl, inr, refl, sym, ap, ◌∙◌, List, Option, none, some, true,
  if◌then◌else◌, ◌==◌, arith, Bool-cases, Option-cases, Text, text_eq, text_eq_refl, text_eq_sound,
  get, insert, remove, get-insert_self, get-insert_ne, get-remove_self, get-remove_ne,
}
use oscomp_test_listline.Path.Hardlinks.{
  Axfs, LinkManagerInner, new_manager, or_zero, decrease_ref_count, add_link, atomic_link_update,
  atomic_link_remove, create_link, remove_link,
}
use oscomp_test_listline.Path.Hardlinks.Counting.{
  one_if, hits, count, HasUniqueKeys, count-insert, count-remove, insert-HasUniqueKeys,
  remove-HasUniqueKeys,
}

pub record IsCounted (i : LinkManagerInner) : Type 0 where
  pub links_unique : HasUniqueKeys i.links
  pub refs_unique : HasUniqueKeys i.ref_counts
  pub counted : (w : Text) → or_zero (get w i.ref_counts) ≡ count w i.links
  pub positive : (w : Text) → get w i.ref_counts ≢ some 0

-- The new manager has no links and counts none.
pub new_manager-IsCounted : IsCounted new_manager
unfolding new_manager get
new_manager-IsCounted = record {
  links_unique = tt;
  refs_unique = tt;
  counted = λ w. refl;
  positive = λ w h. cc;
}

pub get-insert :
    {V : Type 0} (k w : Text) (v : V) (m : List (Text × V))
    → get w (insert k v m) ≡ (if text_eq k w then some v else get w m)
get-insert k w v m = elim (Bool-cases (text_eq k w)) [
  | inl e ↦
      rw e (ap (λ j. get j (insert k v m)) (sym (text_eq_sound k w e)) ∙ get-insert_self k v m)
  | inr e ↦ rw e (get-insert_ne k w v m e)
]

get-remove :
    {V : Type 0} (k w : Text) (m : List (Text × V))
    → get w (remove k m) ≡ (if text_eq k w then none else get w m)
get-remove k w m = elim (Bool-cases (text_eq k w)) [
  | inl e ↦ rw e (ap (λ j. get j (remove k m)) (sym (text_eq_sound k w e)) ∙ get-remove_self k m)
  | inr e ↦ rw e (get-remove_ne k w m e)
]

pub get_same :
    {V : Type 0} (k w : Text) (m : List (Text × V)) → text_eq k w ≡ true → get k m ≡ get w m
get_same k w m e = ap (λ j. get j m) (text_eq_sound k w e)

-- One less, and nothing where that is zero.
abbrev less : ℕ → Option ℕ
less n = if n == 1 then none else some (n - 1)

module _ {F : Type 0} (fs : Axfs F) where
  refs-decrease :
      (i : LinkManagerInner) (f : F) (path w : Text)
      → 0 < or_zero (get path i.ref_counts)
      → get w (decrease_ref_count fs i f path).1.ref_counts
        ≡ (if text_eq path w then less (or_zero (get path i.ref_counts)) else get w i.ref_counts)
  unfolding decrease_ref_count
  refs-decrease i f path w h = elim (Option-cases (get path i.ref_counts)) [
    | inl e ↦ absurd (ground arith)
    | inr (n, e) ↦
        ground (arith, e, get-remove path w i.ref_counts, get-insert path w (n - 1) i.ref_counts)
  ]

  -- A path that is counted at least once is counted once less, and keeps no count of zero.
  decrease_lem :
      (i : LinkManagerInner) (f : F) (path : Text)
      → HasUniqueKeys i.ref_counts
      → ((w : Text) → get w i.ref_counts ≢ some 0)
      → 0 < or_zero (get path i.ref_counts)
      → let i' = (decrease_ref_count fs i f path).1 in
        (i'.links ≡ i.links)
        × HasUniqueKeys i'.ref_counts
        × ((w : Text)
            → or_zero (get w i'.ref_counts) + one_if (text_eq path w)
              ≡ or_zero (get w i.ref_counts))
        × ((w : Text) → get w i'.ref_counts ≢ some 0)
  unfolding decrease_ref_count
  decrease_lem i f path u p h = (
    ground arith,
    ground (
      arith,
      remove-HasUniqueKeys path i.ref_counts u,
      insert-HasUniqueKeys path (or_zero (get path i.ref_counts) - 1) i.ref_counts u,
    ),
    λ w. rw (refs-decrease i f path w h) (ground (arith, get_same path w i.ref_counts)),
    λ w. rw (refs-decrease i f path w h) (ground (arith, p w)),
  )

  add_link-IsCounted :
      (i : LinkManagerInner) (src dst : Text)
      → HasUniqueKeys i.links
      → HasUniqueKeys i.ref_counts
      → ((w : Text) → or_zero (get w i.ref_counts) + hits (get src i.links) w ≡ count w i.links)
      → ((w : Text) → get w i.ref_counts ≢ some 0)
      → IsCounted (add_link fs i src dst)
  unfolding add_link
  add_link-IsCounted i src dst ul ur c p = record {
    links_unique = insert-HasUniqueKeys src dst i.links ul;
    refs_unique = insert-HasUniqueKeys dst (or_zero (get dst i.ref_counts) + 1) i.ref_counts ur;
    counted = λ w.
        rw (get-insert dst w (or_zero (get dst i.ref_counts) + 1) i.ref_counts)
          (ground (arith, c w, count-insert w src dst i.links, get_same dst w i.ref_counts));
    positive = λ w.
        rw (get-insert dst w (or_zero (get dst i.ref_counts) + 1) i.ref_counts)
          (ground (arith, p w));
  }

  -- A link that is found is counted.
  pub counted_pos :
      (i : LinkManagerInner) (k v : Text)
      → IsCounted i
      → get k i.links ≡ some v
      → 0 < or_zero (get v i.ref_counts)
  counted_pos i k v c e =
      ground (arith, c.counted v, e, text_eq_refl v, count-remove v k i.links c.links_unique)

  update-IsCounted :
      (i : LinkManagerInner) (f : F) (src dst : Text)
      → IsCounted i
      → IsCounted (atomic_link_update fs i f src dst).0
  unfolding atomic_link_update
  update-IsCounted i f src dst c = elim (Option-cases (get src i.links)) [
    | inl e ↦
        rw (e, atomic_link_update)
          (add_link-IsCounted i src dst c.links_unique c.refs_unique
            (λ w. ground (arith, e, c.counted w)) c.positive)
    | inr (old, e) ↦ elim (Bool-cases (text_eq old dst)) [
      | inl s ↦ rw (e, atomic_link_update) (rw s c)
      | inr s ↦
          let i' = (decrease_ref_count fs i f old).1 in
          let d = decrease_lem i f old c.refs_unique c.positive (counted_pos i src old c e) in
          rw (e, atomic_link_update)
            (rw s (
              add_link-IsCounted i' src dst (rw d.0 c.links_unique) d.1
                (λ w. ground (arith, d.0, e, d.2 w, c.counted w)) d.3))
    ]
  ]

  remove-IsCounted :
      (i : LinkManagerInner) (f : F) (src : Text)
      → IsCounted i
      → IsCounted (atomic_link_remove fs i f src).1
  unfolding atomic_link_remove
  remove-IsCounted i f src c = elim (Option-cases (get src i.links)) [
    | inl e ↦ rw (e, atomic_link_remove) c
    | inr (dst, e) ↦
        let i₀ : LinkManagerInner = record i { links = remove src i.links } in
        let i' = (decrease_ref_count fs i₀ f dst).1 in
        let d = decrease_lem i₀ f dst c.refs_unique c.positive (counted_pos i src dst c e) in
        let r : IsCounted i' = record {
          links_unique = rw d.0 (remove-HasUniqueKeys src i.links c.links_unique);
          refs_unique = d.1;
          counted = λ w.
              ground (arith, d.0, e, d.2 w, c.counted w, count-remove w src i.links c.links_unique);
          positive = d.3;
        } in
        rw (e, atomic_link_remove) r
  ]

  -- `create_link` keeps the reference counts equal to the numbers of links, whatever it answers.
  pub create_link-IsCounted :
      (i : LinkManagerInner) (f : F) (src dst : Text)
      → IsCounted i
      → IsCounted (create_link fs i f src dst).1
  unfolding create_link
  create_link-IsCounted i f src dst c = ground (arith, update-IsCounted i f src dst c)

  -- `remove_link` keeps the reference counts equal to the numbers of links, whatever it answers and
  -- whether or not files can be removed.
  pub remove_link-IsCounted :
      (i : LinkManagerInner) (f : F) (src : Text)
      → IsCounted i
      → IsCounted (remove_link fs i f src).1
  unfolding remove_link
  remove_link-IsCounted i f src c = ground (arith, remove-IsCounted i f src c)
