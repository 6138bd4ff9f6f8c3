-- ===== src/Path/Names/Parts.antt =====
-- The parts of a path.
use oscomp_test_listline.Prelude.{
  ℕ, suc, ◌+◌, ◌-◌, ◌<◌, ◌≡◌, ◌∙◌, ap, sym, subst, ◌≢◌, inl, inr, [], ◌∷◌, ◌++◌, none, some, false,
  Text, length, take, drop, take_all, take-append-drop, length-drop, Option-cases, arith,
}
use oscomp_test_listline.Errno.{ok}
use oscomp_test_listline.Path.Hardlinks.{is_dir}
use oscomp_test_listline.Path.Names.{is_root, rfind_slash, strip_slash, parent, name}

-- Whether a text has no slash.
abbrev pub NoSlash : Text → Type 0
NoSlash [] = Unit
NoSlash (x ∷ xs) = (x ≢ 47) × NoSlash xs

rfind_none : (p : Text) → rfind_slash p ≡ none → NoSlash p
unfolding rfind_slash
rfind_none [] h = tt
rfind_none (x ∷ xs) h = elim (Option-cases (rfind_slash xs)) [
  | inl e ↦ (ground arith, rfind_none xs e)
  | inr (i, e) ↦ absurd (ground arith)
]

rfind_lt : (p : Text) (i : ℕ) → rfind_slash p ≡ some i → i < length p
unfolding rfind_slash
rfind_lt [] i h = cc
rfind_lt (x ∷ xs) i h = elim (Option-cases (rfind_slash xs)) [
  | inl e ↦ ground arith
  | inr (j, e) ↦ let l = rfind_lt xs j e in ground arith
]

rfind_last : (p : Text) (i : ℕ) → rfind_slash p ≡ some i → NoSlash (drop (i + 1) p)
unfolding rfind_slash
rfind_last [] i h = cc
rfind_last (x ∷ xs) i h = elim (Option-cases (rfind_slash xs)) [
  | inl e ↦
      let z : 1 ≡ i + 1 = ground arith in subst (λ n. NoSlash (drop n (x ∷ xs))) z (rfind_none xs e)
  | inr (j, e) ↦
      let z : suc (j + 1) ≡ i + 1 = ground arith in
      subst (λ n. NoSlash (drop n (x ∷ xs))) z (rfind_last xs j e)
]

-- If a path other than the root has a name, then its parent is found, parent and name in a row are the path
-- without its trailing slash, and the name has no slash, provided that the path does not end in two.
pub parent-name :
    (path b : Text)
    → is_root path ≡ false
    → is_dir (strip_slash path) ≡ false
    → name path ≡ some (ok b)
    → (a : Text) × (parent path ≡ ok a) × (a ++ b ≡ strip_slash path) × NoSlash b
unfolding parent name
parent-name path b r d h = elim (Option-cases (rfind_slash (strip_slash path))) [
  | inl e ↦ absurd (ground arith)
  | inr (i, e) ↦
      let p = strip_slash path in
      let l = rfind_lt p i e in
      let part : take (length p - (i + 1)) (drop (i + 1) p) ≡ b = ground (arith, l) in
      let n = length-drop (i + 1) p in
      let whole : b ≡ drop (i + 1) p =
        sym part ∙ take_all (length p - (i + 1)) (drop (i + 1) p) (omega (arith, n)) in
      (
        take (i + 1) p,
        ground arith,
        ap (λ w. take (i + 1) p ++ w) whole ∙ take-append-drop (i + 1) p,
        subst NoSlash (sym whole) (rfind_last p i e),
      )
]
