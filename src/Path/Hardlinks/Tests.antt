-- ===== src/Path/Hardlinks/Tests.antt =====
-- The hard link manager over a file system that is a list of paths.
use oscomp_test_listline.Prelude.{
  ℕ, ◌≡◌, ◌↔◌, refl, List, [], ◌∷◌, Option, none, some, Bool, true, false, ◌||◌, not, if◌then◌else◌,
  arith, Text, codes, text_eq, get, ◌==◌,
}
use oscomp_test_listline.Errno.{ok, err}
use oscomp_test_listline.Path.Hardlinks.{
  Axfs, LinkManagerInner, new_manager, not_file, is_dir, real_path, create_link, remove_link,
}
use oscomp_test_listline.Path.Hardlinks.Invariant.{
  IsCounted, new_manager-IsCounted, create_link-IsCounted, remove_link-IsCounted,
}
use oscomp_test_listline.Path.Hardlinks.Linking.{
  create_link_accepts, real_path-create_link, remove_link_found,
}

abbrev holds : List Text → Text → Bool
holds [] p = false
holds (q ∷ qs) p = text_eq q p || holds qs p

abbrev without : List Text → Text → List Text
without [] p = []
without (q ∷ qs) p = if text_eq q p then without qs p else q ∷ without qs p

abbrev disk : Axfs (List Text)
disk = record {
  exists = holds;
  remove_file = λ f p. if holds f p then some (without f p) else none;
}

abbrev files : List Text
files = codes "/d/" ∷ codes "/a" ∷ []

abbrev linked : LinkManagerInner
linked = record {
  links = (codes "/x", codes "/d/") ∷ (codes "/y", codes "/d/") ∷ [];
  ref_counts = (codes "/d/", 2) ∷ [];
}

linked_lem :
    (create_link disk
      (create_link disk new_manager files (codes "/x") (codes "/d/")).1
      files
      (codes "/y")
      (codes "/d/")).1
    ≡ linked
unfolding create_link new_manager text_eq get oscomp_test_listline.Prelude.insert
linked_lem = refl

linked-IsCounted : IsCounted linked
unfolding create_link new_manager text_eq get oscomp_test_listline.Prelude.insert
linked-IsCounted =
    create_link-IsCounted disk (create_link disk new_manager files (codes "/x") (codes "/d/")).1
      files (codes "/y") (codes "/d/")
      (create_link-IsCounted disk new_manager files (codes "/x") (codes "/d/")
        new_manager-IsCounted)

-- The last link takes the directory with it.
both_removed :
    (remove_link disk (remove_link disk linked files (codes "/x")).1 files (codes "/y")).2
    ≡ codes "/a" ∷ []
unfolding remove_link get text_eq oscomp_test_listline.Prelude.remove
    oscomp_test_listline.Prelude.insert
both_removed = refl

create_link-IsCounted_example :
    IsCounted (create_link disk linked files (codes "/z") (codes "/d/")).1
create_link-IsCounted_example =
    create_link-IsCounted disk linked files (codes "/z") (codes "/d/") linked-IsCounted

remove_link-IsCounted_concrete : IsCounted (remove_link disk linked files (codes "/x")).1
remove_link-IsCounted_concrete =
    remove_link-IsCounted disk linked files (codes "/x") linked-IsCounted

create_link_accepts_concrete :
    (((create_link disk linked files (codes "/z") (codes "/a")).0 ≡ ok tt)
      ↔ ((holds files (codes "/a") ≡ true) × (is_dir (codes "/a") ≡ true)))
    × ((create_link disk linked files (codes "/z") (codes "/a") ≡ (err not_file, linked, files))
        ↔ ((holds files (codes "/a") ≡ true) × (is_dir (codes "/a") ≡ false)))
create_link_accepts_concrete = create_link_accepts disk linked files (codes "/z") (codes "/a")

real_path-create_link_concrete :
    real_path (create_link disk linked files (codes "/z") (codes "/d/")).1 (codes "/z")
    ≡ codes "/d/"
unfolding create_link text_eq
real_path-create_link_concrete =
    real_path-create_link disk linked files (codes "/z") (codes "/d/") (codes "/z") linked-IsCounted
      refl

remove_link_found_concrete :
    let (r, i', f') = remove_link disk linked files (codes "/x") in
    (r ≡ some (codes "/d/")) × (get (codes "/x") i'.links ≡ none) × (f' ≡ files)
unfolding get text_eq
remove_link_found_concrete =
    remove_link_found disk linked files (codes "/x") (codes "/d/") linked-IsCounted refl
