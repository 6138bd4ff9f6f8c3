-- ===== src/Path/Names/Tests.antt =====
-- Paths below "/mnt", where the current directory is "/".
use oscomp_test_listline.Prelude.{
  ◌≡◌, ◌⊎◌, refl, inr, [], ◌++◌, some, true, false, if◌then◌else◌, Text, codes, starts_with, arith,
}
use oscomp_test_listline.Prelude.Int.{pos, negsuc}
use oscomp_test_listline.Errno.{ebadf, enoent, ok, err}
use oscomp_test_listline.Path.Hardlinks.{new_manager, is_dir, real_path}
use oscomp_test_listline.Path.Names.{
  Names, new_path, is_root, strip_slash, parent, name, handle_file_path,
}
use oscomp_test_listline.Path.Names.Parts.{NoSlash, parent-name}
use oscomp_test_listline.Path.Names.Relative.{handle_file_path_relative}

-- A relative path is put below the root.
abbrev names : Names
names = record {
  canonicalize = λ p. if starts_with p (codes "/") then some p else some (codes "/" ++ p);
  trim = λ p. p;
  file_path = λ fd. err ebadf;
  directory_path = λ fd. ok (codes "/mnt");
  to_linux = λ e. enoent;
}

relative_paths :
    (handle_file_path names new_manager (negsuc 99) (codes "a") ≡ some (ok (codes "/a")))
    × (handle_file_path names new_manager (pos 3) (codes "a/") ≡ some (ok (codes "/mnt/a/")))
    × (handle_file_path names new_manager (pos 3) [] ≡ some (err ebadf))
unfolding handle_file_path new_manager
relative_paths = (refl, refl, refl)

not_root : is_root (codes "/mnt/a/") ≡ false
unfolding is_root
not_root = refl

one_slash : is_dir (strip_slash (codes "/mnt/a/")) ≡ false
unfolding is_dir strip_slash
one_slash = refl

named : name (codes "/mnt/a/") ≡ some (ok (codes "a"))
unfolding name
named = refl

parent-name_concrete :
    (a : Text) × (parent (codes "/mnt/a/") ≡ ok a)
    × (a ++ codes "a" ≡ strip_slash (codes "/mnt/a/"))
    × NoSlash (codes "a")
parent-name_concrete = parent-name (codes "/mnt/a/") (codes "a") not_root one_slash named

handle_file_path_relative_example :
    (dir : Text) × ((dir ≡ codes "/mnt")
      ⊎ ((is_dir (codes "/mnt") ≡ false) × (dir ≡ codes "/mnt" ++ codes "/")))
    × (is_dir dir ≡ true)
    × (handle_file_path names new_manager (pos 3) (codes "a")
        ≡ handle_file_path names new_manager (pos 9) (dir ++ codes "a"))
unfolding new_path real_path new_manager
handle_file_path_relative_example =
    handle_file_path_relative names new_manager (pos 3) (pos 9) (codes "a") (codes "/mnt") refl
      (λ h. ground arith) (inr (refl, (codes "/mnt", refl, refl))) refl
