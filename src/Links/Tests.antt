-- ===== src/Links/Tests.antt =====
-- A program links and unlinks in a root that is all there is.
use oscomp_test_listline.Prelude.{
  List, [], ◌∷◌, ◌++◌, some, true, false, if◌then◌else◌, Text, codes, starts_with,
}
use oscomp_test_listline.Prelude.Int.{negsuc}
use oscomp_test_listline.Errno.{enoent, ebadf, ok, err}
use oscomp_test_listline.Path.Hardlinks.{Axfs, new_manager}
use oscomp_test_listline.Path.Hardlinks.Invariant.{IsCounted, new_manager-IsCounted}
use oscomp_test_listline.Path.Names.{Names}
use oscomp_test_listline.Links.{State, Directories}
use oscomp_test_listline.Links.Invariant.{
  Call, chdir, mkdirat, linkat, unlinkat, run, run-IsCounted,
}

abbrev current : List Text → Text
current [] = codes "/"
current (dir ∷ paths) = dir

-- The first path of the disk is the current directory.
abbrev by_files : List Text → Names
by_files files = record {
  canonicalize = λ p. if starts_with p (codes "/") then some p else some (current files ++ p);
  trim = λ p. p;
  file_path = λ fd. err ebadf;
  directory_path = λ fd. err ebadf;
  to_linux = λ e. enoent;
}

-- The directories of the root; files are always there and can be removed.
abbrev disk : Axfs (List Text)
disk = record { exists = λ f p. true; remove_file = λ f p. some f }

abbrev dirs : Directories (List Text)
dirs = record {
  create_dir = λ f p. ok (p ∷ f);
  remove_dir = λ f p. ok f;
  set_current_dir = λ f p. ok (p ∷ f);
  metadata_is_dir = λ f p. ok false;
  current_dir = λ f. ok (current f);
  has_no_nul = λ p. true;
}

abbrev start : State (List Text)
start = record { manager = new_manager; files = [] }

abbrev calls : List Call
calls =
    mkdirat (negsuc 99) (ok (codes "/d/"))
    ∷ linkat (negsuc 99) (ok (codes "/d/")) (negsuc 99) (ok (codes "/x"))
    ∷ chdir (ok (codes "/d/"))
    ∷ linkat (negsuc 99) (ok (codes "a")) (negsuc 99) (ok (codes "b"))
    ∷ unlinkat (negsuc 99) (ok (codes "/x")) 0
    ∷ []

run-IsCounted_example : IsCounted (run by_files disk dirs start calls).manager
run-IsCounted_example = run-IsCounted by_files disk dirs start calls new_manager-IsCounted
