-- ===== src/Open/Tests.antt =====
-- Opening "/a" where the objects of the table are numbers.
use oscomp_test_listline.Prelude.{
  ℕ, ◌+◌, ◌≡◌, ◌⊎◌, refl, ◌++◌, Option, none, some, if◌then◌else◌, ◌==◌, Text, codes, text_eq,
  starts_with,
}
use oscomp_test_listline.Prelude.Int.{ℤ, pos, negsuc}
use oscomp_test_listline.Errno.{
  LinuxError, enoent, ebadf, not_found, is_a_directory, LinuxResult, ok, err,
}
use oscomp_test_listline.FdTable.Example.{Table, tables, table_add, first_free}
use oscomp_test_listline.Path.Hardlinks.{new_manager}
use oscomp_test_listline.Path.Names.{Names, handle_file_path}
use oscomp_test_listline.Open.{FileSystem, flags_to_options, sys_openat}
use oscomp_test_listline.Open.Opened.{Added, sys_openat_lem}

abbrev names : Names
names = record {
  canonicalize = λ p. if starts_with p (codes "/") then some p else some (codes "/" ++ p);
  trim = λ p. p;
  file_path = λ fd. err ebadf;
  directory_path = λ fd. ok (codes "/mnt");
  to_linux = λ e. enoent;
}

-- Files are the numbers from 20 on, directories those from 30 on.
abbrev fsys : FileSystem ℕ ℕ ℕ
fsys = record {
  open_file = λ d p opts. if text_eq p (codes "/a") then ok 1 else err is_a_directory;
  open_dir = λ d p opts. if text_eq p (codes "/") then ok 2 else err not_found;
  file = λ f p. 20 + f;
  directory = λ d p. 30 + d;
  as_directory = λ a. none;
  o_directory = 16;
}

abbrev stdio : Table
stdio i = if i == 0 then some 10 else none

abbrev opened : Option (LinuxResult ℤ × Table)
opened = sys_openat names new_manager tables fsys stdio (negsuc 99) (ok (codes "/a")) 0

sys_openat_lem_example :
    (opened ≡ none)
    ⊎ ((e : LinuxError) × (opened ≡ some (err e, stdio)))
    ⊎ ((real_path : Text) × (r : LinuxResult ℤ × Table) × (handle_file_path names new_manager
            (negsuc 99)
            (codes "/a")
          ≡ some (ok real_path))
        × (opened ≡ some r)
        × Added names new_manager tables fsys (flags_to_options 16 0) real_path stdio r)
sys_openat_lem_example =
    sys_openat_lem names new_manager tables fsys stdio (negsuc 99) (codes "/a") 0

answer : Option (LinuxResult ℤ × Table) → LinuxResult ℤ
answer none = err ebadf
answer (some (r, t)) = r

-- The first free descriptor is 1.
opens_a : answer opened ≡ ok (pos 1)
unfolding answer sys_openat new_manager table_add first_free
opens_a = refl
