-- ===== src/Getdents/Tests.antt =====
-- A directory that is the list of its entries, read with a buffer of 40 bytes.
use oscomp_test_listline.Prelude.{
  ℕ, ◌≤◌, ◌<◌, ◌≡◌, ◌⊎◌, refl, List, [], ◌∷◌, ◌++◌, map, Option, none, some, true, false, codes,
  take, replicate, arith,
}
use oscomp_test_listline.Errno.{einval, LinuxResult, ok, err}
use oscomp_test_listline.Getdents.{
  DirEntry, Directory, new_dir_buffer, write_entry, file_type, d_type, remaining_space, header,
  fill, finish, sys_getdents64,
}
use oscomp_test_listline.Getdents.Records.{seen, walk, AreNames}
use oscomp_test_listline.Getdents.Calls.{Reads, contents, sys_getdents64_lem}
use oscomp_test_listline.Getdents.Stream.{list_all, list_all-stream}

abbrev read_dir : List DirEntry → LinuxResult (Option DirEntry) × List DirEntry
read_dir [] = (ok none, [])
read_dir (e ∷ es) = (ok (some e), es)

read_dir-Reads : Reads read_dir (λ es. es)
read_dir-Reads = record {
  reads_nil = λ d h. (d, rw h refl, h);
  reads_cons = λ d e es h. (es, rw h refl, refl);
}

abbrev entries : List DirEntry
entries =
    record { is_dir = true; is_file = false; name = codes "bin" }
    ∷ record { is_dir = false; is_file = true; name = codes "init.rc" }
    ∷ []

abbrev whole : Directory (List DirEntry)
whole = record { last_dirent = none; inner = entries }

-- The second entry does not fit, and is the first of the second call.
two_calls :
    (list_all read_dir (λ es. es) read_dir-Reads 5 (replicate 40 7 ∷ replicate 40 7 ∷ []) whole).0
    ≡ (4, codes "bin") ∷ (8, codes "init.rc") ∷ []
unfolding list_all sys_getdents64 fill finish walk new_dir_buffer write_entry file_type
    remaining_space header d_type
two_calls = refl

names : AreNames entries
names = omega arith

sys_getdents64_lem_concrete :
    (r : LinuxResult ℕ) × (buf' : List ℕ) × (d' : Directory (List DirEntry)) × (got : List DirEntry)
    × (sys_getdents64 read_dir 5 (replicate 40 7) whole ≡ some (r, buf', d'))
    × (got ++ contents read_dir (λ es. es) read_dir-Reads d' ≡ entries)
    × (((n : ℕ) × (r ≡ ok n)
          × (n ≤ 40)
          × (walk n (take n buf') ≡ map seen got)
          × ((0 < n) ⊎ (contents read_dir (λ es. es) read_dir-Reads d' ≡ [])))
        ⊎ ((r ≡ err einval) × (got ≡ [])))
sys_getdents64_lem_concrete =
    sys_getdents64_lem read_dir (λ es. es) read_dir-Reads 5 (replicate 40 7) whole (omega arith)
      names

list_all-stream_example :
    let (found, d') = list_all read_dir (λ es. es) read_dir-Reads 5 (replicate 40 7 ∷ []) whole in
    found ++ map seen (contents read_dir (λ es. es) read_dir-Reads d') ≡ map seen entries
list_all-stream_example =
    list_all-stream read_dir (λ es. es) read_dir-Reads 5 (replicate 40 7 ∷ []) whole (omega arith)
      names
