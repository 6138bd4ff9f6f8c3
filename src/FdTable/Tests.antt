-- ===== src/FdTable/Tests.antt =====
-- Calls on a table with the three standard descriptors.
use oscomp_test_listline.Prelude.{
  ℕ, ◌<◌, ◌≡◌, ◌≢◌, ◌↔◌, ◌⊎◌, refl, none, some, if◌then◌else◌, ◌==◌, arith,
}
use oscomp_test_listline.Prelude.Int.{pos}
use oscomp_test_listline.Errno.{ok, err, ebadf, emfile}
use oscomp_test_listline.FdTable.Objects.{ax_file_limit}
use oscomp_test_listline.FdTable.Example.{Table, tables, table_get, table_add, first_free}
use oscomp_test_listline.FdTable.{sys_close, sys_dup, sys_dup2, sys_pipe2, copy_inner, clear}
use oscomp_test_listline.FdTable.Dup.{
  sys_dup_lem, sys_dup2_lem, sys_dup2_panics, sys_close_lem, sys_pipe2_lem,
}
use oscomp_test_listline.FdTable.Copying.{copy_inner_lem, clear_lem}

-- Standard input is file 10, standard output and error are file 11.
abbrev stdio : Table
stdio i = if i == 0 then some 10 else if i == 1 then some 11 else if i == 2 then some 11 else none

dup_stdin : (sys_dup tables stdio (pos 0)).0 ≡ ok (pos 3)
unfolding sys_dup table_get table_add first_free
dup_stdin = refl

sys_dup_lem_concrete :
    ((table_get stdio 0 ≡ none) × (sys_dup tables stdio (pos 0) ≡ (err ebadf, stdio)))
    ⊎ ((f : ℕ) × (table_get stdio 0 ≡ some f)
        × ((sys_dup tables stdio (pos 0) ≡ (err emfile, stdio))
            ⊎ ((id : ℕ) × (t' : Table) × (sys_dup tables stdio (pos 0) ≡ (ok (pos id), t'))
                × (id < ax_file_limit)
                × (table_get stdio id ≡ none)
                × ((j : ℕ) → table_get t' j ≡ (if id == j then some f else table_get stdio j)))))
sys_dup_lem_concrete = sys_dup_lem tables stdio (pos 0)

sys_dup2_lem_example :
    (t' : Table) × (sys_dup2 tables stdio (pos 1) (pos 0) ≡ some (ok (pos 0), t'))
    × ((j : ℕ) → table_get t' j ≡ (if ◌==◌ 0 j then some 11 else table_get stdio j))
unfolding table_get
sys_dup2_lem_example = sys_dup2_lem tables stdio (pos 1) 0 11 refl refl (omega arith)

sys_dup2_panics_concrete : sys_dup2 tables stdio (pos 1) (pos 5000) ≡ none
unfolding table_get
sys_dup2_panics_concrete =
    sys_dup2_panics tables stdio (pos 1) (pos 5000) 11 refl refl (omega arith)

sys_close_lem_concrete :
    let (r, t') = sys_close tables stdio (pos 2) in
    ((r ≡ ok (pos 0)) ↔ (table_get stdio 2 ≢ none))
    × ((j : ℕ) → table_get t' j ≡ (if ◌==◌ 2 j then none else table_get stdio j))
    × ((sys_close tables t' (pos 2)).0 ≡ err ebadf)
sys_close_lem_concrete = sys_close_lem tables stdio (pos 2)

sys_pipe2_lem_concrete :
    ((t' : Table) × (sys_pipe2 tables 20 21 (ok tt) stdio ≡ some (err emfile, t'))
      × ((j : ℕ) → table_get t' j ≡ table_get stdio j))
    ⊎ ((a b : ℕ) × (t' : Table) × (sys_pipe2 tables 20 21 (ok tt) stdio
          ≡ some (ok (pos a, pos b), t'))
        × (a ≢ b)
        × (table_get stdio a ≡ none)
        × (table_get stdio b ≡ none)
        × ((j : ℕ)
            → table_get t' j
              ≡ (if b == j then some 21 else if a == j then some 20 else table_get stdio j)))
sys_pipe2_lem_concrete = sys_pipe2_lem tables 20 21 stdio

copy_inner_lem_concrete :
    (n : Table) × (copy_inner tables stdio ≡ some n) × ((j : ℕ) → table_get n j ≡ table_get stdio j)
copy_inner_lem_concrete = copy_inner_lem tables stdio

clear_lem_concrete : table_get (clear tables stdio) 1 ≡ none
clear_lem_concrete = clear_lem tables stdio 1
