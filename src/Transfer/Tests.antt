-- ===== src/Transfer/Tests.antt =====
-- Transfers over a state that is what is left of a source and what a sink holds.
use oscomp_test_listline.Prelude.{
  ℕ, ◌+◌, ◌≤◌, ◌≡◌, refl, List, [], ◌∷◌, ◌++◌, some, if◌then◌else◌, ◌==◌, arith, length, take, drop,
  min,
}
use oscomp_test_listline.Errno.{ok, err, efault}
use oscomp_test_listline.Transfer.{Iovec, Io, Ends, sys_move, sys_vector, do_sendfile}
use oscomp_test_listline.Transfer.Vectors.{total_len, sys_vector_le, sys_vector_loses_progress}
use oscomp_test_listline.Transfer.Copying.{IsStream, do_sendfile_all, do_sendfile_short}

-- A file with so many bytes left; the memory at address 0 is bad.
abbrev counter : Io ℕ
counter = record {
  slice = λ x buf len. if buf == 0 then err efault else ok tt;
  file = λ x. ok tt;
  move = λ x buf len. (ok (min x len), x + 0);
}

counter_bounded : (x : ℕ) (buf len n : ℕ) → (counter.move x buf len).0 ≡ ok n → n ≤ len
counter_bounded x buf len n h = ground arith

abbrev good : Iovec
good = record { iov_base = 100; iov_len = 4 }

abbrev bad : Iovec
bad = record { iov_base = 0; iov_len = 4 }

moved : (sys_vector counter 6 (ok (good ∷ good ∷ [])) 2).0 ≡ ok 8
unfolding sys_vector
moved = refl

sys_vector_le_example : (8 ≤ total_len (good ∷ good ∷ [])) × (◌≤◌ 2 1024)
sys_vector_le_example = sys_vector_le counter counter_bounded 6 (good ∷ good ∷ []) 2 8 moved

sys_vector_loses_progress_concrete : sys_vector counter 6 (ok (good ∷ bad ∷ [])) 2 ≡ (err efault, 6)
unfolding sys_move
sys_vector_loses_progress_concrete =
    sys_vector_loses_progress counter 6 6 6 good bad [] 2 efault (omega arith) (omega arith)
      (omega arith) refl refl

abbrev Both : Type 0
Both = List ℕ × List ℕ

abbrev copy_all : Ends Both
copy_all = record {
  read = λ (a, b) n. (ok (take n a), (drop n a, b));
  write = λ (a, b) bs. (ok (length bs), (a, b ++ bs));
}

abbrev copy_one : Ends Both
copy_one = record {
  read = λ (a, b) n. (ok (take n a), (drop n a, b));
  write = λ (a, b) bs. (ok 1, (a, b ++ take 1 bs));
}

copy_all-IsStream : IsStream copy_all (λ s. s.0) (λ s. s.1)
copy_all-IsStream = record {
  reads = λ x n. refl;
  source-read = λ x n. refl;
  sink-read = λ x n. refl;
  writes = λ x bs. refl;
  source-write = λ x bs. refl;
  sink-write = λ x bs. refl;
}

do_sendfile_all_concrete :
    (x' : Both) × (do_sendfile copy_all 4 (1 ∷ 2 ∷ 3 ∷ [], 9 ∷ []) 0 ≡ some (ok 3, x'))
    × (x'.1 ≡ 9 ∷ 1 ∷ 2 ∷ 3 ∷ [])
do_sendfile_all_concrete =
    do_sendfile_all copy_all (λ s. s.0) (λ s. s.1) copy_all-IsStream 4 (1 ∷ 2 ∷ 3 ∷ [], 9 ∷ []) 0
      (omega arith)

do_sendfile_short_concrete :
    do_sendfile copy_one 4 (1 ∷ 2 ∷ 3 ∷ [], []) 0 ≡ some (ok 0, ([], 1 ∷ []))
do_sendfile_short_concrete =
    do_sendfile_short copy_one 3 (1 ∷ 2 ∷ 3 ∷ [], []) ([], []) ([], 1 ∷ []) 0 1 (1 ∷ 2 ∷ 3 ∷ [])
      refl refl (omega arith)
