-- ===== src/Stdio/Tests.antt =====
-- A console with some bytes, and a reader that has nothing until its state is large enough.
use oscomp_test_listline.Prelude.{
  ℕ, zero, suc, ◌+◌, ◌≤◌, ◌<◌, ◌≡◌, refl, sym, List, [], ◌∷◌, map, none, some, ltb, min,
  if◌then◌else◌, length, take, drop, length-take, take-append-drop, codes, arith,
}
use oscomp_test_listline.Errno.{AxResult, ok}
use oscomp_test_listline.FdTable.Example.{Table, tables, table_get}
use oscomp_test_listline.Stdio.{Console, newline, read_raw, returns, read_blocked, init_stdio}
use oscomp_test_listline.Stdio.Reading.{read_raw_lem}
use oscomp_test_listline.Stdio.Waiting.{now, later, read_blocked-some, read_blocked-Ready}
use oscomp_test_listline.Stdio.Standard.{init_stdio_lem}

take_of_some : (n : ℕ) (c : List ℕ) → 0 < n → take n c ≡ [] → c ≡ []
take_of_some zero c h e = absurd (omega (arith, h))
take_of_some (suc n) [] h e = refl
take_of_some (suc n) (x ∷ c) h e = ground (arith, e)

-- The bytes that have arrived; three at a time at most are read.
abbrev queue : Console (List ℕ)
queue = record {
  read_bytes = λ n c. (take (min n 3) c, drop (min n 3) c);
  write_bytes = λ bytes c. c;
  arrived = λ c. c;
  read_bound = λ n c. omega (arith, length-take (min n 3) c);
  read_prefix = λ n c. sym (take-append-drop (min n 3) c);
  read_empty = λ n c big e. take_of_some (min n 3) c (omega (arith, big)) e;
}

typed : read_raw queue 5 (codes "ls -l\rx") ≡ some (ok (codes "ls -l"), codes "\rx")
unfolding read_raw
typed = refl

typed_line : read_raw queue 6 (codes "ls -l\rx") ≡ some (ok (codes "ls -l\n"), codes "x")
unfolding read_raw
typed_line = refl

read_raw_lem_example :
    (c' : List ℕ) × (read_raw queue 6 (codes "ls -l\rx")
      ≡ some (ok (map newline (take 6 (codes "ls -l\rx"))), c'))
    × (c' ≡ drop 6 (codes "ls -l\rx"))
read_raw_lem_example = read_raw_lem queue 6 (codes "ls -l\rx")

abbrev reader : ℕ → ℕ → AxResult (List ℕ) × ℕ
reader n b = if ltb b 2 then (ok [], b) else (ok (7 ∷ []), b)

abbrev schedule : List (ℕ → ℕ)
schedule = (λ b. b + 1) ∷ (λ b. b + 1) ∷ []

read_blocked-Ready_concrete : read_blocked reader 4 schedule 0 ≡ returns (ok (7 ∷ [])) 2
read_blocked-Ready_concrete = read_blocked-Ready reader 4 schedule 0 2 (7 ∷ []) (omega arith) refl (
    later (λ b. b + 1) ((λ b. b + 1) ∷ []) 0 refl
      (later (λ b. b + 1) [] 1 refl (now [] 2 (7 ∷ []) refl (omega arith))))

returned : read_blocked reader 4 schedule 0 ≡ returns (ok (7 ∷ [])) 2
unfolding read_blocked
returned = refl

read_blocked-some_concrete : 0 < length {A = ℕ} (7 ∷ [])
read_blocked-some_concrete = read_blocked-some reader 4 schedule 0 2 (7 ∷ []) (omega arith) returned

init_stdio_lem_concrete :
    (t : Table) × (init_stdio tables 10 11 12 ≡ some t)
    × (table_get t 0 ≡ some 10)
    × (table_get t 1 ≡ some 11)
    × (table_get t 2 ≡ some 12)
    × ((j : ℕ) → 3 ≤ j → table_get t j ≡ none)
init_stdio_lem_concrete = init_stdio_lem tables 10 11 12
