-- ===== src/Futex/Tests.antt =====
-- Futexes whose queues are lists of tasks, at the addresses 64 and 72.
use oscomp_test_listline.Prelude.{
  ℕ, ◌≡◌, refl, List, [], ◌∷◌, ◌++◌, inl, some, Bool, true, false, ◌==◌, if◌then◌else◌, min, length,
  take, drop, arith,
}
use oscomp_test_listline.Errno.{eagain, ok, err}
use oscomp_test_listline.Futex.{
  FutexTable, new_table, lookup, get, get_or_insert, drop_guard, WaitQueue, Futexes, returns,
  wake_loop, futex_wait, futex_requeue, requeue_between, sys_futex,
}
use oscomp_test_listline.Futex.Table.{
  Reach, here, next, inserting, dropping, guard_of, Reach-new-lookup,
}
use oscomp_test_listline.Futex.Waking.{IsFifo, waiters, sys_futex_wakes}
use oscomp_test_listline.Futex.WellFormed.{IsTable, Reach-IsTable}

abbrev notify_one : List ℕ → Bool × List ℕ
notify_one [] = (false, [])
notify_one (t ∷ ts) = (true, ts)

abbrev is_nil : List ℕ → Bool
is_nil [] = true
is_nil (t ∷ ts) = false

abbrev lists : WaitQueue (List ℕ)
lists = record {
  waiting = λ q. q;
  is_empty = is_nil;
  enqueue = λ t q. q ++ (t ∷ []);
  notify_one = notify_one;
  requeue = λ n q r. (min n (length q), drop n q, r ++ take n q);
  requeue_self = λ n q. (min n (length q), drop n q ++ take n q);
}

lists-IsFifo : IsFifo lists
lists-IsFifo = record {
  notify_none = λ q h. rw h (refl, refl);
  notify_some = λ q t ts h. rw h (refl, refl);
}

-- After a task has waited at 64 and been woken, the address still has queue 0.
abbrev one_wait : FutexTable
one_wait = record { entries = (64, 0) ∷ []; guards = guard_of 64 0 ∷ []; next = 1 }

one_wait-Reach : Reach new_table one_wait
unfolding new_table get_or_insert
one_wait-Reach = next here (inserting 64 refl)

Reach-new-lookup_example : lookup 64 (drop_guard one_wait (guard_of 64 0) true).entries ≡ some 0
unfolding lookup
Reach-new-lookup_example =
    Reach-new-lookup 64 0 one_wait-Reach (next here (dropping (guard_of 64 0) true (inl refl) refl))
      refl

-- Three tasks wait at 64.
abbrev three_and_one : Futexes (List ℕ)
three_and_one = record { table = one_wait; queues = λ i. if i == 0 then 5 ∷ 6 ∷ 7 ∷ [] else [] }

wait_changed :
    (sys_futex lists three_and_one 9 64 (ok 1) 128 2 (ok false) 0 0 0).0 ≡ returns (err eagain)
unfolding sys_futex futex_wait
wait_changed = refl

requeue_two : (sys_futex lists three_and_one 9 64 (ok 1) 131 1 (ok false) 5 72 0).0 ≡ returns (ok 3)
unfolding sys_futex futex_requeue get get_or_insert wake_loop requeue_between lookup
requeue_two = refl

sys_futex_wakes_example :
    let (r, s') = sys_futex lists three_and_one 9 64 (ok 1) 129 2 (ok false) 0 0 0 in
    (r ≡ returns (ok (min 2 (length (waiters lists lists-IsFifo three_and_one 64)))))
    × ((b : ℕ)
        → waiters lists lists-IsFifo s' b ≡ (
            if b == 64
            then drop 2 (waiters lists lists-IsFifo three_and_one 64)
            else waiters lists lists-IsFifo three_and_one b))
sys_futex_wakes_example =
    sys_futex_wakes lists lists-IsFifo three_and_one 9 64 129 2 (ok 1) (ok false) 0 0 0
      (Reach-IsTable one_wait-Reach) (omega arith)

Reach-IsTable_example : IsTable one_wait
Reach-IsTable_example = Reach-IsTable one_wait-Reach
