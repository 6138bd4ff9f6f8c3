-- ===== src/Futex.antt =====
-- core/src/futex.rs, the table of wait queues, and `sys_futex` of api/src/imp/futex.rs. Each part of a
-- call up to the point where the task waits is one step. The wait queue is axtask's.
pub mod Table
pub mod WellFormed
pub mod Waking
mod Tests
use oscomp_test_listline.Prelude.{
  ℕ, zero, suc, ◌+◌, ◌-◌, ◌*◌, ◌/◌, ◌%◌, ◌≡◌, List, [], ◌∷◌, ◌++◌, Option, none, some, Bool, true,
  false, not, ◌==◌, ◌&&◌, ◌||◌, if◌then◌else◌, min, length, take, drop,
}
use oscomp_test_listline.Errno.{LinuxError, eagain, enosys, LinuxResult, ok, err}

-- An `Arc<WaitQueue>` is the number of the queue; a guard also has the address as its key.
pub record WaitQueueGuard : Type 0 where
  pub key : ℕ
  pub inner : ℕ

-- The table, the guards that are alive (each holds an `Arc`), and the number of the next queue made.
pub record FutexTable : Type 0 where
  pub entries : List (ℕ × ℕ)
  pub guards : List WaitQueueGuard
  pub next : ℕ

unfoldable pub new_table : FutexTable
new_table = record { entries = []; guards = []; next = 0 }

unfoldable pub lookup : ℕ → List (ℕ × ℕ) → Option ℕ
lookup a [] = none
lookup a ((b, i) ∷ es) = if b == a then some i else lookup a es

unfoldable pub remove : ℕ → List (ℕ × ℕ) → List (ℕ × ℕ)
remove a [] = []
remove a ((b, i) ∷ es) = let rest = remove a es in if b == a then rest else (b, i) ∷ rest

abbrev pub hold : FutexTable → WaitQueueGuard → FutexTable
hold t g = record t { guards = g ∷ t.guards }

-- `FutexTable::get`
unfoldable pub get : FutexTable → ℕ → Option WaitQueueGuard × FutexTable
unfolding lookup
get t addr = elim (lookup addr t.entries) [
  | none ↦ (none, t)
  | some i ↦ let g : WaitQueueGuard = record { key = addr; inner = i } in (some g, hold t g)
]

unfoldable pub get_or_insert : FutexTable → ℕ → WaitQueueGuard × FutexTable
unfolding lookup
get_or_insert t addr = elim (lookup addr t.entries) [
  | none ↦
      let g : WaitQueueGuard = record { key = addr; inner = t.next } in
      (g, hold (record t { entries = (addr, t.next) ∷ t.entries; next = t.next + 1 }) g)
  | some i ↦ let g : WaitQueueGuard = record { key = addr; inner = i } in (g, hold t g)
]

unfoldable pub count_entries : ℕ → List (ℕ × ℕ) → ℕ
count_entries i [] = 0
count_entries i ((a, j) ∷ es) = (if j == i then 1 else 0) + count_entries i es

unfoldable pub count_guards : ℕ → List WaitQueueGuard → ℕ
count_guards i [] = 0
count_guards i (g ∷ gs) = (if g.inner == i then 1 else 0) + count_guards i gs

-- `Arc::strong_count` of a queue: the entries and the guards that hold it.
unfoldable pub strong_count : FutexTable → ℕ → ℕ
unfolding count_entries count_guards
strong_count t i = count_entries i t.entries + count_guards i t.guards

unfoldable pub release : WaitQueueGuard → List WaitQueueGuard → List WaitQueueGuard
release g [] = []
release g (h ∷ gs) =
    let rest = release g gs in if (h.key == g.key) && (h.inner == g.inner) then gs else h ∷ rest

-- `Drop for WaitQueueGuard`: the body runs while the guard still holds its `Arc`.
unfoldable pub drop_guard : FutexTable → WaitQueueGuard → Bool → FutexTable
unfolding strong_count remove release
drop_guard t g is_empty =
    let entries' =
      if (strong_count t g.inner == 1) && is_empty then remove g.key t.entries else t.entries in
    record t { entries = entries'; guards = release g t.guards }

-- What the code uses of `WaitQueue`; `waiting` are the tasks in it, the first to be woken first.
pub record WaitQueue (Q : Type 0) : Type 0 where
  pub waiting : Q → List ℕ
  pub is_empty : Q → Bool
  pub enqueue : ℕ → Q → Q
  pub notify_one : Q → Bool × Q
  pub requeue : ℕ → Q → Q → ℕ × Q × Q
  pub requeue_self : ℕ → Q → ℕ × Q

pub record Futexes (Q : Type 0) : Type 0 where
  pub table : FutexTable
  pub queues : ℕ → Q

-- A call returns, or waits on a guard's queue, with a timeout or without one.
pub data Outcome : Type 0 where
  returns : LinuxResult ℕ → Outcome
  waits : WaitQueueGuard → Bool → Outcome

abbrev pub or_none : {A : Type 0} → Option A → (A → ℕ) → ℕ
or_none none f = 0
or_none (some a) f = f a

module _ {Q : Type 0} (wq : WaitQueue Q) where
  abbrev pub set_queue : Futexes Q → ℕ → Q → Futexes Q
  set_queue s i q = record s { queues = λ j. if j == i then q else s.queues j }

  unfoldable pub drop_guard_of : Futexes Q → WaitQueueGuard → Futexes Q
  drop_guard_of s g = record s { table = drop_guard s.table g (wq.is_empty (s.queues g.inner)) }

  -- `for _ in 0..value { if !wq.notify_one(false) { break; } count += 1; }`
  unfoldable pub wake_loop : ℕ → Q → ℕ × Q
  wake_loop zero q = (0, q)
  wake_loop (suc n) q =
      let (woken, q') = wq.notify_one q in
      elim woken [
        | true ↦ (let (count, q'') = wake_loop n q' in (count + 1, q''))
        | false ↦ (0, q')
      ]

  -- `word` is what `uaddr` points to, `timeout` whether the pointer to a timeout is not null, or the error
  -- of reading it; `tid` is the caller.
  unfoldable pub futex_wait :
      Futexes Q → ℕ → ℕ → LinuxResult ℕ → ℕ → LinuxResult Bool → Outcome × Futexes Q
  futex_wait s tid addr (err e) value timeout = (returns (err e), s)
  futex_wait s tid addr (ok word) value timeout =
      if not (word == value)
      then (returns (err eagain), s)
      else (let (g, t) = get_or_insert s.table addr in
          let s' = record s { table = t } in
          elim timeout [
            | err e ↦ (returns (err e), drop_guard_of s' g)
            | ok timed ↦ (waits g timed, set_queue s' g.inner (wq.enqueue tid (s.queues g.inner)))
          ])

  -- When the wait is over, by a wake or by the timeout.
  unfoldable pub finish_wait : Futexes Q → WaitQueueGuard → Outcome × Futexes Q
  finish_wait s g = (returns (ok 0), drop_guard_of s g)

  -- A wake after `get`.
  abbrev pub wake_found : Futexes Q → ℕ → Option WaitQueueGuard × FutexTable → Outcome × Futexes Q
  wake_found s value (none, t) = (returns (ok 0), record s { table = t })
  wake_found s value (some g, t) =
      let (count, q) = wake_loop value (s.queues g.inner) in
      (returns (ok count), drop_guard_of (set_queue (record s { table = t }) g.inner q) g)

  unfoldable pub futex_wake : Futexes Q → ℕ → ℕ → Outcome × Futexes Q
  futex_wake s addr value = wake_found s value (get s.table addr)

  -- Moves waiters between the queues of two guards, which may be one queue.
  unfoldable pub requeue_between : Futexes Q → ℕ → ℕ → ℕ → ℕ × Futexes Q
  requeue_between s n i j =
      if i == j
      then (let (moved, q) = wq.requeue_self n (s.queues i) in (moved, set_queue s i q))
      else (let (moved, q, r) = wq.requeue n (s.queues i) (s.queues j) in
          (moved, set_queue (set_queue s i q) j r))

  unfoldable pub futex_requeue : Futexes Q → ℕ → ℕ → ℕ → ℕ → Outcome × Futexes Q
  futex_requeue s addr value addr2 value2 =
      let (found, t) = get s.table addr in
      let (g2, t2) = get_or_insert t addr2 in
      let s2 = record s { table = t2 } in
      elim found [
        | none ↦ (returns (ok 0), drop_guard_of s2 g2)
        | some g ↦
            (let (count, q) = wake_loop value (s.queues g.inner) in
              let s3 = set_queue s2 g.inner q in
              let (moved, s4) = requeue_between s3 value2 g.inner g2.inner in
              if count == value
              then (returns (ok (count + moved)), drop_guard_of (drop_guard_of s4 g2) g)
              else (returns (ok count), drop_guard_of (drop_guard_of s3 g2) g))
      ]

  -- `futex_op & FUTEX_CMD_MASK`: without the bits 7 and 8.
  abbrev pub command_of : ℕ → ℕ
  command_of op = op / 512 * 512 + op % 128

  -- The commands are FUTEX_WAIT, FUTEX_WAKE, FUTEX_REQUEUE and FUTEX_CMP_REQUEUE.
  unfoldable pub sys_futex :
      Futexes Q → ℕ → ℕ → LinuxResult ℕ → ℕ → ℕ → LinuxResult Bool → ℕ → ℕ → ℕ → Outcome × Futexes Q
  sys_futex s tid addr word op value timeout value2 addr2 value3 =
      let command = command_of op in
      if command == 0
      then futex_wait s tid addr word value timeout
      else if command == 1
      then futex_wake s addr value
      else if command == 3
      then futex_requeue s addr value addr2 value2
      else if command == 4
      then elim word [
        | err e ↦ (returns (err e), s)
        | ok w ↦
            if not (w == value3)
            then (returns (err eagain), s)
            else futex_requeue s addr value addr2 value2
      ]
      else (returns (err enosys), s)
