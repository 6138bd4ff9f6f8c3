-- ===== src/Futex/Waking.antt =====
-- What a wake does to the waiting tasks.
use oscomp_test_listline.Prelude.{
  ℕ, zero, suc, ◌+◌, ◌≡◌, refl, sym, ap, subst, ◌∙◌, inl, inr, List, [], ◌∷◌, none, some, Bool,
  true, false, ◌==◌, if◌then◌else◌, min, length, drop, drop_all, Bool-cases, Option-cases, arith,
}
use oscomp_test_listline.Errno.{LinuxResult, ok}
use oscomp_test_listline.Futex.{
  lookup, get, hold, WaitQueue, Futexes, Outcome, returns, set_queue, drop_guard_of, wake_loop,
  wake_found, futex_wake, command_of, sys_futex,
}
use oscomp_test_listline.Futex.WellFormed.{IsTable}
use oscomp_test_listline.Futex.Table.{guard_of, get_cases, drop_guard-entries}

-- What axtask promises of a wait queue: the first task in it is woken first.
pub record IsFifo {Q : Type 0} (wq : WaitQueue Q) : Type 0 where
  pub notify_none :
      (q : Q)
      → wq.waiting q ≡ []
      → ((wq.notify_one q).0 ≡ false) × (wq.waiting (wq.notify_one q).1 ≡ [])
  pub notify_some :
      (q : Q) (t : ℕ) (ts : List ℕ)
      → wq.waiting q ≡ t ∷ ts
      → ((wq.notify_one q).0 ≡ true) × (wq.waiting (wq.notify_one q).1 ≡ ts)

module _ {Q : Type 0} (wq : WaitQueue Q) (fifo : IsFifo wq) where
  loop_none :
      (n : ℕ) (q : Q)
      → (wq.notify_one q).0 ≡ false
      → wake_loop wq (suc n) q ≡ (0, (wq.notify_one q).1)
  unfolding wake_loop
  loop_none n q h = ground arith

  loop_some :
      (n : ℕ) (q : Q)
      → (wq.notify_one q).0 ≡ true
      → let (count, q') = wake_loop wq n (wq.notify_one q).1 in
        wake_loop wq (suc n) q ≡ (count + 1, q')
  unfolding wake_loop
  loop_some n q h = ground arith

  wake_loop_zero : (q : Q) → wake_loop wq 0 q ≡ (0, q)
  unfolding wake_loop
  wake_loop_zero q = refl

  wake_loop_lem :
      (n : ℕ) (q : Q) (ws : List ℕ)
      → wq.waiting q ≡ ws
      → ((wake_loop wq n q).0 ≡ min n (length ws)) × (wq.waiting (wake_loop wq n q).1 ≡ drop n ws)
  wake_loop_lem zero q ws h = (
    omega (arith, ap (λ p. p.0) (wake_loop_zero q)),
    ap (λ p. wq.waiting p.1) (wake_loop_zero q) ∙ h,
  )
  wake_loop_lem (suc n) q [] h =
      let (a, b) = fifo.notify_none q h in
      let step = loop_none n q a in
      (omega (arith, ap (λ p. p.0) step), ap (λ p. wq.waiting p.1) step ∙ b)
  wake_loop_lem (suc n) q (w ∷ ws) h =
      let (a, b) = fifo.notify_some q w ws h in
      let (c, d) = wake_loop_lem n (wq.notify_one q).1 ws b in
      let step = loop_some n q a in
      (omega (arith, ap (λ p. p.0) step, c), ap (λ p. wq.waiting p.1) step ∙ d)

  abbrev pub waiting_at : List (ℕ × ℕ) → (ℕ → Q) → ℕ → List ℕ
  waiting_at es queues a = elim (lookup a es) [ none ↦ [] | some i ↦ wq.waiting (queues i) ]

  waiting_at_set :
      (es : List (ℕ × ℕ)) (queues : ℕ → Q) (addr i b : ℕ) (q : Q)
      → ((k : ℕ) → lookup b es ≡ some k → lookup addr es ≡ some k → b ≡ addr)
      → lookup addr es ≡ some i
      → waiting_at es (λ j. if j == i then q else queues j) b
        ≡ (if b == addr then wq.waiting q else waiting_at es queues b)
  waiting_at_set es queues addr i b q d e = elim (Bool-cases (b == addr)) [
    | inl h ↦
        let same : b ≡ addr = ground arith in
        let there : lookup b es ≡ some i = ap (λ x. lookup x es) same ∙ e in ground (arith, there)
    | inr h ↦ elim (Option-cases (lookup b es)) [
      | inl n ↦ ground (arith, n)
      | inr (k, n) ↦ elim (Bool-cases (k == i)) [
        | inl z ↦
            let there : lookup addr es ≡ some k = e ∙ ap some (ground arith) in
            absurd (ground (arith, d k n there))
        | inr z ↦ ground (arith, n)
      ]
    ]
  ]

  -- The tasks that wait at an address, the first to be woken first.
  abbrev pub waiters : Futexes Q → ℕ → List ℕ
  waiters s a = waiting_at s.table.entries s.queues a

  sys_futex-wake :
      (s : Futexes Q) (tid addr op value : ℕ) (word : LinuxResult ℕ) (timeout : LinuxResult Bool)
      (value2 addr2 value3 : ℕ)
      → command_of wq op ≡ 1
      → sys_futex wq s tid addr word op value timeout value2 addr2 value3
        ≡ futex_wake wq s addr value
  unfolding sys_futex
  sys_futex-wake s tid addr op value word timeout value2 addr2 value3 c = ground (arith, c)

  -- The state after a wake at the address of queue `i`.
  abbrev woken : Futexes Q → ℕ → ℕ → Q → Futexes Q
  woken s addr i q =
      drop_guard_of wq (set_queue wq (record s { table = hold s.table (guard_of addr i) }) i q)
        (guard_of addr i)

  futex_wake_missing :
      (s : Futexes Q) (addr value : ℕ)
      → get s.table addr ≡ (none, s.table)
      → futex_wake wq s addr value ≡ (returns (ok 0), s)
  unfolding futex_wake
  futex_wake_missing s addr value h = ap (wake_found wq s value) h

  futex_wake_present :
      (s : Futexes Q) (addr value i : ℕ)
      → get s.table addr ≡ (some (guard_of addr i), hold s.table (guard_of addr i))
      → let (count, q) = wake_loop wq value (s.queues i) in
        futex_wake wq s addr value ≡ (returns (ok count), woken s addr i q)
  unfolding futex_wake
  futex_wake_present s addr value i h = ap (wake_found wq s value) h

  woken-entries :
      (s : Futexes Q) (addr i : ℕ) (q : Q)
      → IsTable s.table
      → lookup addr s.table.entries ≡ some i
      → (woken s addr i q).table.entries ≡ s.table.entries
  unfolding drop_guard_of
  woken-entries s addr i q t e =
      drop_guard-entries (hold s.table (guard_of addr i)) (guard_of addr i)
        (wq.is_empty ((set_queue wq s i q).queues i)) (e, t.held) (inl refl)

  waiters-woken :
      (s : Futexes Q) (addr i b : ℕ) (q : Q)
      → IsTable s.table
      → lookup addr s.table.entries ≡ some i
      → waiters (woken s addr i q) b ≡ (if b == addr then wq.waiting q else waiters s b)
  unfolding drop_guard_of
  waiters-woken s addr i b q t e =
      ap (λ es. waiting_at es (λ j. if j == i then q else s.queues j) b)
        (woken-entries s addr i q t e)
      ∙ waiting_at_set s.table.entries s.queues addr i b q (λ k n m. t.distinct b addr k n m) e

  -- What a wake answers and leaves.
  abbrev Woken : Futexes Q → ℕ → ℕ → Outcome × Futexes Q → Type 0
  Woken s addr value p =
      (p.0 ≡ returns (ok (min value (length (waiters s addr)))))
      × ((b : ℕ) → waiters p.1 b ≡ (if b == addr then drop value (waiters s addr) else waiters s b))

  -- FUTEX_WAKE, private or not, wakes as many of the tasks at the address as it is asked to, or all if
  -- there are fewer, the first first; it answers how many, and the tasks that wait at other addresses
  -- still do.
  pub sys_futex_wakes :
      (s : Futexes Q) (tid addr op value : ℕ) (word : LinuxResult ℕ) (timeout : LinuxResult Bool)
      (value2 addr2 value3 : ℕ)
      → IsTable s.table
      → command_of wq op ≡ 1
      → let (r, s') = sys_futex wq s tid addr word op value timeout value2 addr2 value3 in
        (r ≡ returns (ok (min value (length (waiters s addr)))))
        × ((b : ℕ)
            → waiters s' b ≡ (if b == addr then drop value (waiters s addr) else waiters s b))
  sys_futex_wakes s tid addr op value word timeout value2 addr2 value3 t c =
      let route = sys_futex-wake s tid addr op value word timeout value2 addr2 value3 c in
      elim (get_cases s.table addr) [
        | inl (e, q) ↦
            let empty : waiters s addr ≡ [] = ground (arith, e) in
            let dropped : drop value (waiters s addr) ≡ [] =
              ap (drop value) empty ∙ drop_all value [] (omega arith) in
            let none_woken : 0 ≡ min value (length (waiters s addr)) =
              omega (arith, ap length empty) in
            subst (Woken s addr value) (sym (route ∙ futex_wake_missing s addr value q)) (
              ap (λ n. returns (ok n)) none_woken,
              λ b. elim (Bool-cases (b == addr)) [
                | inl h ↦
                    let same : b ≡ addr = ground arith in
                    let here_too : waiters s b ≡ [] = ap (waiters s) same ∙ empty in
                    ground (arith, here_too, dropped)
                | inr h ↦ ground arith
              ],
            )
        | inr (i, e, q) ↦
            let at : waiters s addr ≡ wq.waiting (s.queues i) = ground (arith, e) in
            let (woke, left) = wake_loop_lem value (s.queues i) (waiters s addr) (sym at) in
            subst (Woken s addr value) (sym (route ∙ futex_wake_present s addr value i q)) (
              ap (λ n. returns (ok n)) woke,
              λ b.
                  waiters-woken s addr i b (wake_loop wq value (s.queues i)).1 t e
                  ∙ ap (λ ws. if b == addr then ws else waiters s b) left,
            )
      ]
