-- ===== src/Tables/Linked.antt =====
-- What is in the tables together with a thread.
use oscomp_test_listline.Prelude.{
  ℕ, ◌≡◌, ◌⊎◌, sym, subst, ap, ◌∙◌, inl, inr, List, true, false, ◌==◌, ◌||◌, Bool-cases, arith,
}
use oscomp_test_listline.Tables.{contains_key, insert_key, Tables, Processes, add_thread_to_table}

-- Whoever is in a table, his process, group or session is in the next one.
pub record IsLinked (ps : Processes) (t : Tables) : Type 0 where
  pub threads :
      (tid : ℕ)
      → (contains_key tid t.thread_table ≡ false)
        ⊎ (contains_key (ps.process tid) t.process_table ≡ true)
  pub processes :
      (pid : ℕ)
      → (contains_key pid t.process_table ≡ false)
        ⊎ (contains_key (ps.group pid) t.process_group_table ≡ true)
  pub groups :
      (pgid : ℕ)
      → (contains_key pgid t.process_group_table ≡ false)
        ⊎ (contains_key (ps.session pgid) t.session_table ≡ true)

contains_key-insert_key :
    (k j : ℕ) (ks : List ℕ) → contains_key j (insert_key k ks) ≡ ((k == j) || contains_key j ks)
unfolding insert_key
contains_key-insert_key k j ks = elim (Bool-cases (contains_key k ks)) [
  | inl there ↦ elim (Bool-cases (k == j)) [
    | inl same ↦
        let equal : k ≡ j = ground (arith, same) in
        let held : contains_key j ks ≡ true = ap (λ x. contains_key x ks) (sym equal) ∙ there in
        ground (arith, there, same, held)
    | inr different ↦ ground (arith, there, different)
  ]
  | inr missing ↦ ground (arith, missing)
]

inserted : (k : ℕ) (ks : List ℕ) → contains_key k (insert_key k ks) ≡ true
inserted k ks = ground (arith, contains_key-insert_key k k ks)

module _ (ps : Processes) where
  link :
      (f : ℕ → ℕ) (k : ℕ) (ks js : List ℕ)
      → ((i : ℕ) → (contains_key i ks ≡ false) ⊎ (contains_key (f i) js ≡ true))
      → contains_key (f k) js ≡ true
      → (i : ℕ) → (contains_key i (insert_key k ks) ≡ false) ⊎ (contains_key (f i) js ≡ true)
  link f k ks js h there i = elim (Bool-cases (k == i)) [
    | inl same ↦
        let equal : k ≡ i = ground (arith, same) in
        inr (ap (λ x. contains_key (f x) js) (sym equal) ∙ there)
    | inr different ↦ ground (arith, h i, contains_key-insert_key k i ks, different)
  ]

  grow :
      (f : ℕ → ℕ) (k : ℕ) (ks js : List ℕ)
      → ((i : ℕ) → (contains_key i ks ≡ false) ⊎ (contains_key (f i) js ≡ true))
      → (i : ℕ) → (contains_key i ks ≡ false) ⊎ (contains_key (f i) (insert_key k js) ≡ true)
  grow f k ks js h i = ground (arith, h i, contains_key-insert_key k (f i) js)

  -- `add_thread_to_table` keeps the tables linked: whenever a thread is in the table of threads, its process is
  -- in the table of processes; and so for a process and its group, and a group and its session. This is so as
  -- long as a process stays in its group and a group in its session.
  pub add_thread_to_table-IsLinked :
      (t : Tables) (tid : ℕ) → IsLinked ps t → IsLinked ps (add_thread_to_table ps t tid)
  unfolding add_thread_to_table
  add_thread_to_table-IsLinked t tid c =
      let pid = ps.process tid in
      let pgid = ps.group pid in
      let sid = ps.session pgid in
      let thread_in_new =
        link ps.process tid t.thread_table (insert_key pid t.process_table)
          (grow ps.process pid t.thread_table t.process_table c.threads)
          (inserted pid t.process_table) in
      let process_in_new =
        link ps.group pid t.process_table (insert_key pgid t.process_group_table)
          (grow ps.group pgid t.process_table t.process_group_table c.processes)
          (inserted pgid t.process_group_table) in
      elim (Bool-cases (contains_key pid t.process_table)) [
        | inl p ↦
            let r : IsLinked ps (record t { thread_table = insert_key tid t.thread_table }) =
              record {
                threads = link ps.process tid t.thread_table t.process_table c.threads p;
                processes = c.processes;
                groups = c.groups;
              } in
            subst (IsLinked ps) (ground (arith, p)) r
        | inr p ↦ elim (Bool-cases (contains_key pgid t.process_group_table)) [
          | inl g ↦
              let r : IsLinked ps (record t {
                thread_table = insert_key tid t.thread_table;
                process_table = insert_key pid t.process_table;
              }) =
                record {
                  threads = thread_in_new;
                  processes = link ps.group pid t.process_table t.process_group_table c.processes g;
                  groups = c.groups;
                } in
              subst (IsLinked ps) (ground (arith, p, g)) r
          | inr g ↦ elim (Bool-cases (contains_key sid t.session_table)) [
            | inl s ↦
                let r : IsLinked ps (record t {
                  thread_table = insert_key tid t.thread_table;
                  process_table = insert_key pid t.process_table;
                  process_group_table = insert_key pgid t.process_group_table;
                }) =
                  record {
                    threads = thread_in_new;
                    processes = process_in_new;
                    groups = link ps.session pgid t.process_group_table t.session_table c.groups s;
                  } in
                subst (IsLinked ps) (ground (arith, p, g, s)) r
            | inr s ↦
                let r : IsLinked ps (record t {
                  thread_table = insert_key tid t.thread_table;
                  process_table = insert_key pid t.process_table;
                  process_group_table = insert_key pgid t.process_group_table;
                  session_table = insert_key sid t.session_table;
                }) =
                  record {
                    threads = thread_in_new;
                    processes = process_in_new;
                    groups =
                        link ps.session pgid t.process_group_table (insert_key sid t.session_table)
                          (grow ps.session sid t.process_group_table t.session_table c.groups)
                          (inserted sid t.session_table);
                  } in
                subst (IsLinked ps) (ground (arith, p, g, s)) r
          ]
        ]
      ]
