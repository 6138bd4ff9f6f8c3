-- ===== src/Tables.antt =====
-- `add_thread_to_table` of core/src/task.rs. An entry of a table of weak references is its key, as long as what
-- it refers to is alive.
pub mod Linked
mod Tests
use oscomp_test_listline.Prelude.{ℕ, List, [], ◌∷◌, Bool, true, false, ◌==◌, ◌||◌, if◌then◌else◌}

abbrev pub contains_key : ℕ → List ℕ → Bool
contains_key k [] = false
contains_key k (j ∷ js) = (j == k) || contains_key k js

-- `insert` of a weak map, which replaces the entry of a key.
unfoldable pub insert_key : ℕ → List ℕ → List ℕ
insert_key k ks = if contains_key k ks then ks else k ∷ ks

pub record Tables : Type 0 where
  pub thread_table : List ℕ
  pub process_table : List ℕ
  pub process_group_table : List ℕ
  pub session_table : List ℕ

-- The process of a thread, the group of a process and the session of a group, in axprocess.
pub record Processes : Type 0 where
  pub process : ℕ → ℕ
  pub group : ℕ → ℕ
  pub session : ℕ → ℕ

module _ (ps : Processes) where
  unfoldable pub add_thread_to_table : Tables → ℕ → Tables
  unfolding insert_key
  add_thread_to_table t tid =
      let pid = ps.process tid in
      let pgid = ps.group pid in
      let sid = ps.session pgid in
      let t1 = record t { thread_table = insert_key tid t.thread_table } in
      if contains_key pid t.process_table
      then t1
      else (let t2 = record t1 { process_table = insert_key pid t.process_table } in
          if contains_key pgid t.process_group_table
          then t2
          else (let t3 = record t2 {
            process_group_table = insert_key pgid t.process_group_table;
          } in
              if contains_key sid t.session_table
              then t3
              else record t3 { session_table = insert_key sid t.session_table }))
