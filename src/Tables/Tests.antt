-- ===== src/Tables/Tests.antt =====
-- Threads of three processes, two of which are one group.
use oscomp_test_listline.Prelude.{◌≡◌, refl, inl, [], ◌∷◌, ◌==◌, if◌then◌else◌}
use oscomp_test_listline.Tables.{Tables, Processes, insert_key, add_thread_to_table}
use oscomp_test_listline.Tables.Linked.{IsLinked, add_thread_to_table-IsLinked}

abbrev processes : Processes
processes = record {
  process = λ tid. if tid == 4 then 3 else tid;
  group = λ pid. if pid == 3 then 2 else pid;
  session = λ pgid. 1;
}

abbrev empty : Tables
empty = record {
  thread_table = [];
  process_table = [];
  process_group_table = [];
  session_table = [];
}

empty-IsLinked : IsLinked processes empty
empty-IsLinked = record {
  threads = λ i. inl refl;
  processes = λ i. inl refl;
  groups = λ i. inl refl;
}

add_thread_to_table-IsLinked_example :
    IsLinked processes (add_thread_to_table processes (add_thread_to_table processes empty 2) 4)
add_thread_to_table-IsLinked_example =
    add_thread_to_table-IsLinked processes (add_thread_to_table processes empty 2) 4
      (add_thread_to_table-IsLinked processes empty 2 empty-IsLinked)

second_of_group :
    (add_thread_to_table processes (add_thread_to_table processes empty 2) 4).process_table
    ≡ 3 ∷ 2 ∷ []
unfolding add_thread_to_table insert_key
second_of_group = refl
