-- ===== src/Clone/Data.antt =====
-- The flags of `clone`, and the processes, tasks and shared resources that the calls on tasks work on.
use oscomp_test_listline.Prelude.{ℕ, ◌/◌, ◌%◌, ◌^◌, List, Option, Bool, ◌==◌, if◌then◌else◌}

-- `CloneFlags`, as bits of the argument.
abbrev pub contains : ℕ → ℕ → Bool
contains flags k = flags / 2 ^ k % 2 == 1

abbrev pub vm : ℕ → Bool
vm flags = contains flags 8

abbrev pub fs : ℕ → Bool
fs flags = contains flags 9

abbrev pub files : ℕ → Bool
files flags = contains flags 10

abbrev pub sighand : ℕ → Bool
sighand flags = contains flags 11

abbrev pub parent_flag : ℕ → Bool
parent_flag flags = contains flags 15

abbrev pub thread_flag : ℕ → Bool
thread_flag flags = contains flags 16

abbrev pub settls : ℕ → Bool
settls flags = contains flags 19

abbrev pub parent_settid : ℕ → Bool
parent_settid flags = contains flags 20

abbrev pub child_cleartid : ℕ → Bool
child_cleartid flags = contains flags 21

abbrev pub child_settid : ℕ → Bool
child_settid flags = contains flags 24

-- A process of axprocess and its `ProcessData`: the `Arc`s of the address space, of the signal actions and
-- of the resources of its namespace.
pub record Process : Type 0 where
  pub pid : ℕ
  pub parent : Option ℕ
  pub aspace : ℕ
  pub signal_actions : ℕ
  pub fd_table : ℕ
  pub current_dir : ℕ
  pub current_dir_path : ℕ
  pub exit_signal : Option ℕ

-- What the call sets in a `UspaceContext`.
pub record Context : Type 0 where
  pub sp : ℕ
  pub tls : ℕ
  pub retval : ℕ

-- A task with its `ThreadData`: `process` is the pid, and `page_table_root` the address space whose root
-- the task has.
pub record Task : Type 0 where
  pub tid : ℕ
  pub process : ℕ
  pub context : Context
  pub page_table_root : ℕ
  pub set_child_tid : Option ℕ
  pub clear_child_tid : ℕ

-- The processes, the tasks that were spawned, the words of user memory that were written, and what the
-- `Arc`s point to: tables of descriptors `T`, address spaces `M`, signal actions `S`, directories `D` and
-- paths `P`. The next task and the next `Arc` have the last two numbers.
pub record World (T M S D P : Type 0) : Type 0 where
  pub processes : List Process
  pub tasks : List Task
  pub written : List (ℕ × ℕ)
  pub fd_tables : ℕ → T
  pub spaces : ℕ → M
  pub actions : ℕ → S
  pub dirs : ℕ → D
  pub paths : ℕ → P
  pub next_tid : ℕ
  pub next : ℕ

module _ {B : Type 0} where
  abbrev pub put : (ℕ → B) → ℕ → B → ℕ → B
  put store i b j = if i == j then b else store j
