-- ===== src/Wait.antt =====
-- `sys_waitpid` of api/src/imp/task/wait.rs. Processes, their children and their end are the crate
-- axprocess's; a child is seen through the getters that the call uses.
pub mod Reaping
mod Tests
use oscomp_test_listline.Prelude.{
  ℕ, ◌+◌, ◌/◌, ◌%◌, ◌^◌, List, [], ◌∷◌, Option, none, some, Bool, true, false, not, ◌&&◌, ◌||◌, ltb,
  ◌==◌, if◌then◌else◌,
}
use oscomp_test_listline.Prelude.Int.{ℤ, pos, negsuc}
use oscomp_test_listline.Errno.{LinuxError, echild, LinuxResult, Result, ok, err, ◌>>=◌}

-- `pid()`, `group().pgid()` and the field `exit_signal` of the child's data.
pub record Process : Type 0 where
  pub pid : ℕ
  pub pgid : ℕ
  pub exit_signal : Option ℕ

abbrev pub sigchld : ℕ
sigchld = 17

-- `ProcessData::is_clone_child` of core/src/task.rs: any other signal than SIGCHLD, or none.
unfoldable pub is_clone_child : Process → Bool
is_clone_child p = elim p.exit_signal [ none ↦ true | some s ↦ not (s == sigchld) ]

-- The bits of `WaitOptions` that the call tests.
abbrev pub has_bit : ℕ → ℕ → Bool
has_bit options k = options / 2 ^ k % 2 == 1

abbrev pub wnohang : ℕ → Bool
wnohang options = has_bit options 0

abbrev pub wnowait : ℕ → Bool
wnowait options = has_bit options 24

abbrev pub wall : ℕ → Bool
wall options = has_bit options 30

abbrev pub wclone : ℕ → Bool
wclone options = has_bit options 31

pub data WaitPid : Type 0 where
  any : WaitPid
  one : ℕ → WaitPid
  group : ℕ → WaitPid

unfoldable pub applies : WaitPid → Process → Bool
applies any child = true
applies (one pid) child = child.pid == pid
applies (group pgid) child = child.pgid == pgid

-- The first argument of the call; `own` is the caller's process group.
unfoldable pub wait_pid : ℕ → ℤ → WaitPid
wait_pid own (negsuc n) = if n == 0 then any else group (n + 1)
wait_pid own (pos n) = if n == 0 then group own else one n

abbrev pub same : Bool → Bool → Bool
same true b = b
same false b = not b

-- The filters on the children.
unfoldable pub selects : WaitPid → ℕ → Process → Bool
unfolding applies is_clone_child
selects w options child =
    applies w child && (wall options || same (wclone options) (is_clone_child child))

unfoldable pub select : WaitPid → ℕ → List Process → List Process
unfolding selects
select w options [] = []
select w options (c ∷ cs) =
    if selects w options c then c ∷ select w options cs else select w options cs

-- The ends of children at one moment: the exit code of each zombie.
abbrev pub Ends : Type 0
Ends = ℕ → Option ℤ

-- `children.iter().find(|child| child.is_zombie())`, with its exit code.
unfoldable pub find_zombie : Ends → List Process → Option (Process × ℤ)
find_zombie ends [] = none
find_zombie ends (c ∷ cs) = elim (ends c.pid) [
  | some code ↦ some (c, code)
  | none ↦ find_zombie ends cs
]

-- What a call does: the child that it frees, the number that it stores, and its result.
pub record Reply : Type 0 where
  pub freed : Option ℕ
  pub stored : Option ℤ
  pub value : ℕ

pub data Waiting : Type 0 where
  returns : LinuxResult Reply → Waiting
  blocks : Waiting

-- `exit_code` says whether the pointer is not null.
unfoldable pub reap : ℕ → Bool → Process × ℤ → Reply
reap options exit_code (child, code) = record {
  freed = if wnowait options then none else some child.pid;
  stored = if exit_code then some code else none;
  value = child.pid;
}

-- The loop. Its passes see the ends of children at the moments of the schedule, in order: the first at
-- once, each later one after `child_exit_wq.wait()` has returned; the call blocks when there is none.
unfoldable pub wait_loop : ℕ → Bool → List Process → List Ends → Waiting
unfolding find_zombie reap
wait_loop options exit_code children [] = blocks
wait_loop options exit_code children (ends ∷ schedule) = elim (find_zombie ends children) [
  | some found ↦ returns (ok (reap options exit_code found))
  | none ↦ elim (wnohang options) [
    | true ↦ returns (ok (record { freed = none; stored = none; value = 0 }))
    | false ↦ wait_loop options exit_code children schedule
  ]
]

abbrev pub is_nil {ℓ} : {A : Type ℓ} → List A → Bool
is_nil [] = true
is_nil (x ∷ xs) = false

abbrev pub start {ℓ} : {A : Type ℓ} → LinuxResult A → (A → Waiting) → Waiting
start (ok a) f = f a
start (err e) f = returns (err e)

-- Every child has its data, which the code unwraps. `own` is the caller's group, `children` its children, `exit_code_ptr` the result of
-- `nullable!(exit_code_ptr.get_as_mut())`.
unfoldable pub sys_waitpid : ℕ → List Process → ℤ → LinuxResult Bool → ℕ → List Ends → Waiting
unfolding wait_pid select wait_loop
sys_waitpid own children pid exit_code_ptr options schedule =
    let selected = select (wait_pid own pid) options children in
    if is_nil selected
    then returns (err echild)
    else start exit_code_ptr (λ exit_code. wait_loop options exit_code selected schedule)
