-- ===== src/TimeStat.antt =====
-- core/src/time.rs: the time statistics of a task and its interval timer.
pub mod Accounting
pub mod Timer
mod Tests
use oscomp_test_listline.Prelude.{
  ℕ, ◌+◌, ◌-◌, ◌*◌, ◌/◌, ◌%◌, ◌^◌, List, [], ◌∷◌, Bool, true, false, not, ◌||◌, ltb, ◌==◌,
  if◌then◌else◌,
}

-- Arithmetic on `usize`.
abbrev pub add_size : ℕ → ℕ → ℕ
add_size a b = (a + b) % 2 ^ 64

abbrev pub sub_size : ℕ → ℕ → ℕ
sub_size a b = (a + 2 ^ 64 - b) % 2 ^ 64

pub data TimerType : Type 0 where
  no_timer real_timer virtual_timer prof_timer : TimerType

-- `From<usize>`: the number is cut to an `i32` (where all ones are -1), and an unknown one is NONE.
unfoldable pub timer_type_of : ℕ → TimerType
timer_type_of num =
    let n = num % 2 ^ 32 in
    if n == 0
    then real_timer
    else if n == 1
    then virtual_timer
    else if n == 2
    then prof_timer
    else no_timer

abbrev pub is_none : TimerType → Bool
is_none no_timer = true
is_none _ = false

abbrev pub is_real : TimerType → Bool
is_real real_timer = true
is_real _ = false

abbrev pub is_prof : TimerType → Bool
is_prof prof_timer = true
is_prof _ = false

pub record TimeStat : Type 0 where
  pub utime_ns : ℕ
  pub stime_ns : ℕ
  pub user_timestamp : ℕ
  pub kernel_timestamp : ℕ
  pub timer_type : TimerType
  pub timer_interval_ns : ℕ
  pub timer_remained_ns : ℕ

unfoldable pub new_time_stat : TimeStat
new_time_stat = record {
  utime_ns = 0;
  stime_ns = 0;
  user_timestamp = 0;
  kernel_timestamp = 0;
  timer_type = no_timer;
  timer_interval_ns = 0;
  timer_remained_ns = 0;
}

unfoldable pub output : TimeStat → ℕ × ℕ
output s = (s.utime_ns, s.stime_ns)

unfoldable pub reset : TimeStat → ℕ → TimeStat
reset s current_timestamp = record s {
  utime_ns = 0;
  stime_ns = 0;
  user_timestamp = 0;
  kernel_timestamp = current_timestamp;
}

unfoldable pub update_timer : TimeStat → ℕ → TimeStat
update_timer s delta =
    if s.timer_remained_ns == 0
    then s
    else if ltb delta s.timer_remained_ns
    then record s { timer_remained_ns = s.timer_remained_ns - delta }
    else s

unfoldable pub switch_into_kernel_mode : TimeStat → ℕ → TimeStat
unfolding update_timer
switch_into_kernel_mode s now =
    let delta = sub_size now s.kernel_timestamp in
    let s' : TimeStat = record s { utime_ns = add_size s.utime_ns delta; kernel_timestamp = now } in
    if not (is_none s.timer_type) then update_timer s' delta else s'

unfoldable pub switch_into_user_mode : TimeStat → ℕ → TimeStat
unfolding update_timer
switch_into_user_mode s now =
    let delta = sub_size now s.kernel_timestamp in
    let s' : TimeStat = record s { stime_ns = add_size s.stime_ns delta; user_timestamp = now } in
    if is_real s.timer_type || is_prof s.timer_type then update_timer s' delta else s'

unfoldable pub switch_from_old_task : TimeStat → ℕ → TimeStat
unfolding update_timer
switch_from_old_task s now =
    let delta = sub_size now s.kernel_timestamp in
    let s' : TimeStat = record s { stime_ns = add_size s.stime_ns delta; kernel_timestamp = now } in
    if is_real s.timer_type || is_prof s.timer_type then update_timer s' delta else s'

unfoldable pub switch_to_new_task : TimeStat → ℕ → TimeStat
unfolding update_timer
switch_to_new_task s now =
    let delta = sub_size now s.kernel_timestamp in
    let s' : TimeStat = record s { kernel_timestamp = now } in
    if is_real s.timer_type then update_timer s' delta else s'

unfoldable pub set_timer : TimeStat → ℕ → ℕ → ℕ → TimeStat × Bool
unfolding timer_type_of
set_timer s interval remained kind =
    let t = timer_type_of kind in
    (
      record s { timer_type = t; timer_interval_ns = interval; timer_remained_ns = remained },
      not (is_none t),
    )

-- `time_stat_output` of core/src/task.rs: seconds and microseconds of both times.
unfoldable pub time_stat_output : TimeStat → ℕ × ℕ × ℕ × ℕ
unfolding output
time_stat_output s =
    let (utime_ns, stime_ns) = output s in
    (utime_ns / 1000000000, utime_ns / 1000, stime_ns / 1000000000, stime_ns / 1000)

-- The calls that the kernel makes: on entry and exit of a system call, and at a task switch.
pub data Switch : Type 0 where
  into_kernel into_user from_old to_new : ℕ → Switch

unfoldable pub apply : TimeStat → Switch → TimeStat
unfolding switch_into_kernel_mode switch_into_user_mode switch_from_old_task switch_to_new_task
apply s (into_kernel t) = switch_into_kernel_mode s t
apply s (into_user t) = switch_into_user_mode s t
apply s (from_old t) = switch_from_old_task s t
apply s (to_new t) = switch_to_new_task s t

unfoldable pub apply_all : TimeStat → List Switch → TimeStat
apply_all s [] = s
apply_all s (e ∷ es) = apply_all (apply s e) es
