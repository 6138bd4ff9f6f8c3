-- ===== src/TimeValue.antt =====
-- api/src/time.rs: the C time structures against `TimeValue` (`core::time::Duration`); and
-- `sys_nanosleep` of api/src/imp/task/schedule.rs.
pub mod RoundTrip
pub mod Sleep
mod Tests
use oscomp_test_listline.Prelude.{
  ℕ, ◌+◌, ◌-◌, ◌*◌, ◌/◌, ◌%◌, ◌^◌, Option, none, some, ltb, if◌then◌else◌,
}
use oscomp_test_listline.Prelude.Int.{ℤ, pos, as_usize, as_isize}

-- A `Duration`: the nanoseconds are below one second.
pub record TimeValue : Type 0 where
  pub secs : ℕ
  pub nanos : ℕ

-- `Duration::new` carries whole seconds over, and panics (`none`) if the seconds overflow.
unfoldable pub new_time_value : ℕ → ℕ → Option TimeValue
new_time_value secs nanos =
    let total = secs + nanos / 1000000000 in
    if ltb total (2 ^ 64) then some (record { secs = total; nanos = nanos % 1000000000 }) else none

abbrev pub as_u32 : ℤ → ℕ
as_u32 x = as_usize x % 2 ^ 32

-- `timespec`, `__kernel_timespec` and `__kernel_old_timespec`.
pub record Timespec : Type 0 where
  pub tv_sec : ℤ
  pub tv_nsec : ℤ

unfoldable pub timespec_from_time_value : TimeValue → Timespec
timespec_from_time_value tv = record { tv_sec = as_isize tv.secs; tv_nsec = pos tv.nanos }

unfoldable pub timespec_to_time_value : Timespec → Option TimeValue
unfolding new_time_value
timespec_to_time_value ts = new_time_value (as_usize ts.tv_sec) (as_u32 ts.tv_nsec)

-- `timeval`, `__kernel_old_timeval` and `__kernel_sock_timeval`.
pub record Timeval : Type 0 where
  pub tv_sec : ℤ
  pub tv_usec : ℤ

unfoldable pub timeval_from_time_value : TimeValue → Timeval
timeval_from_time_value tv = record { tv_sec = as_isize tv.secs; tv_usec = pos (tv.nanos / 1000) }

-- The product is one of `u32`.
unfoldable pub timeval_to_time_value : Timeval → Option TimeValue
unfolding new_time_value
timeval_to_time_value tv = new_time_value (as_usize tv.tv_sec) (as_u32 tv.tv_usec * 1000 % 2 ^ 32)
