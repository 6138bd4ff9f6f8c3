-- ===== src/TimeValue/Sleep.antt =====
-- `sys_nanosleep` of api/src/imp/task/schedule.rs.
use oscomp_test_listline.Prelude.{
  ℕ, ◌+◌, ◌-◌, ◌^◌, ◌<◌, ◌≡◌, ◌⊎◌, inl, inr, Bool, false, ◌||◌, Option, none, some, ltb, leb,
  if◌then◌else◌, arith,
}
use oscomp_test_listline.Prelude.Int.{pos, ◌<ℤ◌, ltb_ℤ}
use oscomp_test_listline.Errno.{einval, LinuxResult, ok, err, ◌>>=◌}
use oscomp_test_listline.TimeValue.{
  TimeValue, Timespec, timespec_from_time_value, timespec_to_time_value,
}

-- `Duration::checked_sub`.
unfoldable pub checked_sub : TimeValue → TimeValue → Option TimeValue
checked_sub a b =
    if ltb a.secs b.secs
    then none
    else if leb b.nanos a.nanos
    then some (record { secs = a.secs - b.secs; nanos = a.nanos - b.nanos })
    else if ltb b.secs a.secs
    then some (record { secs = a.secs - b.secs - 1; nanos = a.nanos + 1000000000 - b.nanos })
    else none

abbrev pub is_invalid : Timespec → Bool
is_invalid req =
    ltb_ℤ req.tv_nsec (pos 0) || ltb_ℤ (pos 999999999) req.tv_nsec || ltb_ℤ req.tv_sec (pos 0)

pub data Step : Type 0 where
  -- the conversion panics
  panics : Step
  -- how long the task sleeps (if it does), and the result with what is written to `*rem`
  sleeps : Option TimeValue → LinuxResult (Option Timespec) → Step

-- `req` is the result of `req.get_as_ref()`, `rem` that of `nullable!(rem.get_as_mut())` (`true` for a
-- pointer that is not null); `busybox` says whether the task has that name, and `actual` is the time
-- that passes between the two readings of the clock. The result `Ok(0)` carries what is stored.
unfoldable pub sys_nanosleep : LinuxResult Timespec → LinuxResult Bool → Bool → TimeValue → Step
unfolding checked_sub
sys_nanosleep (err e) rem busybox actual = sleeps none (err e)
sys_nanosleep (ok req) rem busybox actual =
    if is_invalid req then sleeps none (err einval) else elim (timespec_to_time_value req) [
      | none ↦ panics
      | some dur ↦
          let slept : Option TimeValue = if busybox then none else some dur in
          elim (checked_sub dur actual) [
            | none ↦ sleeps slept (ok none)
            | some diff ↦
                sleeps slept (
                  rem >>= λ given.
                  ok (if given then some (timespec_from_time_value diff) else none))
          ]
    ]

-- How long a task that is not called busybox sleeps.
abbrev pub slept : Step → Option TimeValue
slept panics = none
slept (sleeps d r) = d

-- A readable request whose parts are in range (no negative seconds, nanoseconds between zero and below
-- one second) makes a task that is not called busybox sleep for exactly that long, whatever time passes
-- and whatever pointer is given for the rest; and the call does not panic.
pub sys_nanosleep_valid :
    (sec nsec : ℕ) (rem : LinuxResult Bool) (actual : TimeValue)
    → sec < 2 ^ 63
    → nsec < 1000000000
    → let req : Timespec = record { tv_sec = pos sec; tv_nsec = pos nsec } in
      slept (sys_nanosleep (ok req) rem false actual) ≡ some (record { secs = sec; nanos = nsec })
unfolding sys_nanosleep timespec_to_time_value
sys_nanosleep_valid sec nsec (ok b) actual h k = ground arith
sys_nanosleep_valid sec nsec (err e) actual h k = ground arith

-- A readable request that is out of range, by negative seconds, negative nanoseconds or nanoseconds of a
-- second or more, is EINVAL and nobody sleeps.
pub sys_nanosleep_invalid :
    (req : Timespec) (rem : LinuxResult Bool) (busybox : Bool) (actual : TimeValue)
    → (req.tv_sec <ℤ pos 0) ⊎ (req.tv_nsec <ℤ pos 0) ⊎ (pos 999999999 <ℤ req.tv_nsec)
    → sys_nanosleep (ok req) rem busybox actual ≡ sleeps none (err einval)
unfolding sys_nanosleep
sys_nanosleep_invalid req rem busybox actual (inl h) = ground arith
sys_nanosleep_invalid req rem busybox actual (inr (inl h)) = ground arith
sys_nanosleep_invalid req rem busybox actual (inr (inr h)) = ground arith
