-- ===== src/TimeValue/RoundTrip.antt =====
-- What survives a conversion there and back.
use oscomp_test_listline.Prelude.{ℕ, ◌-◌, ◌%◌, ◌^◌, ◌≤◌, ◌<◌, ◌≡◌, none, some, arith}
use mathlib.Core.Option
use oscomp_test_listline.Prelude.Int.{ℤ, pos, negsuc}
use oscomp_test_listline.TimeValue.{
  TimeValue, timespec_from_time_value, timespec_to_time_value, timeval_from_time_value,
  timeval_to_time_value,
}

-- What every `Duration` satisfies.
pub record IsDuration (tv : TimeValue) : Type 0 where
  pub secs_fit : tv.secs < 2 ^ 64
  pub nanos_fit : tv.nanos < 1000000000

-- An `i64`.
abbrev pub Fits : ℤ → Type 0
Fits (pos n) = n < 2 ^ 63
Fits (negsuc n) = n < 2 ^ 63

-- Every duration survives the way through a `timespec`, also where its seconds turn negative there.
pub timespec_to-from :
    (tv : TimeValue)
    → IsDuration tv
    → timespec_to_time_value (timespec_from_time_value tv) ≡ some tv
unfolding timespec_to_time_value timespec_from_time_value
timespec_to-from tv d = ground arith

-- A `timespec` whose nanoseconds are in range survives the way through a duration, whatever the sign of
-- its seconds, if those are a 64-bit number.
pub timespec_from-to :
    (sec : ℤ) (nsec : ℕ)
    → nsec < 1000000000
    → Fits sec
    → Option.map timespec_from_time_value
        (timespec_to_time_value (record { tv_sec = sec; tv_nsec = pos nsec }))
      ≡ some (record { tv_sec = sec; tv_nsec = pos nsec })
unfolding timespec_to_time_value timespec_from_time_value
timespec_from-to (pos n) nsec d f = ground arith
timespec_from-to (negsuc n) nsec d f = ground arith

-- On the way through a `timeval` a duration loses what is below a microsecond.
pub timeval_to-from :
    (tv : TimeValue)
    → IsDuration tv
    → timeval_to_time_value (timeval_from_time_value tv)
      ≡ some (record { secs = tv.secs; nanos = tv.nanos - tv.nanos % 1000 })
unfolding timeval_to_time_value timeval_from_time_value
timeval_to-from tv d = ground arith

-- A `timespec` with -1 seconds and a full second or more of nanoseconds (below 2 ^ 32) makes the
-- conversion panic: the seconds are read as the largest unsigned number, and the carry overflows.
pub timespec_to_time_value_panics :
    (nsec : ℕ)
    → 1000000000 ≤ nsec
    → nsec < 2 ^ 32
    → timespec_to_time_value (record { tv_sec = negsuc 0; tv_nsec = pos nsec }) ≡ none
unfolding timespec_to_time_value
timespec_to_time_value_panics nsec a b = ground arith
