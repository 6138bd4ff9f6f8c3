-- ===== src/TimeValue/Tests.antt =====
-- Conversions and sleeps at concrete times.
use mathlib.Core.Option
use oscomp_test_listline.Prelude.{◌≡◌, inr, inl, true, false, none, some, arith}
use oscomp_test_listline.Prelude.Int.{pos, negsuc}
use oscomp_test_listline.Errno.{ok, err, einval}
use oscomp_test_listline.TimeValue.{
  TimeValue, timespec_from_time_value, timespec_to_time_value, timeval_from_time_value,
  timeval_to_time_value,
}
use oscomp_test_listline.TimeValue.RoundTrip.{
  timespec_to-from, timespec_from-to, timeval_to-from, timespec_to_time_value_panics,
}
use oscomp_test_listline.TimeValue.Sleep.{
  sleeps, slept, sys_nanosleep, sys_nanosleep_valid, sys_nanosleep_invalid,
}

abbrev short : TimeValue
short = record { secs = 3; nanos = 1234567 }

timespec_to-from_example : timespec_to_time_value (timespec_from_time_value short) ≡ some short
timespec_to-from_example =
    timespec_to-from short (record { secs_fit = omega arith; nanos_fit = omega arith })

timespec_from-to_concrete :
    Option.map timespec_from_time_value
      (timespec_to_time_value (record { tv_sec = negsuc 4; tv_nsec = pos 7 }))
    ≡ some (record { tv_sec = negsuc 4; tv_nsec = pos 7 })
timespec_from-to_concrete = timespec_from-to (negsuc 4) 7 (omega arith) (omega arith)

timeval_to-from_concrete :
    timeval_to_time_value (timeval_from_time_value short)
    ≡ some (record { secs = 3; nanos = 1234000 })
timeval_to-from_concrete =
    timeval_to-from short (record { secs_fit = omega arith; nanos_fit = omega arith })

timespec_to_time_value_panics_concrete :
    timespec_to_time_value (record { tv_sec = negsuc 0; tv_nsec = pos 1000000000 }) ≡ none
timespec_to_time_value_panics_concrete =
    timespec_to_time_value_panics 1000000000 (omega arith) (omega arith)

sys_nanosleep_valid_concrete :
    slept (sys_nanosleep (ok (record { tv_sec = pos 2; tv_nsec = pos 5 })) (ok true) false short)
    ≡ some (record { secs = 2; nanos = 5 })
sys_nanosleep_valid_concrete = sys_nanosleep_valid 2 5 (ok true) short (omega arith) (omega arith)

sys_nanosleep_invalid_concrete :
    sys_nanosleep (ok (record { tv_sec = pos 2; tv_nsec = negsuc 5 })) (ok true) false short
    ≡ sleeps none (err einval)
sys_nanosleep_invalid_concrete =
    sys_nanosleep_invalid (record { tv_sec = pos 2; tv_nsec = negsuc 5 }) (ok true) false short
      (inr (inl (omega arith)))
