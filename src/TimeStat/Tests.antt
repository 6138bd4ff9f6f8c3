-- ===== src/TimeStat/Tests.antt =====
-- Runs of the time statistics, and the theorems at concrete tasks.
use oscomp_test_listline.Prelude.{◌≤◌, ◌<◌, ◌≡◌, refl, List, [], ◌∷◌, arith, true}
use oscomp_test_listline.TimeStat.{
  TimeStat, into_kernel, into_user, from_old, to_new, apply_all, new_time_stat, set_timer, output,
}
use oscomp_test_listline.TimeStat.Accounting.{Call, switches, account}
use oscomp_test_listline.TimeStat.Timer.{timer_never_expires}

-- A task that starts at time 100 and makes two calls, of 30 and of 5.
abbrev two_calls : List Call
two_calls = record { enter = 100; leave = 130 } ∷ record { enter = 140; leave = 145 } ∷ []

abbrev armed : TimeStat
unfolding set_timer new_time_stat
armed = (set_timer new_time_stat 0 50 0).0

armed_kind : (set_timer new_time_stat 0 50 0).1 ≡ true
unfolding set_timer
armed_kind = refl

account_concrete : output (apply_all new_time_stat (switches two_calls)) ≡ (140, 35)
account_concrete = account two_calls (omega arith)

timer_never_expires_concrete :
    (0
      < (apply_all armed
          (into_kernel 30 ∷ into_user 500 ∷ from_old 900 ∷ to_new 901 ∷ [])).timer_remained_ns)
    × ((apply_all armed
          (into_kernel 30 ∷ into_user 500 ∷ from_old 900 ∷ to_new 901 ∷ [])).timer_remained_ns
        ≤ 50)
unfolding armed
timer_never_expires_concrete =
    timer_never_expires armed (into_kernel 30 ∷ into_user 500 ∷ from_old 900 ∷ to_new 901 ∷ [])
      (omega arith)
