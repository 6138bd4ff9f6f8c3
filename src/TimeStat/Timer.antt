-- ===== src/TimeStat/Timer.antt =====
-- The interval timer of a task.
use oscomp_test_listline.Prelude.{◌≤◌, ◌<◌, List, [], ◌∷◌, arith}
use oscomp_test_listline.TimeStat.{
  TimeStat, Switch, into_kernel, into_user, from_old, to_new, apply, apply_all,
}

timer_step :
    (s : TimeStat) (e : Switch)
    → 0 < s.timer_remained_ns
    → (0 < (apply s e).timer_remained_ns) × ((apply s e).timer_remained_ns ≤ s.timer_remained_ns)
unfolding apply
timer_step s (into_kernel t) h = ground arith
timer_step s (into_user t) h = ground arith
timer_step s (from_old t) h = ground arith
timer_step s (to_new t) h = ground arith

-- A timer that is running never runs out, whatever mode switches and task switches follow and however
-- much time they account: what remains of it may fall, but stays above zero.
pub timer_never_expires :
    (s : TimeStat) (es : List Switch)
    → 0 < s.timer_remained_ns
    → (0 < (apply_all s es).timer_remained_ns)
      × ((apply_all s es).timer_remained_ns ≤ s.timer_remained_ns)
unfolding apply_all
timer_never_expires s [] h = omega arith
timer_never_expires s (e ∷ es) h =
    let one = timer_step s e h in let rest = timer_never_expires (apply s e) es one.0 in omega arith
