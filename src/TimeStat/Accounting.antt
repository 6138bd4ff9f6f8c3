-- ===== src/TimeStat/Accounting.antt =====
-- Which time the two counters of a task add up.
use oscomp_test_listline.Prelude.{ℕ, ◌+◌, ◌-◌, ◌^◌, ◌≤◌, ◌<◌, ◌≡◌, ap, List, [], ◌∷◌, arith}
use oscomp_test_listline.TimeStat.{
  TimeStat, Switch, into_kernel, into_user, apply, apply_all, new_time_stat, output,
}

-- One system call: the kernel is entered at `enter` and left at `leave`.
pub record Call : Type 0 where
  pub enter : ℕ
  pub leave : ℕ

abbrev pub switches : List Call → List Switch
switches [] = []
switches (c ∷ cs) = into_kernel c.enter ∷ into_user c.leave ∷ switches cs

-- The calls follow one another, from time `t` on, and end before the clock wraps.
abbrev pub Follow : ℕ → List Call → Type 0
Follow t [] = t < 2 ^ 64
Follow t (c ∷ cs) = (t ≤ c.enter) × (c.enter ≤ c.leave) × Follow c.leave cs

-- The time spent between the entry and the exit of the calls.
abbrev pub kernel_time : List Call → ℕ
kernel_time [] = 0
kernel_time (c ∷ cs) = c.leave - c.enter + kernel_time cs

-- The time of the last entry, or `t` if there is none.
abbrev pub last_enter : ℕ → List Call → ℕ
last_enter t [] = t
last_enter t (c ∷ cs) = last_enter c.enter cs

Follow-lt : (t : ℕ) (cs : List Call) → Follow t cs → t + kernel_time cs < 2 ^ 64
Follow-lt t [] f = omega arith
Follow-lt t (c ∷ cs) f = omega (arith, Follow-lt c.leave cs f.2)

-- The counters after one call.
one_call :
    (s : TimeStat) (enter leave : ℕ)
    → s.kernel_timestamp ≤ enter
    → s.utime_ns ≤ s.kernel_timestamp
    → s.stime_ns ≤ enter
    → enter ≤ leave
    → leave < 2 ^ 64
    → let s' = apply (apply s (into_kernel enter)) (into_user leave) in
      (s'.kernel_timestamp ≡ enter)
      × (s'.utime_ns + s.kernel_timestamp ≡ s.utime_ns + enter)
      × (s'.stime_ns ≡ s.stime_ns + (leave - enter))
unfolding apply
one_call s enter leave a b c d e = (ground arith, ground arith, ground arith)

account_from :
    (s : TimeStat) (t : ℕ) (cs : List Call)
    → s.kernel_timestamp ≤ t
    → s.utime_ns ≤ s.kernel_timestamp
    → s.stime_ns ≤ t
    → Follow t cs
    → ((apply_all s (switches cs)).stime_ns ≡ s.stime_ns + kernel_time cs)
      × ((apply_all s (switches cs)).utime_ns + s.kernel_timestamp
          ≡ s.utime_ns + last_enter s.kernel_timestamp cs)
unfolding apply_all
account_from s t [] h u k f = (omega arith, omega arith)
account_from s t (c ∷ cs) h u k f =
    let s' = apply (apply s (into_kernel c.enter)) (into_user c.leave) in
    let one =
      one_call s c.enter c.leave (omega arith) u (omega arith) f.1
        (omega (arith, Follow-lt c.leave cs f.2)) in
    let rest =
      account_from s' c.leave cs (omega (arith, one.0, f.1)) (omega (arith, one.0, one.1))
        (omega (arith, one.2, f.0, f.1)) f.2 in
    let enters : last_enter s'.kernel_timestamp cs ≡ last_enter c.enter cs =
      ap (λ n. last_enter n cs) one.0 in
    (omega (arith, one.2, rest.0), omega (arith, one.0, one.1, rest.1, enters))

-- The accounting of a task that is never switched out, over system calls that follow one another from
-- the start of the clock and end before it wraps: the system time is the time spent inside the calls,
-- and the user time is the whole time from the start of the clock to the entry of the last call, with
-- the time inside the earlier calls and the time before the task began.
pub account :
    (cs : List Call)
    → Follow 0 cs
    → output (apply_all new_time_stat (switches cs)) ≡ (last_enter 0 cs, kernel_time cs)
unfolding output new_time_stat
account cs f =
    let l = account_from new_time_stat 0 cs (omega arith) (omega arith) (omega arith) f in
    ground (arith, l)
