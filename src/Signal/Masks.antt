-- ===== src/Signal/Masks.antt =====
-- The calls of api/src/imp/signal.rs on the blocked signals, the actions and the signal stack. The result
-- of `nullable!` on a pointer stands for it: nothing for null, an error where the check of it fails; a
-- pointer to be written through is whether there is a place.
pub mod Restoring
use oscomp_test_listline.Prelude.{
  ℕ, zero, suc, ◌≡◌, List, [], ◌∷◌, Option, none, some, Bool, true, false, leb, ◌==◌, ◌||◌,
  if◌then◌else◌,
}
use oscomp_test_listline.Errno.{LinuxError, enomem, einval, LinuxResult, ok, err, ◌>>=◌}
use oscomp_test_listline.Signal.{Signals, check_sigset_size, parse_signo}

-- axsignal's `SignalSet`: `|`, `&` and `!`.
pub record SignalSets (Set : Type 0) : Type 0 where
  pub union : Set → Set → Set
  pub inter : Set → Set → Set
  pub complement : Set → Set

-- What a call leaves: its result, the state that it works on, and what it wrote for the caller.
pub record Left (A : Type 0) : Type 0 where
  pub result : LinuxResult ℕ
  pub state : A
  pub written : Option A

module _ {A : Type 0} where
  abbrev pub written_if : Bool → A → Option A
  written_if true a = some a
  written_if false a = none

module _ {Info Set : Type 0} (S : Signals Info) (B : SignalSets Set) where
  -- The `match` on `how as u32`: SIG_BLOCK, SIG_UNBLOCK and SIG_SETMASK are 0, 1 and 2.
  unfoldable pub masked : ℕ → Set → Set → LinuxResult Set
  masked how blocked set =
      if how == 0
      then ok (B.union blocked set)
      else if how == 1
      then ok (B.inter blocked (B.complement set))
      else if how == 2
      then ok set
      else err einval

  unfoldable pub sys_rt_sigprocmask :
      ℕ → LinuxResult (Option Set) → LinuxResult Bool → ℕ → Set → Left Set
  unfolding check_sigset_size masked
  sys_rt_sigprocmask how set oldset size blocked = elim (check_sigset_size S size) [
    | err e ↦ record { result = err e; state = blocked; written = none }
    | ok u ↦ elim oldset [
      | err e ↦ record { result = err e; state = blocked; written = none }
      | ok place ↦ elim set [
        | err e ↦ record { result = err e; state = blocked; written = written_if place blocked }
        | ok given ↦ elim given [
          | none ↦ record { result = ok 0; state = blocked; written = written_if place blocked }
          | some m ↦ elim (masked how blocked m) [
            | err e ↦ record { result = err e; state = blocked; written = written_if place blocked }
            | ok after ↦ record { result = ok 0; state = after; written = written_if place blocked }
          ]
        ]
      ]
    ]
  ]

module _ {Info Action Kernel : Type 0} (S : Signals Info) (to_ctype : Action → Kernel)
    (try_into : Kernel → LinuxResult Action) where
  -- `actions` is the table of actions, by signal.
  unfoldable pub sys_rt_sigaction :
      ℕ
      → LinuxResult (Option Kernel)
      → LinuxResult Bool
      → ℕ
      → (ℕ → Action)
      → LinuxResult ℕ × (ℕ → Action) × Option Kernel
  unfolding check_sigset_size parse_signo
  sys_rt_sigaction signo act oldact size actions =
      elim (check_sigset_size S size >>= (λ u. parse_signo S signo)) [
        | err e ↦ (err e, actions, none)
        | ok s ↦ elim ((s == 9) || (s == 19)) [
          | true ↦ (err einval, actions, none)
          | false ↦ elim oldact [
            | err e ↦ (err e, actions, none)
            | ok place ↦
                let old = written_if place (to_ctype (actions s)) in
                elim act [
                  | err e ↦ (err e, actions, old)
                  | ok given ↦ elim given [
                    | none ↦ (ok 0, actions, old)
                    | some k ↦ elim (try_into k) [
                      | err e ↦ (err e, actions, old)
                      | ok a ↦ (ok 0, λ j. if j == s then a else actions j, old)
                    ]
                  ]
                ]
          ]
        ]
      ]

-- The fields of axsignal's `SignalStack` that the call reads.
pub record SignalStack : Type 0 where
  pub sp : ℕ
  pub size : ℕ

-- `minsigstksz` is linux_raw_sys's MINSIGSTKSZ, and `region` is the check of `get_as_slice`.
unfoldable pub sys_sigaltstack :
    ℕ
    → (ℕ → ℕ → LinuxResult {0} Unit)
    → LinuxResult (Option SignalStack)
    → LinuxResult Bool
    → SignalStack
    → Left SignalStack
sys_sigaltstack minsigstksz region ss old_ss stack = elim old_ss [
  | err e ↦ record { result = err e; state = stack; written = none }
  | ok place ↦ elim ss [
    | err e ↦ record { result = err e; state = stack; written = written_if place stack }
    | ok given ↦ elim given [
      | none ↦ record { result = ok 0; state = stack; written = written_if place stack }
      | some s ↦ elim (leb s.size minsigstksz) [
        | true ↦ record { result = err enomem; state = stack; written = written_if place stack }
        | false ↦ elim (region s.sp s.size) [
          | err e ↦ record { result = err e; state = stack; written = written_if place stack }
          | ok u ↦ record { result = ok 0; state = s; written = written_if place stack }
        ]
      ]
    ]
  ]
]
