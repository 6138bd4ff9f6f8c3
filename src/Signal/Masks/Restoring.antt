-- ===== src/Signal/Masks/Restoring.antt =====
-- What the calls on the blocked signals, the actions and the signal stack change.
use oscomp_test_listline.Prelude.{
  ℕ, zero, suc, ◌≡◌, ◌<◌, ◌⊎◌, refl, sym, subst, ap, ◌∙◌, inl, inr, Option, none, some, Bool, true,
  not, leb, ◌&&◌, ◌||◌, Bool-cases, Option-cases, arith,
}
use oscomp_test_listline.Errno.{LinuxError, enomem, einval, LinuxResult, ok, err, Result-cases}
use oscomp_test_listline.Signal.{Signals, check_sigset_size}
use oscomp_test_listline.Signal.Masks.{
  SignalSets, masked, sys_rt_sigprocmask, SignalStack, sys_sigaltstack,
}

-- Which signals the operations of axsignal's sets leave in a set.
pub record IsBoolean {Set : Type 0} (B : SignalSets Set) (member : ℕ → Set → Bool) : Type 0 where
  pub member-union : (s : ℕ) (a b : Set) → member s (B.union a b) ≡ (member s a || member s b)
  pub member-inter : (s : ℕ) (a b : Set) → member s (B.inter a b) ≡ (member s a && member s b)
  pub member-complement : (s : ℕ) (a : Set) → member s (B.complement a) ≡ not (member s a)

-- What becomes of signal `s`: it is added to the blocked ones with the set, taken away with it, or the set
-- decides alone.
abbrev pub Changed :
    {Set : Type 0} (member : ℕ → Set → Bool) (how s : ℕ) (blocked m after : Set) → Type 0
Changed member how s blocked m after =
    ((how ≡ 0) × (member s after ≡ (member s blocked || member s m)))
    ⊎ ((how ≡ 1) × (member s after ≡ (member s blocked && not (member s m))))
    ⊎ ((how ≡ 2) × (member s after ≡ member s m))

module _ {Info Set : Type 0} (S : Signals Info) (B : SignalSets Set) where
  masked_lem :
      (member : ℕ → Set → Bool) (how : ℕ) (blocked m : Set) (s : ℕ)
      → IsBoolean B member
      → (masked S B how blocked m ≡ err einval)
        ⊎ ((after : Set) × (masked S B how blocked m ≡ ok after)
            × Changed member how s blocked m after)
  unfolding masked
  masked_lem member zero blocked m s b =
      inr (B.union blocked m, refl, inl (refl, b.member-union s blocked m))
  masked_lem member (suc zero) blocked m s b =
      let away : member s (B.inter blocked (B.complement m))
          ≡ (member s blocked && not (member s m)) =
        b.member-inter s blocked (B.complement m)
        ∙ ap (λ x. member s blocked && x) (b.member-complement s m) in
      inr (B.inter blocked (B.complement m), refl, inr (inl (refl, away)))
  masked_lem member (suc (suc zero)) blocked m s b = inr (m, refl, inr (inr (refl, refl)))
  masked_lem member (suc (suc (suc n))) blocked m s b = inl (ground arith)

  -- When a call of `rt_sigprocmask` that asks for the old mask succeeds, whatever it did to the mask, it has
  -- written a mask, and a call with SIG_SETMASK and that mask succeeds and puts the blocked signals back to
  -- what they were.
  pub sys_rt_sigprocmask-restores :
      (how : ℕ) (set : LinuxResult (Option Set)) (size : ℕ) (blocked : Set) (place : Bool)
      → (sys_rt_sigprocmask S B how set (ok true) size blocked).result ≡ ok 0
      → let left = sys_rt_sigprocmask S B how set (ok true) size blocked in
        (old : Set) × (left.written ≡ some old)
        × ((sys_rt_sigprocmask S B 2 (ok (some old)) (ok place) size left.state).state ≡ blocked)
        × ((sys_rt_sigprocmask S B 2 (ok (some old)) (ok place) size left.state).result ≡ ok 0)
  unfolding sys_rt_sigprocmask masked
  sys_rt_sigprocmask-restores how set size blocked place h =
      (blocked, ground arith, ground arith, ground arith)

  -- `rt_sigprocmask` fails and leaves the blocked signals as they are, or succeeds. Then, if a set is given,
  -- a signal is blocked afterwards if it was or is in the set (SIG_BLOCK), if it was and is not in the set
  -- (SIG_UNBLOCK), or if it is in the set (SIG_SETMASK, the only other `how`); with no set, nothing changes.
  pub sys_rt_sigprocmask-member :
      (member : ℕ → Set → Bool) (how : ℕ) (set : LinuxResult (Option Set))
      (oldset : LinuxResult Bool) (size : ℕ) (blocked : Set) (s : ℕ)
      → IsBoolean B member
      → let left = sys_rt_sigprocmask S B how set oldset size blocked in
        ((e : LinuxError) × (left.result ≡ err e) × (left.state ≡ blocked))
        ⊎ ((left.result ≡ ok 0) × (set ≡ ok none) × (left.state ≡ blocked))
        ⊎ ((m : Set) × (left.result ≡ ok 0)
            × (set ≡ ok (some m))
            × Changed member how s blocked m left.state)
  unfolding sys_rt_sigprocmask masked
  sys_rt_sigprocmask-member member how set oldset size blocked s b =
      elim (Result-cases (check_sigset_size S size)) [
        | inr (e, p) ↦ inl (e, ground (arith, p), ground (arith, p))
        | inl (u, p) ↦ elim (Result-cases oldset) [
          | inr (e, q) ↦ inl (e, ground (arith, p, q), ground (arith, p, q))
          | inl (place, q) ↦ elim (Result-cases set) [
            | inr (e, r) ↦ inl (e, ground (arith, p, q, r), ground (arith, p, q, r))
            | inl (given, r) ↦ elim (Option-cases given) [
              | inl n ↦
                  inr (inl (ground (arith, p, q, r, n), r ∙ ap ok n, ground (arith, p, q, r, n)))
              | inr (m, n) ↦ elim (masked_lem member how blocked m s b) [
                | inl k ↦ inl (einval, ground (arith, p, q, r, n, k), ground (arith, p, q, r, n, k))
                | inr (after, k, c) ↦
                    let left = sys_rt_sigprocmask S B how set oldset size blocked in
                    let state_is : left.state ≡ after = ground (arith, p, q, r, n, k) in
                    inr (
                      inr (
                        m,
                        ground (arith, p, q, r, n, k),
                        r ∙ ap ok n,
                        subst (Changed member how s blocked m) (sym state_is) c,
                      ))
              ]
            ]
          ]
        ]
      ]

-- `sigaltstack` fails and leaves the signal stack as it is, or succeeds: then, if a stack is given, that is
-- the signal stack afterwards, it is larger than MINSIGSTKSZ and its memory has passed the check; if none
-- is given, nothing changes.
pub sys_sigaltstack_lem :
    (minsigstksz : ℕ) (region : ℕ → ℕ → LinuxResult {0} Unit)
    (ss : LinuxResult (Option SignalStack)) (old_ss : LinuxResult Bool) (stack : SignalStack)
    → let left = sys_sigaltstack minsigstksz region ss old_ss stack in
      ((e : LinuxError) × (left.result ≡ err e) × (left.state ≡ stack))
      ⊎ ((left.result ≡ ok 0) × (ss ≡ ok none) × (left.state ≡ stack))
      ⊎ ((s : SignalStack) × (left.result ≡ ok 0)
          × (ss ≡ ok (some s))
          × (left.state ≡ s)
          × (minsigstksz < s.size)
          × (region s.sp s.size ≡ ok tt))
unfolding sys_sigaltstack
sys_sigaltstack_lem minsigstksz region ss (err e) stack = inl (e, refl, refl)
sys_sigaltstack_lem minsigstksz region (err e) (ok place) stack = inl (e, refl, refl)
sys_sigaltstack_lem minsigstksz region (ok none) (ok place) stack = inr (inl (refl, refl, refl))
sys_sigaltstack_lem minsigstksz region (ok (some s)) (ok place) stack =
    elim (Bool-cases (leb s.size minsigstksz)) [
      | inl small ↦ inl (enomem, ground (arith, small), ground (arith, small))
      | inr large ↦ elim (Result-cases (region s.sp s.size)) [
        | inr (e, r) ↦ inl (e, ground (arith, large, r), ground (arith, large, r))
        | inl (u, r) ↦ inr (
            inr (
              s,
              ground (arith, large, r),
              refl,
              ground (arith, large, r),
              ground (arith, large),
              r,
            ))
      ]
    ]
