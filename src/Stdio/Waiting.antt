-- ===== src/Stdio/Waiting.antt =====
-- When a read of standard input returns.
use oscomp_test_listline.Prelude.{
  ℕ, ◌<◌, ◌≡◌, inl, inr, List, [], ◌∷◌, none, some, true, false, ◌==◌, ltb, length, Bool-cases,
  Option-cases, arith,
}
use oscomp_test_listline.Errno.{AxResult, ok, Result-cases}
use oscomp_test_listline.Stdio.{returns, try_once, try_again, read_blocked}

module _ {B : Type 0} (read : ℕ → B → AxResult (List ℕ) × B) where
  -- The first of several reads that gives something, where the schedule has what happens between them.
  pub data Ready (n : ℕ) : List (B → B) → B → List ℕ → B → Type 0 where
    now :
        (schedule : List (B → B)) (b : B) (bytes : List ℕ)
        → (read n b).0 ≡ ok bytes
        → 0 < length bytes
        → Ready n schedule b bytes (read n b).1
    later :
        (during : B → B) (schedule : List (B → B)) (b : B) {b' : B} {bytes : List ℕ}
        → (read n b).0 ≡ ok []
        → Ready n schedule (during (read n b).1) bytes b'
        → Ready n (during ∷ schedule) b bytes b'

  try_once-state : (n : ℕ) (b : B) → (try_once read n b).1 ≡ (read n b).1
  unfolding try_once
  try_once-state n b = elim (Result-cases (read n b).0) [
    | inr (e, r) ↦ rw (try_once, r)
    | inl (cs, r) ↦ elim (Bool-cases (ltb 0 (length cs))) [
      | inl l ↦ rw (try_once, r, l)
      | inr l ↦ rw (try_once, r, l)
    ]
  ]

  try_once-now :
      (n : ℕ) (b : B) (bytes : List ℕ)
      → (read n b).0 ≡ ok bytes
      → 0 < length bytes
      → (try_once read n b).0 ≡ some (ok bytes)
  unfolding try_once
  try_once-now n b bytes r some_read =
      let t : ltb 0 (length bytes) ≡ true = ground (arith, some_read) in rw (try_once, r, t)

  try_once-nothing : (n : ℕ) (b : B) → (read n b).0 ≡ ok [] → (try_once read n b).0 ≡ none
  unfolding try_once
  try_once-nothing n b r = rw (try_once, r)

  try_again-Ready :
      (n : ℕ) {schedule : List (B → B)} {b b' : B} {bytes : List ℕ}
      → Ready n schedule b bytes b'
      → try_again read n schedule b ≡ returns (ok bytes) b'
  unfolding try_again
  try_again-Ready n (now [] b bytes r some_read) =
      rw (try_again, try_once-now n b bytes r some_read, try_once-state n b)
  try_again-Ready n (now (during ∷ schedule) b bytes r some_read) =
      rw (try_again, try_once-now n b bytes r some_read, try_once-state n b)
  try_again-Ready n (later during schedule b r ready) =
      rw (try_again, try_once-nothing n b r, try_once-state n b) (try_again-Ready n ready)

  try_once-some :
      (n : ℕ) (b : B) (bytes : List ℕ) → (try_once read n b).0 ≡ some (ok bytes) → 0 < length bytes
  unfolding try_once
  try_once-some n b bytes h = elim (Result-cases (read n b).0) [
    | inr (e, r) ↦ ground (arith, h, r)
    | inl (cs, r) ↦ elim (Bool-cases (ltb 0 (length cs))) [
      | inl l ↦ ground (arith, h, r, l)
      | inr l ↦ ground (arith, h, r, l)
    ]
  ]

  try_again-some :
      (n : ℕ) (schedule : List (B → B)) (b b' : B) (bytes : List ℕ)
      → try_again read n schedule b ≡ returns (ok bytes) b'
      → 0 < length bytes
  unfolding try_again
  try_again-some n [] b b' bytes h = elim (Option-cases (try_once read n b).0) [
    | inl o ↦ ground (arith, h, o)
    | inr (r, o) ↦ try_once-some n b bytes (ground (arith, h, o))
  ]
  try_again-some n (during ∷ schedule) b b' bytes h = elim (Option-cases (try_once read n b).0) [
    | inl o ↦
        try_again-some n schedule (during (try_once read n b).1) b' bytes (ground (arith, h, o))
    | inr (r, o) ↦ try_once-some n b bytes (ground (arith, h, o))
  ]

  -- A read into a buffer that is not empty returns some bytes whenever it returns without an error: it waits
  -- until there are some.
  pub read_blocked-some :
      (n : ℕ) (schedule : List (B → B)) (b b' : B) (bytes : List ℕ)
      → 0 < n
      → read_blocked read n schedule b ≡ returns (ok bytes) b'
      → 0 < length bytes
  unfolding read_blocked
  read_blocked-some n schedule b b' bytes big h = elim (Result-cases (read n b).0) [
    | inr (e, r) ↦ ground (arith, h, r)
    | inl (cs, r) ↦ elim (Bool-cases (ltb 0 (length cs))) [
      | inl l ↦ ground (arith, h, r, l, big)
      | inr l ↦ try_again-some n schedule (read n b).1 b' bytes (ground (arith, h, r, l, big))
    ]
  ]

  -- If nothing is there at first, and a later one of the reads between which the schedule runs gives some bytes
  -- while those before it give none, the call returns with just these bytes.
  pub read_blocked-Ready :
      (n : ℕ) (schedule : List (B → B)) (b b' : B) (bytes : List ℕ)
      → 0 < n
      → (read n b).0 ≡ ok []
      → Ready n schedule (read n b).1 bytes b'
      → read_blocked read n schedule b ≡ returns (ok bytes) b'
  unfolding read_blocked
  read_blocked-Ready n schedule b b' bytes big r ready =
      let some_space : (n == 0) ≡ false = ground (arith, big) in
      rw (read_blocked, r, some_space) (try_again-Ready n ready)
