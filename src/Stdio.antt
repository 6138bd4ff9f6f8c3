-- ===== src/Stdio.antt =====
-- api/src/file/stdio.rs, with `init_stdio` of api/src/file/mod.rs: the console as a file.
pub mod Reading
pub mod Standard
pub mod Waiting
mod Tests
use oscomp_test_listline.Prelude.{
  ℕ, zero, suc, ◌+◌, ◌-◌, ◌≤◌, ◌<◌, ◌≡◌, List, [], ◌∷◌, ◌++◌, map, Option, none, some, Bool, true,
  false, ◌==◌, ◌||◌, ltb, if◌then◌else◌, length,
}
use oscomp_test_listline.Errno.{LinuxError, eperm, AxError, AxResult, LinuxResult, ok, err, map_err}
use oscomp_test_listline.FdTable.Objects.{FlattenObjects}
use oscomp_test_listline.Stat.{Kstat, default_kstat}
use oscomp_test_listline.Poll.{PollState}

-- `axhal::console`, a state `C`: `read_bytes` with the length of the buffer gives the bytes that it stores.
-- It takes the bytes that have arrived, in order, as many as fit at most, and none only if the buffer is
-- empty or no byte has arrived.
pub record Console (C : Type 0) : Type 0 where
  pub read_bytes : ℕ → C → List ℕ × C
  pub write_bytes : List ℕ → C → C
  pub arrived : C → List ℕ
  pub read_bound : (n : ℕ) (c : C) → length (read_bytes n c).0 ≤ n
  pub read_prefix : (n : ℕ) (c : C) → arrived c ≡ (read_bytes n c).0 ++ arrived (read_bytes n c).1
  pub read_empty : (n : ℕ) (c : C) → 0 < n → (read_bytes n c).0 ≡ [] → arrived c ≡ []

-- A carriage return becomes a line feed.
abbrev pub newline : ℕ → ℕ
newline c = if c == 13 then 10 else c

module _ {C : Type 0} (console : Console C) where
  unfoldable pub console_read_bytes : ℕ → C → AxResult (List ℕ) × C
  console_read_bytes n c = let (bytes, c') = console.read_bytes n c in (ok (map newline bytes), c')

  unfoldable pub console_write_bytes : List ℕ → C → AxResult ℕ × C
  console_write_bytes buf c = (ok (length buf), console.write_bytes buf c)

  -- The loop of `StdinRaw::read` with `n` bytes left in the buffer, of which each pass takes fuel: `none` if
  -- there is not enough.
  unfoldable pub read_loop : ℕ → ℕ → C → Option (AxResult (List ℕ) × C)
  unfolding console_read_bytes
  read_loop fuel zero c = some (ok [], c)
  read_loop zero (suc n) c = none
  read_loop (suc fuel) (suc n) c =
      let (r, c1) = console_read_bytes (suc n) c in
      elim r [
        | err e ↦ some (err e, c1)
        | ok bytes ↦ elim bytes [
          | [] ↦ some (ok [], c1)
          | b ∷ bs ↦ elim (read_loop fuel (suc n - length (b ∷ bs)) c1) [
            | none ↦ none
            | some (r2, c2) ↦ some (elim r2 [ err e ↦ err e | ok more ↦ ok (b ∷ bs ++ more) ], c2)
          ]
        ]
      ]

  -- `StdinRaw::read`; its passes are as many as the bytes of the buffer at most.
  unfoldable pub read_raw : ℕ → C → Option (AxResult (List ℕ) × C)
  unfolding read_loop
  read_raw n c = read_loop n n c

-- A call that returns, or is still in its loop when the schedule ends.
pub data Blocking (B : Type 0) : Type 0 where
  returns : AxResult (List ℕ) → B → Blocking B
  waits : B → Blocking B

-- `BufReader<StdinRaw>` of the crate axio, a state `B`: its `read` with the length of the buffer.
module _ {B : Type 0} (read : ℕ → B → AxResult (List ℕ) × B) where
  -- One pass of the loop of `read_blocked`: `none` if there was nothing.
  unfoldable pub try_once : ℕ → B → Option (AxResult (List ℕ)) × B
  try_once n b =
      let (r, b') = read n b in
      elim r [
        | err e ↦ (some (err e), b')
        | ok bytes ↦ if ltb 0 (length bytes) then (some (ok bytes), b') else (none, b')
      ]

  -- The schedule has what happens during each `yield_now`.
  unfoldable pub try_again : ℕ → List (B → B) → B → Blocking B
  unfolding try_once
  try_again n [] b =
      let (o, b') = try_once n b in elim o [ some r ↦ returns r b' | none ↦ waits b' ]
  try_again n (during ∷ later) b =
      let (o, b') = try_once n b in
      elim o [ some r ↦ returns r b' | none ↦ try_again n later (during b') ]

  unfoldable pub read_blocked : ℕ → List (B → B) → B → Blocking B
  unfolding try_again
  read_blocked n schedule b =
      let (r, b') = read n b in
      elim r [
        | err e ↦ returns (err e) b'
        | ok bytes ↦
            if n == 0 || ltb 0 (length bytes)
            then returns (ok bytes) b'
            else try_again n schedule b'
      ]

-- `FileLike` of `Stdin` and `Stdout`: the method that each does not have, the file type and mode, and the state
-- for poll. 8192 is S_IFCHR, 292 is 0o444, 144 is 0o220.
unfoldable pub stdin_write : List ℕ → LinuxResult ℕ
stdin_write buf = err eperm

unfoldable pub stdout_read : ℕ → LinuxResult (List ℕ)
stdout_read n = err eperm

unfoldable pub stdin_stat : LinuxResult Kstat
unfolding default_kstat
stdin_stat = ok (record default_kstat { mode = 8192 + 292 })

unfoldable pub stdout_stat : LinuxResult Kstat
unfolding default_kstat
stdout_stat = ok (record default_kstat { mode = 8192 + 144 })

unfoldable pub stdin_poll : LinuxResult PollState
stdin_poll = ok (record { readable = true; writable = true })

unfoldable pub stdout_poll : LinuxResult PollState
stdout_poll = ok (record { readable = true; writable = true })

-- The conversion of an `AxError` is axerrno's.
module _ {C : Type 0} (console : Console C) (to_linux : AxError → LinuxError) where
  unfoldable pub stdout_write : List ℕ → C → LinuxResult ℕ × C
  unfolding console_write_bytes
  stdout_write buf c = let (r, c') = console_write_bytes console buf c in (map_err to_linux r, c')

-- `none` is the panic of `unwrap_or_else`; `stdout` is stored twice.
module _ {T A : Type 0} (fo : FlattenObjects T A) where
  unfoldable pub init_stdio : A → A → A → Option T
  init_stdio stdin stdout stderr = elim (fo.add_at fo.new 0 stdin) [
    | none ↦ none
    | some t ↦ elim (fo.add_at t 1 stdout) [ none ↦ none | some t' ↦ fo.add_at t' 2 stderr ]
  ]
