-- ===== src/Poll.antt =====
-- api/src/imp/fs/io_mpx/poll.rs. A pass of the loop is one step, at a moment of the schedule.
pub mod Moments
mod Tests
use oscomp_test_listline.Prelude.{
  ℕ, zero, suc, ◌+◌, ◌*◌, ◌/◌, ◌%◌, List, [], ◌∷◌, map, Option, none, some, Bool, true, false, not,
  ltb, leb, ◌==◌, ◌&&◌, if◌then◌else◌,
}
use oscomp_test_listline.Prelude.Int.{ℤ, pos, negsuc}
use oscomp_test_listline.Errno.{LinuxError, LinuxResult, ok, err}

-- axio's `PollState`.
pub record PollState : Type 0 where
  pub readable : Bool
  pub writable : Bool

-- `pollfd`, with `events` and `revents` as the 16 bits of the `i16`s.
pub record PollFd : Type 0 where
  pub fd : ℤ
  pub events : ℕ
  pub revents : ℕ

abbrev pub pollin : ℕ
pollin = 1

abbrev pub pollout : ℕ
pollout = 4

abbrev pub pollerr : ℕ
pollerr = 8

abbrev pub pollnval : ℕ
pollnval = 32

-- The files at one moment: for a descriptor, the error of `get_file_like`, or what the file's `poll`
-- answers.
abbrev pub Files : Type 0
Files = ℤ → LinuxResult (LinuxResult PollState)

-- One pass looks at the files, and then at the clock.
pub record Moment : Type 0 where
  pub files : Files
  pub now : ℕ

-- `fd.events & POLLIN != 0`, `fd.events & POLLOUT != 0`
abbrev pub wants_in : PollFd → Bool
wants_in p = p.events % 2 == 1

abbrev pub wants_out : PollFd → Bool
wants_out p = p.events / 4 % 2 == 1

unfoldable pub revents_of : Files → PollFd → ℕ
revents_of files p = elim (files p.fd) [
  | err e ↦ pollnval
  | ok r ↦ elim r [
    | err e ↦ pollerr
    | ok state ↦
        (if wants_in p && state.readable then pollin else 0)
        + (if wants_out p && state.writable then pollout else 0)
  ]
]

-- The `for` loop of one pass: the number of descriptors with events, and all descriptors.
unfoldable pub poll_pass : Files → List PollFd → ℕ × List PollFd
unfolding revents_of
poll_pass files [] = (0, [])
poll_pass files (p ∷ ps) =
    let (res, ps') = poll_pass files ps in
    let revents = revents_of files p in
    ((if revents == 0 then 0 else 1) + res, record p { revents = revents } ∷ ps')

-- The call returns, or has used up the moments and goes on.
pub data Polling : Type 0 where
  returns : ℕ → List PollFd → Polling
  polls : List PollFd → Polling

abbrev pub is_past : Option ℕ → ℕ → Bool
is_past none now = false
is_past (some deadline) now = leb deadline now

unfoldable pub poll_loop : Option ℕ → List PollFd → List Moment → Polling
unfolding poll_pass
poll_loop deadline fds [] = polls fds
poll_loop deadline fds (m ∷ ms) =
    let (res, fds') = poll_pass m.files fds in
    elim (ltb 0 res) [
      | true ↦ returns res fds'
      | false ↦ elim (is_past deadline m.now) [
        | true ↦ returns 0 fds'
        | false ↦ poll_loop deadline fds' ms
      ]
    ]

-- `start` is the clock when the call begins; times are in nanoseconds.
unfoldable pub do_poll : ℕ → List PollFd → Option ℕ → List Moment → Polling
do_poll start fds timeout ms =
    poll_loop (elim timeout [ none ↦ none | some t ↦ some (start + t) ]) fds ms

-- `from_millis`
abbrev pub timeout_of : ℤ → Option ℕ
timeout_of (pos ms) = some (ms * 1000000)
timeout_of (negsuc n) = none

-- `fds` is the slice of user memory, or the error of its check.
unfoldable pub sys_poll : ℕ → LinuxResult (List PollFd) → ℤ → List Moment → LinuxResult Polling
unfolding do_poll
sys_poll start (err e) timeout ms = err e
sys_poll start (ok fds) timeout ms = ok (do_poll start fds (timeout_of timeout) ms)

-- `timeout` is the duration of the `timespec`, if the pointer is not null, or the error of reading it.
unfoldable pub sys_ppoll :
    ℕ → LinuxResult (List PollFd) → LinuxResult (Option ℕ) → List Moment → LinuxResult Polling
unfolding do_poll
sys_ppoll start (err e) timeout ms = err e
sys_ppoll start (ok fds) (err e) ms = err e
sys_ppoll start (ok fds) (ok timeout) ms = ok (do_poll start fds timeout ms)
