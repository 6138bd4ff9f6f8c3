-- ===== src/Poll/Moments.antt =====
-- When `poll` returns, and what it reports.
use oscomp_test_listline.Prelude.{
  ℕ, ◌+◌, ◌≡◌, refl, ap, ◌∙◌, List, [], ◌∷◌, Option, none, some, Bool, true, false, not, ltb, ◌==◌,
  ◌&&◌, ◌||◌, if◌then◌else◌, arith,
}
use oscomp_test_listline.Errno.{ok, err}
use oscomp_test_listline.Poll.{
  PollFd, wants_in, wants_out, Files, Moment, revents_of, poll_pass, polls, is_past, poll_loop,
  do_poll,
}

-- Whether a descriptor has something to report: it is no descriptor, its file fails, or the file is ready
-- for something that is asked for.
abbrev pub is_ready : Files → PollFd → Bool
is_ready files p = elim (files p.fd) [
  | err e ↦ true
  | ok r ↦ elim r [
    | err e ↦ true
    | ok state ↦ (wants_in p && state.readable) || (wants_out p && state.writable)
  ]
]

abbrev pub count_ready : Files → List PollFd → ℕ
count_ready files [] = 0
count_ready files (p ∷ ps) = (if is_ready files p then 1 else 0) + count_ready files ps

abbrev pub answers : Files → List PollFd → List PollFd
answers files [] = []
answers files (p ∷ ps) = record p { revents = revents_of files p } ∷ answers files ps

revents_of-ready : (files : Files) (p : PollFd) → (revents_of files p == 0) ≡ not (is_ready files p)
unfolding revents_of
revents_of-ready files p = ground arith

poll_pass_lem :
    (files : Files) (ps : List PollFd)
    → poll_pass files ps ≡ (count_ready files ps, answers files ps)
unfolding poll_pass
poll_pass_lem files [] = refl
poll_pass_lem files (p ∷ ps) = ground (arith, revents_of-ready files p, poll_pass_lem files ps)

-- What was reported before does not matter.
count_ready-answers :
    (f g : Files) (ps : List PollFd) → count_ready f (answers g ps) ≡ count_ready f ps
count_ready-answers f g [] = refl
count_ready-answers f g (p ∷ ps) =
    ap (λ n. (if is_ready f p then 1 else 0) + n) (count_ready-answers f g ps)

-- A moment at which the call goes on: there is nothing to report and the deadline has not passed.
abbrev pub is_idle : Option ℕ → List PollFd → Moment → Bool
is_idle deadline fds m = (count_ready m.files fds == 0) && not (is_past deadline m.now)

abbrev pub all_idle : Option ℕ → List PollFd → List Moment → Bool
all_idle deadline fds [] = true
all_idle deadline fds (m ∷ ms) = is_idle deadline fds m && all_idle deadline fds ms

abbrev pub deadline_of : ℕ → Option ℕ → Option ℕ
deadline_of start none = none
deadline_of start (some t) = some (start + t)

all_idle-answers :
    (deadline : Option ℕ) (f : Files) (fds : List PollFd) (ms : List Moment)
    → all_idle deadline (answers f fds) ms ≡ all_idle deadline fds ms
all_idle-answers deadline f fds [] = refl
all_idle-answers deadline f fds (m ∷ ms) =
    ground (arith, count_ready-answers m.files f fds, all_idle-answers deadline f fds ms)

poll_loop-idle :
    (deadline : Option ℕ) (fds : List PollFd) (m : Moment) (ms : List Moment)
    → is_idle deadline fds m ≡ true
    → poll_loop deadline fds (m ∷ ms) ≡ poll_loop deadline (answers m.files fds) ms
unfolding poll_loop
poll_loop-idle deadline fds m ms h =
    let none_ready : ltb 0 (count_ready m.files fds) ≡ false = ground arith in
    let not_past : is_past deadline m.now ≡ false = ground arith in
    rw (poll_loop, poll_pass_lem m.files fds, none_ready, not_past, poll_pass_lem m.files fds)

poll_loop-all_idle :
    (deadline : Option ℕ) (fds : List PollFd) (ms : List Moment)
    → all_idle deadline fds ms ≡ true
    → (fds' : List PollFd) × (poll_loop deadline fds ms ≡ polls fds')
unfolding poll_loop
poll_loop-all_idle deadline fds [] idle = (fds, refl)
poll_loop-all_idle deadline fds (m ∷ ms) idle =
    let first : is_idle deadline fds m ≡ true = ground arith in
    let rest : all_idle deadline fds ms ≡ true = ground arith in
    let (fds', q) =
      poll_loop-all_idle deadline (answers m.files fds) ms
        (all_idle-answers deadline m.files fds ms ∙ rest) in
    (fds', poll_loop-idle deadline fds m ms first ∙ q)

-- As long as every moment is idle, `do_poll` does not return.
pub do_poll-polls :
    (start : ℕ) (fds : List PollFd) (timeout : Option ℕ) (ms : List Moment)
    → all_idle (deadline_of start timeout) fds ms ≡ true
    → (fds' : List PollFd) × (do_poll start fds timeout ms ≡ polls fds')
unfolding do_poll poll_loop
do_poll-polls start fds none ms idle = poll_loop-all_idle none fds ms idle
do_poll-polls start fds (some t) ms idle = poll_loop-all_idle (some (start + t)) fds ms idle
