-- ===== src/Poll/Tests.antt =====
-- The polling properties at concrete inputs.
use oscomp_test_listline.Prelude.{◌≡◌, ◌==◌, refl, List, [], ◌∷◌, some, Bool, true, false}
use oscomp_test_listline.Prelude.Int.{pos, negsuc}
use oscomp_test_listline.Errno.{ebadf, ok, err}
use oscomp_test_listline.Poll.{PollFd, PollState, Files, Moment, Polling, polls, do_poll}
use oscomp_test_listline.Poll.Moments.{do_poll-polls}

-- Descriptor 3 is a file in the given state, and all else is closed.
abbrev files_with : Bool → Files
files_with r (pos n) = elim (n == 3) [
  | true ↦ ok (ok (record { readable = r; writable = false }))
  | false ↦ err ebadf
]
files_with r (negsuc n) = err ebadf

abbrev asked : List PollFd
asked = record { fd = pos 3; events = 1; revents = 0 } ∷ []

abbrev answered : List PollFd
answered = record { fd = pos 3; events = 1; revents = 1 } ∷ []

abbrev early : Moment
early = record { files = files_with false; now = 10 }

abbrev ready : Moment
ready = record { files = files_with true; now = 20 }

do_poll-polls_concrete :
    (fds' : List PollFd) × (do_poll 0 asked (some 100) (early ∷ []) ≡ polls fds')
do_poll-polls_concrete = do_poll-polls 0 asked (some 100) (early ∷ []) refl
