-- ===== src/Pipe/Ends/Stream.antt =====
-- The pipe as a stream: sequences of passes of readers and writers, in any order.
use oscomp_test_listline.Prelude.{
  ℕ, ◌≡◌, ap, ◌∙◌, sym, List, [], ◌∷◌, ◌++◌, arith, min, length, take, take-min, append_assoc,
  append-nil,
}
use oscomp_test_listline.Pipe.Buffer.{available_write}
use oscomp_test_listline.Pipe.Buffer.Contents.{IsValid, contents}
use oscomp_test_listline.Pipe.Ends.{
  Shared, Action, reads, writes, drops, act, act_all, read_round, write_round, drop_end,
}
use oscomp_test_listline.Pipe.Ends.Rounds.{
  outcome_bytes, outcome_size, read_round_lem, write_round_lem,
}

-- The bytes that an action hands to its caller.
abbrev pub delivered : Shared → Action → List ℕ
delivered s (reads n) = outcome_bytes (read_round s n).0
delivered s (writes bs) = []
delivered s drops = []

-- The bytes that an action tells its caller to have been written.
abbrev pub accepted : Shared → Action → List ℕ
accepted s (reads n) = []
accepted s (writes bs) = take (outcome_size (write_round s bs 0).0) bs
accepted s drops = []

abbrev pub all_delivered : Shared → List Action → List ℕ
all_delivered s [] = []
all_delivered s (a ∷ as') = delivered s a ++ all_delivered (act s a) as'

abbrev pub all_accepted : Shared → List Action → List ℕ
all_accepted s [] = []
all_accepted s (a ∷ as') = accepted s a ++ all_accepted (act s a) as'

pub act_stream :
    (s : Shared) (a : Action)
    → IsValid s.ring
    → IsValid (act s a).ring
      × (contents s.ring ++ accepted s a ≡ delivered s a ++ contents (act s a).ring)
unfolding act drop_end
act_stream s (reads n) v = let l = read_round_lem s n v in (l.0, append-nil _ ∙ l.1)
act_stream s (writes bs) v =
    let l = write_round_lem s bs 0 v in
    (
      l.0,
      ap (λ k. contents s.ring ++ take k bs) {y = min (available_write s.ring) (length bs)}
            (omega (arith, l.2))
          ∙ ap (λ xs. contents s.ring ++ xs) (take-min (available_write s.ring) bs)
          ∙ sym l.1,
    )
act_stream s drops v = (v, append-nil _)

-- From a valid buffer, through any sequence of passes of reads, passes of writes and closed ends, the
-- buffer stays valid, and what it held followed by all bytes accepted from writers equals all bytes
-- delivered to readers followed by what it holds in the end: nothing is lost, duplicated or reordered.
pub act_all-stream :
    (s : Shared) (as' : List Action)
    → IsValid s.ring
    → IsValid (act_all s as').ring
      × (contents s.ring ++ all_accepted s as'
          ≡ all_delivered s as' ++ contents (act_all s as').ring)
unfolding act_all
act_all-stream s [] v = (v, append-nil _)
act_all-stream s (a ∷ as') v =
    let one = act_stream s a v in
    let ih = act_all-stream (act s a) as' one.0 in
    (
      ih.0,
      sym (append_assoc (contents s.ring) (accepted s a) _)
          ∙ ap (λ xs. xs ++ all_accepted (act s a) as') one.1
          ∙ append_assoc (delivered s a) _ _
          ∙ ap (λ xs. delivered s a ++ xs) ih.1
          ∙ sym (append_assoc (delivered s a) _ _),
    )
