-- ===== src/Pipe/Ends/Blocking.antt =====
-- When the calls `read` and `write` return, and when they stay in their loops.
use oscomp_test_listline.Prelude.{
  ℕ, zero, suc, ◌<◌, ◌≡◌, ap, ◌∙◌, sym, List, [], ◌∷◌, ◌++◌, arith, min, true, false, length,
  replicate, ltb, take_all, refl, length-append, if◌then◌else◌, ◌&&◌, not,
}
use oscomp_test_listline.Errno.{ok}
use oscomp_test_listline.Pipe.Buffer.{available_read, available_write}
use oscomp_test_listline.Pipe.Buffer.Contents.{IsValid, contents, length-contents, available_sum}
use oscomp_test_listline.Pipe.Ends.{
  again, Shared, Pipe, Action, act_all, done, blocked, read_round, write_round, read, write_loop,
  write, closed, write_bytes, poll, read_bytes, reads, writes, drops, act,
}
use oscomp_test_listline.Pipe.Ends.Rounds.{read_bytes_lem, write_bytes_lem}

-- A read on the read end with room in the caller's buffer, of a valid pipe that holds data, returns at
-- once whatever the schedule: the oldest bytes, as many as there are and the caller has room for, which
-- leave the pipe.
pub read_available :
    (p : Pipe) (sched : List (List Action)) (s : Shared) (len : ℕ)
    → IsValid s.ring
    → p.readable ≡ true
    → 0 < len
    → 0 < available_read s.ring
    → (cs : List ℕ) × (s' : Shared) × (read p sched s len ≡ done (ok cs) s')
      × (contents s.ring ≡ cs ++ contents s'.ring)
      × (length cs ≡ min (available_read s.ring) len)
unfolding read read_round
read_available p [] s len v e h k =
    let n = min (available_read s.ring) len in
    let l = read_bytes_lem n s.ring v (omega arith) in
    ((read_bytes n s.ring).0, record s { ring = (read_bytes n s.ring).1 }, ground arith, l.1, l.2)
read_available p (as' ∷ sched) s len v e h k =
    let n = min (available_read s.ring) len in
    let l = read_bytes_lem n s.ring v (omega arith) in
    ((read_bytes n s.ring).0, record s { ring = (read_bytes n s.ring).1 }, ground arith, l.1, l.2)

-- A write of a non-empty buffer on the write end of a valid pipe that is open and has more space than
-- the buffer is long returns at once whatever the schedule: it reports the whole length, and the bytes
-- stand in order at the end of the pipe.
pub write_with_space :
    (p : Pipe) (sched : List (List Action)) (s : Shared) (buf : List ℕ)
    → IsValid s.ring
    → p.readable ≡ false
    → closed s ≡ false
    → 0 < length buf
    → length buf < available_write s.ring
    → (s' : Shared) × (write p sched s buf ≡ done (ok (length buf)) s')
      × (contents s'.ring ≡ contents s.ring ++ buf)
unfolding write write_round
write_with_space p [] s buf v e c h k =
    let l = write_bytes_lem (available_write s.ring) s.ring buf 0 v (omega arith) in
    (
      record s { ring = (write_bytes (available_write s.ring) s.ring buf 0).0 },
      ground arith,
      l.1 ∙ ap (λ xs. contents s.ring ++ xs) (take_all (available_write s.ring) buf (omega arith)),
    )
write_with_space p (as' ∷ sched) s buf v e c h k =
    let l = write_bytes_lem (available_write s.ring) s.ring buf 0 v (omega arith) in
    (
      record s { ring = (write_bytes (available_write s.ring) s.ring buf 0).0 },
      ground arith,
      l.1 ∙ ap (λ xs. contents s.ring ++ xs) (take_all (available_write s.ring) buf (omega arith)),
    )

-- Every action is a write.
abbrev pub AllWrites : List Action → Type 0
AllWrites [] = Unit
AllWrites (reads n ∷ as') = ⊥
AllWrites (writes bs ∷ as') = AllWrites as'
AllWrites (drops ∷ as') = ⊥

-- In every turn of the others.
abbrev pub OnlyWrites : List (List Action) → Type 0
OnlyWrites [] = Unit
OnlyWrites (as' ∷ sched) = AllWrites as' × OnlyWrites sched

write_round_full :
    (s : Shared) (rest : List ℕ) (size : ℕ)
    → available_write s.ring ≡ 0
    → closed s ≡ false
    → write_round s rest size ≡ (again (rest, size), s)
unfolding write_round
write_round_full s rest size h c = ground (arith, h, c)

act_all_full :
    (s : Shared) (as' : List Action)
    → available_write s.ring ≡ 0
    → closed s ≡ false
    → AllWrites as'
    → act_all s as' ≡ s
unfolding act_all act write_round
act_all_full s [] h c w = refl
act_all_full s (reads n ∷ as') h c w = absurd w
act_all_full s (writes bs ∷ as') h c w =
    ap (λ x. act_all x as') (ap (λ x. x.1) (write_round_full s bs 0 h c)) ∙ act_all_full s as' h c w
act_all_full s (drops ∷ as') h c w = absurd w

-- A full pipe with both ends open: as long as the others only write, a write stays in its loop.
write_loop_full :
    (sched : List (List Action)) (s : Shared) (rest : List ℕ) (size : ℕ)
    → available_write s.ring ≡ 0
    → closed s ≡ false
    → OnlyWrites sched
    → write_loop sched s rest size ≡ blocked s
unfolding write_loop
write_loop_full [] s rest size h c w =
    rw (write_loop, write_round_full s rest size h c)
      (ap (λ x. blocked (x.1)) (write_round_full s rest size h c))
write_loop_full (as' ∷ sched) s rest size h c w =
    let same = act_all_full s as' h c w.0 in
    let later = write_loop_full sched s rest size h c w.1 in
    rw (write_loop, write_round_full s rest size h c)
      (ap (λ x. write_loop sched (act_all (x.1) as') rest size) (write_round_full s rest size h c)
        ∙ ap (λ x. write_loop sched x rest size) same
        ∙ later)

-- A write that exactly fills the space of a valid, open pipe does not return as long as the other threads
-- only write, so that nobody reads or closes an end, however long it waits, although all its bytes stand in
-- the pipe.
pub write_exact_blocks :
    (p : Pipe) (as' : List Action) (sched : List (List Action)) (s : Shared) (buf : List ℕ)
    → OnlyWrites (as' ∷ sched)
    → IsValid s.ring
    → p.readable ≡ false
    → closed s ≡ false
    → 0 < length buf
    → length buf ≡ available_write s.ring
    → (s' : Shared) × (write p (as' ∷ sched) s buf ≡ blocked s')
      × (contents s'.ring ≡ contents s.ring ++ buf)
unfolding write write_round act_all closed
write_exact_blocks p as' sched s buf o v e c h k =
    let w = write_bytes (available_write s.ring) s.ring buf 0 in
    let l = write_bytes_lem (available_write s.ring) s.ring buf 0 v (omega arith) in
    let s' : Shared = record s { ring = w.0 } in
    let whole : contents s'.ring ≡ contents s.ring ++ buf =
      l.1
      ∙ ap (λ xs. contents s.ring ++ xs) (take_all (available_write s.ring) buf (omega arith)) in
    let full : available_write s'.ring ≡ 0 = omega (
      arith,
      available_sum v,
      available_sum l.0,
      ap length whole,
      length-append (contents s.ring) buf,
      length-contents s.ring,
      length-contents s'.ring,
    ) in
    let same = act_all_full s' as' full c o.0 in
    let later = write_loop_full sched s' w.1 w.2 full c o.1 in
    let next = ap (λ x. write_loop sched x w.1 w.2) same ∙ later in
    (s', ground (arith, next), whole)

-- A read with room in the caller's buffer on the read end of a pipe without data: at the end of the
-- file (the other end is gone) it returns no bytes, and otherwise it stays in its loop as long as
-- nobody writes and nobody closes the other end.
pub read_empty :
    (n : ℕ) (p : Pipe) (s : Shared) (len : ℕ)
    → p.readable ≡ true
    → 0 < len
    → available_read s.ring ≡ 0
    → read p (replicate n []) s len ≡ (if closed s then done (ok []) s else blocked s)
unfolding read read_round act_all
read_empty zero p s len e h k = ground arith
read_empty (suc n) p s len e h k = ground (arith, read_empty n p s len e h k)

-- `poll` on a valid pipe reports the read end readable exactly when the pipe holds data, and the
-- write end writable exactly when it has space; it never reports the other direction.
pub poll_exact :
    (p : Pipe) (s : Shared)
    → IsValid s.ring
    → ((poll p s).readable ≡ (p.readable && ltb 0 (length (contents s.ring))))
      × ((poll p s).writable ≡ (not p.readable && ltb (length (contents s.ring)) 256))
unfolding poll
poll_exact p s v = (
  ap (λ k. p.readable && ltb 0 k) (sym (length-contents s.ring)),
  ground (arith, length-contents s.ring, available_sum v),
)
