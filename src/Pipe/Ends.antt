-- ===== src/Pipe/Ends.antt =====
-- `Pipe` of api/src/file/pipe.rs. Both ends share a buffer under a mutex and its reference count.
-- The body of a `loop` holds the mutex, so that one pass is one atomic step; between two passes the
-- mutex is free (and the thread may have yielded), so that the other threads act.
pub mod Rounds
pub mod Stream
pub mod Blocking
mod Tests
use oscomp_test_listline.Prelude.{
  ℕ, zero, suc, ◌+◌, ◌-◌, min, List, [], ◌∷◌, Bool, true, false, not, ◌&&◌, ltb, ◌==◌,
  if◌then◌else◌, length,
}
use oscomp_test_listline.Errno.{LinuxError, eperm, epipe, LinuxResult, ok, err}
use oscomp_test_listline.Pipe.Buffer.{
  PipeRingBuffer, new_buffer, write_byte, read_byte, available_read, available_write,
}

-- What `Arc<Mutex<PipeRingBuffer>>` refers to.
pub record Shared : Type 0 where
  pub ring : PipeRingBuffer
  pub strong_count : ℕ

pub record Pipe : Type 0 where
  pub readable : Bool

unfoldable pub new_pipe : Pipe × Pipe × Shared
new_pipe = (
  record { readable = true },
  record { readable = false },
  record { ring = new_buffer; strong_count = 2 },
)

unfoldable pub writable : Pipe → Bool
writable p = not p.readable

unfoldable pub closed : Shared → Bool
closed s = s.strong_count == 1

-- A `Pipe` is dropped when the last descriptor to it is closed.
unfoldable pub drop_end : Shared → Shared
drop_end s = record s { strong_count = s.strong_count - 1 }

-- One pass of a loop returns from the method, or goes round again with what is left to do.
pub data Round (A B : Type 0) : Type 0 where
  returned : A → Round A B
  again : B → Round A B

-- `for c in buf.iter_mut().take(read_size)`
unfoldable pub read_bytes : ℕ → PipeRingBuffer → List ℕ × PipeRingBuffer
read_bytes zero r = ([], r)
read_bytes (suc n) r = let (c, r') = read_byte r in let (cs, r'') = read_bytes n r' in (c ∷ cs, r'')

-- One pass of `read`; `Ok(n)` is told by the bytes that are put into the caller's buffer.
unfoldable pub read_round : Shared → ℕ → Round (List ℕ) ℕ × Shared
read_round s len =
    let read_size = min (available_read s.ring) len in
    let (cs, ring') = read_bytes read_size s.ring in
    if read_size == 0
    then (if closed s then (returned [], s) else (again len, s))
    else (returned cs, record s { ring = ring' })

-- `for _ in 0..loop_write`, over what is left of the caller's buffer: the buffer after the loop, what
-- is left then, how many bytes were written, and whether the method returned from inside the loop.
unfoldable pub write_bytes : ℕ → PipeRingBuffer → List ℕ → ℕ → PipeRingBuffer × List ℕ × ℕ × Bool
write_bytes zero r rest size = (r, rest, size, false)
write_bytes (suc n) r [] size = (r, [], size, true)
write_bytes (suc n) r (b ∷ rest) size = write_bytes n (write_byte r b) rest (size + 1)

-- One pass of `write` with `rest` still to be written and `write_size` bytes written.
unfoldable pub write_round : Shared → List ℕ → ℕ → Round ℕ (List ℕ × ℕ) × Shared
write_round s rest write_size =
    let loop_write = available_write s.ring in
    let (ring', rest', size', done) = write_bytes loop_write s.ring rest write_size in
    if loop_write == 0
    then (if closed s then (returned write_size, s) else (again (rest, write_size), s))
    else (if done then returned size' else again (rest', size'), record s { ring = ring' })

-- What another thread does to the pipe while the mutex is free.
pub data Action : Type 0 where
  reads : ℕ → Action
  writes : List ℕ → Action
  drops : Action

unfoldable pub act : Shared → Action → Shared
unfolding read_round write_round drop_end
act s (reads n) = (read_round s n).1
act s (writes bs) = (write_round s bs 0).1
act s drops = drop_end s

unfoldable pub act_all : Shared → List Action → Shared
act_all s [] = s
act_all s (a ∷ as') = act_all (act s a) as'

-- A call returns, or is still in its loop when the schedule ends.
pub data Outcome (A : Type 0) : Type 0 where
  done : A → Shared → Outcome A
  blocked : Shared → Outcome A

-- The schedule has what the other threads do between each two passes.
unfoldable pub read_loop : List (List Action) → Shared → ℕ → Outcome (LinuxResult (List ℕ))
read_loop [] s len =
    let (o, s') = read_round s len in
    elim o [ returned cs ↦ done (ok cs) s' | again len' ↦ blocked s' ]
read_loop (as' ∷ sched) s len =
    let (o, s') = read_round s len in
    elim o [ returned cs ↦ done (ok cs) s' | again len' ↦ read_loop sched (act_all s' as') len' ]

unfoldable pub read : Pipe → List (List Action) → Shared → ℕ → Outcome (LinuxResult (List ℕ))
unfolding read_loop
read p sched s len =
    if not p.readable
    then done (err eperm) s
    else if len == 0
    then done (ok []) s
    else read_loop sched s len

unfoldable pub write_loop : List (List Action) → Shared → List ℕ → ℕ → Outcome (LinuxResult ℕ)
write_loop [] s rest size =
    let (o, s') = write_round s rest size in
    elim o [ returned n ↦ done (ok n) s' | again (rest', size') ↦ blocked s' ]
write_loop (as' ∷ sched) s rest size =
    let (o, s') = write_round s rest size in
    elim o [
      | returned n ↦ done (ok n) s'
      | again (rest', size') ↦ write_loop sched (act_all s' as') rest' size'
    ]

unfoldable pub write : Pipe → List (List Action) → Shared → List ℕ → Outcome (LinuxResult ℕ)
unfolding write_loop writable closed
write p sched s buf =
    if not (writable p)
    then done (err eperm) s
    else if closed s
    then done (err epipe) s
    else if length buf == 0
    then done (ok 0) s
    else write_loop sched s buf 0

pub record PollState : Type 0 where
  pub readable : Bool
  pub writable : Bool

unfoldable pub poll : Pipe → Shared → PollState
unfolding writable
poll p s = record {
  readable = p.readable && ltb 0 (available_read s.ring);
  writable = writable p && ltb 0 (available_write s.ring);
}
