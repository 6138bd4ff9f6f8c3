-- ===== src/Pipe/Ends/Rounds.antt =====
-- What one pass of the loops of `read` and `write` does to the bytes in the pipe.
use oscomp_test_listline.Prelude.{
  ℕ, zero, suc, ◌+◌, ◌≤◌, ◌<◌, ◌≡◌, refl, ap, ◌∙◌, sym, List, [], ◌∷◌, ◌++◌, ltb, arith, min,
  length, take, take_zero, drop, append_assoc, append-nil,
}
use oscomp_test_listline.Pipe.Buffer.{
  PipeRingBuffer, available_read, available_write, write_byte, read_byte,
}
use oscomp_test_listline.Pipe.Buffer.Contents.{
  IsValid, contents, available_sum, write_byte-IsValid, read_byte-IsValid, contents-write_byte,
  contents-read_byte,
}
use oscomp_test_listline.Pipe.Ends.{
  Shared, Round, returned, again, read_bytes, read_round, write_bytes, write_round,
}

-- `read_bytes` takes the oldest bytes off the queue, in order.
pub read_bytes_lem :
    (n : ℕ) (r : PipeRingBuffer)
    → IsValid r
    → n ≤ available_read r
    → IsValid (read_bytes n r).1
      × (contents r ≡ (read_bytes n r).0 ++ contents (read_bytes n r).1)
      × (length (read_bytes n r).0 ≡ n)
unfolding read_bytes
read_bytes_lem zero r v h = (v, refl, refl)
read_bytes_lem (suc n) r v h =
    let one = read_byte-IsValid v (omega arith) in
    let rest = read_bytes_lem n (read_byte r).1 one.0 (omega (arith, one.1)) in
    (rest.0, contents-read_byte v (omega arith) ∙ ap (◌∷◌ (read_byte r).0) rest.1, ap suc rest.2)

-- `write_bytes` appends bytes of the caller's buffer, in order, as long as both last.
pub write_bytes_lem :
    (n : ℕ) (r : PipeRingBuffer) (rest : List ℕ) (size : ℕ)
    → IsValid r
    → n ≤ available_write r
    → let (r', rest', size', done) = write_bytes n r rest size in
      IsValid r'
      × (contents r' ≡ contents r ++ take n rest)
      × (rest' ≡ drop n rest)
      × (size' ≡ size + min n (length rest))
      × (done ≡ ltb (length rest) n)
unfolding write_bytes
write_bytes_lem zero r rest size v h = (v, sym (append-nil _), refl, omega arith, ground arith)
write_bytes_lem (suc n) r [] size v h = (v, sym (append-nil _), refl, omega arith, ground arith)
write_bytes_lem (suc n) r (b ∷ rest) size v h =
    let one = write_byte-IsValid b v (omega arith) in
    let ih =
      write_bytes_lem n (write_byte r b) rest (size + 1) one.0
        (omega (arith, available_sum v, available_sum one.0, one.1)) in
    (
      ih.0,
      ih.1
          ∙ ap (λ xs. xs ++ take n rest) (contents-write_byte b v (omega arith))
          ∙ append_assoc (contents r) (b ∷ []) (take n rest),
      ih.2,
      ih.3 ∙ omega arith,
      ih.4 ∙ ground arith,
    )

abbrev pub outcome_bytes : Round (List ℕ) ℕ → List ℕ
outcome_bytes (returned cs) = cs
outcome_bytes (again n) = []

abbrev pub outcome_size : Round ℕ (List ℕ × ℕ) → ℕ
outcome_size (returned n) = n
outcome_size (again (rest, n)) = n

-- A pass of `read` takes as many of the oldest bytes as there are and the caller has room for.
pub read_round_lem :
    (s : Shared) (n : ℕ)
    → IsValid s.ring
    → IsValid (read_round s n).1.ring
      × (contents s.ring ≡ outcome_bytes (read_round s n).0 ++ contents (read_round s n).1.ring)
      × (length (outcome_bytes (read_round s n).0) ≡ min (available_read s.ring) n)
      × ((read_round s n).1.strong_count ≡ s.strong_count)
unfolding read_round
read_round_lem s n v =
    let l = read_bytes_lem (min (available_read s.ring) n) s.ring v (omega arith) in
    (ground arith, ground arith, ground arith, ground arith)

-- With data in the pipe and room in the caller's buffer a pass of `read` returns.
pub read_round_returns :
    (s : Shared) (n : ℕ)
    → 0 < available_read s.ring
    → 0 < n
    → (read_round s n).0 ≡ returned (read_bytes (min (available_read s.ring) n) s.ring).0
unfolding read_round
read_round_returns s n h k = ground arith

-- A pass of `write` appends as many of the bytes as there is space for.
pub write_round_lem :
    (s : Shared) (rest : List ℕ) (size : ℕ)
    → IsValid s.ring
    → IsValid (write_round s rest size).1.ring
      × (contents (write_round s rest size).1.ring
          ≡ contents s.ring ++ take (available_write s.ring) rest)
      × (outcome_size (write_round s rest size).0
          ≡ size + min (available_write s.ring) (length rest))
      × ((write_round s rest size).1.strong_count ≡ s.strong_count)
unfolding write_round
write_round_lem s rest size v =
    let l = write_bytes_lem (available_write s.ring) s.ring rest size v (omega arith) in
    (
      ground arith,
      ground (arith, append-nil (contents s.ring), take_zero (available_write s.ring) rest),
      ground arith,
      ground arith,
    )
