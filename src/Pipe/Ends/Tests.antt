-- ===== src/Pipe/Ends/Tests.antt =====
-- Runs of a pipe, and the theorems at concrete pipes.
use oscomp_test_listline.Prelude.{
  ℕ, ◌≡◌, refl, List, [], ◌∷◌, ◌++◌, arith, true, false, length, set, replicate, min,
}
use oscomp_test_listline.Errno.{ok, err, epipe}
use oscomp_test_listline.Pipe.Buffer.{
  PipeRingBuffer, normal, available_read, new_buffer, write_byte, read_byte,
}
use oscomp_test_listline.Pipe.Buffer.Contents.{
  IsValid, contents, contents-write_byte, contents-read_byte,
}
use oscomp_test_listline.Pipe
use oscomp_test_listline.Pipe.Ends.{
  Shared, Pipe, Action, reads, writes, drops, act_all, Outcome, done, blocked, read, write, poll,
}
use oscomp_test_listline.Pipe.Ends.Stream.{act_all-stream, all_accepted, all_delivered}
use oscomp_test_listline.Pipe.Ends.Blocking.{
  read_available, write_with_space, write_exact_blocks, read_empty, poll_exact,
}

abbrev read_end : Pipe
read_end = record { readable = true }

abbrev write_end : Pipe
write_end = record { readable = false }

abbrev fresh : Shared
fresh = record { ring = new_buffer; strong_count = 2 }

-- Three bytes across the end of the array.
abbrev wrapped : PipeRingBuffer
wrapped = record {
  arr = set (set (set (replicate 256 0) 254 7) 255 8) 0 9;
  head = 254;
  tail = 1;
  status = normal;
}

abbrev holding : Shared
holding = record { ring = wrapped; strong_count = 2 }

wrapped-IsValid : IsValid wrapped
wrapped-IsValid = record {
  storage = refl;
  head_in = omega arith;
  tail_in = omega arith;
  fits = omega arith;
}

contents-wrapped : contents wrapped ≡ 7 ∷ 8 ∷ 9 ∷ []
unfolding available_read
contents-wrapped = refl

abbrev traffic : List Action
traffic = reads 2 ∷ writes (4 ∷ 5 ∷ []) ∷ drops ∷ reads 9 ∷ []

traffic_delivered : all_delivered holding traffic ≡ 7 ∷ 8 ∷ 9 ∷ 4 ∷ 5 ∷ []
unfolding Pipe.Ends.act available_read oscomp_test_listline.Pipe.Ends.read_bytes read_byte
    oscomp_test_listline.Pipe.Buffer.available_write oscomp_test_listline.Pipe.Ends.write_bytes
    write_byte
traffic_delivered = refl

write_then_eof :
    write write_end [] (record fresh { strong_count = 1 }) (1 ∷ [])
    ≡ done (err epipe) (record fresh { strong_count = 1 })
unfolding write
write_then_eof = refl

contents-write_byte_example : contents (write_byte wrapped 3) ≡ contents wrapped ++ 3 ∷ []
unfolding oscomp_test_listline.Pipe.Buffer.available_write
contents-write_byte_example = contents-write_byte 3 wrapped-IsValid (omega arith)

contents-read_byte_concrete :
    contents wrapped ≡ (read_byte wrapped).0 ∷ contents (read_byte wrapped).1
unfolding available_read
contents-read_byte_concrete = contents-read_byte wrapped-IsValid (omega arith)

act_all-stream_example :
    IsValid (act_all holding traffic).ring
    × (contents wrapped ++ all_accepted holding traffic
        ≡ all_delivered holding traffic ++ contents (act_all holding traffic).ring)
act_all-stream_example = act_all-stream holding traffic wrapped-IsValid

read_available_concrete :
    (cs : List ℕ) × (s' : Shared) × (read read_end ((writes (1 ∷ []) ∷ []) ∷ []) holding 2
      ≡ done (ok cs) s')
    × (contents wrapped ≡ cs ++ contents s'.ring)
    × (length cs ≡ min (available_read wrapped) 2)
unfolding available_read
read_available_concrete =
    read_available read_end ((writes (1 ∷ []) ∷ []) ∷ []) holding 2 wrapped-IsValid refl
      (omega arith) (omega arith)

write_with_space_concrete :
    (s' : Shared) × (write write_end [] holding (4 ∷ 5 ∷ []) ≡ done (ok 2) s')
    × (contents s'.ring ≡ contents wrapped ++ 4 ∷ 5 ∷ [])
unfolding oscomp_test_listline.Pipe.Ends.closed oscomp_test_listline.Pipe.Buffer.available_write
write_with_space_concrete =
    write_with_space write_end [] holding (4 ∷ 5 ∷ []) wrapped-IsValid refl refl (omega arith)
      (omega arith)

write_exact_blocks_example :
    (s' : Shared) × (write write_end
        ((writes (7 ∷ []) ∷ []) ∷ replicate 3 [])
        holding
        (replicate 253 1)
      ≡ blocked s')
    × (contents s'.ring ≡ contents wrapped ++ replicate 253 1)
unfolding oscomp_test_listline.Pipe.Ends.closed oscomp_test_listline.Pipe.Buffer.available_write
write_exact_blocks_example =
    write_exact_blocks write_end (writes (7 ∷ []) ∷ []) (replicate 3 []) holding (replicate 253 1)
      (tt, (tt, (tt, (tt, tt)))) wrapped-IsValid refl refl (omega arith) (omega arith)

read_empty_concrete : read read_end (replicate 2 []) fresh 5 ≡ blocked fresh
unfolding Pipe.Ends.closed available_read new_buffer
read_empty_concrete = read_empty 2 read_end fresh 5 refl (omega arith) refl

poll_exact_concrete :
    ((poll read_end holding).readable ≡ true) × ((poll read_end holding).writable ≡ false)
unfolding available_read
poll_exact_concrete = poll_exact read_end holding wrapped-IsValid
