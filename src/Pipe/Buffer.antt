-- ===== src/Pipe/Buffer.antt =====
-- `PipeRingBuffer` of api/src/file/pipe.rs. `&mut self` methods return the new buffer.
pub mod Contents
use oscomp_test_listline.Prelude.{
  ℕ, ◌+◌, ◌-◌, ◌%◌, List, Bool, true, false, ltb, ◌==◌, if◌then◌else◌, set, get_or, replicate,
}

pub data RingBufferStatus : Type 0 where
  full empty normal : RingBufferStatus

abbrev pub ring_buffer_size : ℕ
ring_buffer_size = 256

pub record PipeRingBuffer : Type 0 where
  pub arr : List ℕ
  pub head : ℕ
  pub tail : ℕ
  pub status : RingBufferStatus

unfoldable pub new_buffer : PipeRingBuffer
new_buffer = record { arr = replicate ring_buffer_size 0; head = 0; tail = 0; status = empty }

-- `arr[tail]` and `arr[head]` are in range in every buffer that `Contents.IsValid` describes.
unfoldable pub write_byte : PipeRingBuffer → ℕ → PipeRingBuffer
write_byte r byte =
    let tail' = (r.tail + 1) % ring_buffer_size in
    record {
      arr = set r.arr r.tail byte;
      head = r.head;
      tail = tail';
      status = if tail' == r.head then full else normal;
    }

unfoldable pub read_byte : PipeRingBuffer → ℕ × PipeRingBuffer
read_byte r =
    let head' = (r.head + 1) % ring_buffer_size in
    (
      get_or r.arr r.head 0,
      record r { head = head'; status = if head' == r.tail then empty else normal },
    )

abbrev pub is_empty_status : RingBufferStatus → Bool
is_empty_status empty = true
is_empty_status _ = false

abbrev pub is_full_status : RingBufferStatus → Bool
is_full_status full = true
is_full_status _ = false

-- The length of the remaining data.
unfoldable pub available_read : PipeRingBuffer → ℕ
available_read r =
    if is_empty_status r.status
    then 0
    else if ltb r.head r.tail
    then r.tail - r.head
    else r.tail + ring_buffer_size - r.head

-- The length of the remaining space.
unfoldable pub available_write : PipeRingBuffer → ℕ
unfolding available_read
available_write r = if is_full_status r.status then 0 else ring_buffer_size - available_read r
