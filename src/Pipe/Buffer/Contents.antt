-- ===== src/Pipe/Buffer/Contents.antt =====
-- The ring buffer as a queue of bytes: the invariant, and what each method does to the queue.
use oscomp_test_listline.Prelude.{
  ℕ, zero, suc, ◌+◌, ◌%◌, ◌≤◌, ◌<◌, ◌≡◌, ◌≢◌, refl, ap, ◌∙◌, List, [], ◌∷◌, ◌++◌, arith, length,
  get_or, set, length-set, get_or-set_self, get_or-set_ne, length-replicate,
}
use oscomp_test_listline.Pipe.Buffer.{
  PipeRingBuffer, RingBufferStatus, full, empty, normal, ring_buffer_size, new_buffer, write_byte,
  read_byte, available_read, available_write,
}

-- The status tells a full buffer from an empty one, which the indices cannot.
abbrev pub StatusFits : RingBufferStatus → ℕ → ℕ → Type 0
StatusFits full h t = h ≡ t
StatusFits empty h t = h ≡ t
StatusFits normal h t = h ≢ t

pub record IsValid (r : PipeRingBuffer) : Type 0 where
  pub storage : length r.arr ≡ ring_buffer_size
  pub head_in : r.head < ring_buffer_size
  pub tail_in : r.tail < ring_buffer_size
  pub fits : StatusFits r.status r.head r.tail

-- The `n` bytes from index `h` on, going round at the end of the array.
abbrev pub window : List ℕ → ℕ → ℕ → List ℕ
window arr h zero = []
window arr h (suc n) = get_or arr h 0 ∷ window arr ((h + 1) % ring_buffer_size) n

-- The bytes that the buffer holds, oldest first.
abbrev pub contents : PipeRingBuffer → List ℕ
contents r = window r.arr r.head (available_read r)

length-window : (arr : List ℕ) (h n : ℕ) → length (window arr h n) ≡ n
length-window arr h zero = refl
length-window arr h (suc n) = ap suc (length-window arr ((h + 1) % ring_buffer_size) n)

pub length-contents : (r : PipeRingBuffer) → length (contents r) ≡ available_read r
length-contents r = length-window r.arr r.head (available_read r)

-- A new buffer is valid and holds nothing.
pub new_buffer-IsValid : IsValid new_buffer
unfolding new_buffer
new_buffer-IsValid = record {
  storage = length-replicate {A = ℕ} 256 0;
  head_in = omega arith;
  tail_in = omega arith;
  fits = refl;
}

-- The two counts never exceed the array, and together make it up.
pub available_sum :
    {r : PipeRingBuffer} → IsValid r → available_read r + available_write r ≡ ring_buffer_size
unfolding available_read available_write
available_sum v = ground arith

pub available_read_le : {r : PipeRingBuffer} → IsValid r → available_read r ≤ ring_buffer_size
available_read_le v = omega (arith, available_sum v)

-- The index that the next byte is written to is `available_read` steps past the head.
tail_lem :
    {r : PipeRingBuffer} → IsValid r → r.tail ≡ (r.head + available_read r) % ring_buffer_size
unfolding available_read
tail_lem v = ground arith

add-mod-ne : (h k : ℕ) → h < 256 → suc k < 256 → (h + suc k) % 256 ≢ h
add-mod-ne h k hh hk = omega arith

-- Writing just past a window extends it by that byte.
window-set :
    (arr : List ℕ) (x n h i : ℕ)
    → length arr ≡ 256
    → n < 256
    → h < 256
    → i ≡ (h + n) % 256
    → window (set arr i x) h (suc n) ≡ window arr h n ++ x ∷ []
window-set arr x zero h i hl hn hh hi =
    let e : i ≡ h = omega arith in
    ap (λ (y : ℕ). y ∷ [])
      (ap (λ k. get_or (set arr k x) h 0) e ∙ get_or-set_self arr h x 0 (omega arith))
window-set arr x (suc n) h i hl hn hh hi = cc (
  get_or-set_ne arr i h x 0 (omega arith),
  window-set arr x n ((h + 1) % 256) i hl (omega arith) (omega arith) (omega arith),
)

-- `write_byte` into a buffer with space keeps it valid, and counts one byte more.
pub write_byte-IsValid :
    {r : PipeRingBuffer} (x : ℕ)
    → IsValid r
    → 0 < available_write r
    → IsValid (write_byte r x) × (available_read (write_byte r x) ≡ available_read r + 1)
unfolding write_byte available_read available_write
write_byte-IsValid {r} x v h = (ground (arith, length-set r.arr r.tail x), ground arith)

-- `read_byte` from a buffer with data keeps it valid, and counts one byte less.
pub read_byte-IsValid :
    {r : PipeRingBuffer}
    → IsValid r
    → 0 < available_read r
    → IsValid (read_byte r).1 × (available_read (read_byte r).1 + 1 ≡ available_read r)
unfolding read_byte available_read
read_byte-IsValid v h = (ground arith, ground arith)

-- `write_byte` into a valid buffer that has space left appends the byte to the contents.
pub contents-write_byte :
    {r : PipeRingBuffer} (x : ℕ)
    → IsValid r
    → 0 < available_write r
    → contents (write_byte r x) ≡ contents r ++ x ∷ []
unfolding write_byte
contents-write_byte {r} x v h =
    ap (window (set r.arr r.tail x) r.head) {y = suc (available_read r)}
      (omega (arith, (write_byte-IsValid x v h).1))
    ∙ window-set r.arr x (available_read r) r.head r.tail v.storage (omega (arith, available_sum v))
        v.head_in (tail_lem v)

window_pos :
    (arr : List ℕ) (h n m : ℕ)
    → m + 1 ≡ n
    → window arr h n ≡ get_or arr h 0 ∷ window arr ((h + 1) % 256) m
window_pos arr h zero m e = absurd (omega arith)
window_pos arr h (suc n) m e = ap (λ k. get_or arr h 0 ∷ window arr ((h + 1) % 256) k) (omega arith)

-- `read_byte` takes the oldest byte off the contents.
pub contents-read_byte :
    {r : PipeRingBuffer}
    → IsValid r
    → 0 < available_read r
    → contents r ≡ (read_byte r).0 ∷ contents (read_byte r).1
unfolding read_byte
contents-read_byte {r} v h =
    window_pos r.arr r.head (available_read r) (available_read (read_byte r).1)
      (read_byte-IsValid v h).1
