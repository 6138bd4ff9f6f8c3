-- ===== src/Transfer.antt =====
-- The calls that move data, api/src/imp/fs/io.rs. What an open file does and the checks of user memory are
-- functions of the state `X` of the rest of the kernel, which a call hands on.
pub mod Vectors
pub mod Copying
mod Tests
use oscomp_test_listline.Prelude.{
  ℕ, zero, suc, ◌+◌, List, [], ◌∷◌, Option, none, some, Bool, true, false, ltb, ◌==◌, if◌then◌else◌,
  length,
}
use oscomp_test_listline.Prelude.Int.{ℤ, pos, negsuc, as_usize}
use oscomp_test_listline.Errno.{LinuxError, einval, espipe, LinuxResult, Result, ok, err}

pub record Iovec : Type 0 where
  pub iov_base : ℕ
  pub iov_len : ℕ

-- `slice addr len` is `get_as_slice` or `get_as_mut_slice`; `file` is `get_file_like(fd)`; `move addr len`
-- is the file's `read` into, or `write` from, that memory, and answers how many bytes it moved.
pub record Io (X : Type 0) : Type 0 where
  pub slice : X → ℕ → ℕ → LinuxResult (Unit {0})
  pub file : X → LinuxResult (Unit {0})
  pub move : X → ℕ → ℕ → LinuxResult ℕ × X

module _ {X : Type 0} (io : Io X) where
  -- `sys_read` and `sys_write`.
  unfoldable pub sys_move : X → ℕ → ℕ → LinuxResult ℕ × X
  sys_move x buf len = elim (io.slice x buf len) [
    | err e ↦ (err e, x)
    | ok _ ↦ elim (io.file x) [ err e ↦ (err e, x) | ok _ ↦ io.move x buf len ]
  ]

  -- The loop of `sys_readv` and `sys_writev`.
  unfoldable pub vector_loop : X → List Iovec → ℕ → LinuxResult ℕ × X
  unfolding sys_move
  vector_loop x [] ret = (ok ret, x)
  vector_loop x (v ∷ iovs) ret =
      let skip = vector_loop x iovs ret in
      if v.iov_len == 0
      then skip
      else (let (r, x') = sys_move x v.iov_base v.iov_len in
          elim r [
            | err e ↦ (err e, x')
            | ok n ↦
                let rest = vector_loop x' iovs (ret + n) in
                if ltb n v.iov_len then (ok (ret + n), x') else rest
          ])

  -- `iov` is the array of vectors that the pointer's check answers; it does not overlap the buffers.
  unfoldable pub sys_vector : X → LinuxResult (List Iovec) → ℕ → LinuxResult ℕ × X
  unfolding vector_loop
  sys_vector x iov iocnt =
      if ltb 1024 iocnt
      then (err einval, x)
      else elim iov [ err e ↦ (err e, x) | ok iovs ↦ vector_loop x iovs 0 ]

pub data SeekFrom : Type 0 where
  from_start : ℕ → SeekFrom
  from_current from_end : ℤ → SeekFrom

-- `file` is `File::from_fd(fd)`, whose `seek` is the file's method.
unfoldable pub seek_to :
    {X : Type 0} → LinuxResult (X → SeekFrom → LinuxResult ℕ × X) → X → SeekFrom → LinuxResult ℕ × X
seek_to (err e) x p = (err e, x)
seek_to (ok seek) x p = seek x p

unfoldable pub sys_lseek :
    {X : Type 0} → LinuxResult (X → SeekFrom → LinuxResult ℕ × X) → X → ℤ → ℕ → LinuxResult ℕ × X
unfolding seek_to
sys_lseek file x offset whence =
    if whence == 0
    then seek_to file x (from_start (as_usize offset))
    else if whence == 1
    then seek_to file x (from_current offset)
    else if whence == 2
    then seek_to file x (from_end offset)
    else (err einval, x)

-- The two ends of `do_sendfile`: a read of at most so many bytes, and a write.
pub record Ends (X : Type 0) : Type 0 where
  pub read : X → ℕ → LinuxResult (List ℕ) × X
  pub write : X → List ℕ → LinuxResult ℕ × X

abbrev pub chunk : ℕ
chunk = 0x4000

abbrev pub is_nil {ℓ} : {A : Type ℓ} → List A → Bool
is_nil [] = true
is_nil (x ∷ xs) = false

module _ {X : Type 0} (ends : Ends X) where
  -- The loop with fuel; `none` means that the fuel ran out.
  unfoldable pub do_sendfile : ℕ → X → ℕ → Option (LinuxResult ℕ × X)
  do_sendfile zero x total = none
  do_sendfile (suc fuel) x total =
      let (r, x₁) = ends.read x chunk in
      elim r [
        | err e ↦ some (err e, x₁)
        | ok bytes ↦ elim (is_nil bytes) [
          | true ↦ some (ok total, x₁)
          | false ↦
              let (w, x₂) = ends.write x₁ bytes in
              elim w [
                | err e ↦ some (err e, x₂)
                | ok n ↦ elim (ltb n (length bytes)) [
                  | true ↦ some (ok total, x₂)
                  | false ↦ do_sendfile fuel x₂ (total + n)
                ]
              ]
        ]
      ]

-- Without an offset the source is read through `sequential`. With one (the pointer's check answers it in
-- `offset`) the source must be a file, which `positioned` says, and is read at the offset, which moves on.
unfoldable pub sys_sendfile :
    {X : Type 0}
    → ℕ
    → X
    → LinuxResult (Unit {0})
    → LinuxResult (Unit {0})
    → LinuxResult (Option ℕ)
    → Ends X
    → Option (ℕ → Ends (X × ℕ))
    → ℕ
    → Option (LinuxResult ℕ × X)
unfolding do_sendfile
sys_sendfile fuel x (err e) dest offset sequential positioned len = some (err e, x)
sys_sendfile fuel x (ok _) (err e) offset sequential positioned len = some (err e, x)
sys_sendfile fuel x (ok _) (ok _) (err e) sequential positioned len = some (err e, x)
sys_sendfile fuel x (ok _) (ok _) (ok none) sequential positioned len =
    do_sendfile sequential fuel x 0
sys_sendfile fuel x (ok _) (ok _) (ok (some offset)) sequential none len = some (err espipe, x)
sys_sendfile fuel x (ok _) (ok _) (ok (some offset)) sequential (some at) len =
    elim (do_sendfile (at offset) fuel (x, offset) 0) [
      | none ↦ none
      | some (r, (x', offset')) ↦ some (r, x')
    ]
