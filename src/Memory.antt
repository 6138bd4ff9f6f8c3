-- ===== src/Memory.antt =====
-- The calls on the memory of a process: api/src/imp/mm/brk.rs, api/src/imp/mm/mmap.rs.
pub mod Space
pub mod Mapping
pub mod Heap
mod Tests
use oscomp_test_listline.Prelude.{
  ℕ, ◌+◌, ◌-◌, ◌*◌, ◌/◌, ◌%◌, ◌^◌, min, Option, none, some, Bool, true, false, not, ◌&&◌, ◌||◌, ltb,
  leb, ◌==◌, if◌then◌else◌, List,
}
use oscomp_test_listline.Prelude.Int.{ℤ, pos, negsuc, ltb_ℤ, as_usize}
use oscomp_test_listline.Errno.{LinuxError, einval, enomem, LinuxResult, Result, ok, err, ◌>>=◌}
use Space.{AddrSpace, MappingFlags, File}

-- `ProcessData`'s heap fields of core/src/task.rs.
pub record UserHeap : Type 0 where
  pub heap_bottom : ℕ
  pub heap_top : ℕ

-- `heap_size` is the configuration's `USER_HEAP_SIZE`.
unfoldable pub sys_brk : ℕ → UserHeap → ℕ → ℕ × UserHeap
sys_brk heap_size h addr =
    if not (addr == 0) && (leb h.heap_bottom addr && leb addr (h.heap_bottom + heap_size))
    then (addr, record h { heap_top = addr })
    else (h.heap_top, h)

abbrev pub page_size : ℕ
page_size = 4096

abbrev pub align_down_4k : ℕ → ℕ
align_down_4k a = a - a % page_size

-- `(a + 4095) & !4095` in `usize`.
abbrev pub align_up_4k : ℕ → ℕ
align_up_4k a = let b : ℕ = (a + 4095) % 2 ^ 64 in b - b % page_size

abbrev pub has_bit : ℕ → ℕ → Bool
has_bit flags k = flags / 2 ^ k % 2 == 1

-- `From<MmapProt> for MappingFlags`
unfoldable pub mapping_flags : ℕ → MappingFlags
mapping_flags prot = record {
  read = has_bit prot 0;
  write = has_bit prot 1;
  execute = has_bit prot 2;
  user = true;
}

-- The bits PROT_READ, PROT_WRITE, PROT_EXEC, PROT_GROWSDOWN and PROT_GROWSUP.
abbrev pub is_known_prot : ℕ → Bool
is_known_prot prot = leb (prot / 2 ^ 26) 0 && prot % 2 ^ 24 / 8 == 0

-- Subtraction of addresses in `usize`.
abbrev pub is_minus_one : ℤ → Bool
is_minus_one (negsuc n) = n == 0
is_minus_one (pos n) = false

abbrev pub sub_size : ℕ → ℕ → ℕ
sub_size a b = (a + 2 ^ 64 - b) % 2 ^ 64

module _ {S : Type 0} (space : AddrSpace S) where
  -- Where a mapping goes, and the address space after an old mapping there is gone.
  unfoldable pub start_address : S → ℕ → ℕ → Bool → LinuxResult (ℕ × S)
  start_address s start aligned_length fixed =
      if fixed
      then (if start == 0
          then err einval
          else (space.unmap s start aligned_length >>= λ s'. ok (start, s')))
      else elim (space.find_free_area s start aligned_length) [
        | some a ↦ ok (a, s)
        | none ↦ elim (space.find_free_area s (space.base s) aligned_length) [
          | some a ↦ ok (a, s)
          | none ↦ err enomem
        ]
      ]

  -- The part of a file that is copied in; `file` is what `File::from_fd(fd)` answers.
  unfoldable pub populate : S → ℕ → ℕ → ℤ → LinuxResult File → LinuxResult S
  populate s start length offset file = do
    f ← file
    size ← f.size
    if ltb_ℤ offset (pos 0) || leb size (as_usize offset)
        then err einval
        else (f.read_at (as_usize offset) (min length (size - as_usize offset)) >>= λ bytes.
            space.write s start bytes)

  -- An error may leave the address space changed: the space after the call stands beside the result.
  unfoldable pub sys_mmap : S → ℕ → ℕ → ℕ → ℕ → ℤ → ℤ → LinuxResult File → LinuxResult ℕ × S
  unfolding mapping_flags start_address populate
  sys_mmap s addr length prot flags fd offset file =
      let start = align_down_4k addr in
      let aligned_length = sub_size (align_up_4k ((addr + length) % 2 ^ 64)) start in
      let fill : Bool = not (is_minus_one fd) && not (has_bit flags 5) in
      elim (start_address s start aligned_length (has_bit flags 4)) [
        | err e ↦ (err e, s)
        | ok (a, s₁) ↦ elim (space.map_alloc s₁ a aligned_length (mapping_flags prot) fill) [
          | err e ↦ (err e, s₁)
          | ok s₂ ↦
              if fill
              then elim (populate s₂ a length offset file) [
                | err e ↦ (err e, s₂)
                | ok s₃ ↦ (ok a, s₃)
              ]
              else (ok a, s₂)
        ]
      ]

  unfoldable pub sys_munmap : S → ℕ → ℕ → LinuxResult ℕ × S
  sys_munmap s addr length = elim (space.unmap s addr (align_up_4k length)) [
    | err e ↦ (err e, s)
    | ok s' ↦ (ok 0, s')
  ]

  unfoldable pub sys_mprotect : S → ℕ → ℕ → ℕ → LinuxResult ℕ × S
  unfolding mapping_flags
  sys_mprotect s addr length prot =
      if not (is_known_prot prot)
      then (err einval, s)
      else if has_bit prot 24 && has_bit prot 25
      then (err einval, s)
      else elim (space.protect s addr (align_up_4k length) (mapping_flags prot)) [
        | err e ↦ (err e, s)
        | ok s' ↦ (ok 0, s')
      ]
