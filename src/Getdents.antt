-- ===== src/Getdents.antt =====
-- `FileType`, `DirBuffer` and `sys_getdents64` of api/src/imp/fs/ctl.rs. The directory is axfs's.
pub mod Records
pub mod Calls
pub mod Stream
mod Tests
use oscomp_test_listline.Prelude.{
  ℕ, zero, suc, ◌+◌, ◌-◌, ◌*◌, ◌/◌, ◌%◌, ◌^◌, List, [], ◌∷◌, ◌++◌, Option, none, some, Bool, true,
  false, ltb, ◌==◌, ◌&&◌, if◌then◌else◌, length, take, drop,
}
use oscomp_test_listline.Errno.{LinuxError, einval, LinuxResult, ok, err}

pub data FileType : Type 0 where
  unknown fifo chr dir blk reg lnk socket : FileType

-- The numbers `DT_*` of the Linux headers.
unfoldable pub d_type : FileType → ℕ
d_type unknown = 0
d_type fifo = 1
d_type chr = 2
d_type dir = 4
d_type blk = 6
d_type reg = 8
d_type lnk = 10
d_type socket = 12

-- An entry as axfs gives it: what its type answers to `is_dir` and `is_file`, and the bytes of its name.
pub record DirEntry : Type 0 where
  pub is_dir : Bool
  pub is_file : Bool
  pub name : List ℕ

unfoldable pub file_type : DirEntry → FileType
file_type ent = if ent.is_dir then dir else if ent.is_file then reg else unknown

-- `offset` bytes of the buffer are used.
pub record DirBuffer : Type 0 where
  pub buf : List ℕ
  pub offset : ℕ

unfoldable pub new_dir_buffer : List ℕ → DirBuffer
new_dir_buffer buf = record { buf = buf; offset = 0 }

unfoldable pub remaining_space : DirBuffer → ℕ
remaining_space b = length b.buf - b.offset

-- `NAME_OFFSET + name.len() + 1`, and that up to the next multiple of 8.
abbrev pub used_len : List ℕ → ℕ
used_len name = length name + 20

abbrev pub record_len : List ℕ → ℕ
record_len name = (used_len name + 7) / 8 * 8

-- A `linux_dirent64` up to its name: d_ino, d_off, d_reclen as a `u16`, d_type.
unfoldable pub header : ℕ → ℕ → List ℕ
header len ty =
    1
    ∷ 0
    ∷ 0
    ∷ 0
    ∷ 0
    ∷ 0
    ∷ 0
    ∷ 0
    ∷ 0
    ∷ 0
    ∷ 0
    ∷ 0
    ∷ 0
    ∷ 0
    ∷ 0
    ∷ 0
    ∷ (len % 256)
    ∷ (len / 256 % 256)
    ∷ ty
    ∷ []

abbrev pub used : FileType → List ℕ → List ℕ
used ty name = header (record_len name) (d_type ty) ++ (name ++ (0 ∷ []))

-- The bytes between the end of the name and the next entry are padding; they keep what is there.
unfoldable pub write_entry : DirBuffer → FileType → List ℕ → Bool × DirBuffer
unfolding remaining_space header d_type
write_entry b ty name = if ltb (remaining_space b) (record_len name) then (false, b) else (
  true,
  record {
    buf = take b.offset b.buf ++ (used ty name ++ drop (b.offset + used_len name) b.buf);
    offset = b.offset + record_len name;
  },
)

-- An open directory: the entry that did not fit in the last call, and axfs's directory.
pub record Directory (D : Type 0) : Type 0 where
  pub last_dirent : Option DirEntry
  pub inner : D

module _ {D : Type 0} (read_dir : D → LinuxResult (Option DirEntry) × D) where
  -- The loop, with what it leaves as `last_dirent`. Each pass reads one entry; `none` means that the fuel
  -- ran out.
  unfoldable pub fill :
      ℕ → DirBuffer → D → Option (LinuxResult (Unit {0}) × DirBuffer × Option DirEntry × D)
  fill zero b d = none
  fill (suc fuel) b d =
      let (r, d') = read_dir d in
      elim r [
        | err e ↦ some (err e, b, none, d')
        | ok o ↦ elim o [
          | none ↦ some (ok tt, b, none, d')
          | some ent ↦
              (let (fits, b') = write_entry b (file_type ent) ent.name in
                elim fits [ true ↦ fill fuel b' d' | false ↦ some (ok tt, b', some ent, d') ])
        ]
      ]

  -- After the loop.
  unfoldable pub finish :
      LinuxResult (Unit {0}) × DirBuffer × Option DirEntry × D
      → LinuxResult ℕ × List ℕ × Directory D
  finish (err e, b, pending, d) = (err e, b.buf, record { last_dirent = pending; inner = d })
  finish (ok u, b, none, d) = (ok b.offset, b.buf, record { last_dirent = none; inner = d })
  finish (ok u, b, some ent, d) = (
    if b.offset == 0 then err einval else ok b.offset,
    b.buf,
    record { last_dirent = some ent; inner = d },
  )

  abbrev pub after :
      Option (LinuxResult (Unit {0}) × DirBuffer × Option DirEntry × D)
      → Option (LinuxResult ℕ × List ℕ × Directory D)
  after none = none
  after (some r) = some (finish r)

  -- On the slice of user memory and the directory that the arguments name.
  unfoldable pub sys_getdents64 :
      ℕ → List ℕ → Directory D → Option (LinuxResult ℕ × List ℕ × Directory D)
  sys_getdents64 fuel buf d = elim d.last_dirent [
    | none ↦ after (fill fuel (new_dir_buffer buf) d.inner)
    | some ent ↦
        (let (fits, b) = write_entry (new_dir_buffer buf) (file_type ent) ent.name in
          elim fits [ false ↦ some (err einval, b.buf, d) | true ↦ after (fill fuel b d.inner) ])
  ]
