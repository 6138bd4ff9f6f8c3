-- ===== src/Loader.antt =====
-- core/src/mm.rs: from the arguments of a program to its memory. The ELF parser (crates xmas_elf and
-- kernel_elf_parser), the address space (axmm) and the file system (axfs) are parameters.
pub mod Texts
pub mod Pages
pub mod Segments
pub mod Chain
pub mod Interpreters
mod Tests
unfoldable pub use oscomp_test_listline.Loader.Texts.{
  is_ascii_whitespace, trim_start, trim_end, trim_ascii, split_once, words, from_bytes_with_nul,
  get_range, substitute,
}
use oscomp_test_listline.Prelude.{
  ℕ, zero, suc, ◌+◌, ◌-◌, ◌%◌, ◌^◌, min, List, [], ◌∷◌, ◌++◌, Option, none, some, Bool, true, false,
  not, ◌&&◌, ◌||◌, ltb, leb, ◌==◌, if◌then◌else◌, length, take, drop, Text, codes, text_eq,
  starts_with,
}
use oscomp_test_listline.Errno.{AxError, invalid_input, invalid_data, AxResult, ok, err, ◌>>=◌}
use oscomp_test_listline.Memory.{page_size, align_down_4k}
use oscomp_test_listline.Memory.Space.{MappingFlags}

-- What the loader uses of an address space.
pub record UserSpace (S : Type 0) : Type 0 where
  pub map_alloc : S → ℕ → ℕ → MappingFlags → Bool → AxResult S
  pub write : S → ℕ → List ℕ → AxResult S

-- A program header of the type PT_LOAD.
pub record Segment : Type 0 where
  pub vaddr : ℕ
  pub memsz : ℕ
  pub offset : ℕ
  pub filesz : ℕ
  pub flags : MappingFlags

-- An `ElfFile` with what `ELFParser` makes of it: the data of the header of the type PT_INTERP, if there is
-- one (`none` inside for data of another kind), the segments, or the error of the parser, the entry and the
-- auxiliary vector.
pub record ElfFile (V : Type 0) : Type 0 where
  pub input : List ℕ
  pub interp : Option (Option (List ℕ))
  pub ph_load : Option (List Segment)
  pub entry : ℕ
  pub auxv : V

-- `axfs::api::read` and `canonicalize`, `ElfFile::new`, `app_stack_region`, and `from_utf8` and `trim` of
-- `str`.
pub record Formats (V : Type 0) : Type 0 where
  pub read : Text → AxResult (List ℕ)
  pub canonicalize : Text → AxResult Text
  pub elf_new : List ℕ → Option (ElfFile V)
  pub app_stack_region : List Text → List Text → V → ℕ → ℕ → List ℕ
  pub is_utf8 : List ℕ → Bool
  pub trim : Text → Text

-- The configuration's USER_STACK_TOP, USER_STACK_SIZE, USER_HEAP_BASE and USER_HEAP_SIZE.
pub record Layout : Type 0 where
  pub stack_top : ℕ
  pub stack_size : ℕ
  pub heap_base : ℕ
  pub heap_size : ℕ

-- Readable and writable by the user.
abbrev pub user_data : MappingFlags
user_data = record { read = true; write = true; execute = false; user = true }

-- `none` is the panic of an assertion; the address space afterwards stands beside the result.
module _ {S : Type 0} (space : UserSpace S) where
  -- One pass of the loop of `map_elf`.
  unfoldable pub map_segment : List ℕ → S → Segment → Option (AxResult (Unit {0}) × S)
  unfolding get_range
  map_segment input s seg =
      let seg_pad = seg.vaddr % page_size in
      if not (seg_pad == seg.offset % page_size)
      then none
      else (let seg_align_size = align_down_4k ((seg.memsz + seg_pad + page_size - 1) % 2 ^ 64) in
          elim (space.map_alloc s (align_down_4k seg.vaddr) seg_align_size seg.flags true) [
            | err e ↦ some (err e, s)
            | ok s1 ↦ elim (get_range input seg.offset ((seg.offset + seg.filesz) % 2 ^ 64)) [
              | none ↦ some (err invalid_data, s1)
              | some bytes ↦ elim (space.write s1 seg.vaddr bytes) [
                | err e ↦ some (err e, s1)
                | ok s2 ↦ some (ok tt, s2)
              ]
            ]
          ])

  unfoldable pub map_segments : List ℕ → S → List Segment → Option (AxResult (Unit {0}) × S)
  unfolding map_segment
  map_segments input s [] = some (ok tt, s)
  map_segments input s (seg ∷ segs) = elim (map_segment input s seg) [
    | none ↦ none
    | some (r, s1) ↦ elim r [ err e ↦ some (err e, s1) | ok u ↦ map_segments input s1 segs ]
  ]

  unfoldable pub map_elf : {V : Type 0} → S → ElfFile V → Option (AxResult (ℕ × V) × S)
  unfolding map_segments
  map_elf s elf = elim elf.ph_load [
    | none ↦ some (err invalid_data, s)
    | some segs ↦ elim (map_segments elf.input s segs) [
      | none ↦ none
      | some (r, s1) ↦ some (r >>= (λ u. ok (elf.entry, elf.auxv)), s1)
    ]
  ]

-- The line after `#!` of a script, up to 254 bytes of it.
unfoldable pub script_line : List ℕ → Text
unfolding split_once
script_line file_data =
    (split_once (λ c. c == 10) (take (min (length file_data) 256 - 2) (drop 2 file_data))).0

-- What the first argument's file asks for: an error, a panic, another call with more arguments, or the
-- program itself.
pub data Next (V : Type 0) : Type 0 where
  fails : AxError → Next V
  aborts : Next V
  again : List Text → Next V
  program : ElfFile V → Next V

-- What a call comes to; it is `loops` while the fuel does not reach its end.
pub data Loading (S : Type 0) : Type 0 where
  panics : Loading S
  loops : Loading S
  returns : AxResult (ℕ × ℕ) → S → Loading S

module _ {V : Type 0} (formats : Formats V) where
  unfoldable pub script_args : List ℕ → List Text → Next V
  unfolding script_line words
  script_args file_data args =
      let line = script_line file_data in
      if formats.is_utf8 line then again (words (formats.trim line) ++ args) else fails invalid_data

  -- The arguments with the dynamic loader in front.
  unfoldable pub interp_args : List ℕ → List Text → Next V
  unfolding from_bytes_with_nul substitute
  interp_args interp args = elim (from_bytes_with_nul interp) [
    | none ↦ fails invalid_data
    | some path ↦
        if formats.is_utf8 path
        then elim (formats.canonicalize path) [
          | err e ↦ fails e
          | ok p ↦ again (substitute p ∷ args)
        ]
        else fails invalid_data
  ]

  unfoldable pub elf_args : List ℕ → List Text → Next V
  unfolding interp_args
  elf_args file_data args = elim (formats.elf_new file_data) [
    | none ↦ fails invalid_data
    | some elf ↦ elim elf.interp [
      | none ↦ program elf
      | some d ↦ elim d [ none ↦ aborts | some interp ↦ interp_args interp args ]
    ]
  ]

  unfoldable pub next_args : List Text → Next V
  unfolding script_args elf_args starts_with
  next_args [] = fails invalid_input
  next_args (path ∷ args) = elim (formats.read path) [
    | err e ↦ fails e
    | ok file_data ↦
        if starts_with file_data (codes "#!")
        then script_args file_data (path ∷ args)
        else elf_args file_data (path ∷ args)
  ]

module _ {S V : Type 0} (space : UserSpace S) (formats : Formats V) (layout : Layout) where
  -- The stack and the heap, after the segments.
  unfoldable pub map_stack : S → ℕ → List ℕ → Loading S
  map_stack s entry stack_data =
      elim (space.map_alloc s (layout.stack_top - layout.stack_size) layout.stack_size user_data
        true) [
          | err e ↦ returns (err e) s
          | ok s1 ↦ elim (space.map_alloc s1 layout.heap_base layout.heap_size user_data true) [
            | err e ↦ returns (err e) s1
            | ok s2 ↦
                let user_sp = (layout.stack_top + 2 ^ 64 - length stack_data) % 2 ^ 64 in
                elim (space.write s2 user_sp stack_data) [
                  | err e ↦ returns (err e) s2
                  | ok s3 ↦ returns (ok (entry, user_sp)) s3
                ]
          ]
        ]

  -- `load_user_app` of a program without a dynamic loader.
  unfoldable pub load_program : S → ElfFile V → List Text → List Text → Loading S
  unfolding map_elf map_stack
  load_program s elf args envs = elim (map_elf space s elf) [
    | none ↦ panics
    | some (r, s1) ↦ elim r [
      | err e ↦ returns (err e) s1
      | ok (entry, auxv) ↦ map_stack s1 entry (
          formats.app_stack_region args envs auxv (layout.stack_top - layout.stack_size)
            layout.stack_size)
    ]
  ]

  -- Each call of itself takes fuel.
  unfoldable pub load_user_app : ℕ → S → List Text → List Text → Loading S
  unfolding next_args load_program
  load_user_app zero s args envs = loops
  load_user_app (suc fuel) s args envs = elim (next_args formats args) [
    | fails e ↦ returns (err e) s
    | aborts ↦ panics
    | again more ↦ load_user_app fuel s more envs
    | program elf ↦ load_program s elf args envs
  ]

-- `access_user_memory` with the per-CPU flag: what it is while `f` runs, on a state, and afterwards.
module _ {A X : Type 0} where
  unfoldable pub access_user_memory : (Bool → X → A × Bool × X) → Bool → X → A × Bool × X
  access_user_memory f v x = let (result, w, y) = f true x in (result, false, y)

unfoldable pub is_accessing_user_memory : Bool → Bool
is_accessing_user_memory v = v
