-- ===== src/Loader/Segments.antt =====
-- Where the segments and the stack of a program go.
use oscomp_test_listline.Loader.Pages.{get_range_lem, pages_size, segment_pages}
use oscomp_test_listline.Prelude.{
  ℕ, ◌+◌, ◌-◌, ◌*◌, ◌%◌, ◌^◌, ◌≤◌, ◌<◌, ◌≡◌, sym, subst, ap, ◌∙◌, inl, inr, List, [], ◌∷◌, some,
  true, ◌==◌, length, take, drop, Bool-cases, Option-cases, arith, Text,
}
use oscomp_test_listline.Errno.{ok, Result-cases}
use oscomp_test_listline.Memory.{page_size, align_down_4k}
use oscomp_test_listline.Loader.{
  UserSpace, Segment, ElfFile, Formats, Layout, get_range, user_data, map_segment, map_segments,
  map_elf, returns, map_stack, load_program,
}

-- The sizes of a segment do not overflow.
abbrev pub Fits : Segment → Type 0
Fits seg = (seg.memsz + 2 * page_size < 2 ^ 64) × (seg.offset + seg.filesz < 2 ^ 64)

pub data AllFit : List Segment → Type 0 where
  none_fits : AllFit []
  fits_next : {seg : Segment} {segs : List Segment} → Fits seg → AllFit segs → AllFit (seg ∷ segs)

module _ {S : Type 0} (space : UserSpace S) where
  -- The pages that a segment is mapped to, and the bytes of the file that are written there.
  pub record IsMapped (input : List ℕ) (s : S) (seg : Segment) (s' : S) : Type 0 where
    pub start : ℕ
    pub size : ℕ
    pub mapped : S
    pub map_alloc_eq : space.map_alloc s start size seg.flags true ≡ ok mapped
    pub write_eq : space.write mapped seg.vaddr (take seg.filesz (drop seg.offset input)) ≡ ok s'
    pub start_aligned : start % page_size ≡ 0
    pub size_aligned : size % page_size ≡ 0
    pub start_le : start ≤ seg.vaddr
    pub end_le : seg.vaddr + seg.memsz ≤ start + size
    pub tight : size < seg.memsz + 2 * page_size
    pub within_file : seg.offset + seg.filesz ≤ length input

  map_segment_lem :
      (input : List ℕ) (s s' : S) (seg : Segment)
      → seg.memsz + 2 * page_size < 2 ^ 64
      → seg.offset + seg.filesz < 2 ^ 64
      → map_segment space input s seg ≡ some (ok tt, s')
      → IsMapped input s seg s'
  unfolding map_segment
  map_segment_lem input s s' seg fits in_file h =
      let pad = seg.vaddr % page_size in
      let size = pages_size seg.vaddr seg.memsz in
      let no_wrap : (seg.offset + seg.filesz) % 2 ^ 64 ≡ seg.offset + seg.filesz = omega arith in
      elim (Bool-cases (pad == seg.offset % page_size)) [
        | inr p ↦ ground (arith, p)
        | inl p ↦
            elim (Result-cases (space.map_alloc s (align_down_4k seg.vaddr) size seg.flags true)) [
              | inr (e, q) ↦ ground (arith, p, q)
              | inl (s1, q) ↦
                  elim (Option-cases (get_range input seg.offset (seg.offset + seg.filesz))) [
                    | inl g ↦ ground (arith, p, q, g, no_wrap)
                    | inr (bytes, g) ↦ elim (Result-cases (space.write s1 seg.vaddr bytes)) [
                      | inr (e, w) ↦ ground (arith, p, q, g, no_wrap, w)
                      | inl (s2, w) ↦
                          let (part, within) = get_range_lem input bytes seg.offset seg.filesz g in
                          let same : s2 ≡ s' = ground (arith, p, q, g, no_wrap, w) in
                          let facts = segment_pages seg.vaddr seg.memsz fits in
                          record {
                            start = align_down_4k seg.vaddr;
                            size = size;
                            mapped = s1;
                            map_alloc_eq = q;
                            write_eq = ap (space.write s1 seg.vaddr) (sym part) ∙ w ∙ ap ok same;
                            start_aligned = facts.0;
                            size_aligned = facts.1;
                            start_le = facts.2;
                            end_le = facts.3;
                            tight = facts.4;
                            within_file = within;
                          }
                    ]
                  ]
            ]
      ]

  -- The headers one after the other, each mapped as above.
  pub data AllMapped (input : List ℕ) : S → List Segment → S → Type 0 where
    done : {s : S} → AllMapped input s [] s
    next :
        {s s1 s' : S} {seg : Segment} {segs : List Segment}
        → IsMapped input s seg s1
        → AllMapped input s1 segs s'
        → AllMapped input s (seg ∷ segs) s'

  map_segments_lem :
      (input : List ℕ) (s s' : S) (segs : List Segment)
      → AllFit segs
      → map_segments space input s segs ≡ some (ok tt, s')
      → AllMapped input s segs s'
  unfolding map_segments
  map_segments_lem input s s' [] fits h = subst (AllMapped input s []) (ground (arith, h)) done
  map_segments_lem input s s' (seg ∷ segs) (fits_next fits_seg fits) h =
      elim (Option-cases (map_segment space input s seg)) [
        | inl m ↦ ground (arith, h, m)
        | inr ((r, s1), m) ↦ elim (Result-cases r) [
          | inr (e, q) ↦ ground (arith, h, m, q)
          | inl (u, q) ↦
              next
                (map_segment_lem input s s1 seg fits_seg.0 fits_seg.1
                  (m ∙ ap (λ x. some (x, s1)) q))
                (map_segments_lem input s1 s' segs fits (ground (arith, h, m, q)))
        ]
      ]

  -- What a successful load has done: the segments of the headers, then the stack and the heap, and last the
  -- arguments at the top of the stack.
  pub record IsLoaded {V : Type 0} (formats : Formats V) (layout : Layout) (s : S) (elf : ElfFile V)
      (args envs : List Text) (sp : ℕ) (s' : S) : Type 0 where
    pub segments : List Segment
    pub segments_eq : elf.ph_load ≡ some segments
    pub image : S
    pub all_mapped : AllMapped elf.input s segments image
    pub with_stack : S
    pub stack_eq :
        space.map_alloc image
          (layout.stack_top - layout.stack_size)
          layout.stack_size
          user_data
          true
        ≡ ok with_stack
    pub with_heap : S
    pub heap_eq :
        space.map_alloc with_stack layout.heap_base layout.heap_size user_data true ≡ ok with_heap
    pub stack_data_eq :
        space.write with_heap sp (
          formats.app_stack_region args envs elf.auxv
            (layout.stack_top - layout.stack_size)
            layout.stack_size)
        ≡ ok s'
    pub sp_at_top :
        sp
          + length (
              formats.app_stack_region args envs elf.auxv
                (layout.stack_top - layout.stack_size)
                layout.stack_size)
        ≡ layout.stack_top

  map_stack_lem :
      {V : Type 0} (formats : Formats V) (layout : Layout) (s s' : S) (e entry sp : ℕ)
      (data_bytes : List ℕ)
      → length data_bytes ≤ layout.stack_top
      → layout.stack_top < 2 ^ 64
      → map_stack space formats layout s e data_bytes ≡ returns (ok (entry, sp)) s'
      → (s1 : S) × (s2 : S) × (space.map_alloc s
            (layout.stack_top - layout.stack_size)
            layout.stack_size
            user_data
            true
          ≡ ok s1)
        × (space.map_alloc s1 layout.heap_base layout.heap_size user_data true ≡ ok s2)
        × (space.write s2 sp data_bytes ≡ ok s')
        × (sp + length data_bytes ≡ layout.stack_top)
        × (entry ≡ e)
  unfolding map_stack
  map_stack_lem formats layout s s' e entry sp bytes small top h =
      let at : ℕ = layout.stack_top - length bytes in
      let at_eq : (layout.stack_top + 2 ^ 64 - length bytes) % 2 ^ 64 ≡ at = omega arith in
      elim (Result-cases (
        space.map_alloc s (layout.stack_top - layout.stack_size) layout.stack_size user_data
          true)) [
            | inr (x, p) ↦ ground (arith, h, p)
            | inl (s1, p) ↦
                elim (Result-cases
                  (space.map_alloc s1 layout.heap_base layout.heap_size user_data true)) [
                    | inr (x, q) ↦ ground (arith, h, p, q)
                    | inl (s2, q) ↦ elim (Result-cases (space.write s2 at bytes)) [
                      | inr (x, w) ↦ ground (arith, h, p, q, w, at_eq)
                      | inl (s3, w) ↦
                          let sp_eq : at ≡ sp = ground (arith, h, p, q, w, at_eq) in
                          let same : s3 ≡ s' = ground (arith, h, p, q, w, at_eq) in
                          (
                            s1,
                            s2,
                            p,
                            q,
                            ap (λ a. space.write s2 a bytes) (sym sp_eq) ∙ w ∙ ap ok same,
                            omega arith,
                            ground (arith, h, p, q, w, at_eq),
                          )
                    ]
                  ]
          ]

  -- If a program without a dynamic loader is loaded, the sizes of whose segments do not overflow, and if its
  -- arguments fit below the top of the stack, each segment is mapped in turn by whole pages that hold it and
  -- are less than two pages larger, with the bytes of the file that its header names, which lie within the
  -- file, written to its address; then the stack below its top and the heap are mapped; the data with the
  -- arguments ends at the top of the stack and begins at the stack pointer that is returned, and the entry is
  -- the one of the file.
  pub load_program_lem :
      {V : Type 0} (formats : Formats V) (layout : Layout) (s s' : S) (elf : ElfFile V)
      (args envs : List Text) (segs : List Segment) (entry sp : ℕ)
      → elf.ph_load ≡ some segs
      → AllFit segs
      → length (
          formats.app_stack_region args envs elf.auxv
            (layout.stack_top - layout.stack_size)
            layout.stack_size)
        ≤ layout.stack_top
      → layout.stack_top < 2 ^ 64
      → load_program space formats layout s elf args envs ≡ returns (ok (entry, sp)) s'
      → IsLoaded formats layout s elf args envs sp s' × (entry ≡ elf.entry)
  unfolding load_program map_elf
  load_program_lem formats layout s s' elf args envs segs entry sp ph fits small top h =
      elim (Option-cases (map_segments space elf.input s segs)) [
        | inl m ↦ ground (arith, h, ph, m)
        | inr ((r, s1), m) ↦ elim (Result-cases r) [
          | inr (e, q) ↦ ground (arith, h, ph, m, q)
          | inl (u, q) ↦
              let bytes =
                formats.app_stack_region args envs elf.auxv (layout.stack_top - layout.stack_size)
                  layout.stack_size in
              let (s2, s3, a, b, c, d, e) =
                map_stack_lem formats layout s1 s' elf.entry entry sp bytes small top
                  (ground (arith, h, ph, m, q)) in
              (
                record {
                  segments = segs;
                  segments_eq = ph;
                  image = s1;
                  all_mapped =
                      map_segments_lem elf.input s s1 segs fits (m ∙ ap (λ x. some (x, s1)) q);
                  with_stack = s2;
                  stack_eq = a;
                  with_heap = s3;
                  heap_eq = b;
                  stack_data_eq = c;
                  sp_at_top = d;
                },
                e,
              )
        ]
      ]
