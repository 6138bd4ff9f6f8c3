-- ===== src/Memory/Mapping.antt =====
-- What the mapping calls ask of the address space, and what is left after an error.
use oscomp_test_listline.Prelude.{
  ℕ, ◌+◌, ◌-◌, ◌/◌, ◌%◌, ◌^◌, ◌≤◌, ◌<◌, ◌≡◌, ◌⊎◌, ◌∙◌, refl, sym, ap, inl, inr, arith, true, false,
  List, Option, none, some, Bool, not, ◌&&◌, ◌||◌, leb, ltb, ◌==◌, min, if◌then◌else◌, Option-cases,
  Bool-cases, subst,
}
use oscomp_test_listline.Prelude.Int.{ℤ, pos, ltb_ℤ, as_usize}
use oscomp_test_listline.Errno.{LinuxError, LinuxResult, ok, err, Result-cases}
use oscomp_test_listline.Memory.Space.{AddrSpace, MappingFlags, File}
use oscomp_test_listline.Memory.{
  page_size, align_down_4k, align_up_4k, sub_size, has_bit, is_minus_one, mapping_flags,
  start_address, populate, sys_mmap,
}

-- The length that `sys_mmap` maps from the start of the page of `addr` on.
abbrev pub mapped_length : ℕ → ℕ → ℕ
mapped_length addr length = sub_size (align_up_4k ((addr + length) % 2 ^ 64)) (align_down_4k addr)

mapped_length_lem :
    (addr length : ℕ)
    → addr + length + 4096 ≤ 2 ^ 64
    → (align_down_4k addr ≤ addr)
      × (align_down_4k addr % page_size ≡ 0)
      × (mapped_length addr length % page_size ≡ 0)
      × (addr + length ≤ align_down_4k addr + mapped_length addr length)
      × (align_down_4k addr + mapped_length addr length < addr + length + page_size)
mapped_length_lem addr length h = omega arith

abbrev pub in_area : ℕ → ℕ → ℕ → Bool
in_area a n x = leb a x && ltb x (a + n)

-- What axmm documents of the address space, where `flags_at` gives the permissions of an address, if it is
-- mapped: an area that is unmapped, mapped with permissions, or found free, and writing of data.
pub record IsSpace {S : Type 0} (space : AddrSpace S) (flags_at : S → ℕ → Option MappingFlags)
    : Type 0 where
  pub flags-unmap :
      (s s' : S) (a n x : ℕ)
      → space.unmap s a n ≡ ok s'
      → flags_at s' x ≡ (if in_area a n x then none else flags_at s x)
  pub flags-map :
      (s s' : S) (a n x : ℕ) (f : MappingFlags) (fill : Bool)
      → space.map_alloc s a n f fill ≡ ok s'
      → flags_at s' x ≡ (if in_area a n x then some f else flags_at s x)
  pub flags-write :
      (s s' : S) (a x : ℕ) (bytes : List ℕ)
      → space.write s a bytes ≡ ok s'
      → flags_at s' x ≡ flags_at s x
  pub free :
      (s : S) (hint n a x : ℕ)
      → space.find_free_area s hint n ≡ some a
      → in_area a n x ≡ true
      → flags_at s x ≡ none

module _ {S : Type 0} (space : AddrSpace S) (flags_at : S → ℕ → Option MappingFlags)
    (law : IsSpace space flags_at) where
  -- Where the area of a mapping lies, and that nothing of an old mapping is left there.
  abbrev pub IsPlace : S → ℕ → ℕ → Bool → ℕ → Type 0
  IsPlace s start n fixed a =
      ((fixed ≡ true) × (a ≡ start) × (1 ≤ start))
      ⊎ ((fixed ≡ false) × ((x : ℕ) → in_area a n x ≡ true → flags_at s x ≡ none))

  start_address-IsPlace :
      (s s₁ : S) (start n a : ℕ) (fixed : Bool)
      → start_address space s start n fixed ≡ ok (a, s₁)
      → IsPlace s start n fixed a × ((x : ℕ) → in_area a n x ≡ false → flags_at s₁ x ≡ flags_at s x)
  unfolding start_address
  start_address-IsPlace s s₁ start n a true h = elim (Bool-cases (start == 0)) [
    | inl z ↦ ground (arith, h, z)
    | inr z ↦ elim (Result-cases (space.unmap s start n)) [
      | inr (e, u) ↦ ground (arith, h, z, u)
      | inl (s', u) ↦
          let same_a : start ≡ a = ground (arith, h, z, u) in
          let same_s : s' ≡ s₁ = ground (arith, h, z, u) in
          (
            inl (refl, sym same_a, ground (arith, z)),
            λ x o. ground (arith, law.flags-unmap s s₁ start n x (u ∙ ap ok same_s), same_a, o),
          )
    ]
  ]
  start_address-IsPlace s s₁ start n a false h =
      elim (Option-cases (space.find_free_area s start n)) [
        | inr (b, f) ↦
            let same_a : b ≡ a = ground (arith, h, f) in
            let same_s : s ≡ s₁ = ground (arith, h, f) in
            (
              inr (refl, λ x o. law.free s start n a x (f ∙ ap some same_a) o),
              λ x o. ap (λ t. flags_at t x) (sym same_s),
            )
        | inl f ↦ elim (Option-cases (space.find_free_area s (space.base s) n)) [
          | inl g ↦ ground (arith, h, f, g)
          | inr (b, g) ↦
              let same_a : b ≡ a = ground (arith, h, f, g) in
              let same_s : s ≡ s₁ = ground (arith, h, f, g) in
              (
                inr (refl, λ x o. law.free s (space.base s) n a x (g ∙ ap some same_a) o),
                λ x o. ap (λ t. flags_at t x) (sym same_s),
              )
        ]
      ]

  populate-flags :
      (s s' : S) (start length x : ℕ) (offset : ℤ) (file : LinuxResult File)
      → populate space s start length offset file ≡ ok s'
      → flags_at s' x ≡ flags_at s x
  unfolding populate
  populate-flags s s' start length x offset (err e) h = ground arith
  populate-flags s s' start length x offset (ok f) h = elim (Result-cases f.size) [
    | inr (e, z) ↦ ground (arith, h, z)
    | inl (size, z) ↦ elim (Bool-cases (ltb_ℤ offset (pos 0) || leb size (as_usize offset))) [
      | inl b ↦ ground (arith, h, z, b)
      | inr b ↦
          elim (Result-cases (f.read_at (as_usize offset) (min length (size - as_usize offset)))) [
            | inr (e, r) ↦ ground (arith, h, z, b, r)
            | inl (bytes, r) ↦ law.flags-write s s' start x bytes (ground (arith, h, z, b, r))
          ]
    ]
  ]

  -- The mapping that a call made: an area of whole pages, the permissions there, and all else as before.
  pub record IsMapped (s s' : S) (addr length prot a : ℕ) (fixed : Bool) : Type 0 where
    pub len : ℕ
    pub pages : len % page_size ≡ 0
    pub long : length ≤ len
    pub f : MappingFlags
    pub read_eq : f.read ≡ (prot % 2 == 1)
    pub write_eq : f.write ≡ (prot / 2 % 2 == 1)
    pub execute_eq : f.execute ≡ (prot / 4 % 2 == 1)
    pub user_eq : f.user ≡ true
    pub flags_eq : (x : ℕ) → flags_at s' x ≡ (if in_area a len x then some f else flags_at s x)
    pub place :
        ((fixed ≡ true)
          × (a % page_size ≡ 0)
          × (page_size ≤ a)
          × (a ≤ addr)
          × (addr < a + page_size)
          × (addr + length ≤ a + len))
        ⊎ ((fixed ≡ false) × ((x : ℕ) → in_area a len x ≡ true → flags_at s x ≡ none))

  -- If `mmap` of a range that does not reach the end of the address space succeeds, in an address space as
  -- axmm documents it, an area of whole pages that is long enough is mapped from its answer on, readable,
  -- writable and executable as asked for by the bits of `prot` and for the user, and the mapping of every
  -- other address is as before. With MAP_FIXED the area covers the range asked for, from the start of its
  -- first page, which is not page 0; without, nothing of the area was mapped before.
  pub sys_mmap-IsMapped :
      (s s' : S) (addr length prot flags a : ℕ) (fd offset : ℤ) (file : LinuxResult File)
      → addr + length + page_size ≤ 2 ^ 64
      → sys_mmap space s addr length prot flags fd offset file ≡ (ok a, s')
      → IsMapped s s' addr length prot a (has_bit flags 4)
  unfolding sys_mmap
  sys_mmap-IsMapped s s' addr length prot flags a fd offset file b h =
      let start = align_down_4k addr in
      let n = mapped_length addr length in
      let fill : Bool = not (is_minus_one fd) && not (has_bit flags 5) in
      let l = mapped_length_lem addr length b in
      elim (Result-cases (start_address space s start n (has_bit flags 4))) [
        | inr (e, p) ↦ ground (arith, h, p)
        | inl ((c, s₁), p) ↦
            elim (Result-cases (space.map_alloc s₁ c n (mapping_flags prot) fill)) [
              | inr (e, m) ↦ ground (arith, h, p, m)
              | inl (s₂, m) ↦
                  let (same, rest) : (c ≡ a) × ((x : ℕ) → flags_at s' x ≡ flags_at s₂ x) =
                    elim (Bool-cases fill) [
                      | inr g ↦ (
                        ground (arith, h, p, m, g),
                        λ x. ap (λ t. flags_at t x) (ground (arith, h, p, m, g)),
                      )
                      | inl g ↦ elim (Result-cases (populate space s₂ c length offset file)) [
                        | inr (e, q) ↦ ground (arith, h, p, m, g, q)
                        | inl (s₃, q) ↦ (
                          ground (arith, h, p, m, g, q),
                          λ x.
                              populate-flags s₂ s' c length x offset file
                                (q ∙ ap ok (ground (arith, h, p, m, g, q))),
                        )
                      ]
                    ] in
                  let (at, others) = start_address-IsPlace s s₁ start n c (has_bit flags 4) p in
                  subst (λ z. IsMapped s s' addr length prot z (has_bit flags 4)) same
                    (record {
                      len = n;
                      pages = l.2;
                      long = omega (arith, l);
                      f = mapping_flags prot;
                      read_eq = ground arith;
                      write_eq = ground arith;
                      execute_eq = ground arith;
                      user_eq = refl;
                      flags_eq = λ x.
                          rest x
                          ∙ law.flags-map s₁ s₂ c n x (mapping_flags prot) fill m
                          ∙ elim (Bool-cases (in_area c n x)) [
                            | inl o ↦ ground (arith, o)
                            | inr o ↦ ground (arith, o, others x o)
                          ];
                      place = elim at [
                        | inl (fixed, c_eq, above) ↦ inl (
                          fixed,
                          omega (arith, c_eq, l),
                          omega (arith, c_eq, above, l),
                          omega (arith, c_eq, l),
                          omega (arith, c_eq, l),
                          omega (arith, c_eq, l),
                        )
                        | inr free ↦ inr free
                      ];
                    })
            ]
      ]

module _ {S : Type 0} (space : AddrSpace S) where
  -- A mapping that is neither anonymous nor made with descriptor -1 asks for the file after it has mapped
  -- the area: if the descriptor is no file, the call fails and the area stays mapped.
  pub sys_mmap_bad_file :
      (s s₁ s₂ : S) (addr length prot flags a : ℕ) (fd offset : ℤ) (e : LinuxError)
      → is_minus_one fd ≡ false
      → has_bit flags 5 ≡ false
      → start_address space s (align_down_4k addr) (mapped_length addr length) (has_bit flags 4)
        ≡ ok (a, s₁)
      → space.map_alloc s₁ a (mapped_length addr length) (mapping_flags prot) true ≡ ok s₂
      → sys_mmap space s addr length prot flags fd offset (err e) ≡ (err e, s₂)
  unfolding sys_mmap
  sys_mmap_bad_file s s₁ s₂ addr length prot flags a fd offset e d f st m =
      ground (arith, d, f, st, m)
