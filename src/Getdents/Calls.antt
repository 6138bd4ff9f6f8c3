-- ===== src/Getdents/Calls.antt =====
-- The entries of a directory that one call of `sys_getdents64` delivers.
use oscomp_test_listline.Prelude.{
  ℕ, zero, suc, ◌≤◌, ◌<◌, ◌≡◌, refl, sym, ap, subst, ◌∙◌, ◌⊎◌, inl, inr, List, [], ◌∷◌, ◌++◌, map,
  append-nil, append_assoc, Option, none, some, ◌==◌, length, take, take_zero, length-take,
  Bool-cases, arith,
}
use oscomp_test_listline.Errno.{einval, LinuxResult, ok, err}
use oscomp_test_listline.Getdents.{
  DirEntry, DirBuffer, new_dir_buffer, Directory, fill, finish, after, sys_getdents64,
}
use oscomp_test_listline.Getdents.Records.{
  seen, Holds, Holds-nil, Holds-length, Filled, write_entry_cases, walk, walk-Holds, AreNames,
}

abbrev pub list_of {ℓ} : {A : Type ℓ} → Option A → List A
list_of none = []
list_of (some a) = a ∷ []

-- What axfs's directories promise: `read_dir` gives the entries that are left, one by one.
pub record Reads {D : Type 0} (read_dir : D → LinuxResult (Option DirEntry) × D)
    (left : D → List DirEntry) : Type 0 where
  pub reads_nil : (d : D) → left d ≡ [] → (d' : D) × (read_dir d ≡ (ok none, d')) × (left d' ≡ [])
  pub reads_cons :
      (d : D) (e : DirEntry) (es : List DirEntry)
      → left d ≡ e ∷ es
      → (d' : D) × (read_dir d ≡ (ok (some e), d')) × (left d' ≡ es)

pub AreNames-first : (xs ys : List DirEntry) → AreNames (xs ++ ys) → AreNames xs
AreNames-first [] ys a = tt
AreNames-first (x ∷ xs) ys a = (a.0, AreNames-first xs ys a.1)

pub AreNames-second : (xs ys : List DirEntry) → AreNames (xs ++ ys) → AreNames ys
AreNames-second [] ys a = a
AreNames-second (x ∷ xs) ys a = AreNames-second xs ys a.1

new-Filled : (buf : List ℕ) → Filled (length buf) (new_dir_buffer buf) []
unfolding new_dir_buffer
new-Filled buf = record { size = refl; within = omega arith; holds = refl }

module _ {D : Type 0} (read_dir : D → LinuxResult (Option DirEntry) × D) (left : D → List DirEntry)
    (laws : Reads read_dir left) where
  fill_lem :
      (fuel n : ℕ) (b : DirBuffer) (d : D) (es ds : List DirEntry)
      → left d ≡ ds
      → length ds < fuel
      → Filled n b es
      → (b' : DirBuffer) × (pending : Option DirEntry) × (d' : D) × (got : List DirEntry) × (fill
            read_dir fuel b d
          ≡ some (ok tt, b', pending, d'))
        × Filled n b' (es ++ got)
        × (got ++ (list_of pending ++ left d') ≡ ds)
        × (pending ≡ none → left d' ≡ [])
  unfolding fill
  fill_lem zero n b d es ds l f h = absurd (omega arith)
  fill_lem (suc fuel) n b d es [] l f h =
      let (d', r, l') = laws.reads_nil d l in
      (b, none, d', [], ground arith, subst (Filled n b) (sym (append-nil es)) h, l', λ q. l')
  fill_lem (suc fuel) n b d es (e ∷ ds) l f h =
      let (d', r, l') = laws.reads_cons d e ds l in
      elim (write_entry_cases n b es e h) [
        | inl w ↦ (
          b,
          some e,
          d',
          [],
          ground arith,
          subst (Filled n b) (sym (append-nil es)) h,
          ap (◌∷◌ e) l',
          λ q. absurd (ground arith),
        )
        | inr (b₁, w, h₁) ↦
            (let (b', pending, d₂, got, s, filled, all, end) =
                fill_lem fuel n b₁ d' (es ++ (e ∷ [])) ds l' (omega arith) h₁ in
              (
                b',
                pending,
                d₂,
                e ∷ got,
                ground arith,
                subst (Filled n b') (append_assoc es (e ∷ []) got) filled,
                ap (◌∷◌ e) all,
                end,
              ))
      ]

  -- The entries that the directory still has to deliver.
  abbrev pub contents : Directory D → List DirEntry
  contents d = list_of d.last_dirent ++ left d.inner

  abbrev pub Delivers : LinuxResult ℕ → List ℕ → ℕ → List DirEntry → List DirEntry → Type 0
  Delivers (ok n) buf size got rest = (n ≤ size) × Holds (take n buf) got × (n ≡ 0 → rest ≡ [])
  Delivers (err e) buf size got rest = (e ≡ einval) × (got ≡ [])

  finish_lem :
      (n : ℕ) (b : DirBuffer) (pending : Option DirEntry) (d : D) (got : List DirEntry)
      → Filled n b got
      → (pending ≡ none → left d ≡ [])
      → let (r, buf, d') = finish read_dir (ok tt, b, pending, d) in
        Delivers r buf n got (contents d') × (contents d' ≡ list_of pending ++ left d)
  unfolding finish
  finish_lem n b none d got f end = ((f.within, f.holds, λ z. end refl), refl)
  finish_lem n b (some ent) d got f end = elim (Bool-cases (b.offset == 0)) [
    | inl z ↦
        let zero : b.offset ≡ 0 = ground arith in
        let none_got =
          Holds-nil got (subst (λ bs. Holds bs got) (take_zero b.offset b.buf zero) f.holds) in
        (rw z (refl, none_got), refl)
    | inr z ↦ (rw z (f.within, f.holds, λ q. absurd (ground arith)), refl)
  ]

  -- A call from a slice of `n` bytes that are filled with the entries `es` of the directory.
  from_fill :
      (fuel n : ℕ) (b : DirBuffer) (d : D) (es : List DirEntry)
      → length (left d) < fuel
      → Filled n b es
      → (r : LinuxResult ℕ) × (buf' : List ℕ) × (d' : Directory D) × (got : List DirEntry) × (after
            read_dir
            (fill read_dir fuel b d)
          ≡ some (r, buf', d'))
        × (got ++ contents d' ≡ es ++ left d)
        × Delivers r buf' n got (contents d')
  from_fill fuel n b d es f h =
      let (b', pending, d', got, s, filled, all, end) = fill_lem fuel n b d es (left d) refl f h in
      let (del, same) = finish_lem n b' pending d' (es ++ got) filled end in
      let (r, buf, d'') = finish read_dir (ok tt, b', pending, d') in
      (
        r,
        buf,
        d'',
        es ++ got,
        ap (after read_dir) s,
        ap (λ w. (es ++ got) ++ w) same
            ∙ append_assoc es got (list_of pending ++ left d')
            ∙ ap (λ w. es ++ w) all,
        del,
      )

  call :
      (fuel : ℕ) (buf : List ℕ) (last : Option DirEntry) (i : D)
      → length (left i) < fuel
      → let d : Directory D = record { last_dirent = last; inner = i } in
        (r : LinuxResult ℕ) × (buf' : List ℕ) × (d' : Directory D) × (got : List DirEntry)
        × (sys_getdents64 read_dir fuel buf d ≡ some (r, buf', d'))
        × (got ++ contents d' ≡ contents d)
        × Delivers r buf' (length buf) got (contents d')
  unfolding sys_getdents64 new_dir_buffer
  call fuel buf none i f = from_fill fuel (length buf) (new_dir_buffer buf) i [] f (new-Filled buf)
  call fuel buf (some e) i f =
      elim (write_entry_cases (length buf) (new_dir_buffer buf) [] e (new-Filled buf)) [
        | inl w ↦ (
          err einval,
          buf,
          record { last_dirent = some e; inner = i },
          [],
          ground arith,
          refl,
          (refl, refl),
        )
        | inr (b, w, h) ↦
            (let (r, buf', d', got, s, all, del) = from_fill fuel (length buf) b i (e ∷ []) f h in
              (r, buf', d', got, ground (arith, s), all, del))
      ]

  walked :
      (size : ℕ) (r : LinuxResult ℕ) (buf' : List ℕ) (got : List DirEntry) (d' : Directory D)
      → AreNames got
      → Delivers r buf' size got (contents d')
      → ((n : ℕ) × (r ≡ ok n)
          × (n ≤ size)
          × (walk n (take n buf') ≡ map seen got)
          × ((0 < n) ⊎ (contents d' ≡ [])))
        ⊎ ((r ≡ err einval) × (got ≡ []))
  walked size (err e) buf' got d' a del = inr (ap err del.0, del.1)
  walked size (ok n) buf' got d' a (within, holds, end) =
      let few = Holds-length (take n buf') got holds in
      let long = length-take n buf' in
      inl (
        n,
        refl,
        within,
        walk-Holds n (take n buf') got holds a (omega (arith, few, long)),
        elim (Bool-cases (n == 0)) [
          | inl z ↦ inr (end (ground arith))
          | inr z ↦ inl (ground arith)
        ],
      )

  -- With fuel for the entries that are left, a call has a result. Either it is the number of bytes that it
  -- has filled, at most those of the buffer, and a walk over these bytes finds the types and names of the
  -- first entries that were still to be delivered, in order, or it is EINVAL and nothing is delivered. In
  -- both cases what was not delivered still is to be. The result is 0 only if nothing is left.
  pub sys_getdents64_lem :
      (fuel : ℕ) (buf : List ℕ) (d : Directory D)
      → length (left d.inner) < fuel
      → AreNames (contents d)
      → (r : LinuxResult ℕ) × (buf' : List ℕ) × (d' : Directory D) × (got : List DirEntry)
        × (sys_getdents64 read_dir fuel buf d ≡ some (r, buf', d'))
        × (got ++ contents d' ≡ contents d)
        × (((n : ℕ) × (r ≡ ok n)
              × (n ≤ length buf)
              × (walk n (take n buf') ≡ map seen got)
              × ((0 < n) ⊎ (contents d' ≡ [])))
            ⊎ ((r ≡ err einval) × (got ≡ [])))
  sys_getdents64_lem fuel buf d f a =
      let (r, buf', d', got, s, all, del) = call fuel buf d.last_dirent d.inner f in
      (
        r,
        buf',
        d',
        got,
        s,
        all,
        walked (length buf) r buf' got d'
            (AreNames-first got (contents d') (subst AreNames (sym all) a)) del,
      )
