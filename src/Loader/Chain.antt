-- ===== src/Loader/Chain.antt =====
-- How the loader gets from a script or a dynamic program to the program that it maps.
use oscomp_test_listline.Prelude.{
  ℕ, zero, suc, ◌<◌, ◌≡◌, refl, sym, subst, ap, ◌∙◌, inl, inr, List, [], ◌∷◌, ◌++◌, append_assoc,
  true, Text, codes, starts_with, Bool-cases, Option-cases, arith,
}
use oscomp_test_listline.Errno.{AxError, ok, Result-cases}
use oscomp_test_listline.Loader.{
  UserSpace, ElfFile, Formats, Layout, words, substitute, Next, fails, aborts, again, program,
  loops, returns, from_bytes_with_nul, script_line, script_args, interp_args, elf_args, next_args,
  load_program, load_user_app,
}

data NextCases {V : Type 0} (x : Next V) : Type 0 where
  fails_with : (e : AxError) → x ≡ fails e → NextCases x
  aborts_now : x ≡ aborts → NextCases x
  goes_on : (more : List Text) → x ≡ again more → NextCases x
  runs : (elf : ElfFile V) → x ≡ program elf → NextCases x

Next-cases : {V : Type 0} (x : Next V) → NextCases x
Next-cases (fails e) = fails_with e refl
Next-cases aborts = aborts_now refl
Next-cases (again more) = goes_on more refl
Next-cases (program elf) = runs elf refl

module _ {V : Type 0} (formats : Formats V) where
  -- The arguments of another call end with those of this one.
  abbrev Extends : List Text → List Text → Type 0
  Extends args more = (front : List Text) × (more ≡ front ++ args)

  script_args-again :
      (file_data : List ℕ) (args more : List Text)
      → script_args formats file_data args ≡ again more
      → Extends args more
  unfolding script_args
  script_args-again file_data args more h =
      (words (formats.trim (script_line file_data)), ground arith)

  interp_args-again :
      (interp : List ℕ) (args more : List Text)
      → interp_args formats interp args ≡ again more
      → Extends args more
  unfolding interp_args
  interp_args-again interp args more h = elim (Option-cases (from_bytes_with_nul interp)) [
    | inl n ↦ ground (arith, n)
    | inr (path, n) ↦ elim (Bool-cases (formats.is_utf8 path)) [
      | inr u ↦ ground (arith, n, u)
      | inl u ↦ elim (Result-cases (formats.canonicalize path)) [
        | inr (e, c) ↦ ground (arith, n, u, c)
        | inl (p, c) ↦ (substitute p ∷ [], ground (arith, n, u, c))
      ]
    ]
  ]

  elf_args-again :
      (file_data : List ℕ) (args more : List Text)
      → elf_args formats file_data args ≡ again more
      → Extends args more
  unfolding elf_args
  elf_args-again file_data args more h = elim (Option-cases (formats.elf_new file_data)) [
    | inl n ↦ ground (arith, n)
    | inr (elf, n) ↦ elim (Option-cases elf.interp) [
      | inl i ↦ ground (arith, n, i)
      | inr (d, i) ↦ elim (Option-cases d) [
        | inl k ↦ ground (arith, n, i, k)
        | inr (interp, k) ↦ interp_args-again interp args more (ground (arith, n, i, k))
      ]
    ]
  ]

  next_args-again :
      (args more : List Text) → next_args formats args ≡ again more → Extends args more
  unfolding next_args
  next_args-again [] more h = ground arith
  next_args-again (path ∷ args) more h = elim (Result-cases (formats.read path)) [
    | inr (e, r) ↦ ground (arith, r)
    | inl (file_data, r) ↦ elim (Bool-cases (starts_with file_data (codes "#!"))) [
      | inl b ↦ script_args-again file_data (path ∷ args) more (sym (rw (next_args, r, b)) ∙ h)
      | inr b ↦ elf_args-again file_data (path ∷ args) more (sym (rw (next_args, r, b)) ∙ h)
    ]
  ]

  -- From some arguments to others by the calls of the loader of itself, and their number.
  pub data Leads : List Text → ℕ → List Text → Type 0 where
    here : (args : List Text) → Leads args 0 args
    next :
        (args more : List Text) {final : List Text} {n : ℕ}
        → next_args formats args ≡ again more
        → Leads more n final
        → Leads args (suc n) final

  Leads-Extends : {args final : List Text} {n : ℕ} → Leads args n final → Extends args final
  Leads-Extends (here args) = ([], refl)
  Leads-Extends (next args more {final} a l) =
      let (front, e) = Leads-Extends l in
      let (words, w) = next_args-again args more a in
      (front ++ words, e ∙ ap (λ x. front ++ x) w ∙ sym (append_assoc front words args))

module _ {S V : Type 0} (space : UserSpace S) (formats : Formats V) (layout : Layout) where
  -- If the files that the arguments lead to, in `n` steps, end at a program, then fuel for more steps than
  -- these is enough: the loader maps this program and gives it the arguments that were reached.
  pub load_user_app-Leads :
      (fuel : ℕ) (s : S) (envs args final : List Text) (n : ℕ) (elf : ElfFile V)
      → Leads formats args n final
      → n < fuel
      → next_args formats final ≡ program elf
      → load_user_app space formats layout fuel s args envs
        ≡ load_program space formats layout s elf final envs
  unfolding load_user_app
  load_user_app-Leads zero s envs args final n elf l b p = absurd (omega arith)
  load_user_app-Leads (suc fuel) s envs args final n elf (here _) b p = rw (load_user_app, p)
  load_user_app-Leads (suc fuel) s envs args final n elf (next _ more {n = k} a l) b p =
      rw (load_user_app, a) (load_user_app-Leads fuel s envs more final k elf l (omega arith) p)

  -- Whatever the files are: a program that is loaded was found from the arguments, and the arguments that it
  -- is given end with them.
  pub load_user_app-args :
      (fuel : ℕ) (s s' : S) (args envs : List Text) (entry sp : ℕ)
      → load_user_app space formats layout fuel s args envs ≡ returns (ok (entry, sp)) s'
      → (front : List Text) × (elf : ElfFile V) × (next_args formats (front ++ args) ≡ program elf)
        × (load_program space formats layout s elf (front ++ args) envs
            ≡ returns (ok (entry, sp)) s')
  unfolding load_user_app
  load_user_app-args zero s s' args envs entry sp h = ground arith
  load_user_app-args (suc fuel) s s' args envs entry sp h =
      elim (Next-cases (next_args formats args)) [
        | fails_with e p ↦ ground (arith, p)
        | aborts_now p ↦ ground (arith, p)
        | goes_on more p ↦
            let (front, elf, q, r) =
              load_user_app-args fuel s s' more envs entry sp (sym (rw (load_user_app, p)) ∙ h) in
            let (words, w) = next_args-again formats args more p in
            let longer : front ++ more ≡ (front ++ words) ++ args =
              ap (λ x. front ++ x) w ∙ sym (append_assoc front words args) in
            (
              front ++ words,
              elf,
              subst (λ x. next_args formats x ≡ program elf) longer q,
              subst
                  (λ x.
                    load_program space formats layout s elf x envs ≡ returns (ok (entry, sp)) s')
                  longer r,
            )
        | runs elf p ↦ ([], elf, p, sym (rw (load_user_app, p)) ∙ h)
      ]

  -- A script that names itself as its interpreter is never loaded: no fuel is enough, and the code calls
  -- itself without end.
  pub load_user_app_loops :
      (fuel : ℕ) (s : S) (path : Text) (rest args envs : List Text) (file_data : List ℕ)
      → formats.read path ≡ ok file_data
      → starts_with file_data (codes "#!") ≡ true
      → formats.is_utf8 (script_line file_data) ≡ true
      → words (formats.trim (script_line file_data)) ≡ path ∷ rest
      → load_user_app space formats layout fuel s (path ∷ args) envs ≡ loops
  unfolding load_user_app next_args script_args
  load_user_app_loops zero s path rest args envs file_data r b u w = refl
  load_user_app_loops (suc fuel) s path rest args envs file_data r b u w =
      rw (load_user_app, next_args, r, b, script_args, u, w)
        (load_user_app_loops fuel s path rest (rest ++ path ∷ args) envs file_data r b u w)
