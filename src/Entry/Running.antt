-- ===== src/Entry/Running.antt =====
-- Which programs the list of test cases runs, in which order.
use oscomp_test_listline.Prelude.{
  ◌≡◌, ◌≢◌, refl, ap, ◌∙◌, inl, inr, List, [], ◌∷◌, ◌++◌, Option, none, some, false, ◌==◌, Text,
  Option-cases, arith,
}
use oscomp_test_listline.Entry.{split_commas, nonempty, run_all, main}

-- None of the bytes is a comma.
abbrev pub NoComma : Text → Type 0
NoComma [] = Unit
NoComma (c ∷ cs) = (c ≢ 44) × NoComma cs

abbrev pub AllNoComma : List Text → Type 0
AllNoComma [] = Unit
AllNoComma (t ∷ ts) = NoComma t × AllNoComma ts

-- A part and the parts after it, with commas between them.
unfoldable pub join_commas : Text → List Text → Text
join_commas t [] = t
join_commas t (u ∷ us) = t ++ 44 ∷ join_commas u us

split_commas-part : (t : Text) → NoComma t → split_commas t ≡ t ∷ []
unfolding split_commas
split_commas-part [] clean = refl
split_commas-part (c ∷ cs) (head_clean, rest_clean) =
    let other : (c == 44) ≡ false = ground (arith, head_clean) in
    rw (split_commas, split_commas-part cs rest_clean, other)

split_commas-append : (t s : Text) → NoComma t → split_commas (t ++ 44 ∷ s) ≡ t ∷ split_commas s
unfolding split_commas
split_commas-append [] s clean = refl
split_commas-append (c ∷ cs) s (head_clean, rest_clean) =
    let other : (c == 44) ≡ false = ground (arith, head_clean) in
    rw (split_commas, split_commas-append cs s rest_clean, other)

split_commas-join_commas :
    (t : Text) (ts : List Text)
    → NoComma t
    → AllNoComma ts
    → split_commas (join_commas t ts) ≡ t ∷ ts
unfolding join_commas
split_commas-join_commas t [] clean cleans = split_commas-part t clean
split_commas-join_commas t (u ∷ us) clean (u_clean, us_clean) =
    split_commas-append t (join_commas u us) clean
    ∙ ap (λ x. t ∷ x) (split_commas-join_commas u us u_clean us_clean)

module _ {K : Type 0} (shlex_split : Text → Option (List Text))
    (run : List Text → K → Option K) where
  -- The program of a test case, if it has one, in front of others.
  unfoldable pub program_of : Option (List Text) → List (List Text) → List (List Text)
  program_of none rest = rest
  program_of (some []) rest = rest
  program_of (some (arg ∷ args)) rest = (arg ∷ args) ∷ rest

  unfoldable pub programs : List Text → List (List Text)
  unfolding program_of
  programs [] = []
  programs ([] ∷ ts) = programs ts
  programs ((c ∷ cs) ∷ ts) = program_of (shlex_split (c ∷ cs)) (programs ts)

  -- One program after the other, until one panics.
  unfoldable pub run_programs : List (List Text) → K → Option K
  run_programs [] k = some k
  run_programs (args ∷ rest) k = elim (run args k) [ none ↦ none | some k' ↦ run_programs rest k' ]

  run_all-programs :
      (ts : List Text) (k : K)
      → run_all shlex_split run (nonempty ts) k ≡ run_programs (programs ts) k
  unfolding run_all nonempty programs program_of run_programs
  run_all-programs [] k = refl
  run_all-programs ([] ∷ ts) k = run_all-programs ts k
  run_all-programs ((c ∷ cs) ∷ ts) k = elim (Option-cases (shlex_split (c ∷ cs))) [
    | inl s ↦ rw (s) (run_all-programs ts k)
    | inr ([], s) ↦ rw (s) (run_all-programs ts k)
    | inr (arg ∷ args, s) ↦ elim (Option-cases (run (arg ∷ args) k)) [
      | inl r ↦ rw (s, r)
      | inr (k', r) ↦ rw (s, r) (run_all-programs ts k')
    ]
  ]

  -- The kernel takes a list of test cases with commas between them, none of which has a comma itself: it runs,
  -- one after the other and in order, the programs of those that are not empty and that shlex splits into
  -- at least one word, and passes over the others; a run that panics ends it.
  pub main-join_commas :
      (t : Text) (ts : List Text) (k : K)
      → NoComma t
      → AllNoComma ts
      → main shlex_split run (join_commas t ts) k ≡ run_programs (programs (t ∷ ts)) k
  unfolding main
  main-join_commas t ts k clean cleans =
      rw (main, split_commas-join_commas t ts clean cleans) (run_all-programs (t ∷ ts) k)
