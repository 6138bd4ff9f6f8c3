-- ===== src/Execve/Naming.antt =====
-- The name that execve and the start of a program take from a path.
use oscomp_test_listline.Prelude.{
  ◌≡◌, ◌≢◌, ◌⊎◌, sym, subst, ap, ◌∙◌, inl, inr, [], ◌∷◌, ◌++◌, Option, none, some, ◌==◌, Text,
  Bool-cases, Option-cases, arith,
}
use oscomp_test_listline.Execve.{rsplit_once, file_name}

abbrev NoSlash : Text → Type 0
NoSlash [] = Unit
NoSlash (c ∷ cs) = (c ≢ 47) × NoSlash cs

abbrev IsLastSplit : Text → Option (Text × Text) → Type 0
IsLastSplit path none = NoSlash path
IsLastSplit path (some (dir, name)) = (path ≡ dir ++ 47 ∷ name) × NoSlash name

rsplit_once_lem : (path : Text) → IsLastSplit path (rsplit_once path)
unfolding rsplit_once
rsplit_once_lem [] = tt
rsplit_once_lem (c ∷ cs) = elim (Option-cases (rsplit_once cs)) [
  | inr ((a, b), r) ↦
      let (e, clean) : IsLastSplit cs (some (a, b)) =
        subst (IsLastSplit cs) r (rsplit_once_lem cs) in
      let here : rsplit_once (c ∷ cs) ≡ some (c ∷ a, b) = rw (rsplit_once, r) in
      subst (IsLastSplit (c ∷ cs)) (sym here) (ap (λ x. c ∷ x) e, clean)
  | inl r ↦
      let clean : NoSlash cs = subst (IsLastSplit cs) r (rsplit_once_lem cs) in
      elim (Bool-cases (c == 47)) [
        | inl t ↦
            let here : rsplit_once (c ∷ cs) ≡ some ([], cs) = rw (rsplit_once, r, t) in
            subst (IsLastSplit (c ∷ cs)) (sym here) (ap (λ x. x ∷ cs) (ground (arith, t)), clean)
        | inr f ↦
            let here : rsplit_once (c ∷ cs) ≡ none = rw (rsplit_once, r, f) in
            subst (IsLastSplit (c ∷ cs)) (sym here) (λ e. ground (arith, e, f), clean)
      ]
]

-- The name has no slash, and it is what follows the last slash of the path, or the whole path if there is none.
abbrev pub IsNameOf : Text → Text → Type 0
IsNameOf path name = NoSlash name × ((name ≡ path) ⊎ ((dir : Text) × (path ≡ dir ++ 47 ∷ name)))

pub file_name_lem : (path : Text) → IsNameOf path (file_name path)
unfolding file_name
file_name_lem path = elim (Option-cases (rsplit_once path)) [
  | inr ((a, b), r) ↦
      let (e, clean) : IsLastSplit path (some (a, b)) =
        subst (IsLastSplit path) r (rsplit_once_lem path) in
      (
        subst NoSlash (ground (arith, r)) clean,
        inr (a, e ∙ ap (λ x. a ++ 47 ∷ x) (ground (arith, r))),
      )
  | inl r ↦
      let clean : NoSlash path = subst (IsLastSplit path) r (rsplit_once_lem path) in
      (subst NoSlash (ground (arith, r)) clean, inl (ground (arith, r)))
]
