-- ===== src/FdTable/Copying.antt =====
-- The table that a new process gets, and the end of a table.
use oscomp_test_listline.Prelude.{
  ℕ, ◌<◌, ◌≡◌, ◌≢◌, ◌⊎◌, inl, inr, refl, List, [], ◌∷◌, none, some, true, if◌then◌else◌, ◌==◌,
  arith, Bool-cases, Option-cases,
}
use oscomp_test_listline.FdTable.Objects.{FlattenObjects, ax_file_limit, is_in}
use oscomp_test_listline.FdTable.{or_table, copy_ids, copy_inner, remove_ids, clear}

module _ {T A : Type 0} (fo : FlattenObjects T A) where
  -- Putting a file where the new table has it already, or nothing, puts it there.
  get-or_table :
      (t n : T) (id : ℕ) (f : A) (j : ℕ)
      → fo.get t id ≡ some f
      → id < ax_file_limit
      → (fo.get n id ≡ none) ⊎ (fo.get n id ≡ fo.get t id)
      → fo.get (or_table fo n (fo.add_at n id f)) j ≡ (if id == j then fo.get t j else fo.get n j)
  get-or_table t n id f j e b (inl h) =
      let (n', a) = fo.add_at_free n id f b h in ground (arith, a, e, fo.get-add_at n id f n' j a)
  get-or_table t n id f j e b (inr h) =
      let used : fo.get n id ≢ none = λ k. cc (k, h, e) in
      ground (arith, e, h, fo.add_at_refuses n id f (inr used))

  copy_ids_lem :
      (t n : T) (ids : List ℕ)
      → ((i : ℕ) → is_in i ids ≡ true → (i < ax_file_limit) × (fo.get t i ≢ none))
      → ((j : ℕ) → (fo.get n j ≡ none) ⊎ (fo.get n j ≡ fo.get t j))
      → (n' : T) × (copy_ids fo t ids n ≡ some n')
        × ((j : ℕ) → fo.get n' j ≡ (if is_in j ids then fo.get t j else fo.get n j))
  unfolding copy_ids
  copy_ids_lem t n [] b h = (n, refl, λ j. refl)
  copy_ids_lem t n (id ∷ ids) b h = elim (Option-cases (fo.get t id)) [
    | inl e ↦ absurd ((b id (ground arith)).1 e)
    | inr (f, e) ↦
        let n₁ = or_table fo n (fo.add_at n id f) in
        let put = λ (j : ℕ). get-or_table t n id f j e (b id (ground arith)).0 (h id) in
        let (n', c, g) =
          copy_ids_lem t n₁ ids (λ i k. b i (ground arith)) (λ j. ground (arith, put j, h j)) in
        (n', ground (arith, e, c), λ j. ground (arith, g j, put j))
  ]

  -- The copy of a table never panics, and its descriptors refer to the same files, the unused ones being
  -- unused.
  pub copy_inner_lem :
      (t : T) → (n : T) × (copy_inner fo t ≡ some n) × ((j : ℕ) → fo.get n j ≡ fo.get t j)
  unfolding copy_inner
  copy_inner_lem t =
      let (n, c, g) = copy_ids_lem t fo.new (fo.ids t) (fo.ids_bound t) (λ j. inl (fo.get-new j)) in
      (
        n,
        c,
        λ j. elim (Bool-cases (is_in j (fo.ids t))) [
          | inl e ↦ ground (arith, g j)
          | inr e ↦ ground (arith, g j, fo.ids_used t j e, fo.get-new j)
        ],
      )

  remove_ids_lem :
      (ids : List ℕ) (t : T) (j : ℕ)
      → fo.get (remove_ids fo ids t) j ≡ (if is_in j ids then none else fo.get t j)
  unfolding remove_ids
  remove_ids_lem [] t j = refl
  remove_ids_lem (id ∷ ids) t j = elim (Option-cases (fo.get t id)) [
    | inl e ↦ ground (arith, e, fo.remove_unused t id e, remove_ids_lem ids t j)
    | inr (f, e) ↦
        let (t', r) = fo.remove_used t id f e in
        ground (arith, r, fo.get-remove t id f t' j r, remove_ids_lem ids t' j)
  ]

  -- A cleared table has no descriptor in use.
  pub clear_lem : (t : T) (j : ℕ) → fo.get (clear fo t) j ≡ none
  unfolding clear
  clear_lem t j = elim (Bool-cases (is_in j (fo.ids t))) [
    | inl e ↦ ground (arith, remove_ids_lem (fo.ids t) t j)
    | inr e ↦ ground (arith, remove_ids_lem (fo.ids t) t j, fo.ids_used t j e)
  ]
