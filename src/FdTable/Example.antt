-- ===== src/FdTable/Example.antt =====
-- A descriptor table as a function, which has the documented behaviour of `FlattenObjects`.
use oscomp_test_listline.Prelude.{
  ℕ, zero, suc, ◌+◌, ◌≤◌, ◌<◌, ◌≡◌, ◌≢◌, ◌⊎◌, inl, inr, ap, ◌∙◌, ltb→lt, List, [], ◌∷◌, Option,
  none, some, true, false, if◌then◌else◌, ltb, ◌==◌, arith, Bool-cases, Option-cases,
}
use oscomp_test_listline.FdTable.Objects.{FlattenObjects, ax_file_limit, is_in}

abbrev pub Table : Type 0
Table = ℕ → Option ℕ

unfoldable pub table_get : Table → ℕ → Option ℕ
table_get t i = if ltb i ax_file_limit then t i else none

abbrev pub put : Table → ℕ → Option ℕ → Table
put t i v j = if i == j then v else t j

-- The first unused identifier of the `n` from `i` on.
unfoldable pub first_free : ℕ → ℕ → Table → Option ℕ
first_free zero i t = none
first_free (suc n) i t = elim (t i) [ none ↦ some i | some a ↦ first_free n (i + 1) t ]

first_free_lem :
    (n i : ℕ) (t : Table) (id : ℕ) → first_free n i t ≡ some id → (id < i + n) × (t id ≡ none)
unfolding first_free
first_free_lem zero i t id h = absurd (ground arith)
first_free_lem (suc n) i t id h = elim (Option-cases (t i)) [
  | inl e ↦ (ground arith, ground arith)
  | inr (a, e) ↦ let l = first_free_lem n (i + 1) t id (ground arith) in (omega arith, l.1)
]

unfoldable pub ids_below : ℕ → Table → List ℕ
ids_below zero t = []
ids_below (suc n) t = elim (t n) [ none ↦ ids_below n t | some a ↦ n ∷ ids_below n t ]

ids_below_used : (n : ℕ) (t : Table) (i : ℕ) → is_in i (ids_below n t) ≡ false → i < n → t i ≡ none
unfolding ids_below
ids_below_used zero t i h k = absurd (omega arith)
ids_below_used (suc n) t i h k = elim (Option-cases (t n)) [
  | inl e ↦ elim (Bool-cases (n == i)) [
    | inl s ↦ ap t {y = n} (ground arith) ∙ e
    | inr s ↦ ids_below_used n t i (ground arith) (ground arith)
  ]
  | inr (a, e) ↦ ids_below_used n t i (ground arith) (ground arith)
]

ids_below_bound :
    (n : ℕ) (t : Table) (i : ℕ) → is_in i (ids_below n t) ≡ true → (i < n) × (t i ≢ none)
unfolding ids_below
ids_below_bound zero t i h = absurd (ground arith)
ids_below_bound (suc n) t i h = elim (Option-cases (t n)) [
  | inl e ↦ let l = ids_below_bound n t i (ground arith) in (omega arith, l.1)
  | inr (a, e) ↦ elim (Bool-cases (n == i)) [
    | inl s ↦ (ground arith, λ k. cc (ap t {x = n} {y = i} (ground arith), e, k))
    | inr s ↦ let l = ids_below_bound n t i (ground arith) in (omega arith, l.1)
  ]
]

unfoldable pub table_add : Table → ℕ → Option (ℕ × Table)
table_add t a = elim (first_free ax_file_limit 0 t) [
  | none ↦ none
  | some id ↦ some (id, put t id (some a))
]

unfoldable pub table_add_at : Table → ℕ → ℕ → Option Table
table_add_at t i a =
    if ltb i ax_file_limit
    then elim (t i) [ none ↦ some (put t i (some a)) | some b ↦ none ]
    else none

unfoldable pub table_remove : Table → ℕ → Option (ℕ × Table)
table_remove t i =
    if ltb i ax_file_limit
    then elim (t i) [ none ↦ none | some a ↦ some (a, put t i none) ]
    else none

unfoldable pub table_ids : Table → List ℕ
table_ids t = ids_below ax_file_limit t

pub add_fresh_lem :
    (t : Table) (a id : ℕ) (t' : Table)
    → table_add t a ≡ some (id, t')
    → (id < ax_file_limit) × (table_get t id ≡ none)
unfolding table_add table_get
add_fresh_lem t a id t' h = elim (Option-cases (first_free 1024 0 t)) [
  | inl e ↦ absurd (ground arith)
  | inr (i, e) ↦ let l = first_free_lem 1024 0 t i e in (ground (arith, l), ground (arith, l))
]

pub get-add_lem :
    (t : Table) (a id : ℕ) (t' : Table) (j : ℕ)
    → table_add t a ≡ some (id, t')
    → table_get t' j ≡ (if id == j then some a else table_get t j)
unfolding table_add table_get
get-add_lem t a id t' j h = elim (Option-cases (first_free 1024 0 t)) [
  | inl e ↦ absurd (ground arith)
  | inr (i, e) ↦
      let l = first_free_lem 1024 0 t i e in
      let same : put t i (some a) ≡ t' = ground arith in
      let at : i ≡ id = ground arith in rw (← same) (ground (arith, l, at))
]

pub add_at_free_lem :
    (t : Table) (i a : ℕ)
    → i < ax_file_limit
    → table_get t i ≡ none
    → (t' : Table) × (table_add_at t i a ≡ some t')
unfolding table_add_at table_get
add_at_free_lem t i a h k = (put t i (some a), ground arith)

pub add_at_refuses_lem :
    (t : Table) (i a : ℕ) → (ax_file_limit ≤ i) ⊎ (table_get t i ≢ none) → table_add_at t i a ≡ none
unfolding table_add_at table_get
add_at_refuses_lem t i a (inl h) = ground arith
add_at_refuses_lem t i a (inr h) = ground arith

pub get-add_at_lem :
    (t : Table) (i a : ℕ) (t' : Table) (j : ℕ)
    → table_add_at t i a ≡ some t'
    → table_get t' j ≡ (if i == j then some a else table_get t j)
unfolding table_add_at table_get
get-add_at_lem t i a t' j h = elim (Option-cases (t i)) [
  | inr (b, e) ↦ absurd (ground arith)
  | inl e ↦
      let same : put t i (some a) ≡ t' = ground arith in
      let below : i < 1024 = ground arith in rw (← same) (ground arith)
]

pub remove_used_lem :
    (t : Table) (i a : ℕ)
    → table_get t i ≡ some a
    → (t' : Table) × (table_remove t i ≡ some (a, t'))
unfolding table_remove table_get
remove_used_lem t i a h = (put t i none, ground arith)

pub remove_unused_lem : (t : Table) (i : ℕ) → table_get t i ≡ none → table_remove t i ≡ none
unfolding table_remove table_get
remove_unused_lem t i h = ground arith

pub get-remove_lem :
    (t : Table) (i a : ℕ) (t' : Table) (j : ℕ)
    → table_remove t i ≡ some (a, t')
    → table_get t' j ≡ (if i == j then none else table_get t j)
unfolding table_remove table_get
get-remove_lem t i a t' j h = elim (Option-cases (t i)) [
  | inl e ↦ absurd (ground arith)
  | inr (b, e) ↦ let same : put t i none ≡ t' = ground arith in rw (← same) (ground arith)
]

pub ids_used_lem : (t : Table) (i : ℕ) → is_in i (table_ids t) ≡ false → table_get t i ≡ none
unfolding table_ids table_get
ids_used_lem t i h = elim (Bool-cases (ltb i 1024)) [
  | inl k ↦ rw k (ids_below_used 1024 t i h (ltb→lt i 1024 k))
  | inr k ↦ rw k
]

pub ids_bound_lem :
    (t : Table) (i : ℕ)
    → is_in i (table_ids t) ≡ true
    → (i < ax_file_limit) × (table_get t i ≢ none)
unfolding table_ids table_get
ids_bound_lem t i h = let l = ids_below_bound 1024 t i h in (l.0, λ k. l.1 (ground (arith, k, l.0)))

pub get-new_lem : (i : ℕ) → table_get (λ j. none) i ≡ none
unfolding table_get
get-new_lem i = ground arith

abbrev pub tables : FlattenObjects Table ℕ
tables = record {
  new = λ j. none;
  get = table_get;
  add = table_add;
  add_at = table_add_at;
  remove = table_remove;
  ids = table_ids;
  get-new = get-new_lem;
  add_fresh = add_fresh_lem;
  get-add = get-add_lem;
  add_at_free = add_at_free_lem;
  add_at_refuses = add_at_refuses_lem;
  get-add_at = get-add_at_lem;
  remove_used = remove_used_lem;
  remove_unused = remove_unused_lem;
  get-remove = get-remove_lem;
  ids_used = ids_used_lem;
  ids_bound = ids_bound_lem;
}
