-- ===== src/Path/Hardlinks/Counting.antt =====
-- Counting the links to a path, and how the count follows the maps.
use oscomp_test_listline.Prelude.{
  ℕ, ◌+◌, ◌≡◌, refl, ap, ◌∙◌, List, [], ◌∷◌, Option, none, some, Bool, true, false, arith,
  Bool-cases, Text, text_eq, text_eq_sound, text_eq_comm, sym, inl, inr, get, insert, remove,
  get-insert_ne, get-remove_ne,
}

abbrev pub one_if : Bool → ℕ
one_if true = 1
one_if false = 0

-- Whether a value found under a key is `w`.
abbrev pub hits : Option Text → Text → ℕ
hits none w = 0
hits (some v) w = one_if (text_eq v w)

-- How many entries have the value `w`.
abbrev pub count : Text → List (Text × Text) → ℕ
count w [] = 0
count w ((k, v) ∷ m) = one_if (text_eq v w) + count w m

abbrev pub HasUniqueKeys {ℓ} : {V : Type ℓ} → List (Text × V) → Type ℓ
HasUniqueKeys [] = Unit
HasUniqueKeys ((k, v) ∷ m) = (get k m ≡ none) × HasUniqueKeys m

remove_absent {ℓ} : {V : Type ℓ} (k : Text) (m : List (Text × V)) → get k m ≡ none → remove k m ≡ m
unfolding get remove
remove_absent k [] h = refl
remove_absent k ((j, v) ∷ m) h = ground (arith, remove_absent k m)

pub count-insert :
    (w k v : Text) (m : List (Text × Text))
    → count w (insert k v m) + hits (get k m) w ≡ count w m + one_if (text_eq v w)
unfolding get insert
count-insert w k v [] = omega arith
count-insert w k v ((j, x) ∷ m) = ground (arith, count-insert w k v m)

pub count-remove :
    (w k : Text) (m : List (Text × Text))
    → HasUniqueKeys m
    → count w (remove k m) + hits (get k m) w ≡ count w m
unfolding get remove
count-remove w k [] u = refl
count-remove w k ((j, x) ∷ m) u =
    ground (arith, u.0, text_eq_sound j k, remove_absent k m, count-remove w k m u.1)

pub insert-HasUniqueKeys {ℓ} :
    {V : Type ℓ} (k : Text) (v : V) (m : List (Text × V))
    → HasUniqueKeys m
    → HasUniqueKeys (insert k v m)
unfolding insert get
insert-HasUniqueKeys k v [] u = (refl, tt)
insert-HasUniqueKeys k v ((j, x) ∷ m) u = elim (Bool-cases (text_eq j k)) [
  | inl e ↦ rw e (ap (λ i. get i m) (sym (text_eq_sound j k e)) ∙ u.0, u.1)
  | inr e ↦
      rw e (get-insert_ne k j v m (text_eq_comm k j ∙ e) ∙ u.0, insert-HasUniqueKeys k v m u.1)
]

pub remove-HasUniqueKeys {ℓ} :
    {V : Type ℓ} (k : Text) (m : List (Text × V)) → HasUniqueKeys m → HasUniqueKeys (remove k m)
unfolding remove
remove-HasUniqueKeys k [] u = u
remove-HasUniqueKeys k ((j, x) ∷ m) u = elim (Bool-cases (text_eq j k)) [
  | inl e ↦ rw e (remove-HasUniqueKeys k m u.1)
  | inr e ↦ rw e (get-remove_ne k j m (text_eq_comm k j ∙ e) ∙ u.0, remove-HasUniqueKeys k m u.1)
]
