-- ===== src/FdTable/Objects.antt =====
-- `FlattenObjects<T, 1024>` of the crate flatten_objects, which the descriptor table is: its methods, and
-- what its documentation says of them. `none` stands for the errors.
use oscomp_test_listline.Prelude.{
  ℕ, ◌≤◌, ◌<◌, ◌≡◌, ◌≢◌, ◌⊎◌, List, [], ◌∷◌, Option, none, some, Bool, true, false, ◌||◌, ◌==◌,
  if◌then◌else◌,
}

-- `AX_FILE_LIMIT`
abbrev pub ax_file_limit : ℕ
ax_file_limit = 1024

abbrev pub is_in : ℕ → List ℕ → Bool
is_in i [] = false
is_in i (j ∷ js) = j == i || is_in i js

pub record FlattenObjects (T A : Type 0) : Type 0 where
  pub new : T
  pub get : T → ℕ → Option A
  pub add : T → A → Option (ℕ × T)
  pub add_at : T → ℕ → A → Option T
  pub remove : T → ℕ → Option (A × T)
  pub ids : T → List ℕ
  pub get-new : (i : ℕ) → get new i ≡ none
  -- An object that is added gets an unused identifier below the capacity.
  pub add_fresh :
      (t : T) (a : A) (id : ℕ) (t' : T)
      → add t a ≡ some (id, t')
      → (id < ax_file_limit) × (get t id ≡ none)
  pub get-add :
      (t : T) (a : A) (id : ℕ) (t' : T) (j : ℕ)
      → add t a ≡ some (id, t')
      → get t' j ≡ (if id == j then some a else get t j)
  pub add_at_free :
      (t : T) (i : ℕ) (a : A)
      → i < ax_file_limit
      → get t i ≡ none
      → (t' : T) × (add_at t i a ≡ some t')
  pub add_at_refuses :
      (t : T) (i : ℕ) (a : A) → (ax_file_limit ≤ i) ⊎ (get t i ≢ none) → add_at t i a ≡ none
  pub get-add_at :
      (t : T) (i : ℕ) (a : A) (t' : T) (j : ℕ)
      → add_at t i a ≡ some t'
      → get t' j ≡ (if i == j then some a else get t j)
  pub remove_used :
      (t : T) (i : ℕ) (a : A) → get t i ≡ some a → (t' : T) × (remove t i ≡ some (a, t'))
  pub remove_unused : (t : T) (i : ℕ) → get t i ≡ none → remove t i ≡ none
  pub get-remove :
      (t : T) (i : ℕ) (a : A) (t' : T) (j : ℕ)
      → remove t i ≡ some (a, t')
      → get t' j ≡ (if i == j then none else get t j)
  -- The identifiers in use, all below the capacity.
  pub ids_used : (t : T) (i : ℕ) → is_in i (ids t) ≡ false → get t i ≡ none
  pub ids_bound : (t : T) (i : ℕ) → is_in i (ids t) ≡ true → (i < ax_file_limit) × (get t i ≢ none)
