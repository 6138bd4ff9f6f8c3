-- ===== src/Stdio/Reading.antt =====
-- What a read from the console gives.
use oscomp_test_listline.Prelude.{
  ℕ, zero, suc, ◌-◌, ◌≤◌, ◌≡◌, ◌⊎◌, refl, sym, subst, ap, ◌∙◌, inl, inr, List, [], ◌∷◌, ◌++◌, map,
  some, length, take, drop, arith,
}
use oscomp_test_listline.Errno.{ok}
use oscomp_test_listline.Stdio.{Console, newline, console_read_bytes, read_loop, read_raw}

List-cases : (xs : List ℕ) → (xs ≡ []) ⊎ ((x : ℕ) × (rest : List ℕ) × (xs ≡ x ∷ rest))
List-cases [] = inl refl
List-cases (x ∷ rest) = inr (x, rest, refl)

module _ {A : Type 0} where
  take-of_append :
      (n : ℕ) (xs ys : List A) → length xs ≤ n → take n (xs ++ ys) ≡ xs ++ take (n - length xs) ys
  take-of_append n [] ys h = ap (λ k. take k ys) (omega arith)
  take-of_append zero (x ∷ xs) ys h = absurd (omega (arith, h))
  take-of_append (suc n) (x ∷ xs) ys h =
      ap (λ zs. x ∷ zs) (take-of_append n xs ys (omega (arith, h)))
      ∙ ap (λ k. x ∷ xs ++ take k ys) (omega arith)

  drop-of_append :
      (n : ℕ) (xs ys : List A) → length xs ≤ n → drop n (xs ++ ys) ≡ drop (n - length xs) ys
  drop-of_append n [] ys h = ap (λ k. drop k ys) (omega arith)
  drop-of_append zero (x ∷ xs) ys h = absurd (omega (arith, h))
  drop-of_append (suc n) (x ∷ xs) ys h =
      drop-of_append n xs ys (omega (arith, h)) ∙ ap (λ k. drop k ys) (omega arith)

map-append : (f : ℕ → ℕ) (xs ys : List ℕ) → map f (xs ++ ys) ≡ map f xs ++ map f ys
map-append f [] ys = refl
map-append f (x ∷ xs) ys = ap (λ zs. f x ∷ zs) (map-append f xs ys)

length-map : (f : ℕ → ℕ) (xs : List ℕ) → length (map f xs) ≡ length xs
length-map f [] = refl
length-map f (x ∷ xs) = ap suc (length-map f xs)

module _ {C : Type 0} (console : Console C) where
  abbrev Reads : ℕ → ℕ → C → Type 0
  Reads fuel n c =
      (c' : C) × (read_loop console fuel n c
        ≡ some (ok (map newline (take n (console.arrived c))), c'))
      × (console.arrived c' ≡ drop n (console.arrived c))

  read_loop_lem : (fuel n : ℕ) (c : C) → n ≤ fuel → Reads fuel n c
  unfolding read_loop console_read_bytes
  read_loop_lem fuel zero c enough = (c, refl, refl)
  read_loop_lem zero (suc n) c enough = absurd (omega (arith, enough))
  read_loop_lem (suc fuel) (suc n) c enough =
      let got = console.read_bytes (suc n) c in
      elim (List-cases got.0) [
        | inl none_left ↦
            let nothing : console.arrived c ≡ [] =
              console.read_empty (suc n) c (omega arith) none_left in
            let still : console.arrived got.1 ≡ [] =
              sym (ap (λ x. x ++ console.arrived got.1) none_left)
              ∙ sym (console.read_prefix (suc n) c)
              ∙ nothing in
            (
              got.1,
              rw (read_loop, console_read_bytes, none_left, nothing),
              still ∙ ap (drop (suc n)) (sym nothing),
            )
        | inr (b, bs, some_left) ↦
            let left = suc n - length (b ∷ bs) in
            let pre : console.arrived c ≡ (b ∷ bs) ++ console.arrived got.1 =
              console.read_prefix (suc n) c ∙ ap (λ x. x ++ console.arrived got.1) some_left in
            let fit : length (b ∷ bs) ≤ suc n =
              subst (λ x. length x ≤ suc n) some_left (console.read_bound (suc n) c) in
            let taken : take (suc n) (console.arrived c)
                ≡ (b ∷ bs) ++ take left (console.arrived got.1) =
              ap (take (suc n)) pre ∙ take-of_append (suc n) (b ∷ bs) (console.arrived got.1) fit in
            let dropped : drop (suc n) (console.arrived c) ≡ drop left (console.arrived got.1) =
              ap (drop (suc n)) pre ∙ drop-of_append (suc n) (b ∷ bs) (console.arrived got.1) fit in
            let (c2, reads, rest) = read_loop_lem fuel left got.1 (omega (arith, enough)) in
            (
              c2,
              rw (
                read_loop,
                console_read_bytes,
                some_left,
                length-map newline bs,
                reads,
                taken,
                map-append newline (b ∷ bs) (take left (console.arrived got.1)),
              ),
              rest ∙ sym dropped,
            )
      ]

  -- A read of standard input without waiting comes to its end: it gives the bytes that have arrived, in order
  -- and as many as fit in the buffer, each carriage return as a line feed, and leaves the others for the next
  -- read.
  pub read_raw_lem :
      (n : ℕ) (c : C)
      → (c' : C) × (read_raw console n c ≡ some (ok (map newline (take n (console.arrived c))), c'))
        × (console.arrived c' ≡ drop n (console.arrived c))
  unfolding read_raw
  read_raw_lem n c = read_loop_lem n n c (omega arith)
