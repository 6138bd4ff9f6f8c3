-- ===== src/Transfer/Copying.antt =====
-- What `do_sendfile` copies.
use oscomp_test_listline.Prelude.{
  ℕ, zero, suc, ◌+◌, ◌<◌, ◌≡◌, refl, sym, ap, ◌∙◌, List, [], ◌∷◌, ◌++◌, some, true, false, arith,
  Bool-cases, length, take, drop, length-drop, append-nil, append_assoc, take-append-drop,
  length-append, inl, inr,
}
use oscomp_test_listline.Errno.{ok}
use oscomp_test_listline.Transfer.{Ends, chunk, is_nil, do_sendfile}

-- A finite source that is read in order and a sink that takes all that is written to it.
pub record IsStream {X : Type 0} (ends : Ends X) (source sink : X → List ℕ) : Type 0 where
  pub reads : (x : X) (n : ℕ) → (ends.read x n).0 ≡ ok (take n (source x))
  pub source-read : (x : X) (n : ℕ) → source (ends.read x n).1 ≡ drop n (source x)
  pub sink-read : (x : X) (n : ℕ) → sink (ends.read x n).1 ≡ sink x
  pub writes : (x : X) (bs : List ℕ) → (ends.write x bs).0 ≡ ok (length bs)
  pub source-write : (x : X) (bs : List ℕ) → source (ends.write x bs).1 ≡ source x
  pub sink-write : (x : X) (bs : List ℕ) → sink (ends.write x bs).1 ≡ sink x ++ bs

take_chunk_nil : (xs : List ℕ) → is_nil (take (suc 16383) xs) ≡ is_nil xs
take_chunk_nil [] = refl
take_chunk_nil (x ∷ xs) = refl

is_nil_eq : (xs : List ℕ) → is_nil xs ≡ true → xs ≡ []
is_nil_eq [] h = refl
is_nil_eq (x ∷ xs) h = cc

length_pos : (xs : List ℕ) → is_nil xs ≡ false → 0 < length xs
length_pos [] h = cc
length_pos (x ∷ xs) h = omega arith

-- One pass of the loop, with nothing read and with a full write.
pass_done :
    {X : Type 0} (ends : Ends X) (fuel : ℕ) (x : X) (total : ℕ) (bytes : List ℕ)
    → (ends.read x chunk).0 ≡ ok bytes
    → is_nil bytes ≡ true
    → do_sendfile ends (suc fuel) x total ≡ some (ok total, (ends.read x chunk).1)
unfolding do_sendfile
pass_done ends fuel x total bytes r e = ground (arith, r, e)

pass_more :
    {X : Type 0} (ends : Ends X) (fuel : ℕ) (x : X) (total : ℕ) (bytes : List ℕ)
    → (ends.read x chunk).0 ≡ ok bytes
    → is_nil bytes ≡ false
    → (ends.write (ends.read x chunk).1 bytes).0 ≡ ok (length bytes)
    → do_sendfile ends (suc fuel) x total
      ≡ do_sendfile ends fuel (ends.write (ends.read x chunk).1 bytes).1 (total + length bytes)
unfolding do_sendfile
pass_more ends fuel x total bytes r e w = ground (arith, r, e, w)

module _ {X : Type 0} (ends : Ends X) (source sink : X → List ℕ)
    (law : IsStream ends source sink) where
  -- From a finite source into a sink that takes everything, the loop ends within one pass for each byte
  -- and one more: it reports the length of the source, which then stands at the end of the sink.
  pub do_sendfile_all :
      (fuel : ℕ) (x : X) (total : ℕ)
      → length (source x) < fuel
      → (x' : X) × (do_sendfile ends fuel x total ≡ some (ok (total + length (source x)), x'))
        × (sink x' ≡ sink x ++ source x)
  do_sendfile_all zero x total h = absurd (omega arith)
  do_sendfile_all (suc fuel) x total h =
      let bytes = take chunk (source x) in
      let x₁ = (ends.read x chunk).1 in
      let x₂ = (ends.write x₁ bytes).1 in
      let after : source x₂ ≡ drop chunk (source x) =
        law.source-write x₁ bytes ∙ law.source-read x chunk in
      let filled : sink x₂ ≡ sink x ++ bytes =
        law.sink-write x₁ bytes ∙ ap (λ s. s ++ bytes) (law.sink-read x chunk) in
      let parts = ap length (take-append-drop chunk (source x)) in
      let sum = length-append bytes (drop chunk (source x)) in
      elim (Bool-cases (is_nil bytes)) [
        | inl e ↦
            let done : source x ≡ [] = is_nil_eq (source x) (sym (take_chunk_nil (source x)) ∙ e) in
            (
              x₁,
              pass_done ends fuel x total bytes (law.reads x chunk) e
                  ∙ ap (λ n. some (ok n, x₁)) {y = total + length (source x)}
                      (omega (arith, ap length done)),
              law.sink-read x chunk ∙ sym (append-nil (sink x)) ∙ ap (◌++◌ (sink x)) (sym done),
            )
        | inr e ↦
            let pos = length_pos (source x) (sym (take_chunk_nil (source x)) ∙ e) in
            let (x', r, s) =
              do_sendfile_all fuel x₂ (total + length bytes)
                (omega (arith, ap length after, length-drop chunk (source x))) in
            let count : total + length bytes + length (source x₂) ≡ total + length (source x) =
              omega (arith, ap length after, parts, sum) in
            (
              x',
              pass_more ends fuel x total bytes (law.reads x chunk) e (law.writes x₁ bytes)
                  ∙ r
                  ∙ ap (λ n. some (ok n, x')) count,
              s
                  ∙ ap (λ xs. xs ++ source x₂) filled
                  ∙ append_assoc (sink x) bytes (source x₂)
                  ∙ ap (λ xs. sink x ++ (bytes ++ xs)) after
                  ∙ ap (◌++◌ (sink x)) (take-append-drop chunk (source x)),
            )
      ]

-- When the sink takes only a part of a chunk that was read, the call ends successfully and does not count
-- that part, whatever was copied before.
pub do_sendfile_short :
    {X : Type 0} (ends : Ends X) (fuel : ℕ) (x x₁ x₂ : X) (total n : ℕ) (bytes : List ℕ)
    → ends.read x chunk ≡ (ok bytes, x₁)
    → ends.write x₁ bytes ≡ (ok n, x₂)
    → n < length bytes
    → do_sendfile ends (suc fuel) x total ≡ some (ok total, x₂)
unfolding do_sendfile
do_sendfile_short ends fuel x x₁ x₂ total n [] r w h = absurd (omega arith)
do_sendfile_short ends fuel x x₁ x₂ total n (b ∷ bytes) r w h = ground (arith, r, w)
