-- ===== src/Transfer/Vectors.antt =====
-- How much the vector calls move, and what an error in the middle does.
use oscomp_test_listline.Prelude.{
  inl, inr, ℕ, ◌+◌, ◌≤◌, ◌<◌, ◌≡◌, List, [], ◌∷◌, ltb, ◌==◌, arith, Bool-cases,
}
use oscomp_test_listline.Errno.{LinuxError, ok, err, Result-cases}
use oscomp_test_listline.Transfer.{Iovec, Io, sys_move, vector_loop, sys_vector}

abbrev pub total_len : List Iovec → ℕ
total_len [] = 0
total_len (v ∷ vs) = v.iov_len + total_len vs

module _ {X : Type 0} (io : Io X) where
  -- A file moves at most as much as it is asked to.
  module _ (bounded : (x : X) (buf len n : ℕ) → (io.move x buf len).0 ≡ ok n → n ≤ len) where
    sys_move_le : (x : X) (buf len n : ℕ) → (sys_move io x buf len).0 ≡ ok n → n ≤ len
    unfolding sys_move
    sys_move_le x buf len n h = elim (Result-cases (io.slice x buf len)) [
      | inr (e, k) ↦ absurd (ground arith)
      | inl (u, k) ↦ elim (Result-cases (io.file x)) [
        | inr (e, l) ↦ absurd (ground arith)
        | inl (v, l) ↦ bounded x buf len n (ground arith)
      ]
    ]

    loop_le :
        (x : X) (iovs : List Iovec) (ret n : ℕ)
        → (vector_loop io x iovs ret).0 ≡ ok n
        → (ret ≤ n) × (n ≤ ret + total_len iovs)
    unfolding vector_loop
    loop_le x [] ret n h = ground arith
    loop_le x (v ∷ iovs) ret n h =
        let x' = (sys_move io x v.iov_base v.iov_len).1 in
        elim (Bool-cases (v.iov_len == 0)) [
          | inl z ↦ let ih = loop_le x iovs ret n (ground arith) in omega arith
          | inr z ↦ elim (Result-cases (sys_move io x v.iov_base v.iov_len).0) [
            | inr (e, r) ↦ absurd (ground arith)
            | inl (m, r) ↦
                let le = sys_move_le x v.iov_base v.iov_len m r in
                elim (Bool-cases (ltb m v.iov_len)) [
                  | inl s ↦ ground arith
                  | inr s ↦ let ih = loop_le x' iovs (ret + m) n (ground arith) in omega arith
                ]
          ]
        ]

    -- If the file never moves more than it is asked to, a vector call never reports more than the lengths
    -- of its vectors together, and it reports nothing for more than 1024 vectors.
    pub sys_vector_le :
        (x : X) (iovs : List Iovec) (iocnt n : ℕ)
        → (sys_vector io x (ok iovs) iocnt).0 ≡ ok n
        → (n ≤ total_len iovs) × (iocnt ≤ 1024)
    unfolding sys_vector
    sys_vector_le x iovs iocnt n h = elim (Bool-cases (ltb 1024 iocnt)) [
      | inl k ↦ absurd (ground arith)
      | inr k ↦ let l = loop_le x iovs 0 n (ground arith) in (omega arith, ground arith)
    ]

  -- A call that has moved all of its first vector and then meets an error with the second reports that
  -- error, although the file has moved on: how much was moved is lost.
  pub sys_vector_loses_progress :
      (x x₁ x₂ : X) (v w : Iovec) (vs : List Iovec) (iocnt : ℕ) (e : LinuxError)
      → iocnt ≤ 1024
      → 0 < v.iov_len
      → 0 < w.iov_len
      → sys_move io x v.iov_base v.iov_len ≡ (ok v.iov_len, x₁)
      → sys_move io x₁ w.iov_base w.iov_len ≡ (err e, x₂)
      → sys_vector io x (ok (v ∷ w ∷ vs)) iocnt ≡ (err e, x₂)
  unfolding sys_vector
  sys_vector_loses_progress x x₁ x₂ v w vs iocnt e b p q h k = ground (arith, h, k)
