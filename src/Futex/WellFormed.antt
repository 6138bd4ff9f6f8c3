-- ===== src/Futex/WellFormed.antt =====
-- The tables of wait queues that threads can reach are well formed.
use oscomp_test_listline.Prelude.{
  ℕ, ◌+◌, ◌<◌, ◌≡◌, sym, ap, subst, ◌∙◌, inl, inr, List, ◌∷◌, some, ◌==◌, Bool-cases, arith,
}
use oscomp_test_listline.Futex.{FutexTable, new_table, lookup, drop_guard}
use oscomp_test_listline.Futex.Table.{
  IsHeld, Step, getting, inserting, dropping, Reach, here, next, Step-IsHeld, get_cases,
  get_or_insert_cases, drop_guard-entries,
}

-- What holds of a table: the guards' queues are in it, and no two addresses have one queue.
pub record IsTable (t : FutexTable) : Type 0 where
  pub held : IsHeld t
  pub below : (a i : ℕ) → lookup a t.entries ≡ some i → i < t.next
  pub distinct : (a b i : ℕ) → lookup a t.entries ≡ some i → lookup b t.entries ≡ some i → a ≡ b

new-IsTable : IsTable new_table
unfolding new_table lookup
new-IsTable = record {
  held = tt;
  below = λ a i h. absurd (ground arith);
  distinct = λ a b i h k. absurd (ground arith);
}

-- The parts of `IsTable` that concern the entries.
abbrev Numbered : List (ℕ × ℕ) → ℕ → Type 0
Numbered es n =
    ((a i : ℕ) → lookup a es ≡ some i → i < n)
    × ((a b i : ℕ) → lookup a es ≡ some i → lookup b es ≡ some i → a ≡ b)

Numbered-new : (a n : ℕ) (es : List (ℕ × ℕ)) → Numbered es n → Numbered ((a, n) ∷ es) (n + 1)
unfolding lookup
Numbered-new a n es (below, distinct) = (
  λ b i h. elim (Bool-cases (a == b)) [
    | inl e ↦ ground arith
    | inr e ↦ let l = below b i (ground arith) in omega arith
  ],
  λ b c i h k. elim (Bool-cases (a == b)) [
    | inl e ↦ elim (Bool-cases (a == c)) [
      | inl f ↦ ground arith
      | inr f ↦ let l = below c i (ground arith) in absurd (ground arith)
    ]
    | inr e ↦ elim (Bool-cases (a == c)) [
      | inl f ↦ let l = below b i (ground arith) in absurd (ground arith)
      | inr f ↦ distinct b c i (ground arith) (ground arith)
    ]
  ],
)

Step-Numbered :
    {t u : FutexTable} → Step t u → IsHeld t → Numbered t.entries t.next → Numbered u.entries u.next
unfolding drop_guard
Step-Numbered {t} (getting a e) h n = elim (get_cases t a) [
  | inl (l, q) ↦ subst (λ (x : FutexTable). Numbered x.entries x.next) (sym (e ∙ ap (λ p. p.1) q)) n
  | inr (i, l, q) ↦
      subst (λ (x : FutexTable). Numbered x.entries x.next) (sym (e ∙ ap (λ p. p.1) q)) n
]
Step-Numbered {t} (inserting a e) h n = elim (get_or_insert_cases t a) [
  | inl (l, q) ↦
      subst (λ (x : FutexTable). Numbered x.entries x.next) (sym (e ∙ ap (λ p. p.1) q))
        (Numbered-new a t.next t.entries n)
  | inr (i, l, q) ↦
      subst (λ (x : FutexTable). Numbered x.entries x.next) (sym (e ∙ ap (λ p. p.1) q)) n
]
Step-Numbered {t} (dropping g b k e) h n =
    subst (λ (x : FutexTable). Numbered x.entries x.next) (sym e)
      (subst (λ es. Numbered es t.next) (sym (drop_guard-entries t g b h k)) n)

-- Every table that is reached from the empty one, in any order of the threads' steps, is well formed: the
-- queues of all living guards are in it, and no two addresses have one queue.
pub Reach-IsTable : {t : FutexTable} → Reach new_table t → IsTable t
Reach-IsTable here = new-IsTable
Reach-IsTable (next r st) =
    let t = Reach-IsTable r in
    let n = Step-Numbered st t.held (t.below, t.distinct) in
    record { held = Step-IsHeld st t.held; below = n.0; distinct = n.1 }
