-- ===== src/Futex/Table.antt =====
-- The entries of the table of wait queues, while guards come and go.
use oscomp_test_listline.Prelude.{
  ℕ, ◌+◌, ◌<◌, ◌≡◌, ◌⊎◌, refl, sym, ap, subst, inl, inr, List, [], ◌∷◌, none, some, Bool, ◌==◌,
  ◌&&◌, Bool-cases, Option-cases, arith,
}
use oscomp_test_listline.Futex.{
  WaitQueueGuard, FutexTable, new_table, lookup, hold, get, get_or_insert, count_entries,
  count_guards, strong_count, release, drop_guard,
}

-- Every guard's queue stands in the table under the guard's key.
abbrev pub AllHeld : List (ℕ × ℕ) → List WaitQueueGuard → Type 0
AllHeld es [] = Unit
AllHeld es (g ∷ gs) = (lookup g.key es ≡ some g.inner) × AllHeld es gs

abbrev pub IsHeld : FutexTable → Type 0
IsHeld t = AllHeld t.entries t.guards

abbrev pub HasGuard : WaitQueueGuard → List WaitQueueGuard → Type 0
HasGuard g [] = ⊥
HasGuard g (h ∷ gs) = (h ≡ g) ⊎ HasGuard g gs

count_entries_pos : (a i : ℕ) (es : List (ℕ × ℕ)) → lookup a es ≡ some i → 0 < count_entries i es
unfolding lookup count_entries
count_entries_pos a i [] h = cc
count_entries_pos a i ((b, j) ∷ es) h = elim (Bool-cases (b == a)) [
  | inl e ↦ ground arith
  | inr e ↦ let rest = count_entries_pos a i es (ground arith) in ground arith
]

count_guards_pos :
    (g : WaitQueueGuard) (gs : List WaitQueueGuard) → HasGuard g gs → 0 < count_guards g.inner gs
unfolding count_guards
count_guards_pos g [] h = absurd h
count_guards_pos g (k ∷ gs) (inl e) =
    let same : k.inner ≡ g.inner = ap (λ x. x.inner) e in ground arith
count_guards_pos g (k ∷ gs) (inr h) = let rest = count_guards_pos g gs h in ground arith

held-lookup :
    (g : WaitQueueGuard) (es : List (ℕ × ℕ)) (gs : List WaitQueueGuard)
    → AllHeld es gs
    → HasGuard g gs
    → lookup g.key es ≡ some g.inner
held-lookup g es [] a h = absurd h
held-lookup g es (k ∷ gs) a (inl e) =
    subst (λ (x : WaitQueueGuard). lookup x.key es ≡ some x.inner) e a.0
held-lookup g es (k ∷ gs) a (inr h) = held-lookup g es gs a.1 h

-- While the guard lives, its queue has the guard and an entry.
pub drop_guard-entries :
    (t : FutexTable) (g : WaitQueueGuard) (is_empty : Bool)
    → IsHeld t
    → HasGuard g t.guards
    → (drop_guard t g is_empty).entries ≡ t.entries
unfolding drop_guard strong_count
drop_guard-entries t g is_empty a h =
    let one = count_guards_pos g t.guards h in
    let two = count_entries_pos g.key g.inner t.entries (held-lookup g t.entries t.guards a h) in
    ground arith

AllHeld-release :
    (es : List (ℕ × ℕ)) (g : WaitQueueGuard) (gs : List WaitQueueGuard)
    → AllHeld es gs
    → AllHeld es (release g gs)
unfolding release
AllHeld-release es g [] a = tt
AllHeld-release es g (k ∷ gs) a = elim (Bool-cases ((k.key == g.key) && (k.inner == g.inner))) [
  | inl e ↦ rw e a.1
  | inr e ↦ rw e (a.0, AllHeld-release es g gs a.1)
]

-- A new entry for an address that has none hides no other.
lookup-new :
    (a b i j : ℕ) (es : List (ℕ × ℕ))
    → lookup a es ≡ none
    → lookup b es ≡ some i
    → lookup b ((a, j) ∷ es) ≡ some i
unfolding lookup
lookup-new a b i j es n h = elim (Bool-cases (a == b)) [
  | inl e ↦ let same : a ≡ b = ground arith in absurd (ground (arith, ap (λ x. lookup x es) same))
  | inr e ↦ ground arith
]

AllHeld-new :
    (a j : ℕ) (es : List (ℕ × ℕ)) (gs : List WaitQueueGuard)
    → lookup a es ≡ none
    → AllHeld es gs
    → AllHeld ((a, j) ∷ es) gs
AllHeld-new a j es [] n h = tt
AllHeld-new a j es (g ∷ gs) n h =
    (lookup-new a g.key g.inner j es n h.0, AllHeld-new a j es gs n h.1)

-- What the threads of a process do to the table, in any order.
pub data Step (t u : FutexTable) : Type 0 where
  getting : (a : ℕ) → u ≡ (get t a).1 → Step t u
  inserting : (a : ℕ) → u ≡ (get_or_insert t a).1 → Step t u
  dropping :
      (g : WaitQueueGuard) (is_empty : Bool)
      → HasGuard g t.guards
      → u ≡ drop_guard t g is_empty
      → Step t u

pub data Reach (t : FutexTable) : FutexTable → Type 0 where
  here : Reach t t
  next : {u v : FutexTable} → Reach t u → Step u v → Reach t v

abbrev pub guard_of : ℕ → ℕ → WaitQueueGuard
guard_of a i = record { key = a; inner = i }

pub get_cases :
    (t : FutexTable) (a : ℕ)
    → ((lookup a t.entries ≡ none) × (get t a ≡ (none, t)))
      ⊎ ((i : ℕ) × (lookup a t.entries ≡ some i)
          × (get t a ≡ (some (guard_of a i), hold t (guard_of a i))))
unfolding get
get_cases t a = elim (Option-cases (lookup a t.entries)) [
  | inl e ↦ inl (e, ground arith)
  | inr (i, e) ↦ inr (i, e, ground arith)
]

-- The table after a new entry for an address.
abbrev pub with_entry : FutexTable → ℕ → FutexTable
with_entry t a = record t { entries = (a, t.next) ∷ t.entries; next = t.next + 1 }

pub get_or_insert_cases :
    (t : FutexTable) (a : ℕ)
    → ((lookup a t.entries ≡ none)
        × (get_or_insert t a ≡ (guard_of a t.next, hold (with_entry t a) (guard_of a t.next))))
      ⊎ ((i : ℕ) × (lookup a t.entries ≡ some i)
          × (get_or_insert t a ≡ (guard_of a i, hold t (guard_of a i))))
unfolding get_or_insert
get_or_insert_cases t a = elim (Option-cases (lookup a t.entries)) [
  | inl e ↦ inl (e, ground arith)
  | inr (i, e) ↦ inr (i, e, ground arith)
]

lookup_self : (a i : ℕ) (es : List (ℕ × ℕ)) → lookup a ((a, i) ∷ es) ≡ some i
unfolding lookup
lookup_self a i es = ground arith

pub get-IsHeld : (t : FutexTable) (a : ℕ) → IsHeld t → IsHeld (get t a).1
get-IsHeld t a h = elim (get_cases t a) [
  | inl (e, q) ↦ subst (λ p. IsHeld p.1) (sym q) h
  | inr (i, e, q) ↦ subst (λ p. IsHeld p.1) (sym q) (e, h)
]

pub get_or_insert-IsHeld : (t : FutexTable) (a : ℕ) → IsHeld t → IsHeld (get_or_insert t a).1
get_or_insert-IsHeld t a h = elim (get_or_insert_cases t a) [
  | inl (e, q) ↦
      subst (λ p. IsHeld p.1) (sym q)
        (lookup_self a t.next t.entries, AllHeld-new a t.next t.entries t.guards e h)
  | inr (i, e, q) ↦ subst (λ p. IsHeld p.1) (sym q) (e, h)
]

drop_guard-guards :
    (t : FutexTable) (g : WaitQueueGuard) (b : Bool)
    → (drop_guard t g b).guards ≡ release g t.guards
unfolding drop_guard
drop_guard-guards t g b = refl

pub drop_guard-IsHeld :
    (t : FutexTable) (g : WaitQueueGuard) (b : Bool)
    → IsHeld t
    → HasGuard g t.guards
    → IsHeld (drop_guard t g b)
drop_guard-IsHeld t g b h k =
    subst (λ es. AllHeld es (drop_guard t g b).guards) (sym (drop_guard-entries t g b h k))
      (subst (AllHeld t.entries) (sym (drop_guard-guards t g b))
        (AllHeld-release t.entries g t.guards h))

pub Step-IsHeld : {t u : FutexTable} → Step t u → IsHeld t → IsHeld u
Step-IsHeld {t} (getting a e) h = subst IsHeld (sym e) (get-IsHeld t a h)
Step-IsHeld {t} (inserting a e) h = subst IsHeld (sym e) (get_or_insert-IsHeld t a h)
Step-IsHeld {t} (dropping g b k e) h = subst IsHeld (sym e) (drop_guard-IsHeld t g b h k)

get-entries : (t : FutexTable) (a : ℕ) → (get t a).1.entries ≡ t.entries
get-entries t a = elim (get_cases t a) [
  | inl (e, q) ↦ ap (λ p. p.1.entries) q
  | inr (i, e, q) ↦ ap (λ p. p.1.entries) q
]

get_or_insert-lookup :
    (t : FutexTable) (a b i : ℕ)
    → lookup b t.entries ≡ some i
    → lookup b (get_or_insert t a).1.entries ≡ some i
get_or_insert-lookup t a b i h = elim (get_or_insert_cases t a) [
  | inl (e, q) ↦
      subst (λ p. lookup b p.1.entries ≡ some i) (sym q) (lookup-new a b i t.next t.entries e h)
  | inr (j, e, q) ↦ subst (λ p. lookup b p.1.entries ≡ some i) (sym q) h
]

Step-lookup :
    {t u : FutexTable}
    → Step t u
    → IsHeld t
    → (b i : ℕ) → lookup b t.entries ≡ some i
    → lookup b u.entries ≡ some i
Step-lookup {t} (getting a e) h b i l = rw e (rw (get-entries t a) l)
Step-lookup {t} (inserting a e) h b i l = rw e (get_or_insert-lookup t a b i l)
Step-lookup {t} (dropping g k m e) h b i l = rw e (rw (drop_guard-entries t g k h m) l)

Reach-IsHeld : {t u : FutexTable} → IsHeld t → Reach t u → IsHeld u
Reach-IsHeld h here = h
Reach-IsHeld h (next r st) = Step-IsHeld st (Reach-IsHeld h r)

Reach-lookup :
    {t u : FutexTable}
    → IsHeld t
    → Reach t u
    → (b i : ℕ) → lookup b t.entries ≡ some i
    → lookup b u.entries ≡ some i
Reach-lookup h here b i l = l
Reach-lookup h (next r st) b i l = Step-lookup st (Reach-IsHeld h r) b i (Reach-lookup h r b i l)

new-IsHeld : IsHeld new_table
unfolding new_table
new-IsHeld = tt

-- Whatever the threads of a process do from the empty table on, in any order (take guards, make queues,
-- drop guards whose queues are empty or not), an address that has a queue keeps this queue for good: the
-- entry that the drop of the last guard is meant to remove is never removed.
pub Reach-new-lookup :
    {t u : FutexTable} (b i : ℕ)
    → Reach new_table t
    → Reach t u
    → lookup b t.entries ≡ some i
    → lookup b u.entries ≡ some i
Reach-new-lookup b i r s l = Reach-lookup (Reach-IsHeld new-IsHeld r) s b i l
