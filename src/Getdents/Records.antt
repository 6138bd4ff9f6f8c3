-- ===== src/Getdents/Records.antt =====
-- The records in the buffer, and how a program walks over them.
use oscomp_test_listline.Prelude.{
  ℕ, zero, suc, ◌+◌, ◌-◌, ◌*◌, ◌/◌, ◌%◌, ◌≤◌, ◌<◌, ◌≡◌, ◌≢◌, ◌⊎◌, refl, sym, ap, subst, ◌∙◌, inl,
  inr, List, [], ◌∷◌, ◌++◌, map, append-nil, append_assoc, true, false, ltb, ◌==◌, if◌then◌else◌,
  length, take, drop, get_or, length-append, length-take, length-drop, drop-append, Bool-cases,
  arith,
}
use oscomp_test_listline.Getdents.{
  FileType, d_type, DirEntry, file_type, DirBuffer, remaining_space, used_len, record_len, header,
  used, write_entry,
}

-- What a walk finds of an entry: the type and the name.
abbrev pub seen : DirEntry → ℕ × List ℕ
seen e = (d_type (file_type e), e.name)

abbrev record_of : DirEntry → List ℕ → List ℕ
record_of e pad = used (file_type e) e.name ++ pad

-- The bytes are the records of the entries, one after another, each with padding up to its length.
abbrev pub Holds : List ℕ → List DirEntry → Type 0
Holds bs [] = bs ≡ []
Holds bs (e ∷ es) =
    (pad rest : List ℕ) × (bs ≡ record_of e pad ++ rest)
    × (length pad + used_len e.name ≡ record_len e.name)
    × Holds rest es

length-used : (ty : FileType) (name : List ℕ) → length (used ty name) ≡ used_len name
unfolding header
length-used ty name = omega (arith, length-append name (0 ∷ []))

Holds-append :
    (bs : List ℕ) (es : List DirEntry) (e : DirEntry) (pad : List ℕ)
    → Holds bs es
    → length pad + used_len e.name ≡ record_len e.name
    → Holds (bs ++ record_of e pad) (es ++ (e ∷ []))
Holds-append bs [] e pad h l = (pad, [], rw h (sym (append-nil (record_of e pad))), l, refl)
Holds-append bs (x ∷ es) e pad (p, rest, q, m, h) l = (
  p,
  rest ++ record_of e pad,
  rw q (append_assoc (record_of x p) rest (record_of e pad)),
  m,
  Holds-append rest es e pad h l,
)

take_past {ℓ} :
    {A : Type ℓ} (n m : ℕ) (xs ys : List A)
    → length xs ≡ n
    → take (n + m) (xs ++ ys) ≡ xs ++ take m ys
take_past zero m [] ys h = ap (λ k. take k ys) (omega arith)
take_past zero m (x ∷ xs) ys h = absurd (omega arith)
take_past (suc n) m [] ys h = absurd (omega arith)
take_past (suc n) m (x ∷ xs) ys h =
    let e : suc n + m ≡ suc (n + m) = omega arith in
    ap (λ k. take k (x ∷ xs ++ ys)) e ∙ ap (◌∷◌ x) (take_past n m xs ys (omega arith))

pub Holds-nil : (es : List DirEntry) → Holds [] es → es ≡ []
unfolding header
Holds-nil [] h = refl
Holds-nil (e ∷ es) (p, rest, q, m, h) = cc q

-- What holds of a buffer with some entries.
pub record Filled (n : ℕ) (b : DirBuffer) (es : List DirEntry) : Type 0 where
  pub size : length b.buf ≡ n
  pub within : b.offset ≤ n
  pub holds : Holds (take b.offset b.buf) es

pub write_entry-Filled :
    (n : ℕ) (b b' : DirBuffer) (es : List DirEntry) (e : DirEntry)
    → Filled n b es
    → write_entry b (file_type e) e.name ≡ (true, b')
    → Filled n b' (es ++ (e ∷ []))
unfolding write_entry remaining_space
write_entry-Filled n b b' es e f h =
    elim (Bool-cases (ltb (remaining_space b) (record_len e.name))) [
      | inl k ↦ absurd (ground arith)
      | inr k ↦
          let o = b.offset in
          let u = used (file_type e) e.name in
          let dropped = drop (o + used_len e.name) b.buf in
          let p = record_len e.name - used_len e.name in
          let room : o + record_len e.name ≤ n = ground arith in
          let long = length-used (file_type e) e.name in
          let front = length-take o b.buf in
          let back = length-drop (o + used_len e.name) b.buf in
          let pad = length-take p dropped in
          let one =
            take_past o (record_len e.name) (take o b.buf) (u ++ dropped) (omega (arith, front)) in
          let two =
            ap (λ k. take k (u ++ dropped)) {y = used_len e.name + p} (omega arith)
            ∙ take_past (used_len e.name) p u dropped long in
          let new : DirBuffer = record {
            buf = take o b.buf ++ (u ++ dropped);
            offset = o + record_len e.name;
          } in
          let same : new ≡ b' = ground arith in
          subst (λ c. Filled n c (es ++ (e ∷ []))) same
            (record {
              size = omega (
                arith,
                front,
                back,
                long,
                length-append (take o b.buf) (u ++ dropped),
                length-append u dropped,
              );
              within = room;
              holds =
                  subst (λ bs. Holds bs (es ++ (e ∷ [])))
                    (sym (one ∙ ap (λ w. take o b.buf ++ w) two))
                    (Holds-append (take o b.buf) es e (take p dropped) f.holds
                      (omega (arith, pad, back)));
            })
    ]

write_entry_refuses :
    (b : DirBuffer) (e : DirEntry)
    → (write_entry b (file_type e) e.name).0 ≡ false
    → write_entry b (file_type e) e.name ≡ (false, b)
unfolding write_entry
write_entry_refuses b e h = ground arith

pub write_entry_cases :
    (n : ℕ) (b : DirBuffer) (es : List DirEntry) (e : DirEntry)
    → Filled n b es
    → (write_entry b (file_type e) e.name ≡ (false, b))
      ⊎ ((b' : DirBuffer) × (write_entry b (file_type e) e.name ≡ (true, b'))
          × Filled n b' (es ++ (e ∷ [])))
write_entry_cases n b es e f =
    let r = write_entry b (file_type e) e.name in
    elim (Bool-cases r.0) [
      | inl t ↦
          let whole : r ≡ (true, r.1) = ap (λ x. (x, r.1)) t in
          inr (r.1, whole, write_entry-Filled n b r.1 es e f whole)
      | inr t ↦ inl (write_entry_refuses b e t)
    ]

-- The name up to its terminator.
abbrev pub until_zero : List ℕ → List ℕ
until_zero [] = []
until_zero (c ∷ cs) = let rest = until_zero cs in if c == 0 then [] else c ∷ rest

-- A program's walk over the bytes that a call has returned, with fuel for the number of entries.
unfoldable pub walk : ℕ → List ℕ → List (ℕ × List ℕ)
walk zero bs = []
walk (suc fuel) [] = []
walk (suc fuel) (b ∷ bs) =
    let rec_len = get_or bs 15 0 + 256 * get_or bs 16 0 in
    let rest = walk fuel (drop rec_len (b ∷ bs)) in (get_or bs 17 0, until_zero (drop 18 bs)) ∷ rest

-- A name of a directory entry has no zero byte, and its record fits in 16 bits.
abbrev pub NoZero : List ℕ → Type 0
NoZero [] = Unit
NoZero (c ∷ cs) = (c ≢ 0) × NoZero cs

abbrev pub IsName : List ℕ → Type 0
IsName name = NoZero name × (record_len name < 65536)

abbrev pub AreNames : List DirEntry → Type 0
AreNames [] = Unit
AreNames (e ∷ es) = IsName e.name × AreNames es

until_zero_name :
    (name pad rest : List ℕ) → NoZero name → until_zero (((name ++ (0 ∷ [])) ++ pad) ++ rest) ≡ name
until_zero_name [] pad rest z = refl
until_zero_name (c ∷ cs) pad rest z = ground (arith, until_zero_name cs pad rest z.1)

pub walk-Holds :
    (fuel : ℕ) (bs : List ℕ) (es : List DirEntry)
    → Holds bs es
    → AreNames es
    → length es ≤ fuel
    → walk fuel bs ≡ map seen es
unfolding walk header
walk-Holds zero bs [] h a l = refl
walk-Holds (suc fuel) bs [] h a l = rw h
walk-Holds zero bs (e ∷ es) h a l = absurd (omega arith)
walk-Holds (suc fuel) bs (e ∷ es) (pad, rest, q, m, h) a l =
    let whole = record_of e pad in
    let rl = record_len e.name in
    let full = length-append (used (file_type e) e.name) pad in
    let long : length whole ≡ rl = omega (arith, full, length-used (file_type e) e.name, m) in
    let small : rl % 256 + 256 * (rl / 256 % 256) ≡ rl = omega (arith, a.0.1) in
    let next : drop (rl % 256 + 256 * (rl / 256 % 256)) (whole ++ rest) ≡ rest =
      ap (λ k. drop k (whole ++ rest)) small ∙ drop-append rl whole rest long in
    let z = until_zero_name e.name pad rest a.0.0 in
    let ih = walk-Holds fuel rest es h a.1 (omega arith) in
    rw q (
      ap
        (λ w.
          (d_type (file_type e), w)
          ∷ walk fuel (drop (rl % 256 + 256 * (rl / 256 % 256)) (whole ++ rest)))
        z
      ∙ ap (λ w. seen e ∷ walk fuel w) next
      ∙ ap (λ w. seen e ∷ w) ih)

pub Holds-length : (bs : List ℕ) (es : List DirEntry) → Holds bs es → length es ≤ length bs
Holds-length bs [] h = omega arith
Holds-length bs (e ∷ es) (pad, rest, q, m, h) =
    let ih = Holds-length rest es h in
    let long = length-append (record_of e pad) rest in
    let full = length-append (used (file_type e) e.name) pad in
    let same : length bs ≡ length (record_of e pad ++ rest) = ap length q in
    omega (arith, ih, long, full, length-used (file_type e) e.name, same)
