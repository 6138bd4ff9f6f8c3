-- ===== src/Getdents/Stream.antt =====
-- The entries of a directory over calls of `sys_getdents64`.
use mathlib.Core.List.{map-append}
use oscomp_test_listline.Prelude.{
  ℕ, ◌≤◌, ◌<◌, ◌≡◌, refl, sym, ap, subst, ◌∙◌, ◌⊎◌, inl, inr, List, [], ◌∷◌, ◌++◌, map,
  append_assoc, Option, none, some, length, take, length-append, arith,
}
use oscomp_test_listline.Getdents.Calls.{
  list_of, Reads, AreNames-second, contents, sys_getdents64_lem,
}
use oscomp_test_listline.Errno.{einval, LinuxResult, ok, err}
use oscomp_test_listline.Getdents.{DirEntry, Directory, sys_getdents64}
use oscomp_test_listline.Getdents.Records.{seen, walk, AreNames}

module _ {D : Type 0} (read_dir : D → LinuxResult (Option DirEntry) × D) (left : D → List DirEntry)
    (laws : Reads read_dir left) where
  abbrev found : LinuxResult ℕ → List ℕ → List (ℕ × List ℕ)
  found (ok n) buf = walk n (take n buf)
  found (err e) buf = []

  -- A program that calls with one buffer after another, and walks over what each call returns.
  unfoldable pub list_all : ℕ → List (List ℕ) → Directory D → List (ℕ × List ℕ) × Directory D
  list_all fuel [] d = ([], d)
  list_all fuel (buf ∷ bufs) d = elim (sys_getdents64 read_dir fuel buf d) [
    | none ↦ ([], d)
    | some (r, buf', d') ↦ (let (rest, d'') = list_all fuel bufs d' in (found r buf' ++ rest, d''))
  ]

  list_all_step :
      (fuel : ℕ) (buf : List ℕ) (bufs : List (List ℕ)) (d d' : Directory D) (r : LinuxResult ℕ)
      (buf' : List ℕ)
      → sys_getdents64 read_dir fuel buf d ≡ some (r, buf', d')
      → let (rest, d'') = list_all fuel bufs d' in
        list_all fuel (buf ∷ bufs) d ≡ (found r buf' ++ rest, d'')
  unfolding list_all
  list_all_step fuel buf bufs d d' r buf' h = rw (h, list_all) refl

  found-got :
      (r : LinuxResult ℕ) (buf' : List ℕ) (got : List DirEntry) (size : ℕ) (rest : ℕ → Type 0)
      → ((n : ℕ) × (r ≡ ok n) × (n ≤ size) × (walk n (take n buf') ≡ map seen got) × rest n)
        ⊎ ((r ≡ err einval) × (got ≡ []))
      → found r buf' ≡ map seen got
  found-got r buf' got size rest (inl (n, e, l, w, more)) = rw e w
  found-got r buf' got size rest (inr (e, none_got)) = rw e (rw none_got refl)

  -- A program that reads a directory in several calls, with buffers of whatever lengths, finds the types
  -- and names of a first part of the entries, each once and in order, and the rest is still to be
  -- delivered: no call loses or repeats an entry, one that fails for want of room included.
  pub list_all-stream :
      (fuel : ℕ) (bufs : List (List ℕ)) (d : Directory D)
      → length (contents read_dir left laws d) < fuel
      → AreNames (contents read_dir left laws d)
      → let (seen_entries, d') = list_all fuel bufs d in
        seen_entries ++ map seen (contents read_dir left laws d')
        ≡ map seen (contents read_dir left laws d)
  unfolding list_all
  list_all-stream fuel [] d f a = refl
  list_all-stream fuel (buf ∷ bufs) d f a =
      let long = length-append (list_of d.last_dirent) (left d.inner) in
      let (r, buf', d', got, s, all, del) =
        sys_getdents64_lem read_dir left laws fuel buf d (omega (arith, long)) a in
      let b : AreNames (got ++ contents read_dir left laws d') = subst AreNames (sym all) a in
      let longer = length-append got (contents read_dir left laws d') in
      let same : length (got ++ contents read_dir left laws d')
          ≡ length (contents read_dir left laws d) =
        ap length all in
      let ih =
        list_all-stream fuel bufs d' (omega (arith, longer, same))
          (AreNames-second got (contents read_dir left laws d') b) in
      let (rest, d'') = list_all fuel bufs d' in
      let step = list_all_step fuel buf bufs d d' r buf' s in
      subst
        (λ (p : List (ℕ × List ℕ) × Directory D).
          p.0 ++ map seen (contents read_dir left laws p.1)
          ≡ map seen (contents read_dir left laws d))
        (sym step)
        (append_assoc (found r buf') rest (map seen (contents read_dir left laws d''))
          ∙ ap (λ w. found r buf' ++ w) ih
          ∙ ap (λ w. w ++ map seen (contents read_dir left laws d'))
              (found-got r buf' got (length buf)
                (λ n. (0 < n) ⊎ (contents read_dir left laws d' ≡ [])) del)
          ∙ sym (map-append seen got (contents read_dir left laws d'))
          ∙ ap (map seen) all)
