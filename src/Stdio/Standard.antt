-- ===== src/Stdio/Standard.antt =====
-- The descriptors of a kernel that starts.
use oscomp_test_listline.Prelude.{ℕ, ◌≤◌, ◌≡◌, ◌∙◌, none, some, ◌==◌, if◌then◌else◌, arith}
use oscomp_test_listline.FdTable.Objects.{FlattenObjects}
use oscomp_test_listline.Stdio.{init_stdio}

module _ {T A : Type 0} (fo : FlattenObjects T A) where
  -- The three standard descriptors are made without a panic: 0 is standard input, 1 standard output, 2 standard
  -- error, and no other descriptor is in use.
  pub init_stdio_lem :
      (stdin stdout stderr : A)
      → (t : T) × (init_stdio fo stdin stdout stderr ≡ some t)
        × (fo.get t 0 ≡ some stdin)
        × (fo.get t 1 ≡ some stdout)
        × (fo.get t 2 ≡ some stderr)
        × ((j : ℕ) → 3 ≤ j → fo.get t j ≡ none)
  unfolding init_stdio
  init_stdio_lem stdin stdout stderr =
      let (t0, e0) = fo.add_at_free fo.new 0 stdin (omega arith) (fo.get-new 0) in
      let g0 : (j : ℕ) → fo.get t0 j ≡ (if 0 == j then some stdin else fo.get fo.new j) =
        λ j. fo.get-add_at fo.new 0 stdin t0 j e0 in
      let (t1, e1) = fo.add_at_free t0 1 stdout (omega arith) (g0 1 ∙ fo.get-new 1) in
      let g1 : (j : ℕ) → fo.get t1 j ≡ (if 1 == j then some stdout else fo.get t0 j) =
        λ j. fo.get-add_at t0 1 stdout t1 j e1 in
      let (t2, e2) = fo.add_at_free t1 2 stderr (omega arith) (g1 2 ∙ g0 2 ∙ fo.get-new 2) in
      let g2 : (j : ℕ) → fo.get t2 j ≡ (if 2 == j then some stderr else fo.get t1 j) =
        λ j. fo.get-add_at t1 2 stderr t2 j e2 in
      (
        t2,
        rw (init_stdio, e0, e1, e2),
        g2 0 ∙ g1 0 ∙ g0 0,
        g2 1 ∙ g1 1,
        g2 2,
        λ j b. ground (arith, b, g2 j, g1 j, g0 j, fo.get-new j),
      )
