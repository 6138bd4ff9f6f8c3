-- ===== src/Loader/Texts.antt =====
-- The functions on texts and slices that the loader uses, of core and of the standard library.
use oscomp_test_listline.Prelude.{
  ℕ, ◌-◌, List, [], ◌∷◌, Option, none, some, Bool, true, false, ◌&&◌, ◌||◌, leb, ◌==◌,
  if◌then◌else◌, length, take, drop, Text, codes, text_eq,
}

-- A space, a tab, a line feed, a form feed or a carriage return.
abbrev pub is_ascii_whitespace : ℕ → Bool
is_ascii_whitespace c = (c == 32) || (c == 9) || (c == 10) || (c == 12) || (c == 13)

unfoldable pub trim_start : Text → Text
trim_start [] = []
trim_start (c ∷ cs) = elim (is_ascii_whitespace c) [ true ↦ trim_start cs | false ↦ c ∷ cs ]

unfoldable pub trim_end : Text → Text
trim_end [] = []
trim_end (c ∷ cs) =
    let rest = trim_end cs in
    elim rest [ [] ↦ if is_ascii_whitespace c then [] else c ∷ [] | d ∷ ds ↦ c ∷ d ∷ ds ]

-- `trim_ascii`
unfoldable pub trim_ascii : Text → Text
unfolding trim_start trim_end
trim_ascii s = trim_end (trim_start s)

-- What stands before the first byte that a test accepts, and what stands after it, if there is one.
unfoldable pub split_once : (ℕ → Bool) → Text → Text × Option Text
split_once p [] = ([], none)
split_once p (c ∷ cs) =
    let (before, after) = split_once p cs in
    elim (p c) [ true ↦ ([], some cs) | false ↦ (c ∷ before, after) ]

-- `splitn(2, …)` with `trim_ascii` of the parts.
unfoldable pub words : Text → List Text
unfolding split_once trim_ascii
words line =
    let (before, after) = split_once is_ascii_whitespace line in
    elim after [
      | none ↦ trim_ascii before ∷ []
      | some rest ↦ trim_ascii before ∷ trim_ascii rest ∷ []
    ]

-- `CStr::from_bytes_with_nul`: one 0, at the end.
unfoldable pub from_bytes_with_nul : List ℕ → Option Text
from_bytes_with_nul [] = none
from_bytes_with_nul (c ∷ []) = if c == 0 then some [] else none
from_bytes_with_nul (c ∷ d ∷ ds) =
    let rest = from_bytes_with_nul (d ∷ ds) in
    if c == 0 then none else elim rest [ none ↦ none | some s ↦ some (c ∷ s) ]

-- `get(a..b)` of a slice.
unfoldable pub get_range : List ℕ → ℕ → ℕ → Option (List ℕ)
get_range bytes a b =
    if leb a b && leb b (length bytes) then some (take (b - a) (drop a bytes)) else none

-- The paths of the dynamic loaders that another file stands in for.
unfoldable pub substitute : Text → Text
unfolding text_eq
substitute path =
    if text_eq path (codes "/lib/ld-linux-riscv64-lp64.so.1")
      || text_eq path (codes "/lib64/ld-linux-loongarch-lp64d.so.1")
      || text_eq path (codes "/lib64/ld-linux-x86-64.so.2")
      || text_eq path (codes "/lib/ld-linux-aarch64.so.1")
    then codes "/musl/lib/libc.so"
    else path
