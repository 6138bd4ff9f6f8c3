-- ===== src/Loader/Interpreters.antt =====
-- Scripts and dynamic programs as the files say, apart from the code that reads them.
use oscomp_test_listline.Prelude.{
  ℕ, zero, suc, ◌-◌, ◌<◌, ◌≤◌, ◌≡◌, ◌≢◌, ◌⊎◌, refl, sym, ap, ◌∙◌, inl, inr, List, [], ◌∷◌, ◌++◌,
  none, some, Bool, true, false, Text, codes, starts_with, text_eq, text_eq_sound, Bool-cases,
  arith, ◌==◌, length, take, length-append, min,
}
use oscomp_test_listline.Errno.{ok}
use oscomp_test_listline.Loader.{
  UserSpace, ElfFile, Formats, Layout, trim_ascii, trim_start, trim_end, words, split_once,
  substitute, again, program, is_ascii_whitespace, from_bytes_with_nul, script_line, script_args,
  interp_args, elf_args, next_args, load_program, load_user_app,
}
use oscomp_test_listline.Loader.Chain.{Leads, here, next, load_user_app-Leads}

-- No byte passes the test.
abbrev pub NoneOf : (ℕ → Bool) → Text → Type 0
NoneOf p [] = Unit
NoneOf p (c ∷ cs) = (p c ≡ false) × NoneOf p cs

split_once-append :
    (p : ℕ → Bool) (word : Text) (c : ℕ) (rest : Text)
    → NoneOf p word
    → p c ≡ true
    → split_once p (word ++ c ∷ rest) ≡ (word, some rest)
unfolding split_once
split_once-append p [] c rest n h = rw (split_once, h)
split_once-append p (x ∷ word) c rest (a, n) h =
    rw (split_once, a, split_once-append p word c rest n h)

split_once-whole : (p : ℕ → Bool) (word : Text) → NoneOf p word → split_once p word ≡ (word, none)
unfolding split_once
split_once-whole p [] n = refl
split_once-whole p (x ∷ word) (a, n) = rw (split_once, a, split_once-whole p word n)

split_once-take :
    (p : ℕ → Bool) (n : ℕ) (line : Text) (c : ℕ) (rest : Text)
    → NoneOf p line
    → p c ≡ true
    → length line < n
    → (split_once p (take n (line ++ c ∷ rest))).0 ≡ line
unfolding split_once
split_once-take p zero line c rest a h b = absurd (omega (arith, b))
split_once-take p (suc n) [] c rest a h b = rw (split_once, h)
split_once-take p (suc n) (x ∷ line) c rest (a, as') h b =
    rw (split_once, a) (ap (λ t. x ∷ t) (split_once-take p n line c rest as' h (omega (arith, b))))

abbrev pub is_newline : ℕ → Bool
is_newline c = c == 10

abbrev pub is_nul : ℕ → Bool
is_nul c = c == 0

script_line_lem :
    (line rest : Text)
    → NoneOf is_newline line
    → length line ≤ 253
    → script_line (codes "#!" ++ (line ++ 10 ∷ rest)) ≡ line
unfolding script_line
script_line_lem line rest n b =
    split_once-take is_newline (min (suc (suc (length (line ++ 10 ∷ rest)))) 256 - 2) line 10 rest n
      refl (omega (arith, length-append line (10 ∷ rest), b))

from_bytes_with_nul-append :
    (name : Text) → NoneOf is_nul name → from_bytes_with_nul (name ++ 0 ∷ []) ≡ some name
unfolding from_bytes_with_nul
from_bytes_with_nul-append [] n = refl
from_bytes_with_nul-append (x ∷ []) (a, n) = rw (from_bytes_with_nul, a)
from_bytes_with_nul-append (x ∷ y ∷ name) (a, n) =
    rw (from_bytes_with_nul, a, from_bytes_with_nul-append (y ∷ name) n)

text_eq-differ : (s t : Text) → s ≢ t → text_eq s t ≡ false
text_eq-differ s t n = elim (Bool-cases (text_eq s t)) [
  | inr e ↦ e
  | inl e ↦ absurd (n (text_eq_sound s t e))
]

-- The file that is run for an interpreter: musl's C library for each of the four glibc loaders.
abbrev pub RunsFor : Text → Text → Type 0
RunsFor interpreter file =
    (((interpreter ≡ codes "/lib/ld-linux-riscv64-lp64.so.1")
        ⊎ (interpreter ≡ codes "/lib64/ld-linux-loongarch-lp64d.so.1")
        ⊎ (interpreter ≡ codes "/lib64/ld-linux-x86-64.so.2")
        ⊎ (interpreter ≡ codes "/lib/ld-linux-aarch64.so.1"))
      × (file ≡ codes "/musl/lib/libc.so"))
    ⊎ ((interpreter ≢ codes "/lib/ld-linux-riscv64-lp64.so.1")
        × (interpreter ≢ codes "/lib64/ld-linux-loongarch-lp64d.so.1")
        × (interpreter ≢ codes "/lib64/ld-linux-x86-64.so.2")
        × (interpreter ≢ codes "/lib/ld-linux-aarch64.so.1")
        × (file ≡ interpreter))

substitute-RunsFor :
    (interpreter file : Text) → RunsFor interpreter file → substitute interpreter ≡ file
unfolding substitute text_eq
substitute-RunsFor i file (inl (inl a, f)) = ap substitute a ∙ sym f
substitute-RunsFor i file (inl (inr (inl a), f)) = ap substitute a ∙ sym f
substitute-RunsFor i file (inl (inr (inr (inl a)), f)) = ap substitute a ∙ sym f
substitute-RunsFor i file (inl (inr (inr (inr a)), f)) = ap substitute a ∙ sym f
substitute-RunsFor i file (inr (a, b, c, d, f)) =
    rw
      (
        substitute,
        text_eq-differ i (codes "/lib/ld-linux-riscv64-lp64.so.1") a,
        text_eq-differ i (codes "/lib64/ld-linux-loongarch-lp64d.so.1") b,
        text_eq-differ i (codes "/lib64/ld-linux-x86-64.so.2") c,
        text_eq-differ i (codes "/lib/ld-linux-aarch64.so.1") d,
      )
      (sym f)

trim_start-NoneOf : (word : Text) → NoneOf is_ascii_whitespace word → trim_start word ≡ word
unfolding trim_start
trim_start-NoneOf [] n = refl
trim_start-NoneOf (c ∷ cs) (a, n) = rw (trim_start, a)

trim_end-NoneOf : (word : Text) → NoneOf is_ascii_whitespace word → trim_end word ≡ word
unfolding trim_end
trim_end-NoneOf [] n = refl
trim_end-NoneOf (c ∷ []) (a, n) = rw (trim_end, a)
trim_end-NoneOf (c ∷ d ∷ ds) (a, n) = rw (trim_end, trim_end-NoneOf (d ∷ ds) n)

trim_ascii-NoneOf : (word : Text) → NoneOf is_ascii_whitespace word → trim_ascii word ≡ word
unfolding trim_ascii
trim_ascii-NoneOf word n = ap trim_end (trim_start-NoneOf word n) ∙ trim_end-NoneOf word n

module _ {V : Type 0} (formats : Formats V) where
  -- A file that is a script of an interpreter's line, up to its newline.
  abbrev pub IsScript : Text → Text → Type 0
  IsScript path line =
      (rest : Text) × (formats.read path ≡ ok (codes "#!" ++ (line ++ 10 ∷ rest)))
      × NoneOf is_newline line
      × (length line ≤ 253)
      × (formats.is_utf8 line ≡ true)

  -- A file that is an ELF file.
  abbrev pub IsElf : Text → ElfFile V → Type 0
  IsElf path elf =
      (bytes : List ℕ) × (formats.read path ≡ ok bytes)
      × (starts_with bytes (codes "#!") ≡ false)
      × (formats.elf_new bytes ≡ some elf)

  -- What is run for a command line whose program is a script or a dynamic program: the word of the script's
  -- line, or its first word and all that follows it as one argument, or the dynamic loader that is named, with
  -- a 0 at its end, in front of the command line.
  pub data Interprets : List Text → List Text → Type 0 where
    script_word :
        (path : Text) (args : List Text) (line word : Text)
        → IsScript path line
        → formats.trim line ≡ word
        → NoneOf is_ascii_whitespace word
        → Interprets (path ∷ args) (word ∷ path ∷ args)
    script_words :
        (path : Text) (args : List Text) (line word : Text) (blank : ℕ) (argument : Text)
        → IsScript path line
        → formats.trim line ≡ word ++ blank ∷ argument
        → NoneOf is_ascii_whitespace word
        → is_ascii_whitespace blank ≡ true
        → Interprets (path ∷ args) (word ∷ trim_ascii argument ∷ path ∷ args)
    dynamic :
        (path : Text) (args : List Text) (elf : ElfFile V) (name interpreter file : Text)
        → IsElf path elf
        → elf.interp ≡ some (some (name ++ 0 ∷ []))
        → NoneOf is_nul name
        → formats.is_utf8 name ≡ true
        → formats.canonicalize name ≡ ok interpreter
        → RunsFor interpreter file
        → Interprets (path ∷ args) (file ∷ path ∷ args)

  -- A command line of a program that is neither.
  abbrev pub IsStatic : List Text → ElfFile V → Type 0
  IsStatic args elf =
      (path : Text) × (more : List Text) × (args ≡ path ∷ more)
      × IsElf path elf
      × (elf.interp ≡ none)

  pub data Reaches : List Text → ℕ → List Text → Type 0 where
    static : (args : List Text) → Reaches args 0 args
    interpreted :
        (args more : List Text) {final : List Text} {n : ℕ}
        → Interprets args more
        → Reaches more n final
        → Reaches args (suc n) final

  script-again :
      (path line : Text) (args front : List Text)
      → IsScript path line
      → words (formats.trim line) ≡ front
      → next_args formats (path ∷ args) ≡ again (front ++ (path ∷ args))
  unfolding next_args script_args starts_with
  script-again path line args front (rest, r, n, b, u) w =
      rw (next_args, r, script_args, script_line_lem line rest n b, u, w)

  Interprets-again :
      {args more : List Text} → Interprets args more → next_args formats args ≡ again more
  unfolding next_args elf_args interp_args words
  Interprets-again (script_word path args line word s t n) =
      script-again path line args (word ∷ []) s (
        ap words t
        ∙ ground (arith, split_once-whole is_ascii_whitespace word n, trim_ascii-NoneOf word n))
  Interprets-again (script_words path args line word blank argument s t n b) =
      script-again path line args (word ∷ trim_ascii argument ∷ []) s (
        ap words t
        ∙ ground (
          arith,
          split_once-append is_ascii_whitespace word blank argument n b,
          trim_ascii-NoneOf word n,
        ))
  Interprets-again (dynamic path args elf name interpreter file (bytes, r, d, e) i n u c f) =
      rw (next_args, r, d, elf_args, e, i, interp_args, from_bytes_with_nul-append name n, u, c)
        (ap (λ x. again (x ∷ path ∷ args)) (substitute-RunsFor interpreter file f))

  IsStatic-program :
      (args : List Text) (elf : ElfFile V)
      → IsStatic args elf
      → next_args formats args ≡ program elf
  unfolding next_args elf_args
  IsStatic-program args elf (path, more, a, (bytes, r, d, e), i) =
      ap (next_args formats) a ∙ ground (arith, r, d, e, i)

  Reaches-Leads :
      {args final : List Text} {n : ℕ} → Reaches args n final → Leads formats args n final
  Reaches-Leads (static args) = here args
  Reaches-Leads (interpreted args more i r) = next args more (Interprets-again i) (Reaches-Leads r)

module _ {S V : Type 0} (space : UserSpace S) (formats : Formats V) (layout : Layout) where
  -- If the files say that a command line runs a script, whose line has up to 253 bytes before its newline,
  -- or a dynamic program, and so on `n` times, up to a program that is neither, then fuel for more steps
  -- than these is enough: the loader maps this program and gives it the command line that was reached, in
  -- which each interpreter and its argument stand in front.
  pub load_user_app-Reaches :
      (fuel : ℕ) (s : S) (envs args final : List Text) (n : ℕ) (elf : ElfFile V)
      → Reaches formats args n final
      → IsStatic formats final elf
      → n < fuel
      → load_user_app space formats layout fuel s args envs
        ≡ load_program space formats layout s elf final envs
  load_user_app-Reaches fuel s envs args final n elf r p b =
      load_user_app-Leads space formats layout fuel s envs args final n elf
        (Reaches-Leads formats r) b (IsStatic-program formats final elf p)
