-- ===== src/Loader/Tests.antt =====
-- A script, a program that it names and a script that names itself.
use oscomp_test_listline.Prelude.{
  ℕ, ◌≡◌, refl, List, [], ◌∷◌, ◌++◌, none, some, true, false, if◌then◌else◌, Text, codes, text_eq,
  starts_with, arith,
}
use oscomp_test_listline.Errno.{not_found, AxResult, ok, err}
use oscomp_test_listline.Loader.{
  is_ascii_whitespace, UserSpace, Segment, ElfFile, Formats, Layout, trim_ascii, words, script_line,
  next_args, program, loops, returns, load_program, load_user_app,
}
use oscomp_test_listline.Loader.Chain.{load_user_app-args, load_user_app_loops}
use oscomp_test_listline.Loader.Interpreters.{
  IsScript, Interprets, script_words, IsStatic, static, interpreted, load_user_app-Reaches,
}
use oscomp_test_listline.Loader.Segments.{none_fits, fits_next, IsLoaded, load_program_lem}

-- The addresses of the areas and of the writes, the last one first.
abbrev areas : UserSpace (List ℕ)
areas = record { map_alloc = λ s a n f p. ok (a ∷ s); write = λ s a bytes. ok (a ∷ s) }

abbrev text_segment : Segment
text_segment = record {
  vaddr = 8193;
  memsz = 5000;
  offset = 1;
  filesz = 2;
  flags = record { read = true; write = false; execute = true; user = true };
}

abbrev small_elf : ElfFile ℕ
small_elf = record {
  input = 69 ∷ 76 ∷ 70 ∷ [];
  interp = none;
  ph_load = some (text_segment ∷ []);
  entry = 8193;
  auxv = 0;
}

abbrev read_file : Text → AxResult (List ℕ)
read_file path =
    if text_eq path (codes "a")
    then ok (codes "#! b -x\n...")
    else if text_eq path (codes "b")
    then ok (69 ∷ 76 ∷ 70 ∷ [])
    else if text_eq path (codes "c")
    then ok (codes "#!c\n")
    else err not_found

abbrev files : Formats ℕ
files = record {
  read = read_file;
  canonicalize = λ path. ok path;
  elf_new = λ bytes. some small_elf;
  app_stack_region = λ args envs v a n. 1 ∷ 2 ∷ 3 ∷ [];
  is_utf8 = λ bytes. true;
  trim = trim_ascii;
}

abbrev places : Layout
places = record { stack_top = 65536; stack_size = 16384; heap_base = 32768; heap_size = 4096 }

abbrev final_args : List Text
final_args = codes "b" ∷ codes "-x" ∷ codes "a" ∷ []

loaded :
    load_program areas files places [] small_elf final_args []
    ≡ returns (ok (8193, 65533)) (65533 ∷ 32768 ∷ 49152 ∷ 8193 ∷ 8192 ∷ [])
unfolding load_program
loaded = refl

IsScript-a : IsScript files (codes "a") (codes " b -x")
unfolding text_eq is_ascii_whitespace
IsScript-a = (codes "...", refl, (refl, (refl, (refl, (refl, (refl, tt))))), omega arith, refl)

a_runs_b : Interprets files (codes "a" ∷ []) final_args
unfolding trim_ascii
a_runs_b =
    script_words (codes "a") [] (codes " b -x") (codes "b") 32 (codes "-x") IsScript-a refl
      (refl, tt) refl

b-IsStatic : IsStatic files final_args small_elf
unfolding text_eq starts_with
b-IsStatic = (codes "b", codes "-x" ∷ codes "a" ∷ [], refl, (codes "ELF", refl, refl, refl), refl)

load_user_app-Reaches_example :
    load_user_app areas files places 2 [] (codes "a" ∷ []) []
    ≡ load_program areas files places [] small_elf final_args []
load_user_app-Reaches_example =
    load_user_app-Reaches areas files places 2 [] [] (codes "a" ∷ []) final_args 1 small_elf
      (interpreted (codes "a" ∷ []) final_args a_runs_b (static final_args)) b-IsStatic
      (omega arith)

script_loaded :
    load_user_app areas files places 2 [] (codes "a" ∷ []) []
    ≡ returns (ok (8193, 65533)) (65533 ∷ 32768 ∷ 49152 ∷ 8193 ∷ 8192 ∷ [])
unfolding load_user_app
script_loaded = refl

load_user_app-args_concrete :
    (front : List Text) × (elf : ElfFile ℕ) × (next_args files (front ++ codes "a" ∷ [])
      ≡ program elf)
    × (load_program areas files places [] elf (front ++ codes "a" ∷ []) []
        ≡ returns (ok (8193, 65533)) (65533 ∷ 32768 ∷ 49152 ∷ 8193 ∷ 8192 ∷ []))
load_user_app-args_concrete =
    load_user_app-args areas files places 2 [] (65533 ∷ 32768 ∷ 49152 ∷ 8193 ∷ 8192 ∷ [])
      (codes "a" ∷ []) [] 8193 65533 script_loaded

self_script : words (files.trim (script_line (codes "#!c\n"))) ≡ codes "c" ∷ []
unfolding words script_line
self_script = refl

load_user_app_loops_concrete : load_user_app areas files places 100 [] (codes "c" ∷ []) [] ≡ loops
unfolding text_eq starts_with
load_user_app_loops_concrete =
    load_user_app_loops areas files places 100 [] (codes "c") [] [] [] (codes "#!c\n") refl refl
      refl self_script

load_program_lem_example :
    IsLoaded areas files places [] small_elf final_args [] 65533
      (65533 ∷ 32768 ∷ 49152 ∷ 8193 ∷ 8192 ∷ [])
    × (8193 ≡ small_elf.entry)
load_program_lem_example =
    load_program_lem areas files places [] (65533 ∷ 32768 ∷ 49152 ∷ 8193 ∷ 8192 ∷ []) small_elf
      final_args [] (text_segment ∷ []) 8193 65533 refl
      (fits_next (omega arith, omega arith) none_fits) (omega arith) (omega arith) loaded
