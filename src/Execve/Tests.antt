-- ===== src/Execve/Tests.antt =====
-- A call that enters another program, and one whose program is not there.
use oscomp_test_listline.Execve.Refusing.{sys_execve_refuses}
use oscomp_test_listline.Prelude.{
  ℕ, ◌≤◌, ◌≡◌, ◌⊎◌, refl, List, [], ◌∷◌, none, some, true, if◌then◌else◌, Text, codes, text_eq,
  arith,
}
use oscomp_test_listline.Errno.{enoent, other_errno, not_found, LinuxResult, ok, err, ◌>>=◌}
use oscomp_test_listline.Loader.{
  ElfFile, Formats, Layout, next_args, program, load_program, load_user_app,
}
use oscomp_test_listline.Loader.Chain.{here}
use oscomp_test_listline.Execve.{
  collect, ExecSpace, Image, refuses, enters, map_trampoline, after_load, sys_execve,
}
use oscomp_test_listline.Execve.Effects.{
  with_path, IsEntered, sys_execve-path, sys_execve_enters, sys_execve-Leads,
}

-- The addresses of the areas and of the writes, the last one first.
abbrev areas : ExecSpace (List ℕ)
areas = record {
  user_space = record { map_alloc = λ s a n f p. ok (a ∷ s); write = λ s a bytes. ok (a ∷ s) };
  unmap_user_areas = λ s. ok [];
  map_linear = λ s a p n f. ok (a ∷ s);
  signal_trampoline = 16384;
  trampoline_paddr = 0;
  to_linux = λ e. other_errno 22;
}

abbrev empty_elf : ElfFile ℕ
empty_elf = record { input = []; interp = none; ph_load = some []; entry = 4096; auxv = 0 }

abbrev files : Formats ℕ
files = record {
  read = λ path. if text_eq path (codes "/bin/b") then ok [] else err not_found;
  canonicalize = λ path. ok path;
  elf_new = λ bytes. some empty_elf;
  app_stack_region = λ args envs v a n. 1 ∷ 2 ∷ [];
  is_utf8 = λ bytes. true;
  trim = λ s. s;
}

abbrev places : Layout
places = record { stack_top = 65536; stack_size = 16384; heap_base = 32768; heap_size = 4096 }

abbrev shell : Image (List ℕ)
shell = record { aspace = 7 ∷ []; name = codes "sh"; exe_path = codes "/bin/sh" }

abbrev argv : LinuxResult (List (LinuxResult Text))
argv = ok (ok (codes "/bin/b") ∷ [])

abbrev missing : LinuxResult (List (LinuxResult Text))
missing = ok (ok (codes "/bin/c") ∷ [])

abbrev empty_list : LinuxResult (List (LinuxResult Text))
empty_list = ok []

abbrev after : Image (List ℕ)
after = record {
  aspace = 65534 ∷ 32768 ∷ 49152 ∷ 16384 ∷ [];
  name = codes "a";
  exe_path = codes "/bin/a";
}

entered :
    sys_execve areas files places 1 (ok (codes "/bin/a")) argv empty_list 1 shell
    ≡ enters 4096 65534 after
unfolding sys_execve load_user_app
entered = refl

refused :
    sys_execve areas files places 1 (ok (codes "/bin/c")) missing empty_list 1 shell
    ≡ refuses enoent (record shell { aspace = 16384 ∷ [] })
unfolding sys_execve load_user_app
refused = refl

sys_execve-path_example :
    sys_execve areas files places 1 (ok (codes "/bin/a")) argv empty_list 1 shell
    ≡ with_path
        (codes "/bin/a")
        (sys_execve areas files places 1 (ok (codes "x")) argv empty_list 1 shell)
sys_execve-path_example =
    sys_execve-path areas files places 1 (codes "/bin/a") (codes "x") argv empty_list 1 shell

sys_execve_enters_example :
    (1 ≤ 1) × IsEntered areas files places (codes "/bin/a") argv empty_list shell 4096 65534 after
sys_execve_enters_example =
    sys_execve_enters areas files places 1 (codes "/bin/a") argv empty_list 1 shell after 4096 65534
      entered

sys_execve_refuses_example :
    (record shell { aspace = 16384 ∷ [] } ≡ shell)
    ⊎ ((1 ≤ 1)
        × ((cleared : List ℕ) × (areas.unmap_user_areas shell.aspace ≡ ok cleared)
            × (record shell { aspace = 16384 ∷ [] } ≡ record shell { aspace = 16384 ∷ [] })))
sys_execve_refuses_example =
    sys_execve_refuses areas files places 1 (ok (codes "/bin/c")) missing empty_list 1 shell
      (record shell { aspace = 16384 ∷ [] }) enoent refused

collected : argv >>= collect ≡ ok (codes "/bin/b" ∷ [])
unfolding collect
collected = refl

collected_empty : empty_list >>= collect ≡ ok []
unfolding collect
collected_empty = refl

trampoline_mapped : map_trampoline areas [] ≡ ok (16384 ∷ [])
unfolding map_trampoline
trampoline_mapped = refl

program_next : next_args files (codes "/bin/b" ∷ []) ≡ program empty_elf
unfolding next_args
program_next = refl

sys_execve-Leads_concrete :
    sys_execve areas files places 1 (ok (codes "/bin/a")) argv empty_list 1 shell
    ≡ after_load
        (codes "/bin/a")
        shell
        (load_program areas.user_space files places (16384 ∷ []) empty_elf (codes "/bin/b" ∷ []) [])
sys_execve-Leads_concrete =
    sys_execve-Leads areas files places 1 (codes "/bin/a") argv empty_list (codes "/bin/b" ∷ []) []
      (codes "/bin/b" ∷ []) 1 0 shell [] (16384 ∷ []) empty_elf collected collected_empty
      (omega arith) refl trampoline_mapped (here (codes "/bin/b" ∷ [])) (omega arith) program_next
