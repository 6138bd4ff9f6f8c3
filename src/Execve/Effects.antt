-- ===== src/Execve/Effects.antt =====
-- What another program in the caller's address space takes over.
use oscomp_test_listline.Execve.Naming.{IsNameOf, file_name_lem}
use oscomp_test_listline.Prelude.{
  ℕ, ◌<◌, ◌≤◌, ◌≡◌, refl, sym, subst, inl, inr, List, ◌++◌, false, ltb, Text, Bool-cases, arith,
}
use oscomp_test_listline.Errno.{LinuxResult, ok, err, ◌>>=◌, Result-cases}
use oscomp_test_listline.Loader.{
  ElfFile, Formats, Layout, program, Loading, panics, loops, returns, next_args, load_program,
  load_user_app,
}
use oscomp_test_listline.Loader.Chain.{Leads, load_user_app-Leads, load_user_app-args}
use oscomp_test_listline.Execve.{
  file_name, collect, ExecSpace, Image, Exec, refuses, enters, loader_panics, loader_loops,
  map_trampoline, after_load, replace, sys_execve,
}

-- What is forgotten when the path is: the task's name and the path of the executable that are stored.
abbrev pub with_path : {S : Type 0} → Text → Exec S → Exec S
with_path path (refuses e im) = refuses e im
with_path path (enters entry sp im) =
    enters entry sp (record im { name = file_name path; exe_path = path })
with_path path loader_panics = loader_panics
with_path path loader_loops = loader_loops

after_load-with_path :
    {S : Type 0} (p q : Text) (im : Image S) (l : Loading S)
    → with_path p (after_load q im l) ≡ after_load p im l
unfolding after_load
after_load-with_path p q im panics = refl
after_load-with_path p q im loops = refl
after_load-with_path p q im (returns (ok (entry, sp)) s) = refl
after_load-with_path p q im (returns (err e) s) = refl

after_load_enters :
    {S : Type 0} (path : Text) (im im' : Image S) (entry sp : ℕ) (l : Loading S)
    → after_load path im l ≡ enters entry sp im'
    → (s : S) × (l ≡ returns (ok (entry, sp)) s)
      × (im' ≡ record { aspace = s; name = file_name path; exe_path = path })
unfolding after_load
after_load_enters path im im' entry sp panics h = ground arith
after_load_enters path im im' entry sp loops h = ground arith
after_load_enters path im im' entry sp (returns (err e) s) h = ground arith
after_load_enters path im im' entry sp (returns (ok (a, b)) s) h =
    (s, ground (arith, h), ground (arith, h))

module _ {S V : Type 0} (space : ExecSpace S) (formats : Formats V) (layout : Layout) where
  replace-with_path :
      (fuel : ℕ) (p q : Text) (args envs : List Text) (im : Image S)
      → with_path p (replace space formats layout fuel q args envs im)
        ≡ replace space formats layout fuel p args envs im
  unfolding replace
  replace-with_path fuel p q args envs im = elim (Result-cases (space.unmap_user_areas im.aspace)) [
    | inr (e, u) ↦ rw (replace, u)
    | inl (s1, u) ↦ elim (Result-cases (map_trampoline space s1)) [
      | inr (e, t) ↦ rw (replace, u, t)
      | inl (s2, t) ↦
          rw (replace, u, t)
            (after_load-with_path p q im
              (load_user_app space.user_space formats layout fuel s2 args envs))
    ]
  ]

  -- The path decides nothing but the name of the task and the path of the executable that are stored: with
  -- another path that can be read, the call fails in the same way or enters the same program at the same
  -- place with the same memory, since the program that is loaded is the one that the first argument names.
  pub sys_execve-path :
      (fuel : ℕ) (p q : Text) (argv envp : LinuxResult (List (LinuxResult Text))) (threads : ℕ)
      (im : Image S)
      → sys_execve space formats layout fuel (ok p) argv envp threads im
        ≡ with_path p (sys_execve space formats layout fuel (ok q) argv envp threads im)
  unfolding sys_execve
  sys_execve-path fuel p q argv envp threads im = elim (Result-cases (argv >>= collect)) [
    | inr (e, a) ↦ rw (sys_execve, a)
    | inl (args, a) ↦ elim (Result-cases (envp >>= collect)) [
      | inr (e, b) ↦ rw (sys_execve, a, b)
      | inl (envs, b) ↦ elim (Bool-cases (ltb 1 threads)) [
        | inl c ↦ rw (sys_execve, a, b, c)
        | inr c ↦ rw (sys_execve, a, b, c) (sym (replace-with_path fuel p q args envs im))
      ]
    ]
  ]

  -- What a call that enters a program has done.
  pub record IsEntered (path : Text) (argv envp : LinuxResult (List (LinuxResult Text)))
      (im : Image S) (entry sp : ℕ) (im' : Image S) : Type 0 where
    pub args : List Text
    pub envs : List Text
    pub args_eq : argv >>= collect ≡ ok args
    pub envs_eq : envp >>= collect ≡ ok envs
    pub cleared : S
    pub cleared_eq : space.unmap_user_areas im.aspace ≡ ok cleared
    pub with_trampoline : S
    pub trampoline_eq : map_trampoline space cleared ≡ ok with_trampoline
    pub front : List Text
    pub elf : ElfFile V
    pub program_eq : next_args formats (front ++ args) ≡ program elf
    pub load_eq :
        load_program space.user_space formats layout with_trampoline elf (front ++ args) envs
        ≡ returns (ok (entry, sp)) im'.aspace
    pub exe_path_eq : im'.exe_path ≡ path
    pub name_eq : IsNameOf path im'.name

  replace_enters :
      (fuel : ℕ) (path : Text) (args envs : List Text) (im im' : Image S) (entry sp : ℕ)
      (argv envp : LinuxResult (List (LinuxResult Text)))
      → argv >>= collect ≡ ok args
      → envp >>= collect ≡ ok envs
      → replace space formats layout fuel path args envs im ≡ enters entry sp im'
      → IsEntered path argv envp im entry sp im'
  unfolding replace after_load
  replace_enters fuel path args envs im im' entry sp argv envp a b h =
      elim (Result-cases (space.unmap_user_areas im.aspace)) [
        | inr (e, u) ↦ ground (arith, h, u)
        | inl (s1, u) ↦ elim (Result-cases (map_trampoline space s1)) [
          | inr (e, t) ↦ ground (arith, h, u, t)
          | inl (s2, t) ↦
              let h2 : after_load path im
                    (load_user_app space.user_space formats layout fuel s2 args envs)
                  ≡ enters entry sp im' =
                ground (arith, h, u, t) in
              let (s3, l, same) =
                after_load_enters path im im' entry sp
                  (load_user_app space.user_space formats layout fuel s2 args envs) h2 in
              let (front, elf, n, p) =
                load_user_app-args space.user_space formats layout fuel s2 s3 args envs entry sp
                  l in
              subst (IsEntered path argv envp im entry sp) (sym same) (record {
                args = args;
                envs = envs;
                args_eq = a;
                envs_eq = b;
                cleared = s1;
                cleared_eq = u;
                with_trampoline = s2;
                trampoline_eq = t;
                front = front;
                elf = elf;
                program_eq = n;
                load_eq = p;
                exe_path_eq = refl;
                name_eq = file_name_lem path;
              })
        ]
      ]

  -- If the call enters a program, the process has one thread at most, its areas have been unmapped and the
  -- signal trampoline mapped, and the program was loaded there with arguments that end with those of the
  -- call; the path that is stored is the one of the call, and the name is what follows its last slash,
  -- or the whole path if it has none.
  pub sys_execve_enters :
      (fuel : ℕ) (path : Text) (argv envp : LinuxResult (List (LinuxResult Text))) (threads : ℕ)
      (im im' : Image S) (entry sp : ℕ)
      → sys_execve space formats layout fuel (ok path) argv envp threads im ≡ enters entry sp im'
      → (threads ≤ 1) × IsEntered path argv envp im entry sp im'
  unfolding sys_execve
  sys_execve_enters fuel path argv envp threads im im' entry sp h =
      elim (Result-cases (argv >>= collect)) [
        | inr (e, a) ↦ ground (arith, h, a)
        | inl (args, a) ↦ elim (Result-cases (envp >>= collect)) [
          | inr (e, b) ↦ ground (arith, h, a, b)
          | inl (envs, b) ↦ elim (Bool-cases (ltb 1 threads)) [
            | inl c ↦ ground (arith, h, a, b, c)
            | inr c ↦ (
              ground (arith, c),
              replace_enters fuel path args envs im im' entry sp argv envp a b
                  (ground (arith, h, a, b, c)),
            )
          ]
        ]
      ]

  -- In a process of one thread, when the strings can be read and the areas unmapped and the trampoline mapped,
  -- and the files that the arguments lead to, in `n` steps, end at a program: fuel for more steps is enough,
  -- and the call comes to what mapping this program does, an error of which is ENOENT.
  pub sys_execve-Leads :
      (fuel : ℕ) (path : Text) (argv envp : LinuxResult (List (LinuxResult Text)))
      (args envs final : List Text) (threads n : ℕ) (im : Image S) (s1 s2 : S) (elf : ElfFile V)
      → argv >>= collect ≡ ok args
      → envp >>= collect ≡ ok envs
      → threads ≤ 1
      → space.unmap_user_areas im.aspace ≡ ok s1
      → map_trampoline space s1 ≡ ok s2
      → Leads formats args n final
      → n < fuel
      → next_args formats final ≡ program elf
      → sys_execve space formats layout fuel (ok path) argv envp threads im
        ≡ after_load path im (load_program space.user_space formats layout s2 elf final envs)
  unfolding sys_execve replace
  sys_execve-Leads fuel path argv envp args envs final threads n im s1 s2 elf a b one u t l enough
        p =
      let c : ltb 1 threads ≡ false = ground (arith, one) in
      rw (
        sys_execve,
        a,
        b,
        c,
        replace,
        u,
        t,
        load_user_app-Leads space.user_space formats layout fuel s2 envs args final n elf l enough
            p,
      )
