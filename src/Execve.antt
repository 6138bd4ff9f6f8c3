-- ===== src/Execve.antt =====
-- api/src/imp/task/execve.rs, with `map_trampoline` of core/src/mm.rs: another program in the caller's
-- address space.
pub mod Naming
pub mod Effects
pub mod Refusing
mod Tests
use oscomp_test_listline.Prelude.{
  ℕ, ◌<◌, List, [], ◌∷◌, Option, none, some, Bool, true, false, ltb, ◌==◌, if◌then◌else◌, Text,
}
use oscomp_test_listline.Errno.{
  AxError, LinuxError, eagain, enoent, AxResult, LinuxResult, ok, err, ◌>>=◌,
}
use oscomp_test_listline.Memory.{page_size}
use oscomp_test_listline.Memory.Space.{MappingFlags}
use oscomp_test_listline.Loader.{
  UserSpace, Formats, Layout, Loading, panics, loops, returns, load_user_app,
}

-- `rsplit_once('/')`: what stands before the last slash, and after it.
unfoldable pub rsplit_once : Text → Option (Text × Text)
rsplit_once [] = none
rsplit_once (c ∷ cs) = elim (rsplit_once cs) [
  | some (a, b) ↦ some (c ∷ a, b)
  | none ↦ if c == 47 then some ([], cs) else none
]

-- The last part of a path.
unfoldable pub file_name : Text → Text
unfolding rsplit_once
file_name path = elim (rsplit_once path) [ none ↦ path | some (dir, name) ↦ name ]

-- `collect` of results: the first error ends it.
unfoldable pub collect : List (LinuxResult Text) → LinuxResult (List Text)
collect [] = ok []
collect (r ∷ rs) = r >>= (λ s. collect rs >>= (λ ss. ok (s ∷ ss)))

-- axmm's address space with the two operations that only this part uses, the place and the frame of the
-- signal trampoline, and the conversion of an `AxError` that `?` makes.
pub record ExecSpace (S : Type 0) : Type 0 where
  pub user_space : UserSpace S
  pub unmap_user_areas : S → AxResult S
  pub map_linear : S → ℕ → ℕ → ℕ → MappingFlags → AxResult S
  pub signal_trampoline : ℕ
  pub trampoline_paddr : ℕ
  pub to_linux : AxError → LinuxError

-- What the call changes of its task and of its process.
pub record Image (S : Type 0) : Type 0 where
  pub aspace : S
  pub name : Text
  pub exe_path : Text

-- What a call comes to: an error, the entry of the new program with its stack pointer, a panic of the
-- loader, or a loader that its fuel does not bring to its end.
pub data Exec (S : Type 0) : Type 0 where
  refuses : LinuxError → Image S → Exec S
  enters : ℕ → ℕ → Image S → Exec S
  loader_panics loader_loops : Exec S

-- Readable and executable by the user.
abbrev pub user_code : MappingFlags
user_code = record { read = true; write = false; execute = true; user = true }

module _ {S : Type 0} (space : ExecSpace S) where
  unfoldable pub map_trampoline : S → AxResult S
  map_trampoline s =
      space.map_linear s space.signal_trampoline space.trampoline_paddr page_size user_code

-- The part of the call after the loader: every error of the loader is ENOENT.
unfoldable pub after_load : {S : Type 0} → Text → Image S → Loading S → Exec S
unfolding file_name
after_load path im panics = loader_panics
after_load path im loops = loader_loops
after_load path im (returns (err e) s) = refuses enoent (record im { aspace = s })
after_load path im (returns (ok (entry_point, user_stack_base)) s) =
    enters entry_point user_stack_base
      (record { aspace = s; name = file_name path; exe_path = path })

module _ {S V : Type 0} (space : ExecSpace S) (formats : Formats V) (layout : Layout) where
  -- The part of the call that changes the address space.
  unfoldable pub replace : ℕ → Text → List Text → List Text → Image S → Exec S
  unfolding map_trampoline after_load
  replace fuel path args envs im = elim (space.unmap_user_areas im.aspace) [
    | err e ↦ refuses (space.to_linux e) im
    | ok s1 ↦ elim (map_trampoline space s1) [
      | err e ↦ refuses (space.to_linux e) (record im { aspace = s1 })
      | ok s2 ↦ after_load path im (load_user_app space.user_space formats layout fuel s2 args envs)
    ]
  ]

  -- `path` is what `get_as_str` gives; `argv` and `envp` what `get_as_null_terminated` does, with what
  -- `get_as_str` gives for each; `threads` is how many threads the process has.
  unfoldable pub sys_execve :
      ℕ
      → LinuxResult Text
      → LinuxResult (List (LinuxResult Text))
      → LinuxResult (List (LinuxResult Text))
      → ℕ
      → Image S
      → Exec S
  unfolding collect replace
  sys_execve fuel path argv envp threads im = elim path [
    | err e ↦ refuses e im
    | ok p ↦ elim (argv >>= collect) [
      | err e ↦ refuses e im
      | ok args ↦ elim (envp >>= collect) [
        | err e ↦ refuses e im
        | ok envs ↦ if ltb 1 threads then refuses eagain im else replace fuel p args envs im
      ]
    ]
  ]
