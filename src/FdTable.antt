-- ===== src/FdTable.antt =====
-- The file descriptor table: api/src/file/mod.rs, the calls on descriptors of
-- api/src/imp/fs/fd_ops.rs, and `sys_pipe2` of api/src/imp/fs/pipe.rs.
pub mod Objects
pub mod Dup
pub mod Copying
pub mod Example
mod Tests
use oscomp_test_listline.Prelude.{
  ℕ, ◌+◌, ◌-◌, ◌/◌, ◌%◌, ◌^◌, List, [], ◌∷◌, Option, none, some, Bool, true, false, not, ◌||◌, ◌==◌,
  if◌then◌else◌,
}
use oscomp_test_listline.Prelude.Int.{ℤ, pos, negsuc, as_usize}
use oscomp_test_listline.Errno.{LinuxError, ebadf, emfile, LinuxResult, ok, err, ok_or, ◌>>=◌}
use Objects.{FlattenObjects}

-- Equality of two `c_int`s.
abbrev pub same_int : ℤ → ℤ → Bool
same_int (pos a) (pos b) = a == b
same_int (pos a) (negsuc b) = false
same_int (negsuc a) (pos b) = false
same_int (negsuc a) (negsuc b) = a == b

module _ {T A : Type 0} (fo : FlattenObjects T A) where
  unfoldable pub get_file_like : T → ℤ → LinuxResult A
  get_file_like t fd = ok_or (fo.get t (as_usize fd)) ebadf

  -- The table afterwards stands beside the result.
  unfoldable pub add_file_like : T → A → LinuxResult ℤ × T
  add_file_like t f = elim (fo.add t f) [
    | some (id, t') ↦ (ok (pos id), t')
    | none ↦ (err emfile, t)
  ]

  unfoldable pub close_file_like : T → ℤ → LinuxResult (Unit {0}) × T
  close_file_like t fd = elim (fo.remove t (as_usize fd)) [
    | some (f, t') ↦ (ok tt, t')
    | none ↦ (err ebadf, t)
  ]

  abbrev pub or_table : T → Option T → T
  or_table t none = t
  or_table t (some t') = t'

  -- The loop of `copy_inner`; `none` is the panic of `unwrap`.
  unfoldable pub copy_ids : T → List ℕ → T → Option T
  copy_ids t [] new_table = some new_table
  copy_ids t (id ∷ ids) new_table = elim (fo.get t id) [
    | none ↦ none
    | some f ↦ copy_ids t ids (or_table new_table (fo.add_at new_table id f))
  ]

  unfoldable pub copy_inner : T → Option T
  unfolding copy_ids
  copy_inner t = copy_ids t (fo.ids t) fo.new

  unfoldable pub remove_ids : List ℕ → T → T
  remove_ids [] t = t
  remove_ids (id ∷ ids) t = elim (fo.remove t id) [
    | none ↦ remove_ids ids t
    | some (f, t') ↦ remove_ids ids t'
  ]

  unfoldable pub clear : T → T
  unfolding remove_ids
  clear t = remove_ids (fo.ids t) t

  unfoldable pub sys_close : T → ℤ → LinuxResult ℤ × T
  unfolding close_file_like
  sys_close t fd = let (r, t') = close_file_like t fd in (r >>= (λ _. ok (pos 0)), t')

  unfoldable pub dup_fd : T → ℤ → LinuxResult ℤ × T
  unfolding get_file_like add_file_like
  dup_fd t old_fd = elim (get_file_like t old_fd) [ err e ↦ (err e, t) | ok f ↦ add_file_like t f ]

  unfoldable pub sys_dup : T → ℤ → LinuxResult ℤ × T
  unfolding dup_fd
  sys_dup t old_fd = dup_fd t old_fd

  abbrev pub after_remove : T → Option (A × T) → T
  after_remove t none = t
  after_remove t (some (f, t')) = t'

  -- `none` is the panic "new_fd should be valid".
  unfoldable pub sys_dup2 : T → ℤ → ℤ → Option (LinuxResult ℤ × T)
  sys_dup2 t old_fd new_fd = elim (fo.get t (as_usize old_fd)) [
    | none ↦ some (err ebadf, t)
    | some f ↦
        if same_int old_fd new_fd
        then some (ok new_fd, t)
        else (let t' = after_remove t (fo.remove t (as_usize new_fd)) in
            elim (fo.add_at t' (as_usize new_fd) f) [
              | none ↦ none
              | some t'' ↦ some (ok new_fd, t'')
            ])
  ]

  -- `set_nonblocking` is the file's method; its result is what it answers.
  unfoldable pub sys_fcntl : (A → Bool → LinuxResult (Unit {0})) → T → ℤ → ℕ → ℕ → LinuxResult ℤ × T
  unfolding dup_fd get_file_like
  sys_fcntl set_nonblocking t fd cmd arg =
      if cmd == 0
      then dup_fd t fd
      else if cmd == 1030
      then dup_fd t fd
      else if cmd == 4
      then (if same_int fd (pos 0) || same_int fd (pos 1) || same_int fd (pos 2)
          then (ok (pos 0), t)
          else (
            get_file_like t fd
                >>= (λ f. set_nonblocking f (arg / 2 ^ 11 % 2 == 1))
                >>= (λ _. ok (pos 0)),
            t,
          ))
      else (ok (pos 0), t)

  -- `fds` is the result of `fds.get_as_mut()`; the two descriptors are what is stored there. `none` is the
  -- panic of `close_file_like(read_fd).unwrap()`.
  unfoldable pub sys_pipe2 : A → A → LinuxResult (Unit {0}) → T → Option (LinuxResult (ℤ × ℤ) × T)
  unfolding add_file_like close_file_like
  sys_pipe2 read_end write_end (err e) t = some (err e, t)
  sys_pipe2 read_end write_end (ok _) t =
      let (r, t') = add_file_like t read_end in
      elim r [
        | err e ↦ some (err e, t')
        | ok read_fd ↦
            let (w, t'') = add_file_like t' write_end in
            elim w [
              | ok write_fd ↦ some (ok (read_fd, write_fd), t'')
              | err e ↦
                  let (c, t₃) = close_file_like t'' read_fd in
                  elim c [ ok _ ↦ some (err e, t₃) | err _ ↦ none ]
            ]
      ]
