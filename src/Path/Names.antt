-- ===== src/Path/Names.antt =====
-- `FilePath` and `handle_file_path` of api/src/path.rs. A panic is the result `none`.
pub mod Parts
pub mod Relative
mod Tests
use oscomp_test_listline.Prelude.{
  ℕ, zero, suc, ◌+◌, ◌-◌, List, [], ◌∷◌, ◌++◌, Option, none, some, Bool, true, false, not, ◌&&◌,
  ltb, ◌==◌, if◌then◌else◌, Text, codes, text_eq, starts_with, length, take, drop,
}
use oscomp_test_listline.Prelude.Int.{ℤ, pos, negsuc}
use oscomp_test_listline.Errno.{
  LinuxError, AxError, not_found, Result, LinuxResult, AxResult, ok, err, map_err,
}
use oscomp_test_listline.Path.Hardlinks.{LinkManagerInner, real_path, is_dir}

-- What the paths are made from: `canonicalize` of axfs, with the current directory, `trim` of `str`, the
-- path of an open file or directory, and the conversion of the errors (crate axerrno).
pub record Names : Type 0 where
  pub canonicalize : Text → Option Text
  pub trim : Text → Text
  pub file_path : ℤ → LinuxResult Text
  pub directory_path : ℤ → LinuxResult Text
  pub to_linux : AxError → LinuxError

unfoldable pub is_root : Text → Bool
unfolding text_eq
is_root path = text_eq path (codes "/")

unfoldable pub is_file : Text → Bool
unfolding is_dir
is_file path = not (is_dir path)

-- `rfind('/')`
unfoldable pub rfind_slash : Text → Option ℕ
rfind_slash [] = none
rfind_slash (x ∷ xs) = elim (rfind_slash xs) [
  | some i ↦ some (i + 1)
  | none ↦ if x == 47 then some 0 else none
]

unfoldable pub strip_slash : Text → Text
unfolding is_dir
strip_slash path = if is_dir path then take (length path - 1) path else path

unfoldable pub parent : Text → AxResult Text
unfolding is_root strip_slash rfind_slash
parent path =
    if is_root path
    then ok (codes "/")
    else (let p = strip_slash path in
        elim (rfind_slash p) [ none ↦ err not_found | some i ↦ ok (take (i + 1) p) ])

unfoldable pub name : Text → Option (AxResult Text)
unfolding is_root strip_slash rfind_slash is_dir
name path =
    if is_root path
    then some (ok (codes "/"))
    else (let p = strip_slash path in
        elim (rfind_slash p) [
          | none ↦ some (err not_found)
          | some i ↦
              let end_pos = if is_dir p then length p - 1 else length p in
              if ltb end_pos (i + 1)
              then none
              else some (ok (take (end_pos - (i + 1)) (drop (i + 1) p)))
        ])

-- The operator `?` in code that can panic.
abbrev pub and_then {ℓ κ} :
    {A : Type ℓ} {B : Type κ}
    → Option (LinuxResult A)
    → (A → Option (LinuxResult B))
    → Option (LinuxResult B)
and_then none f = none
and_then (some (err e)) f = some (err e)
and_then (some (ok a)) f = f a

module _ (names : Names) (inner : LinkManagerInner) where
  unfoldable pub new_path : Text → Option (AxResult Text)
  unfolding is_dir starts_with real_path
  new_path path = elim (names.canonicalize path) [
    | none ↦ some (err not_found)
    | some canonical ↦
        let trimmed = names.trim canonical in
        let slashed =
          if is_dir path && not (is_dir trimmed) then trimmed ++ codes "/" else trimmed in
        if starts_with slashed (codes "/") then some (ok (real_path inner slashed)) else none
  ]

  unfoldable pub join : Text → Text → Option (AxResult Text)
  unfolding new_path is_dir
  join path component = new_path ((if is_dir path then path else path ++ codes "/") ++ component)

  abbrev pub linux : Option (AxResult Text) → Option (LinuxResult Text)
  linux none = none
  linux (some r) = some (map_err names.to_linux r)

  -- `AT_FDCWD` is -100.
  abbrev pub is_at_fdcwd : ℤ → Bool
  is_at_fdcwd (pos n) = false
  is_at_fdcwd (negsuc n) = n == 99

  unfoldable pub handle_file_path : ℤ → Text → Option (LinuxResult Text)
  unfolding starts_with new_path join text_eq
  handle_file_path dirfd path =
      if starts_with path (codes "/")
      then linux (new_path path)
      else if text_eq path []
      then and_then (some (names.file_path dirfd)) (λ p. linux (new_path p))
      else and_then
          (if is_at_fdcwd dirfd
            then linux (new_path [])
            else and_then (some (names.directory_path dirfd)) (λ p. linux (new_path p)))
          (λ base. linux (join base path))
