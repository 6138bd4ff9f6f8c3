-- ===== src/Path/Hardlinks.antt =====
-- `HardlinkManager` of api/src/path.rs. Each method holds the lock of the inner state, so that it is one
-- step on that state and the file system.
pub mod Counting
pub mod Invariant
pub mod Linking
mod Tests
use oscomp_test_listline.Prelude.{
  ℕ, ◌+◌, ◌-◌, ◌^◌, List, [], ◌∷◌, Option, none, some, Bool, true, false, not, ◌==◌, if◌then◌else◌,
  Text, codes, text_eq, ends_with, get, insert, remove,
}
use oscomp_test_listline.Errno.{Result, ok, err}

-- What the manager uses of axfs::api: whether an absolute path exists, and the file system after a file
-- is removed (`none` if that fails, and leaves it as it was).
pub record Axfs (F : Type 0) : Type 0 where
  pub exists : F → Text → Bool
  pub remove_file : F → Text → Option F

pub data LinkError : Type 0 where
  link_exists invalid_path not_found not_file : LinkError

pub record LinkManagerInner : Type 0 where
  pub links : List (Text × Text)
  pub ref_counts : List (Text × ℕ)

unfoldable pub new_manager : LinkManagerInner
new_manager = record { links = []; ref_counts = [] }

-- `FilePath::is_dir`
unfoldable pub is_dir : Text → Bool
unfolding ends_with
is_dir path = ends_with path (codes "/")

unfoldable pub real_path : LinkManagerInner → Text → Text
unfolding get
real_path inner path = elim (get path inner.links) [ some dst ↦ dst | none ↦ path ]

abbrev pub or_zero : Option ℕ → ℕ
or_zero none = 0
or_zero (some n) = n

module _ {F : Type 0} (fs : Axfs F) where
  -- `*count -= 1` is one of `usize`.
  unfoldable pub decrease_ref_count :
      LinkManagerInner → F → Text → Option (Unit {0}) × LinkManagerInner × F
  decrease_ref_count inner f path = elim (get path inner.ref_counts) [
    | none ↦ (none, inner, f)
    | some count ↦
        let count' : ℕ = if count == 0 then 2 ^ 64 - 1 else count - 1 in
        let rest = record inner { ref_counts = remove path inner.ref_counts } in
        if count' == 0
        then elim (fs.remove_file f path) [ some f' ↦ (some tt, rest, f') | none ↦ (none, rest, f) ]
        else (some tt, record inner { ref_counts = insert path count' inner.ref_counts }, f)
  ]

  -- The last two lines of `atomic_link_update`.
  unfoldable pub add_link : LinkManagerInner → Text → Text → LinkManagerInner
  add_link inner src dst = record {
    links = insert src dst inner.links;
    ref_counts = insert dst (or_zero (get dst inner.ref_counts) + 1) inner.ref_counts;
  }

  unfoldable pub atomic_link_update : LinkManagerInner → F → Text → Text → LinkManagerInner × F
  unfolding decrease_ref_count add_link
  atomic_link_update inner f src dst = elim (get src inner.links) [
    | none ↦ (add_link inner src dst, f)
    | some old_dst ↦
        if text_eq old_dst dst
        then (inner, f)
        else (let (r, inner', f') = decrease_ref_count inner f old_dst in
            (add_link inner' src dst, f'))
  ]

  unfoldable pub atomic_link_remove :
      LinkManagerInner → F → Text → Option Text × LinkManagerInner × F
  unfolding decrease_ref_count
  atomic_link_remove inner f src = elim (get src inner.links) [
    | none ↦ (none, inner, f)
    | some dst ↦
        (let (r, inner', f') =
            decrease_ref_count (record inner { links = remove src inner.links }) f dst in
          (some dst, inner', f'))
  ]

  unfoldable pub create_link :
      LinkManagerInner → F → Text → Text → Result LinkError (Unit {0}) × LinkManagerInner × F
  unfolding atomic_link_update is_dir
  create_link inner f src dst =
      if not (fs.exists f dst)
      then (err not_found, inner, f)
      else if not (is_dir dst)
      then (err not_file, inner, f)
      else (let (inner', f') = atomic_link_update inner f src dst in (ok tt, inner', f'))

  unfoldable pub remove_link : LinkManagerInner → F → Text → Option Text × LinkManagerInner × F
  unfolding atomic_link_remove
  remove_link inner f src =
      let (r, inner', f') = atomic_link_remove inner f src in
      elim r [
        | some dst ↦ (some dst, inner', f')
        | none ↦ elim (fs.remove_file f' src) [
          | some f'' ↦ (some src, inner', f'')
          | none ↦ (none, inner', f')
        ]
      ]

  unfoldable pub link_count : LinkManagerInner → F → Text → ℕ
  link_count inner f path = elim (get path inner.ref_counts) [
    | some n ↦ n
    | none ↦ if fs.exists f path then 1 else 0
  ]
