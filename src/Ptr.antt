-- ===== src/Ptr.antt =====
-- api/src/ptr.rs: the checks that a pointer from user space passes before the kernel uses it. The address
-- space is the crate axmm's; addresses are below its end, so that the sums here do not wrap.
pub mod Strings
pub mod Regions
mod Tests
use oscomp_test_listline.Prelude.{
  ℕ, zero, suc, ◌+◌, ◌-◌, ◌*◌, ◌/◌, ◌%◌, ◌^◌, List, [], ◌∷◌, Option, none, some, Bool, true, false,
  not, ltb, leb, ◌==◌, if◌then◌else◌,
}
use oscomp_test_listline.Errno.{LinuxError, efault, eilseq, LinuxResult, Result, ok, err, ◌>>=◌}

pub data Access : Type 0 where
  read_only read_write : Access

-- What the checks use of an address space; `load` is the value of the object at an address.
pub record UserSpace (S : Type 0) : Type 0 where
  pub check_region_access : S → ℕ → ℕ → Access → Bool
  pub populate_area : S → ℕ → ℕ → LinuxResult S
  pub load : S → ℕ → ℕ

-- `Layout` of an element type: its size, and its alignment, a power of two.
pub record Layout : Type 0 where
  pub size : ℕ
  pub align : ℕ

abbrev pub page_size : ℕ
page_size = 4096

abbrev pub align_down_4k : ℕ → ℕ
align_down_4k a = a - a % page_size

abbrev pub align_up_4k : ℕ → ℕ
align_up_4k a = align_down_4k (a + 4095)

-- `Layout::array::<T>(len)` fails for more bytes than an `isize` counts.
unfoldable pub array_layout : Layout → ℕ → Option Layout
array_layout t len =
    if ltb (t.size * len) (2 ^ 63)
    then some (record { size = t.size * len; align = t.align })
    else none

module _ {S : Type 0} (space : UserSpace S) where
  unfoldable pub check_region : S → ℕ → Layout → Access → LinuxResult S
  check_region s start layout flags =
      if not (start % layout.align == 0)
      then err efault
      else if not (space.check_region_access s start layout.size flags)
      then err efault
      else (let page_start = align_down_4k start in
          let page_end = align_up_4k (start + layout.size) in
          space.populate_area s page_start (page_end - page_start))

  -- The two nested loops of `check_null_terminated`: a step checks one more page if the pointer has
  -- reached it, and looks at one more element otherwise. `none` means that the fuel ran out.
  unfoldable pub scan : S → ℕ → Layout → Access → ℕ → ℕ → ℕ → Option (LinuxResult ℕ)
  scan s start t flags zero page len = none
  scan s start t flags (suc fuel) page len =
      let ptr = start + len * t.size in
      elim (leb page ptr) [
        | true ↦ elim (space.check_region_access s page page_size flags) [
          | true ↦ scan s start t flags fuel (page + page_size) len
          | false ↦ some (err efault)
        ]
        | false ↦ elim (space.load s ptr == 0) [
          | true ↦ some (ok len)
          | false ↦ scan s start t flags fuel page (len + 1)
        ]
      ]

  unfoldable pub check_null_terminated : ℕ → S → ℕ → Layout → Access → Option (LinuxResult ℕ)
  unfolding scan
  check_null_terminated fuel s start t flags =
      if not (start % t.align == 0)
      then some (err efault)
      else scan s start t flags fuel (align_down_4k start) 0

  -- `get_as_mut` and `get_as_ref` differ in the access that they ask for.
  unfoldable pub get_as_ref : S → ℕ → Layout → Access → LinuxResult S
  unfolding check_region
  get_as_ref s ptr t flags = check_region s ptr t flags

  -- `get_as_mut_slice` and `get_as_slice`; `none` is the panic of `unwrap`.
  unfoldable pub get_as_slice : S → ℕ → Layout → ℕ → Access → Option (LinuxResult S)
  unfolding check_region array_layout
  get_as_slice s ptr t len flags = elim (array_layout t len) [
    | none ↦ none
    | some layout ↦ some (check_region s ptr layout flags)
  ]

  -- The elements before the terminator.
  unfoldable pub elements : S → ℕ → ℕ → ℕ → List ℕ
  elements s start size zero = []
  elements s start size (suc len) = space.load s start ∷ elements s (start + size) size len

  unfoldable pub get_as_null_terminated :
      ℕ → S → ℕ → Layout → Access → Option (LinuxResult (List ℕ))
  unfolding check_null_terminated elements
  get_as_null_terminated fuel s ptr t flags = elim (check_null_terminated fuel s ptr t flags) [
    | none ↦ none
    | some r ↦ some (r >>= λ len. ok (elements s ptr t.size len))
  ]

  -- `is_utf8` is `str::from_utf8`'s test.
  unfoldable pub get_as_str : (List ℕ → Bool) → ℕ → S → ℕ → Option (LinuxResult (List ℕ))
  unfolding get_as_null_terminated
  get_as_str is_utf8 fuel s ptr =
      elim (get_as_null_terminated fuel s ptr (record { size = 1; align = 1 }) read_only) [
        | none ↦ none
        | some r ↦ some (r >>= λ bytes. if is_utf8 bytes then ok bytes else err eilseq)
      ]

-- The macro `nullable!`.
unfoldable pub nullable {ℓ} : {A : Type ℓ} → ℕ → (ℕ → LinuxResult A) → LinuxResult (Option A)
nullable ptr func = if ptr == 0 then ok none else (func ptr >>= λ a. ok (some a))
