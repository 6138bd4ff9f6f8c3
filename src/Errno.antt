-- ===== src/Errno.antt =====
-- The results of the kernel's functions: `LinuxResult<T>` and `AxResult<T>` (crate axerrno), with
-- the error codes that the source names.
use Prim.Native.Nat.{ℕ}
use oscomp_test_listline.Prelude.{◌≡◌, refl, ◌⊎◌, inl, inr, Bool, true, false, Option, none, some}

pub data LinuxError : Type 0 where
  eperm enoent esrch eintr enxio ebadf echild eagain enomem efault enodev enotdir eisdir einval :
      LinuxError
  emfile espipe epipe erange enosys eilseq eexist eisconn eopnotsupp eafnosupport : LinuxError
  -- what the conversion from an `AxError` gives for the others
  other_errno : ℕ → LinuxError

pub data AxError : Type 0 where
  already_exists invalid_input invalid_data not_found is_a_directory : AxError
  other_ax : ℕ → AxError

pub data Result {ℓ κ} (E : Type ℓ) (A : Type κ) : Type (ℓ ⊔ κ) where
  ok : A → Result E A
  err : E → Result E A

abbrev pub LinuxResult {ℓ} : Type ℓ → Type ℓ
LinuxResult A = Result LinuxError A

abbrev pub AxResult {ℓ} : Type ℓ → Type ℓ
AxResult A = Result AxError A

-- The operator `?`.
infixl 5 ◌>>=◌
abbrev pub ◌>>=◌ {ℓ κ μ} :
    {E : Type ℓ} {A : Type κ} {B : Type μ} → Result E A → (A → Result E B) → Result E B
ok a >>= f = f a
err e >>= f = err e

-- `map_err`, which is also what `?` does when the error types differ.
abbrev pub map_err {ℓ κ μ} :
    {E : Type ℓ} {F : Type κ} {A : Type μ} → (E → F) → Result E A → Result F A
map_err f (ok a) = ok a
map_err f (err e) = err (f e)

-- `ok_or`.
abbrev pub ok_or {ℓ κ} : {E : Type ℓ} {A : Type κ} → Option A → E → Result E A
ok_or none e = err e
ok_or (some a) e = ok a

abbrev pub is_ok {ℓ κ} : {E : Type ℓ} {A : Type κ} → Result E A → Bool
is_ok (ok a) = true
is_ok (err e) = false

pub Result-cases {ℓ κ} :
    {E : Type ℓ} {A : Type κ} (r : Result E A) → ((a : A) × (r ≡ ok a)) ⊎ ((e : E) × (r ≡ err e))
Result-cases (ok a) = inl (a, refl)
Result-cases (err e) = inr (e, refl)
