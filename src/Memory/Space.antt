-- ===== src/Memory/Space.antt =====
-- What the calls use of the address space (crate axmm) and of an open file (axfs), with their errors as
-- the calls see them after conversion.
use oscomp_test_listline.Prelude.{ℕ, List, Option, Bool}
use oscomp_test_listline.Errno.{LinuxResult}

pub record MappingFlags : Type 0 where
  pub read : Bool
  pub write : Bool
  pub execute : Bool
  pub user : Bool

pub record AddrSpace (S : Type 0) : Type 0 where
  pub base : S → ℕ
  pub unmap : S → ℕ → ℕ → LinuxResult S
  -- A free area of a length within the whole space, searched from a hint on.
  pub find_free_area : S → ℕ → ℕ → Option ℕ
  pub map_alloc : S → ℕ → ℕ → MappingFlags → Bool → LinuxResult S
  pub protect : S → ℕ → ℕ → MappingFlags → LinuxResult S
  pub write : S → ℕ → List ℕ → LinuxResult S

-- `get_attr()?.size()` and `read_at`, which gives the buffer after the read.
pub record File : Type 0 where
  pub size : LinuxResult ℕ
  pub read_at : ℕ → ℕ → LinuxResult (List ℕ)
