-- ===== src/SockAddr.antt =====
-- api/src/sockaddr.rs: socket addresses as the bytes of the C structures. The targets are little
-- endian; the sizes and family numbers are those of the Linux headers (crate linux_raw_sys).
pub mod Decode
mod Tests
use oscomp_test_listline.Prelude.{
  ℕ, zero, suc, ◌+◌, ◌*◌, ◌/◌, ◌%◌, ◌^◌, List, [], ◌∷◌, ◌++◌, Option, none, some, ltb, ◌==◌, ◌||◌,
  if◌then◌else◌, get_or, take, drop, replicate,
}
use oscomp_test_listline.Errno.{LinuxError, einval, eafnosupport, LinuxResult, ok, err, ◌>>=◌}

abbrev pub family_size : ℕ
family_size = 2

-- `size_of::<sockaddr>()`: the kernel's `__kernel_sockaddr_storage`.
abbrev pub sockaddr_size : ℕ
sockaddr_size = 128

abbrev pub sockaddr_in_size : ℕ
sockaddr_in_size = 16

abbrev pub sockaddr_in6_size : ℕ
sockaddr_in6_size = 28

abbrev pub af_inet : ℕ
af_inet = 2

abbrev pub af_inet6 : ℕ
af_inet6 = 10

-- The first `len` bytes of the storage are initialised; the list holds those.
pub record SockAddr : Type 0 where
  pub len : ℕ
  pub storage : List ℕ

-- `SockAddr::read` from memory that begins with `bytes`.
unfoldable pub read_sockaddr : List ℕ → ℕ → LinuxResult SockAddr
read_sockaddr bytes len =
    if ltb family_size len || ltb sockaddr_size len
    then err einval
    else ok (record { len = len; storage = take len bytes })

-- A field of `n` bytes at an offset, as numbers; the first byte is the least (native) or the most
-- significant one (network order).
abbrev pub bytes_at : List ℕ → ℕ → ℕ → List ℕ
bytes_at storage offset n = take n (drop offset storage)

abbrev pub from_le : List ℕ → ℕ
from_le [] = 0
from_le (b ∷ bs) = b + 256 * from_le bs

abbrev pub from_be_acc : ℕ → List ℕ → ℕ
from_be_acc acc [] = acc
from_be_acc acc (b ∷ bs) = from_be_acc (acc * 256 + b) bs

abbrev pub from_be : List ℕ → ℕ
from_be bs = from_be_acc 0 bs

unfoldable pub family : SockAddr → ℕ
family a = from_le (bytes_at a.storage 0 2)

unfoldable pub addr_len : SockAddr → ℕ
addr_len a = a.len

unfoldable pub bytes : SockAddr → List ℕ
bytes a = take a.len a.storage

-- The addresses of `core::net`: octets, numbers in native form.
pub record SocketAddrV4 : Type 0 where
  pub ip : ℕ × ℕ × ℕ × ℕ
  pub port : ℕ

pub record SocketAddrV6 : Type 0 where
  pub ip : List ℕ
  pub port : ℕ
  pub flowinfo : ℕ
  pub scope_id : ℕ

pub data SocketAddr : Type 0 where
  v4 : SocketAddrV4 → SocketAddr
  v6 : SocketAddrV6 → SocketAddr

abbrev pub to_be16 : ℕ → List ℕ
to_be16 n = n / 256 ∷ n % 256 ∷ []

abbrev pub to_be32 : ℕ → List ℕ
to_be32 n = n / 16777216 ∷ n / 65536 % 256 ∷ n / 256 % 256 ∷ n % 256 ∷ []

abbrev pub to_le32 : ℕ → List ℕ
to_le32 n = n % 256 ∷ n / 256 % 256 ∷ n / 65536 % 256 ∷ n / 16777216 ∷ []

-- The bytes of the `sockaddr_in` that `From<SocketAddrV4>` builds.
unfoldable pub sockaddr_in : SocketAddrV4 → List ℕ
sockaddr_in a =
    let (a0, a1, a2, a3) = a.ip in
    (2 ∷ 0 ∷ []) ++ (to_be16 a.port ++ ((a0 ∷ a1 ∷ a2 ∷ a3 ∷ []) ++ replicate 8 0))

-- The bytes of the `sockaddr_in6` that `From<SocketAddrV6>` builds.
unfoldable pub sockaddr_in6 : SocketAddrV6 → List ℕ
sockaddr_in6 a =
    (10 ∷ 0 ∷ []) ++ (to_be16 a.port ++ (to_be32 a.flowinfo ++ (a.ip ++ to_le32 a.scope_id)))

-- `unwrap`: `none` is a panic.
abbrev pub unwrap {ℓ} : {A : Type ℓ} → LinuxResult A → Option A
unwrap (ok a) = some a
unwrap (err e) = none

unfoldable pub from_v4 : SocketAddrV4 → Option SockAddr
unfolding read_sockaddr
from_v4 a = unwrap (read_sockaddr (sockaddr_in a) sockaddr_in_size)

unfoldable pub from_v6 : SocketAddrV6 → Option SockAddr
unfolding read_sockaddr
from_v6 a = unwrap (read_sockaddr (sockaddr_in6 a) sockaddr_in6_size)

unfoldable pub from_socket_addr : SocketAddr → Option SockAddr
unfolding from_v4 from_v6
from_socket_addr (v4 a) = from_v4 a
from_socket_addr (v6 a) = from_v6 a

-- Bytes past the initialised ones are read as whatever the memory holds, here 0.
unfoldable pub try_into_v4 : SockAddr → LinuxResult SocketAddrV4
unfolding family addr_len
try_into_v4 a =
    if family a == af_inet
    then (if ltb sockaddr_in_size (addr_len a)
        then err einval
        else ok (record {
          ip = (
            get_or a.storage 4 0,
            get_or a.storage 5 0,
            get_or a.storage 6 0,
            get_or a.storage 7 0,
          );
          port = from_be (bytes_at a.storage 2 2);
        }))
    else err eafnosupport

unfoldable pub try_into_v6 : SockAddr → LinuxResult SocketAddrV6
unfolding family addr_len
try_into_v6 a =
    if family a == af_inet6
    then (if ltb sockaddr_in6_size (addr_len a)
        then err einval
        else ok (record {
          ip = bytes_at a.storage 8 16;
          port = from_be (bytes_at a.storage 2 2);
          flowinfo = from_be (bytes_at a.storage 4 4);
          scope_id = from_le (bytes_at a.storage 24 4);
        }))
    else err eafnosupport

unfoldable pub try_into_socket_addr : SockAddr → LinuxResult SocketAddr
unfolding family try_into_v4 try_into_v6
try_into_socket_addr a =
    if family a == af_inet
    then try_into_v4 a >>= (λ x. ok (v4 x))
    else if family a == af_inet6
    then try_into_v6 a >>= (λ x. ok (v6 x))
    else err eafnosupport
