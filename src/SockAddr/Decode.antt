-- ===== src/SockAddr/Decode.antt =====
-- Which socket addresses can be read or made at all.
use oscomp_test_listline.Prelude.{ℕ, ◌≤◌, ◌≡◌, ◌↔◌, refl, List, none, arith, take}
use oscomp_test_listline.Errno.{ok}
use oscomp_test_listline.SockAddr.{SockAddr, SocketAddr, v4, v6, read_sockaddr, from_socket_addr}

-- `read` accepts a length exactly when it is at most that of the family field: every length that could
-- hold an address is EINVAL.
pub read_accepts :
    (bytes : List ℕ) (len : ℕ) → ((a : SockAddr) × (read_sockaddr bytes len ≡ ok a)) ↔ (len ≤ 2)
unfolding read_sockaddr
read_accepts bytes len =
    (λ h. ground (arith, h.1), λ h. (record { len = len; storage = take len bytes }, ground arith))

-- The conversion of any socket address, IPv4 or IPv6, panics.
pub from_socket_addr_panics : (a : SocketAddr) → from_socket_addr a ≡ none
unfolding from_socket_addr
from_socket_addr_panics (v4 a) = refl
from_socket_addr_panics (v6 a) = refl
