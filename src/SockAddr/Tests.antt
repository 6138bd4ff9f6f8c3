-- ===== src/SockAddr/Tests.antt =====
-- Conversions at concrete addresses.
use oscomp_test_listline.Prelude.{◌≡◌, ◌≤◌, ◌↔◌, refl, [], ◌∷◌, none, replicate}
use oscomp_test_listline.Errno.{ok}
use oscomp_test_listline.SockAddr.{
  SockAddr, SocketAddrV4, SocketAddrV6, v4, read_sockaddr, sockaddr_in, from_socket_addr,
}
use oscomp_test_listline.SockAddr.Decode.{read_accepts, from_socket_addr_panics}

abbrev localhost : SocketAddrV4
localhost = record { ip = (127, 0, 0, 1); port = 5555 }

abbrev localhost6 : SocketAddrV6
localhost6 = record { ip = replicate 16 1; port = 5555; flowinfo = 70000; scope_id = 3 }

sockaddr_in_bytes : sockaddr_in localhost ≡ 2 ∷ 0 ∷ 21 ∷ 179 ∷ 127 ∷ 0 ∷ 0 ∷ 1 ∷ replicate 8 0
unfolding sockaddr_in
sockaddr_in_bytes = refl

read_accepts_concrete : ((a : SockAddr) × (read_sockaddr (1 ∷ 2 ∷ 3 ∷ []) 2 ≡ ok a)) ↔ (◌≤◌ 2 2)
read_accepts_concrete = read_accepts (1 ∷ 2 ∷ 3 ∷ []) 2

from_socket_addr_panics_concrete : from_socket_addr (v4 localhost) ≡ none
from_socket_addr_panics_concrete = from_socket_addr_panics (v4 localhost)
