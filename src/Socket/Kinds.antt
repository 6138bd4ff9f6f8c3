-- ===== src/Socket/Kinds.antt =====
-- What the two kinds of sockets have in common.
use oscomp_test_listline.Prelude.{ℕ, ◌≡◌, inl, inr}
use oscomp_test_listline.Errno.{LinuxError, AxError, ok, ◌>>=◌, Result-cases}
use oscomp_test_listline.Socket.{UdpSocket, TcpSocket, Socket, udp, tcp, recvfrom, recv, read}

module _ {U T A : Type 0} (us : UdpSocket U A) (ts : TcpSocket T A)
    (to_linux : AxError → LinuxError) where
  -- A read of a socket gives the bytes that `recvfrom` gives, without the address, or its error, and leaves the
  -- same socket, for both kinds.
  pub read-recvfrom :
      (n : ℕ) (s : Socket U T)
      → read us ts to_linux n s
        ≡ ((recvfrom us ts to_linux n s).0 >>= (λ res. ok res.0), (recvfrom us ts to_linux n s).1)
  unfolding read recvfrom recv
  read-recvfrom n (udp u) = elim (Result-cases (us.recv_from n u).0) [
    | inl (a, r) ↦ rw (r)
    | inr (e, r) ↦ rw (r)
  ]
  read-recvfrom n (tcp t) = elim (Result-cases (ts.recv n t).0) [
    | inl (a, r) ↦ rw (r)
    | inr (e, r) ↦ rw (r)
  ]
