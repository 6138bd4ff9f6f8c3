-- ===== src/Socket.antt =====
-- api/src/file/net.rs: a socket as a file, of one of two kinds. The sockets themselves are axnet's.
pub mod Kinds
use oscomp_test_listline.Prelude.{ℕ, ◌+◌, List, Option, none, some, Bool, true, false}
use oscomp_test_listline.Errno.{
  LinuxError, eisconn, eopnotsupp, AxError, AxResult, LinuxResult, ok, err, ◌>>=◌, map_err,
}
use oscomp_test_listline.Stat.{Kstat, default_kstat}
use oscomp_test_listline.Poll.{PollState}

-- `UdpSocket`, a state `U`, with addresses `A`.
pub record UdpSocket (U A : Type 0) : Type 0 where
  pub recv_from : ℕ → U → AxResult (List ℕ × A) × U
  pub send_to : List ℕ → A → U → AxResult ℕ × U
  pub send : List ℕ → U → AxResult ℕ × U
  pub poll : U → AxResult PollState × U
  pub local_addr : U → AxResult A × U
  pub peer_addr : U → AxResult A × U
  pub bind : A → U → AxResult (Unit {0}) × U
  pub connect : A → U → AxResult (Unit {0}) × U
  pub shutdown : U → AxResult (Unit {0}) × U
  pub set_nonblocking : Bool → U → U

-- `TcpSocket`, a state `T`.
pub record TcpSocket (T A : Type 0) : Type 0 where
  pub recv : ℕ → T → AxResult (List ℕ) × T
  pub listen : T → AxResult (Unit {0}) × T
  pub accept : T → AxResult T × T
  pub send : List ℕ → T → AxResult ℕ × T
  pub poll : T → AxResult PollState × T
  pub local_addr : T → AxResult A × T
  pub peer_addr : T → AxResult A × T
  pub bind : A → T → AxResult (Unit {0}) × T
  pub connect : A → T → AxResult (Unit {0}) × T
  pub shutdown : T → AxResult (Unit {0}) × T
  pub set_nonblocking : Bool → T → T

pub data Socket (U T : Type 0) : Type 0 where
  udp : U → Socket U T
  tcp : T → Socket U T

-- The conversion of an `AxError` that `?` makes is axerrno's.
module _ {U T A : Type 0} (us : UdpSocket U A) (ts : TcpSocket T A)
    (to_linux : AxError → LinuxError) where
  -- The result of a method, with the socket that is left.
  unfoldable pub as_udp : {R : Type 0} → AxResult R × U → LinuxResult R × Socket U T
  as_udp (r, u) = (map_err to_linux r, udp u)

  unfoldable pub as_tcp : {R : Type 0} → AxResult R × T → LinuxResult R × Socket U T
  as_tcp (r, t) = (map_err to_linux r, tcp t)

  unfoldable pub recvfrom : ℕ → Socket U T → LinuxResult (List ℕ × Option A) × Socket U T
  recvfrom n (udp u) =
      let (r, u') = us.recv_from n u in
      (map_err to_linux r >>= (λ res. ok (res.0, some res.1)), udp u')
  recvfrom n (tcp t) =
      let (r, t') = ts.recv n t in (map_err to_linux r >>= (λ res. ok (res, none)), tcp t')

  unfoldable pub recv : ℕ → Socket U T → LinuxResult (List ℕ) × Socket U T
  unfolding as_tcp
  recv n (udp u) = let (r, u') = us.recv_from n u in (map_err to_linux r >>= (λ e. ok e.0), udp u')
  recv n (tcp t) = as_tcp (ts.recv n t)

  unfoldable pub sendto : List ℕ → A → Socket U T → LinuxResult ℕ × Socket U T
  unfolding as_udp
  sendto buf addr (udp u) = as_udp (us.send_to buf addr u)
  sendto buf addr (tcp t) = (err eisconn, tcp t)

  unfoldable pub listen : Socket U T → LinuxResult (Unit {0}) × Socket U T
  unfolding as_tcp
  listen (udp u) = (err eopnotsupp, udp u)
  listen (tcp t) = as_tcp (ts.listen t)

  unfoldable pub accept : Socket U T → LinuxResult T × Socket U T
  unfolding as_tcp
  accept (udp u) = (err eopnotsupp, udp u)
  accept (tcp t) = as_tcp (ts.accept t)

  -- The methods that `impl_socket!` passes on.
  unfoldable pub send : List ℕ → Socket U T → LinuxResult ℕ × Socket U T
  unfolding as_udp as_tcp
  send buf (udp u) = as_udp (us.send buf u)
  send buf (tcp t) = as_tcp (ts.send buf t)

  unfoldable pub poll : Socket U T → LinuxResult PollState × Socket U T
  unfolding as_udp as_tcp
  poll (udp u) = as_udp (us.poll u)
  poll (tcp t) = as_tcp (ts.poll t)

  unfoldable pub local_addr : Socket U T → LinuxResult A × Socket U T
  unfolding as_udp as_tcp
  local_addr (udp u) = as_udp (us.local_addr u)
  local_addr (tcp t) = as_tcp (ts.local_addr t)

  unfoldable pub peer_addr : Socket U T → LinuxResult A × Socket U T
  unfolding as_udp as_tcp
  peer_addr (udp u) = as_udp (us.peer_addr u)
  peer_addr (tcp t) = as_tcp (ts.peer_addr t)

  unfoldable pub bind : A → Socket U T → LinuxResult (Unit {0}) × Socket U T
  unfolding as_udp as_tcp
  bind addr (udp u) = as_udp (us.bind addr u)
  bind addr (tcp t) = as_tcp (ts.bind addr t)

  unfoldable pub connect : A → Socket U T → LinuxResult (Unit {0}) × Socket U T
  unfolding as_udp as_tcp
  connect addr (udp u) = as_udp (us.connect addr u)
  connect addr (tcp t) = as_tcp (ts.connect addr t)

  unfoldable pub shutdown : Socket U T → LinuxResult (Unit {0}) × Socket U T
  unfolding as_udp as_tcp
  shutdown (udp u) = as_udp (us.shutdown u)
  shutdown (tcp t) = as_tcp (ts.shutdown t)

  unfoldable pub read : ℕ → Socket U T → LinuxResult (List ℕ) × Socket U T
  unfolding recv
  read n s = recv n s

  unfoldable pub write : List ℕ → Socket U T → LinuxResult ℕ × Socket U T
  unfolding send
  write buf s = send buf s

  unfoldable pub set_nonblocking : Bool → Socket U T → LinuxResult (Unit {0}) × Socket U T
  set_nonblocking nonblock (udp u) = (ok tt, udp (us.set_nonblocking nonblock u))
  set_nonblocking nonblock (tcp t) = (ok tt, tcp (ts.set_nonblocking nonblock t))

-- 49152 is S_IFSOCK, 511 is 0o777.
unfoldable pub stat : LinuxResult Kstat
unfolding default_kstat
stat = ok (record default_kstat { mode = 49152 + 511; blksize = 4096 })
