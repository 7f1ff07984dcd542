-- ===== src/Net/Server.antt =====
-- src/Net/ServerSocket.hpp, and the opening and closing of src/Net/Socket.hpp: the calls of the
-- operating system in their order, and an exception at the first that fails.
pub mod Startup
pub mod Accepting
use kvm_cloud.Base.{ℕ, Bool, true, false, ◌||◌, Bytes, codes, if◌then◌else◌, Result, ok, err, Error}
use kvm_cloud.Base.Exec.{Exec, pure, raise, modify, ◌>>=◌, ◌>>◌}
use kvm_cloud.Std.Int.{ℤ, pos, negsuc, int_eq, int_lt, to_u16}
use kvm_cloud.Sys.Network.{Network}
use kvm_cloud.Sys.Process.{failure}

-- `-1`, by which a call says that it failed
abbrev pub minus_one : ℤ
minus_one = negsuc 0

module _ (k : Network) where
  -- a call behind which -1 throws
  unfoldable pub check : (k.State → ℤ × k.State) → Bytes → Bytes → Exec k.State ℤ
  check call place what s =
      let (z, s') = call s in
      if int_eq z minus_one then raise (failure place what) s' else pure z s'

  abbrev pub server_place : Bytes
  server_place = codes "ServerSocket::ServerSocket()"

  -- `ServerSocket(int port)`; the result is `sockFD`
  unfoldable pub open_server : ℤ → Exec k.State ℤ
  unfolding check
  open_server port = do
    fd ← check k.socket server_place (codes "socket() failed")
    check (λ s. k.reuse_address s fd) server_place (codes "setsockopt() failed")
    check (λ s. k.bind s fd (to_u16 port)) server_place (codes "bind() failed")
    check (λ s. k.listen s fd 10) server_place (codes "listen() failed")
    pure fd

  -- the constructor where an exception ends the process
  abbrev pub served : Result ℤ × k.State → Result (ℤ × k.State)
  served (ok fd, s) = ok (fd, s)
  served (err e, s) = err e

  -- `close`, and the destructor
  unfoldable pub close_server : ℤ → k.State → k.State
  close_server fd s = k.close s fd

  -- the result is the descriptor of the connection
  unfoldable pub accept : ℤ → Exec k.State ℤ
  accept fd s =
      let (conn, s') = k.accept s fd in
      if int_lt conn (pos 0)
      then raise (failure (codes "ServerSocket::accept()") (codes "accept() failed")) s'
      else pure conn s'

  abbrev pub socket_place : Bytes
  socket_place = codes "Socket::Socket(string, int)"

  -- `Socket(std::string address, int port)`; the result is `sockFD`
  unfoldable pub open_socket : Bytes → ℤ → Exec k.State ℤ
  unfolding check
  open_socket address port = do
    fd ← check k.socket socket_place (codes "socket() failed")
    check (λ s. k.connect s fd address (to_u16 port)) socket_place (codes "connect() failed")
    pure fd

  -- `close` of a socket, and its destructor: the descriptor stays open
  unfoldable pub close_socket : ℤ → k.State → k.State
  close_socket fd s = k.shutdown s fd
