-- ===== src/Net/Socket.antt =====
-- src/Net/Socket.hpp: the writing side, and `read`. A socket is the bytes that have arrived and are
-- unread, the bytes written so far, and `writeCount`, whose overflow behind 2^31 writes is left out.
pub mod Delivery
pub mod Pending
use kvm_cloud.Base.{
  ℕ, ◌+◌, ◌==◌, List, [], ◌∷◌, ◌++◌, Bytes, length, if◌then◌else◌, Result, ok, ◌>>=◌,
}
use kvm_cloud.Net.Stream
use kvm_cloud.Net.Stream.{cr, lf}

pub record Socket : Type 0 where
  pub incoming : Bytes
  pub outgoing : Bytes
  pub write_count : ℕ

-- `Socket(int sockFD)`, and the state behind a successful `connect`
abbrev pub connected : Socket
connected = record { incoming = []; outgoing = []; write_count = 0 }

-- `write(const std::string&)`
unfoldable pub write : Socket → Bytes → Socket
write s d = record s {
  outgoing = s.outgoing ++ (d ++ cr ∷ lf ∷ []);
  write_count = s.write_count + 1;
}

unfoldable pub write_each : Socket → List Bytes → Socket
unfolding write
write_each s [] = s
write_each s (d ∷ ds) = write_each (write s d) ds

-- `write(const std::vector<std::string>&)`, which counts each line twice
unfoldable pub write_all : Socket → List Bytes → Socket
unfolding write_each
write_all s ds = write_each (record s { write_count = s.write_count + length ds }) ds

-- `send`: the empty line that ends the message. `writeCount` is not reset.
unfoldable pub send : Socket → Socket
unfolding write
send s = write (if s.write_count == 0 then write s [] else s) []

-- `read`: the lines of one message; what is left stays on the socket
unfoldable pub read : Socket → Result (List Bytes × Socket)
read s = Stream.read s.incoming >>= λ r. ok (r.0, record s { incoming = r.1 })
