-- ===== src/Sys/Network.antt =====
-- The socket calls of the operating system, which the program calls and does not implement.
use kvm_cloud.Base.{ℕ, Bytes}
use kvm_cloud.Std.Int.{ℤ}

pub record Network : Type 1 where
  pub State : Type 0
  -- `::socket(PF_INET, SOCK_STREAM, IPPROTO_TCP)`
  pub socket : State → ℤ × State
  -- `::setsockopt` of `SO_REUSEADDR`
  pub reuse_address : State → ℤ → ℤ × State
  -- `::bind` to a port of every address
  pub bind : State → ℤ → ℕ → ℤ × State
  -- `::listen` with this many pending connections
  pub listen : State → ℤ → ℕ → ℤ × State
  pub accept : State → ℤ → ℤ × State
  -- `::connect` to an address and a port
  pub connect : State → ℤ → Bytes → ℕ → ℤ × State
  -- `::shutdown(fd, SHUT_RDWR)`
  pub shutdown : State → ℤ → State
  pub close : State → ℤ → State
