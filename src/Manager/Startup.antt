-- ===== src/Manager/Startup.antt =====
-- `main` of src/manager.cpp up to its accept loop.
use kvm_cloud.Base.{
  Option, none, some, [], List, Bytes, get_elem?, length, ltb, if◌then◌else◌, Result, ok, index,
  ◌>>=◌,
}
use kvm_cloud.Std.Int.{ℤ}
use kvm_cloud.Std.Number.{stoi}
use kvm_cloud.Sys.Network.{Network}
use kvm_cloud.Net.Server.{open_server, served}
use kvm_cloud.Vm.Proxy.{Link}
use kvm_cloud.Manager
use kvm_cloud.Manager.{Manager}

module _ (k : Network) (P : Type 0) where
  -- the globals, and the network
  pub record Running : Type 0 where
    pub server : ℤ
    pub manager : Manager P
    pub network : k.State

  -- what `fControl` reads; nothing if the file cannot be opened
  abbrev text_of : Option Bytes → Bytes
  text_of none = []
  text_of (some text) = text

  -- A missing argument prints the usage. An exception ends the process. `read_file` gives the text of
  -- a file, and `connect` the connection to a controller, if there is one.
  unfoldable pub launch :
      (Bytes → Option Bytes)
      → (Bytes → ℤ → Option (Link P))
      → List Bytes
      → k.State
      → Result (Option Running)
  launch read_file connect argv s = if ltb (length argv) 3 then ok none else (do
    port ← index (get_elem? argv 1) >>= stoi
    opened ← served k (open_server k port s)
    path ← index (get_elem? argv 2)
    manager ← Manager.start connect (text_of (read_file path))
    ok (some (record { server = opened.0; manager = manager; network = opened.1 })))
