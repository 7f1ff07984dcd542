-- ===== src/Vm/InstanceInfo.antt =====
-- src/Vm/InstanceInfo.hpp.
pub mod Lines
use kvm_cloud.Base.{
  ℕ, ◌≡◌, Bool, List, [], ◌∷◌, ◌++◌, Bytes, get_elem?, Result, ok, ◌>>=◌, index, arith,
}
use kvm_cloud.Std.Int.{ℤ, IsInt, to_bool, from_bool, to_bool-from_bool}
use kvm_cloud.Std.Number.{to_string, stoi, stoi-to_string}

pub record InstanceInfo : Type 0 where
  pub id : Bytes
  pub templ : Bytes
  pub memory : ℤ
  pub cpus : ℤ
  pub ssh_port : ℤ
  pub running : Bool

unfoldable pub set_id : InstanceInfo → Bytes → InstanceInfo
set_id i id = record i { id = id }

abbrev pub serial_size : ℕ
serial_size = 6

unfoldable pub serialize : InstanceInfo → List Bytes
serialize i =
    i.id
    ∷ i.templ
    ∷ to_string i.memory
    ∷ to_string i.cpus
    ∷ to_string i.ssh_port
    ∷ to_string (from_bool i.running)
    ∷ []

-- A shorter vector is read out of bounds. C++ leaves the order of the arguments open, so which of
-- two exceptions is thrown is too: here it is the first from the left.
unfoldable pub deserialize : List Bytes → Result InstanceInfo
deserialize fields = do
  id ← index (get_elem? fields 0)
  templ ← index (get_elem? fields 1)
  memory ← index (get_elem? fields 2) >>= stoi
  cpus ← index (get_elem? fields 3) >>= stoi
  ssh_port ← index (get_elem? fields 4) >>= stoi
  running ← index (get_elem? fields 5) >>= stoi
  ok (record {
    id = id;
    templ = templ;
    memory = memory;
    cpus = cpus;
    ssh_port = ssh_port;
    running = to_bool running;
  })

-- The numbers fit an `int`.
pub record HasInts (i : InstanceInfo) : Type 0 where
  pub memory : IsInt i.memory
  pub cpus : IsInt i.cpus
  pub ssh_port : IsInt i.ssh_port

from_bool-IsInt : (b : Bool) → IsInt (from_bool b)
from_bool-IsInt b = ground arith

-- A description whose numbers are `int`s is read back from its serialized fields, whatever fields
-- follow.
pub deserialize-serialize :
    (i : InstanceInfo) (more : List Bytes) → HasInts i → deserialize (serialize i ++ more) ≡ ok i
unfolding deserialize serialize
deserialize-serialize i more h = simp (
  stoi-to_string i.memory h.memory,
  stoi-to_string i.cpus h.cpus,
  stoi-to_string i.ssh_port h.ssh_port,
  stoi-to_string (from_bool i.running) (from_bool-IsInt i.running),
  to_bool-from_bool,
)
