-- ===== src/Manager/Reading.antt =====
-- The controllers file that src/manager.cpp reads at its start.
use kvm_cloud.Base.{Option, none, some, List, [], ◌∷◌, ◌++◌, Bytes, All, Lacks}
use kvm_cloud.Std.Int.{ℤ, IsInt}
use kvm_cloud.Std.Number.{to_string}
use kvm_cloud.Std.Words.{IsSolid, IsWord}
use kvm_cloud.Vm.Proxy.{Link}
use kvm_cloud.Manager.{ControllerRef}

-- A line of the file: the name of a controller and its address.
pub record Line : Type 0 where
  pub name : Bytes
  pub host : Bytes
  pub port : ℤ

abbrev pub address : Line → Bytes
address l = l.host ++ b':' ∷ to_string l.port

-- the file of these lines
abbrev pub listing : List Line → Bytes
listing [] = []
listing (l ∷ ls) = l.name ++ b'\t' ∷ (address l ++ b'\n' ∷ listing ls)

-- The name and the host have no blank, and the host has no colon.
pub record IsReadable (l : Line) : Type 0 where
  pub name : IsWord l.name
  pub solid : All IsSolid l.host
  pub plain : Lacks b':' l.host
  pub port : IsInt l.port

-- the controllers that a connection is found to
abbrev pub reached :
    {P : Type 0} → (Bytes → ℤ → Option (Link P)) → List Line → List (ControllerRef P)
reached connect [] = []
reached connect (l ∷ ls) = elim (connect l.host l.port) [
  | none ↦ reached connect ls
  | some k ↦
      (record { id = l.name; address = l.host; port = l.port; proxy = k }) ∷ reached connect ls
]
