-- ===== src/Tests/Records.antt =====
-- Descriptions, maps, addresses and full ids.
use kvm_cloud.Base.{◌≡◌, true, [], ◌∷◌, ◌++◌, Bytes, codes, ok, arith}
use kvm_cloud.Base.{Option, none, some, List, if◌then◌else◌}
use kvm_cloud.Std.Int.{ℤ, int_eq}
use kvm_cloud.Vm.Proxy.{Link}
use kvm_cloud.Controller.{Handler}
use kvm_cloud.Manager.Reading.{Line}
use kvm_cloud.Tests.Machine.{machine}
use kvm_cloud.Tests.Nodes.{link}
use kvm_cloud.Std.Int.{pos, negsuc}
use kvm_cloud.Std.Map.Keys.{bytes_order}
use kvm_cloud.Vm.InstanceInfo.{InstanceInfo, HasInts, serialize, deserialize, deserialize-serialize}

abbrev small_vm : InstanceInfo
small_vm = record {
  id = codes "1000";
  templ = codes "cirros";
  memory = pos 512;
  cpus = negsuc 0;
  ssh_port = pos 10001;
  running = true;
}

small_vm-HasInts : HasInts small_vm
small_vm-HasInts = record { memory = omega arith; cpus = omega arith; ssh_port = omega arith }

deserialize-serialize_example : deserialize (serialize small_vm ++ codes "more" ∷ []) ≡ ok small_vm
deserialize-serialize_example = deserialize-serialize small_vm (codes "more" ∷ []) small_vm-HasInts

abbrev two_lines : List Line
two_lines =
    record { name = codes "s1"; host = codes "127.0.0.1"; port = pos 8051 }
    ∷ record { name = codes "s2"; host = codes "localhost"; port = pos 8052 }
    ∷ []

-- only the second controller is there
abbrev only_8052 : Bytes → ℤ → Option (Link (Handler machine))
only_8052 host port = if int_eq port (pos 8052) then some link else none
