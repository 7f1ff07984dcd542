-- ===== src/Tests/Remotes.antt =====
-- Remote calls on a controller that starts without instances and makes one.
use kvm_cloud.Base.{◌≡◌, refl, sym, ap, ◌∙◌, some, Bytes, codes, ok, arith}
use kvm_cloud.Std.Int.{pos}
use kvm_cloud.Std.Map.{StdMap}
use kvm_cloud.Net.Socket.{connected}
use kvm_cloud.Std.Map.{find}
use kvm_cloud.Std.Map.Keys.{str_lt, bytes_order, int_order}
use kvm_cloud.Vm.Instance.{get_instance_info}
use kvm_cloud.Vm.Controller.{Node, cirros}
use kvm_cloud.Vm.Controller.Methods.{construct, instantiate}
use kvm_cloud.Vm.Controller.WellFormed.{Reach, start, instantiated, Reach-IsWellFormed}
use kvm_cloud.Vm.InstanceInfo.{InstanceInfo}
use kvm_cloud.Vm.Proxy
use kvm_cloud.Vm.Proxy.{Link, wanted}
use kvm_cloud.Vm.Proxy.Filing.{IsListing}
use kvm_cloud.Controller.{Handler, answer}
use kvm_cloud.Controller.Remote.{IsQuiet, Returns}
use kvm_cloud.Controller.Remote.Making.{made}
use kvm_cloud.Controller.Remote.Listing.{get_instances-Returns}
use kvm_cloud.Std.Map.{find}
use kvm_cloud.Std.Map.Keys.{str_lt, bytes_order}
use kvm_cloud.Vm.Instance.{get_instance_info}
use kvm_cloud.Vm.InstanceInfo.{HasInts}
use kvm_cloud.Vm.InstanceInfo.Lines.{IsPrintable, to_string-IsLine}
use kvm_cloud.Vm.Controller.{put_instance}
use kvm_cloud.Vm.Controller.Instantiating.{counted, instantiate-IsKept}
use kvm_cloud.Tests.Nodes.{both}
use kvm_cloud.Tests.Machine.{Machine, machine, machine_laws, busy_machine}
use kvm_cloud.Tests.Making.{machine_files, empty, found, possible, vm_1001}

abbrev pub first : Node machine
first = (construct machine (codes "vms") (pos 1000) (pos 10000) busy_machine).1

abbrev pub second : Node machine
second = (instantiate machine cirros (pos 512) (pos 1) first).1

abbrev pub to : Node machine → Link (Handler machine)
to n = record { socket = connected; peer = record { socket = connected; node = n } }

pub to-IsQuiet : (n : Node machine) → IsQuiet machine (to n)
to-IsQuiet n = record {
  near = record { incoming = refl; outgoing = refl };
  far = record { incoming = refl; outgoing = refl };
}

pub second_reached : Reach machine (codes "vms") (pos 1000) (pos 10000) second
second_reached = instantiated cirros (pos 512) (pos 1) (start busy_machine)

get_instances-Returns_example :
    (found : StdMap Bytes InstanceInfo) × IsListing machine second.host second.controller.instances
      found
    × Returns machine (Proxy.get_instances (answer machine)) (to second) found second
get_instances-Returns_example =
    get_instances-Returns machine (to second) (to-IsQuiet second)
      (Reach-IsWellFormed machine (omega arith) (omega arith) second_reached)

abbrev pub wish : InstanceInfo
wish = wanted (answer machine) cirros (pos 512) (pos 1)

abbrev pub behind : Machine → Node machine
behind s =
    put_instance machine (pos 1001) vm_1001
      (record (counted machine (pos 10002) (pos 1001) empty) { host = s })

abbrev pub info_1001 : Machine → InstanceInfo
info_1001 s = get_instance_info machine s vm_1001

cirros_known : find (codes "cirros") both ≡ some cirros
unfolding find str_lt
cirros_known = refl

pub made_1001 :
    (s : Machine)
    → instantiate machine cirros (pos 512) (pos 1) empty ≡ (ok vm_1001, behind s)
    → made machine wish empty ≡ (ok (info_1001 s), behind s)
made_1001 s e = rw (cirros_known, e)

pub info-HasInts : (s : Machine) → HasInts (info_1001 s)
unfolding get_instance_info
info-HasInts s = record { memory = omega arith; cpus = omega arith; ssh_port = omega arith }

pub info-IsPrintable : (s : Machine) → IsPrintable (info_1001 s)
unfolding get_instance_info
info-IsPrintable s = record { id = to_string-IsLine (pos 1001); templ = omega arith }

-- the machine behind `instantiate`
abbrev pub furnished : Machine
furnished = (instantiate machine cirros (pos 512) (pos 1) empty).1.host

pub done : instantiate machine cirros (pos 512) (pos 1) empty ≡ (ok vm_1001, behind furnished)
done =
    let (s, e, kept) =
      instantiate-IsKept machine machine_laws machine_files cirros (pos 512) (pos 1) (pos 10002)
        (pos 1001) empty found possible in
    e ∙ ap (λ x. (ok vm_1001, behind x)) (sym (ap (λ r. r.1.host) e))
