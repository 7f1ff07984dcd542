-- ===== src/Tests/Histories.antt =====
-- A controller that starts, runs an id, makes an instance and kills it.
use kvm_cloud.Base.{◌≡◌, refl, some, codes, arith}
use kvm_cloud.Std.Int.{pos}
use kvm_cloud.Std.Map.{find}
use kvm_cloud.Std.Map.Keys.{int_order}
use kvm_cloud.Vm.Controller.{Node, cirros, wheezy}
use kvm_cloud.Vm.Controller.Methods.{construct, run, kill, instantiate}
use kvm_cloud.Vm.Controller.WellFormed.{
  Reach, start, ran, killed, instantiated, IsWellFormed, Reach-IsWellFormed,
}
use kvm_cloud.Vm.Controller.Others.{instantiate-Kept}
use kvm_cloud.Tests.Machine.{machine, busy_machine}
use kvm_cloud.Tests.Nodes.{node_at, vm_at}

abbrev started : Node machine
started = (construct machine (codes "vms") (pos 1000) (pos 10000) busy_machine).1

abbrev ended : Node machine
ended =
    (kill machine (pos 1001)
      (instantiate machine cirros (pos 512) (pos 1) (run machine (pos 7) started).1).1).1

history : Reach machine (codes "vms") (pos 1000) (pos 10000) ended
history =
    killed (pos 1001)
      (instantiated cirros (pos 512) (pos 1) (ran (pos 7) (omega arith) (start busy_machine)))

Reach-IsWellFormed_example : IsWellFormed ended.controller
Reach-IsWellFormed_example = Reach-IsWellFormed machine (omega arith) (omega arith) history

known_vm : find (pos 1000) (node_at (pos 10001)).controller.instances ≡ some (vm_at (pos 10001))
unfolding find
known_vm = refl

instantiate-Kept_example :
    find
      (pos 1000)
      (instantiate machine wheezy (pos 256) (pos 2) (node_at (pos 10001))).1.controller.instances
    ≡ some (vm_at (pos 10001))
instantiate-Kept_example =
    instantiate-Kept machine (pos 1000) wheezy (pos 256) (pos 2) (node_at (pos 10001))
      (vm_at (pos 10001)) (omega arith) (omega arith) known_vm
