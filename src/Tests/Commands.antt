-- ===== src/Tests/Commands.antt =====
-- The commands `instances` and `new` of a client.
use kvm_cloud.Base.{◌≡◌, refl, [], ◌∷◌, ◌++◌, codes, some, ok, arith}
use mathlib.Core.List.{cons-ne-nil}
use kvm_cloud.Std.Int.{pos}
use kvm_cloud.Std.Number.{stoi}
use kvm_cloud.Std.Map.{StdMap, find}
use kvm_cloud.Std.Map.Keys.{str_lt, bytes_order}
use kvm_cloud.Base.{Bytes}
use kvm_cloud.Vm.InstanceInfo.{InstanceInfo}
use kvm_cloud.Vm.Controller.{Node, cirros}
use kvm_cloud.Vm.Controller.WellFormed.{Reach-IsWellFormed}
use kvm_cloud.Vm.Proxy.Filing.{IsListing}
use kvm_cloud.Controller.{answer}
use kvm_cloud.Client.{Session, obey, created, instance_rows}
use kvm_cloud.Client.Calls.{Showed}
use kvm_cloud.Client.Making.{table_head, instances-Showed, create-Showed}
use kvm_cloud.Tests.Machine.{machine}
use kvm_cloud.Tests.Nodes.{both, both-IsByName, both-IsPrintable}
use kvm_cloud.Tests.Making.{empty}
use kvm_cloud.Tests.Remotes.{
  to, to-IsQuiet, second, second_reached, behind, info_1001, furnished, made_1001, done,
  info-HasInts, info-IsPrintable,
}

abbrev at_node : Node machine → Session (answer machine)
at_node n = record { link = to n; printed = codes "> " }

instances-Showed_example :
    (found : StdMap Bytes InstanceInfo) × IsListing machine second.host second.controller.instances
      found
    × Showed machine
        (obey (answer machine) (codes "instances" ∷ []))
        (at_node second)
        ((table_head ++ instance_rows found) ++ codes "\n> ")
        second
instances-Showed_example =
    instances-Showed machine [] (at_node second) (to-IsQuiet second)
      (Reach-IsWellFormed machine (omega arith) (omega arith) second_reached)

cirros_known : find (codes "cirros") both ≡ some cirros
unfolding find str_lt
cirros_known = refl

number_512 : stoi (codes "512") ≡ ok (pos 512)
unfolding stoi
number_512 = refl

number_1 : stoi (codes "1") ≡ ok (pos 1)
unfolding stoi
number_1 = refl

create-Showed_example :
    Showed machine
      (obey (answer machine) (codes "new" ∷ codes "cirros" ∷ codes "512" ∷ codes "1" ∷ []))
      (at_node empty)
      (created (info_1001 furnished) ++ codes "\n> ")
      (behind furnished)
create-Showed_example =
    create-Showed machine (codes "cirros") (codes "512") (codes "1") [] (pos 512) (pos 1) cirros
      (at_node empty) (info_1001 furnished) (behind furnished) (to-IsQuiet empty) both-IsByName
      both-IsPrintable (cons-ne-nil _ _) cirros_known number_512 number_1 (made_1001 furnished done)
      (info-IsPrintable furnished) (info-HasInts furnished)
