-- ===== src/Tests/Restarts.antt =====
-- A controller that starts over the files of an instance.
use kvm_cloud.Base.{◌≡◌, refl, none, some, [], ◌∷◌, ◌++◌, Bytes, codes, ok, true, arith}
use kvm_cloud.Std.Int.{pos}
use kvm_cloud.Std.Number.{to_string}
use kvm_cloud.Std.Map.{StdMap, find}
use kvm_cloud.Std.Map.Keys.{bytes_order, int_order, str_lt}
use kvm_cloud.Std.Text.{str_eq}
use kvm_cloud.Vm.Controller.{Node, inst_dir, put_instance, cirros}
use kvm_cloud.Vm.Controller.Methods
use kvm_cloud.Vm.Controller.Restoring.{Metadata, IsSaved, restored, restore-IsSaved}
use kvm_cloud.Tests.Machine.{machine, busy_machine}
use kvm_cloud.Tests.Nodes.{both}

abbrev metadata : Metadata
metadata = record {
  name = codes "cirros";
  memory = pos 512;
  cpus = pos 1;
  ssh_port = pos 10005;
  pid = pos 0;
}

abbrev files : StdMap Bytes Bytes
files =
    (codes "vms/1000/.cpus", codes "1")
    ∷ (codes "vms/1000/.memory", codes "512")
    ∷ (codes "vms/1000/.pid", codes "0")
    ∷ (codes "vms/1000/.ssh", codes "10005")
    ∷ (codes "vms/1000/.template", codes "cirros")
    ∷ []

abbrev restarted : Node machine
restarted = record {
  controller = record {
    next_id = pos 1000;
    next_port = pos 10000;
    templates = both;
    instances = [];
    working_dir = codes "vms";
  };
  host = record busy_machine { files = files };
}

files-IsSaved : IsSaved machine restarted.host (codes "vms/1000") metadata
unfolding find str_lt to_string
files-IsSaved = record {
  name = refl;
  memory = refl;
  cpus = refl;
  ssh_port = refl;
  pid = refl;
  one_line = omega arith;
  ints = (omega arith, omega arith, omega arith, omega arith);
}

dir_1000 : inst_dir (codes "vms") (pos 1000) ≡ codes "vms/1000"
unfolding inst_dir to_string
dir_1000 = refl

restored_here : IsSaved machine restarted.host (inst_dir (codes "vms") (pos 1000)) metadata
restored_here = rw dir_1000 files-IsSaved

dir_exists_1000 : machine.dir_exists restarted.host (inst_dir (codes "vms") (pos 1000)) ≡ true
unfolding str_eq
dir_exists_1000 = rw dir_1000 refl

no_append :
    machine.read_file restarted.host (inst_dir (codes "vms") (pos 1000) ++ codes "/.append") ≡ none
unfolding find str_lt
no_append = rw dir_1000 refl

known_cirros : find (codes "cirros") both ≡ some cirros
unfolding find str_lt
known_cirros = refl

nothing_yet : find (pos 1000) restarted.controller.instances ≡ none
unfolding find
nothing_yet = refl

restore-IsSaved_example : Methods.restore machine (pos 1000) restarted ≡ (
  ok (restored machine restarted (pos 1000) metadata cirros),
  put_instance machine (pos 1000) (restored machine restarted (pos 1000) metadata cirros) restarted,
)
restore-IsSaved_example =
    restore-IsSaved machine (pos 1000) restarted metadata cirros dir_exists_1000 nothing_yet
      restored_here no_append refl known_cirros
