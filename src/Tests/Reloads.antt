-- ===== src/Tests/Reloads.antt =====
-- A controller that starts over a directory in which another one made an instance.
use kvm_cloud.Base.{◌≡◌, refl, none, some, [], ◌∷◌, codes, List, All, ok}
use mathlib.Core.Option
use kvm_cloud.Std.Int.{ℤ, pos}
use kvm_cloud.Std.Number.{stoi}
use kvm_cloud.Std.Map.{StdMap, find, insert}
use kvm_cloud.Std.Map.Keys.{str_lt, bytes_order, int_order}
use kvm_cloud.Sys.Host.{Host}
use kvm_cloud.Vm.Instance.{Instance}
use kvm_cloud.Vm.Controller.{cirros, inst_dir, put_instance, initial_templates}
use kvm_cloud.Vm.Controller.Methods.{construct, instantiate}
use kvm_cloud.Vm.Controller.Instantiating.{IsKept, counted, instantiate-IsKept}
use kvm_cloud.Vm.Controller.Reloading.{
  Saved, Entry, saved_at, IsOnDisk, instance_of, holding, construct-IsOnDisk,
}
use kvm_cloud.Tests.Machine.{Machine, machine, machine_laws}
use kvm_cloud.Tests.Making.{machine_files, empty, found, possible, vm_1001}

-- the same machine, and what its working directory lists
abbrev listing_machine : Host
listing_machine = record machine {
  entries = λ m d. some (codes "." ∷ codes "1001" ∷ codes "notes" ∷ []);
}

made :
    (s : Machine) × (instantiate machine cirros (pos 512) (pos 1) empty ≡ (
      ok vm_1001,
      put_instance machine
          (pos 1001)
          vm_1001
          (record (counted machine (pos 10002) (pos 1001) empty) { host = s }),
    ))
    × IsKept machine s
        (inst_dir (codes "vms") (pos 1001))
        cirros
        (pos 512)
        (pos 1)
        (pos 10002)
        (pos 0)
made =
    instantiate-IsKept machine machine_laws machine_files cirros (pos 512) (pos 1) (pos 10002)
      (pos 1001) empty found possible

abbrev saved_1001 : Saved
saved_1001 = record {
  id = pos 1001;
  templ = cirros;
  memory = pos 512;
  cpus = pos 1;
  ssh_port = pos 10002;
  pid = pos 0;
}

abbrev disk : List Entry
disk = (codes ".", none) ∷ (codes "1001", some saved_1001) ∷ (codes "notes", none) ∷ []

kept_here :
    IsKept listing_machine made.0
      (inst_dir (codes "vms") (pos 1001))
      cirros
      (pos 512)
      (pos 1)
      (pos 10002)
      (pos 0)
kept_here = record {
  exists = made.2.exists;
  saved = record {
    name = made.2.saved.name;
    memory = made.2.saved.memory;
    cpus = made.2.saved.cpus;
    ssh_port = made.2.saved.ssh_port;
    pid = made.2.saved.pid;
    one_line = made.2.saved.one_line;
    ints = made.2.saved.ints;
  };
  no_append = made.2.no_append;
  kernel = made.2.kernel;
  port_free = made.2.port_free;
}

disk-IsOnDisk : All (IsOnDisk listing_machine (codes "vms") made.0) disk
unfolding stoi initial_templates find insert str_lt
disk-IsOnDisk = (refl, ((refl, kept_here, refl), (refl, tt)))

construct-IsOnDisk_example :
    (m : StdMap ℤ Instance) × (construct listing_machine (codes "vms") (pos 1) (pos 10000) made.0
      ≡ (ok tt, holding listing_machine (codes "vms") made.0 (pos 1) (pos 10000) m))
    × ((id : ℤ)
        → find id m
          ≡ Option.map (instance_of listing_machine (codes "vms") made.0) (saved_at id disk))
construct-IsOnDisk_example =
    construct-IsOnDisk listing_machine (codes "vms") made.0 (pos 1) (pos 10000) disk refl
      disk-IsOnDisk
