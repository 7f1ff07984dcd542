-- ===== src/Tests/Making.antt =====
-- A node without instances that makes one, and a second controller over its files.
use kvm_cloud.Base.{
  ◌≡◌, ◌≢◌, refl, ap, ◌∙◌, none, some, [], ◌∷◌, ◌++◌, Bytes, codes, ok, Bool-cases, if◌then◌else◌,
  inl, inr, arith,
}
use kvm_cloud.Std.Int.{pos, offset}
use kvm_cloud.Std.Number.{to_string}
use kvm_cloud.Std.Text.{str_eq}
use kvm_cloud.Std.Map.{find, insert, same}
use kvm_cloud.Std.Map.Laws.{find-insert, same_iff, same_refl}
use kvm_cloud.Std.Map.Keys.{str_lt, bytes_order, int_order}
use kvm_cloud.Sys.Host.{FileLaws}
use kvm_cloud.Util.Helpers.{map_exists}
use kvm_cloud.Vm.Instance.{Instance}
use kvm_cloud.Vm.Controller.{
  Node, cirros, inst_dir, put_instance, find_next_id, find_next_port, skip_taken,
}
use kvm_cloud.Vm.Controller.Methods.{instantiate, restore}
use kvm_cloud.Vm.Controller.NewFiles.{IsNew}
use kvm_cloud.Vm.Controller.Instantiating.{
  made_dir, IsFound, IsPossible, IsKept, new_instance, counted, instantiate-IsKept,
  restore-instantiate,
}
use kvm_cloud.Tests.Machine.{Machine, machine, machine_laws, busy_machine}
use kvm_cloud.Tests.Nodes.{both}

pub tail_of : (d a b : Bytes) → d ++ b'/' ∷ a ≡ d ++ b'/' ∷ b → a ≡ b
tail_of [] a b e = cc
tail_of (c ∷ d) a b e = tail_of d a b cc

pub written : (m : Machine) (p text : Bytes) → find p (insert p text m.files) ≡ some text
written m p text =
    find-insert p p text m.files ∙ ap (λ b. if b then some text else find p m.files) (same_refl p)

pub apart :
    (m : Machine) (p q text : Bytes) → p ≢ q → find q (insert p text m.files) ≡ find q m.files
apart m p q text ne = elim (Bool-cases (same p q)) [
  | inl e ↦ absurd (ne ((same_iff p q).0 e))
  | inr e ↦ find-insert p q text m.files ∙ ap (λ b. if b then some text else find q m.files) e
]

abbrev pub machine_files : FileLaws machine
machine_files = record {
  IsOpen = λ m d. Unit;
  IsOpen-write_file = λ m d p text o. tt;
  read_file-write_file = λ m d a text o name. written m (d ++ b'/' ∷ a) text;
  read_file-write_file_ne = λ m d a b text o na nb ne.
      apart m (d ++ b'/' ∷ a) (d ++ b'/' ∷ b) text (λ e. ne (tail_of d a b e));
}

abbrev pub empty : Node machine
empty = record {
  controller = record {
    next_id = pos 1000;
    next_port = pos 10000;
    templates = both;
    instances = [];
    working_dir = codes "vms";
  };
  host = busy_machine;
}

ports : find_next_port machine empty (pos 10000) ≡ ok (pos 10002)
unfolding find_next_port skip_taken
ports = refl

ids :
    find_next_id machine
      (record empty { controller = record empty.controller { next_port = pos 10002 } })
      (pos 1000)
    ≡ ok (pos 1001)
unfolding find_next_id skip_taken offset inst_dir to_string map_exists find str_eq
ids = refl

pub found :
    IsFound machine machine_laws machine_files cirros (pos 512) (pos 1) (pos 10002) (pos 1001) empty
found = record { port_found = ports; id_found = ids; counter = omega arith }

new_dir :
    IsNew machine machine_files
      (made_dir machine (inst_dir (codes "vms") (pos 1001)) busy_machine)
      (inst_dir (codes "vms") (pos 1001))
unfolding inst_dir to_string str_eq find
new_dir = record { exists = refl; opened = tt; empty = λ a name. refl }

pub possible :
    IsPossible machine machine_laws machine_files cirros
      (pos 512)
      (pos 1)
      (pos 10002)
      (pos 1001)
      empty
unfolding find str_lt
possible = record {
  ints = (omega arith, omega arith, omega arith);
  one_line = omega arith;
  known = refl;
  fresh = new_dir;
  port_free = refl;
}

abbrev pub vm_1001 : Instance
vm_1001 =
    new_instance machine cirros (pos 512) (pos 1) (pos 10002) (pos 1001)
      (inst_dir (codes "vms") (pos 1001))

instantiate-IsKept_example :
    (s : Machine) × (instantiate machine cirros (pos 512) (pos 1) empty ≡ (
      ok vm_1001,
      put_instance machine
          (pos 1001)
          vm_1001
          (record (counted machine (pos 10002) (pos 1001) empty) { host = s }),
    ))
    × IsKept machine s
        (inst_dir (codes "vms") (pos 1001))
        cirros
        (pos 512)
        (pos 1)
        (pos 10002)
        (pos 0)
instantiate-IsKept_example =
    instantiate-IsKept machine machine_laws machine_files cirros (pos 512) (pos 1) (pos 10002)
      (pos 1001) empty found possible

-- a controller that starts over the same files
abbrev started_again : Node machine
started_again = record empty { host = (instantiate machine cirros (pos 512) (pos 1) empty).1.host }

nothing_yet : find (pos 1001) empty.controller.instances ≡ none
unfolding find str_lt
nothing_yet = refl

restore-instantiate_example :
    (restore machine (pos 1001) started_again).0
    ≡ (instantiate machine cirros (pos 512) (pos 1) empty).0
restore-instantiate_example =
    restore-instantiate machine machine_laws machine_files cirros (pos 512) (pos 1) (pos 10002)
      (pos 1001) empty found possible started_again refl refl nothing_yet possible.known
