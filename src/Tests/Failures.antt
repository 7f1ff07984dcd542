-- ===== src/Tests/Failures.antt =====
-- A machine on which `mkdir` does nothing.
use kvm_cloud.Base.{◌≡◌, refl, err, codes}
use kvm_cloud.Std.Int.{pos, offset}
use kvm_cloud.Std.Number.{to_string}
use kvm_cloud.Std.Text.{str_eq}
use kvm_cloud.Std.Map.{find}
use kvm_cloud.Sys.Host.{Host}
use kvm_cloud.Sys.Process.{failure, is_running}
use kvm_cloud.Sys.Process
use kvm_cloud.Util.Helpers.{map_exists}
use kvm_cloud.Vm.Controller.{Node, cirros, inst_dir, find_next_id, find_next_port, skip_taken}
use kvm_cloud.Vm.Controller.Methods.{instantiate, furnish, write_files, restore}
use kvm_cloud.Vm.Controller.Failing.{instantiate-err}
use kvm_cloud.Tests.Machine.{machine, busy_machine}
use kvm_cloud.Tests.Making.{empty}

abbrev full_machine : Host
full_machine = record machine { fork_exec = λ m p opts. (pos 41, m) }

abbrev full : Node full_machine
full = record { controller = empty.controller; host = busy_machine }

thrown :
    (instantiate full_machine cirros (pos 512) (pos 1) full).0
    ≡ err
        (failure (codes "Controller::restore(int)") (codes "instnace with given id does not exist"))
unfolding instantiate furnish write_files restore find_next_id find_next_port skip_taken offset
    inst_dir to_string str_eq map_exists find Process.run_and_wait
thrown = refl

instantiate-err_example :
    (instantiate full_machine cirros (pos 512) (pos 1) full).1.controller.instances
    ≡ empty.controller.instances
instantiate-err_example = instantiate-err full_machine cirros (pos 512) (pos 1) full _ thrown
