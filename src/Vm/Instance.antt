-- ===== src/Vm/Instance.antt =====
-- src/Vm/Instance.hpp, and the command line that src/Vm/Controller.hpp gives to an instance.
use kvm_cloud.Base.{Bool, List, [], ◌∷◌, ◌++◌, Bytes, codes, if◌then◌else◌}
use kvm_cloud.Std.Int.{ℤ}
use kvm_cloud.Std.Number.{to_string}
use kvm_cloud.Sys.Host.{Host}
use kvm_cloud.Sys.Process
use kvm_cloud.Sys.Process.{Process}
use kvm_cloud.Vm.Template.{Template}
use kvm_cloud.Vm.InstanceInfo.{InstanceInfo}

pub record Instance : Type 0 where
  pub id : ℤ
  pub memory : ℤ
  pub cpus : ℤ
  pub ssh_port : ℤ
  pub templat : Template
  pub process : Process

abbrev pub set_ssh_port : Instance → ℤ → Instance
set_ssh_port i port = record i { ssh_port = port }

-- `getInstanceInfo`
unfoldable pub get_instance_info : (h : Host) → h.State → Instance → InstanceInfo
get_instance_info h s i = record {
  id = to_string i.id;
  templ = i.templat.name;
  memory = i.memory;
  cpus = i.cpus;
  ssh_port = i.ssh_port;
  running = Process.is_running h s i.process;
}

-- `vmArgs` of `Controller::restore`
unfoldable pub vm_args : ℤ → ℤ → ℤ → Bool → Bytes → Bytes → Bytes → List Bytes
vm_args memory cpus ssh_port with_kernel kernel_path rootfs_path append =
    codes "-c"
    ∷ (codes "''/usr/bin/kvm -m "
        ++ to_string memory
        ++ codes " -smp "
        ++ to_string cpus
        ++ codes " -redir tcp:"
        ++ to_string ssh_port
        ++ codes "::22"
        ++ (if with_kernel then codes " -kernel " ++ kernel_path else [])
        ++ codes " -hda "
        ++ rootfs_path
        ++ codes " -boot c"
        ++ (if with_kernel then codes " -append \"root=/dev/sda console=ttyS0\"" else [])
        ++ codes " -nographic"
        ++ codes " -enable-kvm"
        ++ codes " "
        ++ append
        ++ codes "''")
    ∷ []
