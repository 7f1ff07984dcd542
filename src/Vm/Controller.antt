-- ===== src/Vm/Controller.antt =====
-- src/Vm/Controller.hpp: the instances of one node. An action works on the controller and on its
-- machine; the log lines are left out. The map holds shared pointers, so a change of an instance is
-- a change of its entry.
pub mod Methods
pub mod Search
pub mod Running
pub mod Rerunning
pub mod Restoring
pub mod Others
pub mod Outcomes
pub mod Upkeep
pub mod Making
pub mod WellFormed
pub mod Failing
pub mod Reloading
pub mod NewFiles
pub mod Instantiating
use kvm_cloud.Base.{
  ℕ, zero, suc, ◌^◌, Bool, true, false, not, ◌||◌, Option, none, some, List, [], ◌∷◌, ◌++◌, Bytes,
  codes, if◌then◌else◌, Error, Result, ok, err, exception, invalid_argument, diverges,
}
use kvm_cloud.Base
use kvm_cloud.Base.Exec.{Exec, pure, raise, lift, gets, modify, catch_all, ◌>>=◌, ◌>>◌}
use kvm_cloud.Std.Int.{ℤ, int_incr, to_u16, pos}
use kvm_cloud.Std.Text.{str_eq}
use kvm_cloud.Std.Number.{to_string, stoi}
use kvm_cloud.Std.Map.{StdMap, find, insert}
use kvm_cloud.Std.Map.Keys.{bytes_order, int_order}
use kvm_cloud.Sys.Host.{Host}
use kvm_cloud.Sys.Process
use kvm_cloud.Sys.Process.{process, failure}
use kvm_cloud.Util.Cookie
use kvm_cloud.Util.Helpers.{map_exists}
use kvm_cloud.Vm.Template.{Template}
use kvm_cloud.Vm.Instance.{Instance, set_ssh_port, vm_args}

pub record Controller : Type 0 where
  pub next_id : ℤ
  pub next_port : ℤ
  pub templates : StdMap Bytes Template
  pub instances : StdMap ℤ Instance
  pub working_dir : Bytes

-- `while (taken(z)) ++z`: there are 2^32 values of an `int`, so the fuel `int_values` cannot run out.
unfoldable pub skip_taken : ℕ → (ℤ → Bool) → ℤ → Result ℤ
skip_taken zero taken z = err diverges
skip_taken (suc f) taken z = elim (taken z) [
  | true ↦ Base.◌>>=◌ (int_incr z) (skip_taken f taken)
  | false ↦ ok z
]

abbrev pub int_values : ℕ
int_values = 2 ^ 32

-- `mkInstDir`
unfoldable pub inst_dir : Bytes → ℤ → Bytes
inst_dir working_dir id = working_dir ++ codes "/" ++ to_string id

abbrev pub no_kernel : Bytes
no_kernel = codes "-none-"

abbrev pub cirros : Template
cirros = record {
  name = codes "cirros";
  description = codes "CirrOS is a Tiny OS that specializes in running on a cloud.";
  kernel_path = codes "templates/cirros/cirros-0.3.3-x86_64-kernel";
  rootfs_path = codes "templates/cirros/cirros-0.3.3-x86_64-rootfs-non_ec2.img";
}

abbrev pub wheezy : Template
wheezy = record {
  name = codes "wheezy";
  description = codes "Debian Wheezy AMD64.";
  kernel_path = no_kernel;
  rootfs_path = codes "templates/wheezy/debian_wheezy_amd64_standard.qcow2";
}

-- The templates that the constructor puts into the map.
unfoldable pub initial_templates : StdMap Bytes Template
unfolding insert
initial_templates = insert (codes "wheezy") wheezy (insert (codes "cirros") cirros [])

abbrev pub corrupted : Error
corrupted = failure (codes "Controller::restore(int)") (codes "vm metadata is corrupted")

module _ (h : Host) where
  -- A controller and the machine it runs on.
  pub record Node : Type 0 where
    pub controller : Controller
    pub host : h.State

  abbrev pub is_port_free : h.State → ℤ → Bool
  is_port_free s port = not (h.listening s (to_u16 port))

  -- what stops the loop of `findNextId`
  abbrev pub id_taken : Node → ℤ → Bool
  id_taken n id =
      h.dir_exists n.host (inst_dir n.controller.working_dir id)
      || map_exists n.controller.instances id

  unfoldable pub find_next_id : Node → ℤ → Result ℤ
  find_next_id n base = skip_taken int_values (id_taken n) base

  -- `while (!isPortFree(++basePort))`
  unfoldable pub find_next_port : Node → ℤ → Result ℤ
  find_next_port n base =
      Base.◌>>=◌ (int_incr base) (skip_taken int_values (λ port. not (is_port_free n.host port)))

  -- `nextPort = findNextPort(nextPort)`
  unfoldable pub advance_port : Exec Node ℤ
  unfolding find_next_port
  advance_port = do
    base ← gets (λ n. n.controller.next_port)
    here ← gets (λ n. n)
    port ← lift (find_next_port here base)
    modify (λ n. record n { controller = record n.controller { next_port = port } })
    pure port

  -- `nextId = findNextId(nextId)`
  unfoldable pub advance_id : Exec Node ℤ
  unfolding find_next_id
  advance_id = do
    base ← gets (λ n. n.controller.next_id)
    here ← gets (λ n. n)
    id ← lift (find_next_id here base)
    modify (λ n. record n { controller = record n.controller { next_id = id } })
    pure id

  abbrev pub on_host : (h.State → h.State) → Exec Node (Unit {0})
  on_host f = modify (λ n. record n { host = f n.host })

  -- `instances[id] = i`
  abbrev pub put_instance : ℤ → Instance → Node → Node
  put_instance id i n = record n {
    controller = record n.controller { instances = insert id i n.controller.instances };
  }

  abbrev pub instance_dir : ℤ → Exec Node Bytes
  instance_dir id = gets (λ n. inst_dir n.controller.working_dir id)

  -- The cookies of an instance: template, memory, cpus, port, and the process id, which is not used.
  unfoldable pub read_metadata : h.State → Bytes → Result (Bytes × ℤ × ℤ × ℤ)
  read_metadata s dir = Base.◌>>=◌ (Cookie.read h s (dir ++ codes "/.template")) λ name.
      Base.◌>>=◌ (Cookie.read_int h s (dir ++ codes "/.memory")) λ memory.
        Base.◌>>=◌ (Cookie.read_int h s (dir ++ codes "/.cpus")) λ cpus.
          Base.◌>>=◌ (Cookie.read_int h s (dir ++ codes "/.ssh")) λ ssh_port.
            Base.◌>>=◌ (Cookie.read_int h s (dir ++ codes "/.pid"))
              λ pid. ok (name, memory, cpus, ssh_port)
