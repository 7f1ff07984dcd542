-- ===== src/Tests/Nodes.antt =====
-- A node with one stopped instance whose port is taken, and a proxy connected to it.
use kvm_cloud.Base.{◌≡◌, refl, false, true, not, some, [], ◌∷◌, Bytes, codes, All, ok, arith}
use kvm_cloud.Net.Socket.{connected}
use kvm_cloud.Std.Int.{ℤ, pos, succ, offset}
use kvm_cloud.Std.Number.{stoi, to_string}
use kvm_cloud.Std.Map.{StdMap, find}
use kvm_cloud.Std.Map.Keys.{bytes_order, int_order, str_lt}
use kvm_cloud.Std.Text.{str_eq}
use kvm_cloud.Util.Helpers.{map_exists}
use kvm_cloud.Sys.Process
use kvm_cloud.Sys.Process.{process}
use kvm_cloud.Vm.Template
use kvm_cloud.Vm.Template.{Template, IsPrintable}
use kvm_cloud.Vm.Instance.{Instance, set_ssh_port}
use kvm_cloud.Vm.Controller.{
  Node, inst_dir, cirros, wheezy, is_port_free, id_taken, find_next_id, find_next_port,
}
use kvm_cloud.Vm.Controller.Methods
use kvm_cloud.Vm.Controller.Search.{IsFirstFree, find_next_id_lem, find_next_port_lem}
use kvm_cloud.Base.{◌≢◌}
use kvm_cloud.Vm.Controller.Others.{Kept, run-Kept}
use kvm_cloud.Vm.Controller.Running.{started, moved, run-started, run-moved}
use kvm_cloud.Vm.Controller.Rerunning.{Forks, Runs, run-Runs}
use kvm_cloud.Vm.Proxy.{Link}
use kvm_cloud.Vm.Proxy.Decode.{IsByName}
use kvm_cloud.Controller.{Handler}
use kvm_cloud.Controller.Replies.{attempt}
use kvm_cloud.Controller.Remote.{IsQuiet}
use kvm_cloud.Tests.Machine.{machine, machine_laws, busy_machine}

abbrev pub both : StdMap Bytes Template
both = (codes "cirros", cirros) ∷ (codes "wheezy", wheezy) ∷ []

abbrev pub vm_at : ℤ → Instance
vm_at port = record {
  id = pos 1000;
  memory = pos 512;
  cpus = pos 1;
  ssh_port = port;
  templat = cirros;
  process = process (codes "/bin/bash") (codes "-c" ∷ codes "kvm -redir tcp:10001::22" ∷ []);
}

abbrev pub node_at : ℤ → Node machine
node_at port = record {
  controller = record {
    next_id = pos 1000;
    next_port = pos 10000;
    templates = both;
    instances = (pos 1000, vm_at port) ∷ [];
    working_dir = codes "vms";
  };
  host = busy_machine;
}

abbrev pub link : Link (Handler machine)
link = record {
  socket = connected;
  peer = record { socket = connected; node = node_at (pos 10001) };
}

pub link-IsQuiet : IsQuiet machine link
link-IsQuiet = record {
  near = record { incoming = refl; outgoing = refl };
  far = record { incoming = refl; outgoing = refl };
}

pub both-IsByName : IsByName both
unfolding str_lt
both-IsByName = record { sorted = ((refl, tt), (tt, tt)); named = (refl, (refl, tt)) }

lines_of : IsPrintable cirros
unfolding Template.serialize
lines_of = (omega arith, (omega arith, (omega arith, (omega arith, tt))))

lines_of_wheezy : IsPrintable wheezy
unfolding Template.serialize
lines_of_wheezy = (omega arith, (omega arith, (omega arith, (omega arith, tt))))

pub both-IsPrintable : All (λ e. IsPrintable e.1) both
both-IsPrintable = (lines_of, (lines_of_wheezy, tt))

pub text_7 :
    attempt machine (Methods.run machine) (codes "7") link.peer.node ≡ (ok false, link.peer.node)
unfolding stoi Methods.run find
text_7 = refl

pub kill_1000 :
    attempt machine (Methods.kill machine) (codes "1000") link.peer.node ≡ (ok true, link.peer.node)
unfolding stoi Methods.kill find Process.is_running
kill_1000 = refl

free_id : id_taken machine link.peer.node (offset (pos 1000) 1) ≡ false
unfolding offset inst_dir to_string map_exists find str_eq
free_id = refl

find_next_id_lem_example :
    (id : ℤ) × (find_next_id machine link.peer.node (pos 1000) ≡ ok id)
    × IsFirstFree (id_taken machine link.peer.node) (pos 1000) id
find_next_id_lem_example =
    find_next_id_lem machine link.peer.node (pos 1000) 1 (omega arith, omega arith) free_id

find_next_port_lem_example :
    (port : ℤ) × (find_next_port machine link.peer.node (pos 10000) ≡ ok port)
    × IsFirstFree (λ z. not (is_port_free machine link.peer.node.host z)) (succ (pos 10000)) port
    × (is_port_free machine link.peer.node.host port ≡ true)
find_next_port_lem_example =
    find_next_port_lem machine machine_laws link.peer.node (pos 10000) (omega arith, omega arith)

known_vm : (port : ℤ) → find (pos 1000) (node_at port).controller.instances ≡ some (vm_at port)
unfolding find
known_vm port = refl

stopped_vm : (port : ℤ) → Process.is_running machine busy_machine (vm_at port).process ≡ false
unfolding Process.is_running
stopped_vm port = refl

machine_forks : Forks machine
machine_forks = record { child = λ path args s. refl; alive = λ path args s. refl }

started_vm :
    Methods.run machine (pos 1000) (node_at (pos 10005))
    ≡ (ok true, started machine (pos 1000) (vm_at (pos 10005)) (node_at (pos 10005)))
started_vm =
    run-started machine (pos 1000) (vm_at (pos 10005)) (node_at (pos 10005)) (known_vm (pos 10005))
      (stopped_vm (pos 10005)) refl

run-Runs_example :
    Runs machine (pos 1000) (started machine (pos 1000) (vm_at (pos 10005)) (node_at (pos 10005)))
run-Runs_example =
    run-Runs machine machine_laws machine_forks (pos 1000) (node_at (pos 10005))
      (started machine (pos 1000) (vm_at (pos 10005)) (node_at (pos 10005))) started_vm

run-moved_example :
    (port : ℤ) × IsFirstFree
      (λ z. not (is_port_free machine busy_machine z))
      (succ (pos 10000))
      port
    × (Methods.run machine (pos 1000) link.peer.node ≡ (
      ok true,
      started machine
          (pos 1000)
          (set_ssh_port (vm_at (pos 10001)) port)
          (moved machine (pos 1000) (vm_at (pos 10001)) port link.peer.node),
    ))
run-moved_example =
    run-moved machine machine_laws (pos 1000) (vm_at (pos 10001)) link.peer.node
      (known_vm (pos 10001)) (stopped_vm (pos 10001)) refl (omega arith, omega arith)

thousand_is_not_7 : pos 1000 ≢ pos 7
thousand_is_not_7 e = cc

run-Kept_example :
    Kept machine (pos 7) link.peer.node (Methods.run machine (pos 1000) link.peer.node).1
run-Kept_example = run-Kept machine (pos 7) (pos 1000) link.peer.node thousand_is_not_7
