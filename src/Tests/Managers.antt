-- ===== src/Tests/Managers.antt =====
-- A manager with two controllers: the first has no "cirros", the second has.
use kvm_cloud.Base.{
  ℕ, zero, suc, ◌<◌, ◌≡◌, refl, some, none, [], ◌∷◌, Bytes, codes, length, get_elem?, Bool, arith,
  ltb, if◌then◌else◌, err, undefined,
}
use mathlib.Core.List.{cons-ne-nil}
use kvm_cloud.Std.Int.{pos}
use kvm_cloud.Std.Text.{str_eq, str_eq_iff}
use kvm_cloud.Std.Map.{StdMap}
use kvm_cloud.Vm.Template.{Template}
use kvm_cloud.Vm.InstanceInfo.{InstanceInfo}
use kvm_cloud.Vm.Controller.{Node, wheezy}
use kvm_cloud.Vm.Proxy.{Link}
use kvm_cloud.Controller.{Handler, answer}
use kvm_cloud.Controller.Serving.{ServesTemplates, node_service}
use kvm_cloud.Base.{◌≢◌, ok, false}
use kvm_cloud.Std.Int.{from_bool}
use kvm_cloud.Std.Number.{to_string}
use kvm_cloud.Net.Socket.{connected, write}
use kvm_cloud.Vm.Proxy
use kvm_cloud.Controller.Remote.{Returns, run-Returns}
use kvm_cloud.Tests.Nodes.{text_7}
use kvm_cloud.Manager
use kvm_cloud.Manager.Named.{control-make_full_id}
use kvm_cloud.Manager.Warnings.{control_logged, control_logged-Unnamed}
use kvm_cloud.Manager.{Manager, ControllerRef, offered, control, make_full_id}
use kvm_cloud.Manager.Service.{Publishes}
use kvm_cloud.Manager.Rounds.{Handed}
use kvm_cloud.Manager.Search.{find_controller-Handed, Refusal, find_controller-Refusal}
use kvm_cloud.Tests.Machine.{machine}
use kvm_cloud.Tests.Nodes.{link, link-IsQuiet, both-IsByName, both-IsPrintable}

abbrev pub only_wheezy : StdMap Bytes Template
only_wheezy = (codes "wheezy", wheezy) ∷ []

abbrev pub wheezy_link : Link (Handler machine)
wheezy_link = record link {
  peer = record link.peer {
    node = record link.peer.node {
      controller = record link.peer.node.controller { templates = only_wheezy };
    };
  };
}

abbrev pub names : ℕ → Bytes
names zero = codes "alpha"
names (suc n) = codes "beta"

abbrev pub nodes : ℕ → Node machine
nodes zero = wheezy_link.peer.node
nodes (suc n) = link.peer.node

abbrev pub named : ℕ → Link (Handler machine) → ControllerRef (Handler machine)
named i l = record { id = names i; address = codes "localhost"; port = pos 3001; proxy = l }

abbrev pub two_nodes : Manager (Handler machine)
two_nodes = record { controllers = named 0 wheezy_link ∷ named 1 link ∷ []; next_controller = 1 }

abbrev pub request_for : Bytes → InstanceInfo
request_for templ = record {
  id = codes "0";
  templ = templ;
  memory = pos 512;
  cpus = pos 1;
  ssh_port = pos 0;
  running = Bool.false;
}

pub alpha_serves : ServesTemplates machine wheezy_link wheezy_link.peer.node
alpha_serves = record {
  quiet = record { near = link-IsQuiet.near; far = link-IsQuiet.far };
  node = refl;
  by_name = record { sorted = (tt, tt); named = (refl, tt) };
  printable = both-IsPrintable.1;
  some_templates = cons-ne-nil _ _;
}

beta_serves : ServesTemplates machine link link.peer.node
beta_serves = record {
  quiet = link-IsQuiet;
  node = refl;
  by_name = both-IsByName;
  printable = both-IsPrintable;
  some_templates = cons-ne-nil _ _;
}

two_nodes-Publishes : Publishes (node_service machine) names nodes two_nodes.controllers
two_nodes-Publishes = record { at_index = serving }
  where
    serving :
        (i : ℕ)
        → i < length two_nodes.controllers
        → (c : ControllerRef (Handler machine)) × (get_elem? two_nodes.controllers i ≡ some c)
          × (c.id ≡ names i)
          × (node_service machine).Serves c.proxy (nodes i)
    serving zero h = (named 0 wheezy_link, refl, refl, alpha_serves)
    serving (suc zero) h = (named 1 link, refl, refl, beta_serves)
    serving (suc (suc n)) h = absurd (omega arith)

cirros_at_beta : (t : Template) × (offered (codes "cirros") (nodes 1).controller.templates ≡ some t)
unfolding offered str_eq
cirros_at_beta = (_, refl)

find_controller-Handed_example :
    Handed (node_service machine) names nodes 2 2 (request_for (codes "cirros")) two_nodes
find_controller-Handed_example =
    find_controller-Handed (node_service machine) names nodes (request_for (codes "cirros"))
      two_nodes two_nodes-Publishes 1 (omega arith) (omega arith) cirros_at_beta.1

nobody_has : (i : ℕ) → i < 2 → offered (codes "debian") (nodes i).controller.templates ≡ none
unfolding offered str_eq
nobody_has zero h = refl
nobody_has (suc n) h = refl

find_controller-Refusal_example :
    Refusal
      (node_service machine)
      names
      nodes
      (request_for (codes "debian"))
      two_nodes
      two_nodes-Publishes
find_controller-Refusal_example =
    find_controller-Refusal (node_service machine) names nodes (request_for (codes "debian"))
      two_nodes two_nodes-Publishes (omega arith) nobody_has

different : (a b : Bytes) → str_eq a b ≡ false → a ≢ b
different a b e same = let equal = (str_eq_iff a b).1 same in cc

pub alpha_is_not_beta : codes "alpha" ≢ codes "beta"
unfolding str_eq
alpha_is_not_beta = different (codes "alpha") (codes "beta") refl

alpha_is_not_gamma : codes "alpha" ≢ codes "gamma"
unfolding str_eq
alpha_is_not_gamma = different (codes "alpha") (codes "gamma") refl

beta_is_not_gamma : codes "beta" ≢ codes "gamma"
unfolding str_eq
beta_is_not_gamma = different (codes "beta") (codes "gamma") refl

abbrev handler : Manager.Handler (answer machine)
handler = record { socket = connected; manager = two_nodes }

run_on_beta : Returns machine (Proxy.run (answer machine) (codes "7")) link false link.peer.node
run_on_beta =
    run-Returns machine link (codes "7") false link.peer.node link-IsQuiet (omega arith) text_7

control-make_full_id_example :
    control
      (answer machine)
      (Proxy.run (answer machine))
      (codes "run" ∷ make_full_id (codes "beta") (codes "7") ∷ [])
      handler
    ≡ ok (record {
      socket = write connected (to_string (from_bool false));
      manager = record two_nodes {
        controllers = named 0 wheezy_link ∷ named 1 run_on_beta.after ∷ [];
      };
    })
control-make_full_id_example =
    control-make_full_id (answer machine) (Proxy.run (answer machine)) (codes "run") (codes "beta")
      (codes "7") [] handler (named 0 wheezy_link ∷ []) [] (named 1 link) false run_on_beta.after
      (omega arith) refl (alpha_is_not_beta, tt) refl run_on_beta.returned

control_logged-Unnamed_example :
    control_logged
      (answer machine)
      (codes "12:00:00")
      (Proxy.run (answer machine))
      (codes "run" ∷ make_full_id (codes "gamma") (codes "7") ∷ [])
      handler
    ≡ (if ltb (length (codes "gamma")) 977
        then ok (record handler { socket = write connected (to_string (from_bool false)) })
        else err undefined)
control_logged-Unnamed_example =
    control_logged-Unnamed (answer machine) (Proxy.run (answer machine)) (codes "12:00:00")
      (codes "run") (codes "gamma") (codes "7") [] handler refl (omega arith) (omega arith)
      (omega arith) (alpha_is_not_gamma, (beta_is_not_gamma, tt))
