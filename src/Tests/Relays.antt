-- ===== src/Tests/Relays.antt =====
-- A client of the manager, which has two nodes.
use kvm_cloud.Base.{◌≡◌, refl, err, undefined, false, [], ◌∷◌, ◌++◌, codes, arith}
use kvm_cloud.Net.Socket.{connected}
use kvm_cloud.Vm.Proxy.{Link}
use kvm_cloud.Controller.{answer}
use kvm_cloud.Controller.Remote.Orders.{Order, word}
use kvm_cloud.Manager
use kvm_cloud.Manager.{make_full_id}
use kvm_cloud.Manager.Answering.{answer_client}
use kvm_cloud.Manager.Relay.{IsQuietClient}
use kvm_cloud.Client.{Session, obey, shown}
use kvm_cloud.Client.Calls.{Showed}
use kvm_cloud.Client.Blank.{blank_id_undefined}
use kvm_cloud.Client.Orders.{order-Showed, Passed, order-Passed}
use kvm_cloud.Tests.Machine.{machine}
use kvm_cloud.Tests.Nodes.{link, link-IsQuiet, text_7}
use kvm_cloud.Tests.Managers.{wheezy_link, named, two_nodes, alpha_is_not_beta}

abbrev on_node : Session (answer machine)
on_node = record { link = link; printed = codes "> " }

order-Showed_example :
    Showed machine
      (obey (answer machine) (word Order.run ∷ codes "7" ∷ []))
      on_node
      (shown (answer machine) false ++ codes "\n> ")
      link.peer.node
order-Showed_example =
    order-Showed machine Order.run (codes "7") [] on_node false link.peer.node link-IsQuiet
      (omega arith) text_7

abbrev pub to_manager : Link (Manager.Handler (answer machine))
to_manager = record {
  socket = connected;
  peer = record { socket = connected; manager = two_nodes };
}

pub to_manager-IsQuiet : IsQuietClient (answer machine) to_manager
to_manager-IsQuiet = record {
  near = record { incoming = refl; outgoing = refl };
  far = record { incoming = refl; outgoing = refl };
}

abbrev pub on_manager : Session (answer_client (answer machine))
on_manager = record { link = to_manager; printed = codes "> " }

order-Passed_example :
    Passed machine
      (obey
        (answer_client (answer machine))
        (word Order.run ∷ make_full_id (codes "beta") (codes "7") ∷ []))
      on_manager
      (shown (answer_client (answer machine)) false ++ codes "\n> ")
      (named 0 wheezy_link ∷ [])
      []
      (named 1 link)
      link.peer.node
order-Passed_example =
    order-Passed machine Order.run (codes "beta") (codes "7") [] on_manager false
      (named 0 wheezy_link ∷ []) [] (named 1 link) link.peer.node (omega arith) (omega arith)
      (omega arith) to_manager-IsQuiet refl (alpha_is_not_beta, tt) refl link-IsQuiet text_7

blank_id_undefined_example :
    (obey
      (answer_client (answer machine))
      (word Order.run ∷ make_full_id (codes "beta") [] ∷ [])
      on_manager).0
    ≡ err undefined
blank_id_undefined_example =
    blank_id_undefined machine Order.run (codes "beta") [] on_manager (named 0 wheezy_link ∷ []) []
      (named 1 link) (omega arith) (omega arith) to_manager-IsQuiet refl (alpha_is_not_beta, tt)
      refl link-IsQuiet
