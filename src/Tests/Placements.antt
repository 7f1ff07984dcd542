-- ===== src/Tests/Placements.antt =====
-- A client of a manager that has a node without "cirros" and one that has it.
use kvm_cloud.Base.{
  ℕ, zero, suc, ◌<◌, ◌≡◌, refl, some, none, [], ◌∷◌, ◌++◌, codes, get_elem?, arith,
}
use mathlib.Core.List.{cons-ne-nil}
use kvm_cloud.Net.Socket.{connected}
use kvm_cloud.Std.Int.{pos}
use kvm_cloud.Std.Number.{stoi}
use kvm_cloud.Std.Text.{str_eq}
use kvm_cloud.Vm.Controller.{Node, cirros}
use kvm_cloud.Controller.{Handler, answer}
use kvm_cloud.Controller.Serving.{ServesTemplates, node_service}
use kvm_cloud.Manager.{ControllerRef, offered, advance_modulo}
use kvm_cloud.Manager.Turns.{turn}
use kvm_cloud.Manager.Service.{Publishes}
use kvm_cloud.Manager.Answering.{answer_client}
use kvm_cloud.Manager.Labels.{relabel}
use kvm_cloud.Manager.Catalog.{catalog, all_offers}
use kvm_cloud.Manager.Relay.{IsQuietClient}
use kvm_cloud.Manager.Hiring.{IsServed}
use kvm_cloud.Client.{Session, obey, created, template_rows}
use kvm_cloud.Client.Listing.{Cataloged, templates-Cataloged}
use kvm_cloud.Client.Creating.{wish, Placed, create-Placed}
use kvm_cloud.Tests.Machine.{machine}
use kvm_cloud.Tests.Making.{empty}
use kvm_cloud.Tests.Nodes.{both-IsByName, both-IsPrintable}
use kvm_cloud.Tests.Managers.{wheezy_link, names, named, alpha_serves}
use kvm_cloud.Tests.Remotes.{
  to, to-IsQuiet, behind, furnished, info_1001, info-HasInts, info-IsPrintable, made_1001, done,
}

abbrev nodes : ℕ → Node machine
nodes zero = wheezy_link.peer.node
nodes (suc n) = empty

abbrev on_two : Session (answer_client (answer machine))
on_two = record {
  link = record {
    socket = connected;
    peer = record {
      socket = connected;
      manager = record {
        controllers = named 0 wheezy_link ∷ named 1 (to empty) ∷ [];
        next_controller = 1;
      };
    };
  };
  printed = codes "> ";
}

on_two-IsQuiet : IsQuietClient (answer machine) on_two.link
on_two-IsQuiet = record {
  near = record { incoming = refl; outgoing = refl };
  far = record { incoming = refl; outgoing = refl };
}

empty_serves : ServesTemplates machine (to empty) empty
empty_serves = record {
  quiet = to-IsQuiet empty;
  node = refl;
  by_name = both-IsByName;
  printable = both-IsPrintable;
  some_templates = cons-ne-nil _ _;
}

on_two-Publishes : Publishes (node_service machine) names nodes on_two.link.peer.manager.controllers
on_two-Publishes = record { at_index = serving }
  where
    serving :
        (i : ℕ)
        → i < 2
        → (c : ControllerRef (Handler machine)) × (get_elem? on_two.link.peer.manager.controllers i
            ≡ some c)
          × (c.id ≡ names i)
          × ServesTemplates machine c.proxy (nodes i)
    serving zero h = (named 0 wheezy_link, refl, refl, alpha_serves)
    serving (suc zero) h = (named 1 (to empty), refl, refl, empty_serves)
    serving (suc (suc n)) h = absurd (omega arith)

beta_makes :
    IsServed machine names nodes
      (wish (codes "cirros") (pos 512) (pos 1))
      2
      1
      1
      cirros
      (info_1001 furnished)
      (behind furnished)
unfolding advance_modulo offered str_eq
beta_makes = record {
  early = omega arith;
  before = asked_before;
  offers = refl;
  makes = made_1001 furnished done;
  line = omega arith;
  printable = info-IsPrintable furnished;
  ints = info-HasInts furnished;
}
  where
    asked_before :
        (j : ℕ) → j < 1 → offered (codes "cirros") (nodes (turn 2 1 j)).controller.templates ≡ none
    asked_before zero h = refl
    asked_before (suc j) h = absurd (omega arith)

create-Placed_example :
    Placed machine names nodes
      (obey
        (answer_client (answer machine))
        (codes "new" ∷ codes "cirros" ∷ codes "512" ∷ codes "1" ∷ []))
      on_two
      (created (relabel (names (turn 2 1 1)) (info_1001 furnished)) ++ codes "\n> ")
      (turn 2 1 1)
      (behind furnished)
create-Placed_example =
    create-Placed machine names nodes (codes "cirros") (codes "512") (codes "1") [] (pos 512)
      (pos 1) on_two 1 cirros (info_1001 furnished) (behind furnished) on_two-IsQuiet
      on_two-Publishes (omega arith) (omega arith) (unfold stoi in refl) (unfold stoi in refl)
      beta_makes

templates-Cataloged_example :
    Cataloged machine names nodes
      (obey (answer_client (answer machine)) (codes "templates" ∷ []))
      on_two
      (template_rows (catalog (all_offers machine 2 nodes) []) ++ codes "\n> ")
templates-Cataloged_example =
    templates-Cataloged machine names nodes [] on_two on_two-IsQuiet on_two-Publishes (omega arith)
