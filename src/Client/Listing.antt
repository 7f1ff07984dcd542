-- ===== src/Client/Listing.antt =====
-- The client's commands `instances` and `templates`, on a proxy that is connected to the manager.
use kvm_cloud.Base.{
  ℕ, length, ◌<◌, [], ◌≡◌, refl, List, ◌∷◌, ◌++◌, append_assoc, Bytes, codes, All, ok,
}
use kvm_cloud.Base.Exec.{Exec}
use kvm_cloud.Std.Text.{str_eq}
use kvm_cloud.Std.Map.{StdMap, IsSorted}
use kvm_cloud.Std.Map.Keys.{bytes_order}
use kvm_cloud.Sys.Host.{Host}
use kvm_cloud.Vm.Template.{Template}
use kvm_cloud.Vm.InstanceInfo.{InstanceInfo}
use kvm_cloud.Vm.Controller.{Node}
use kvm_cloud.Vm.Proxy
use kvm_cloud.Vm.Proxy.{Answer, Link}
use kvm_cloud.Controller
use kvm_cloud.Manager.Answering.{answer_client}
use kvm_cloud.Manager.Relay.{IsQuietClient}
use kvm_cloud.Manager.Service.{Publishes}
use kvm_cloud.Controller.Serving.{node_service}
use kvm_cloud.Manager.Catalog.{catalog, all_offers}
use kvm_cloud.Manager.Offering
use kvm_cloud.Manager.Gathering.{IsReady, AllKept, DistinctIds, Shows}
use kvm_cloud.Manager.Passing.{IsOccupied, IsFullId, get_instances-Passed}
use kvm_cloud.Client.{Session, obey, interpret, instances, instance_rows, templates, template_rows}
use kvm_cloud.Client.Making.{table_head}
use kvm_cloud.Client.Orders.{obey-prompt}

module _ {P : Type 0} (answer : Answer P) where
  instances_lem :
      (more : List Bytes) (s : Session answer) (found : StdMap Bytes InstanceInfo) (l : Link P)
      → Proxy.get_instances answer s.link ≡ (ok found, l)
      → interpret answer (codes "instances") (codes "instances" ∷ more) s
        ≡ (ok tt, record { link = l; printed = s.printed ++ (table_head ++ instance_rows found) })
  unfolding interpret instances str_eq
  instances_lem more s found l e = rw (e, append_assoc)

  templates_lem :
      (more : List Bytes) (s : Session answer) (found : StdMap Bytes Template) (l : Link P)
      → Proxy.get_templates answer s.link ≡ (ok found, l)
      → interpret answer (codes "templates") (codes "templates" ∷ more) s
        ≡ (ok tt, record { link = l; printed = s.printed ++ template_rows found })
  unfolding interpret templates str_eq
  templates_lem more s found l e = rw e

module _ (h : Host) (names : ℕ → Bytes) (nodes : ℕ → Node h) where
  -- The session on the manager went on: this was printed, and the controllers serve what they served.
  pub record Cataloged (m : Exec (Session (answer_client (Controller.answer h))) (Unit {0}))
      (s : Session (answer_client (Controller.answer h))) (text : Bytes) : Type 0 where
    pub after : Session (answer_client (Controller.answer h))
    pub went_on : m s ≡ (ok tt, after)
    pub printed : after.printed ≡ s.printed ++ text
    pub complete :
        length after.link.peer.manager.controllers ≡ length s.link.peer.manager.controllers
    pub published : Publishes (node_service h) names nodes after.link.peer.manager.controllers
    pub turn : after.link.peer.manager.next_controller ≡ s.link.peer.manager.next_controller
    pub quiet : IsQuietClient (Controller.answer h) after.link

  -- A client is connected to a manager, the manager to at least one controller, each a node. The
  -- client's line "templates" prints a row for each entry of the map of all nodes' templates, in
  -- which a template of a later controller stands in place of one of the same name, and the prompt.
  -- The nodes and `nextController` are left as they were, and the connections quiet. The conditions:
  -- the connections are quiet, and each node has templates, filed under their own names in the order
  -- of the names, with fields that are non-empty and free of CR and LF.
  pub templates-Cataloged :
      (more : List Bytes) (s : Session (answer_client (Controller.answer h)))
      → IsQuietClient (Controller.answer h) s.link
      → Publishes (node_service h) names nodes s.link.peer.manager.controllers
      → 0 < length s.link.peer.manager.controllers
      → Cataloged (obey (answer_client (Controller.answer h)) (codes "templates" ∷ more)) s (
          template_rows (catalog (all_offers h (length s.link.peer.manager.controllers) nodes) [])
          ++ codes "\n> ")
  templates-Cataloged more s quiet published pos =
      let A = answer_client (Controller.answer h) in
      let c = Offering.get_templates-Cataloged h names nodes s.link quiet published pos in
      let found = catalog (all_offers h (length s.link.peer.manager.controllers) nodes) [] in
      record {
        after = record {
          link = c.after;
          printed = s.printed ++ (template_rows found ++ codes "\n> ");
        };
        went_on =
            obey-prompt A (codes "templates") more s (template_rows found) c.after
              (templates_lem A more s found c.after c.returned);
        printed = refl;
        complete = c.complete;
        published = c.published;
        turn = c.turn;
        quiet = c.quiet;
      }

module _ (h : Host) where
  -- The session on the manager went on: this was printed, and nothing else has changed.
  pub record Tabled (m : Exec (Session (answer_client (Controller.answer h))) (Unit {0}))
      (s : Session (answer_client (Controller.answer h))) (text : Bytes) : Type 0 where
    pub after : Session (answer_client (Controller.answer h))
    pub went_on : m s ≡ (ok tt, after)
    pub printed : after.printed ≡ s.printed ++ text
    pub controllers : AllKept h s.link.peer.manager.controllers after.link.peer.manager.controllers
    pub turn : after.link.peer.manager.next_controller ≡ s.link.peer.manager.next_controller
    pub quiet : IsQuietClient (Controller.answer h) after.link

  -- A client is connected to a manager, the manager to nodes. The client's line "instances" prints
  -- the head of the table, a row for each entry of a map in the order of its keys, and the prompt.
  -- Each key of the map is the full id of an `int` at one of the controllers; and under the full id
  -- of each `int` at each controller, the map has the description of the node's instance with that
  -- id, given that full id, and nothing if there is none. Every node, the rest of every controller
  -- and `nextController` are left as before, and all connections quiet. The conditions: all
  -- connections are quiet; the nodes' controllers are well-formed; the controllers' names are
  -- non-empty, free of CR and LF, without a slash and distinct; and some node has an instance.
  pub instances-Tabled :
      (more : List Bytes) (s : Session (answer_client (Controller.answer h)))
      → All (IsReady h) s.link.peer.manager.controllers
      → IsQuietClient (Controller.answer h) s.link
      → DistinctIds h s.link.peer.manager.controllers
      → IsOccupied h s.link.peer.manager.controllers
      → (found : StdMap Bytes InstanceInfo) × IsSorted found
        × All (λ e. IsFullId h s.link.peer.manager.controllers e.0) found
        × All (Shows h found) s.link.peer.manager.controllers
        × Tabled
            (obey (answer_client (Controller.answer h)) (codes "instances" ∷ more))
            s
            ((table_head ++ instance_rows found) ++ codes "\n> ")
  instances-Tabled more s ready quiet distinct occupied =
      let A = answer_client (Controller.answer h) in
      let (found, sorted, keys, shows, c) =
        get_instances-Passed h s.link ready quiet distinct occupied in
      let text = (table_head ++ instance_rows found) ++ codes "\n> " in
      (
        found,
        sorted,
        keys,
        shows,
        record {
          after = record { link = c.after; printed = s.printed ++ text };
          went_on =
              obey-prompt A (codes "instances") more s (table_head ++ instance_rows found) c.after
                (instances_lem A more s found c.after c.returned);
          printed = refl;
          controllers = c.controllers;
          turn = c.turn;
          quiet = c.quiet;
        },
      )
