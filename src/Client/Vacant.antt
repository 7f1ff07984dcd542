-- ===== src/Client/Vacant.antt =====
-- The client's command `instances` on the manager when no node has an instance.
use kvm_cloud.Base.{
  ◌≡◌, List, ◌∷◌, Bytes, codes, All, ok, err, blocked, ◌==◌, if◌then◌else◌, Bool-cases, inl, inr,
}
use kvm_cloud.Std.Text.{str_eq}
use kvm_cloud.Sys.Host.{Host}
use kvm_cloud.Controller
use kvm_cloud.Manager.Answering.{answer_client}
use kvm_cloud.Manager.Relay.{IsQuietClient}
use kvm_cloud.Manager.Gathering.{IsReady}
use kvm_cloud.Manager.Vacant.{IsVacant, get_instances-Vacant}
use kvm_cloud.Client.{Session, obey, interpret, instances}

module _ (h : Host) where
  -- A client is connected to a manager, the manager to nodes, none of which has an instance. The
  -- client's line "instances" ends normally if the manager's socket has written nothing before; else
  -- the client waits for a reply that does not come. The conditions: the connections are quiet, the
  -- nodes' controllers are well-formed, and the controllers' names are non-empty, free of CR and LF,
  -- and without a slash.
  pub instances-Vacant :
      (more : List Bytes) (s : Session (answer_client (Controller.answer h)))
      → All (IsReady h) s.link.peer.manager.controllers
      → IsQuietClient (Controller.answer h) s.link
      → All (IsVacant h) s.link.peer.manager.controllers
      → (obey (answer_client (Controller.answer h)) (codes "instances" ∷ more) s).0
        ≡ (if s.link.peer.socket.write_count == 0 then ok tt else err blocked)
  unfolding obey interpret instances str_eq
  instances-Vacant more s ready quiet vacant =
      let got = get_instances-Vacant h s.link ready vacant quiet in
      elim (Bool-cases (s.link.peer.socket.write_count == 0)) [
        | inl first ↦ rw (got, first)
        | inr again ↦ rw (got, again)
      ]
