-- ===== src/Manager/Vacant.antt =====
-- A proxy of src/Vm/ControllerProxy.hpp that is connected to the manager of src/manager.cpp, whose
-- controllers are nodes without instances: `getInstances`.
use kvm_cloud.Base.{
  ◌≡◌, refl, sym, ap, ◌∙◌, List, [], ◌∷◌, ◌++◌, Bytes, codes, All, ok, err, blocked, ◌==◌,
  if◌then◌else◌, Bool-cases, inl, inr, ◌>>=◌, arith,
}
use mathlib.Core.List.{cons-ne-nil}
use mathlib.Core.Option.{some-ne-none}
use kvm_cloud.Net.Stream
use kvm_cloud.Net.Socket.{Socket, write, send}
use kvm_cloud.Net.Socket.Delivery.{read-send_empty}
use kvm_cloud.Net.Socket.Pending.{IsIdle-Pending, write-Pending}
use kvm_cloud.Std.Map.{StdMap, find}
use kvm_cloud.Std.Map.Keys.{bytes_order, int_order}
use kvm_cloud.Std.Text.{str_eq}
use kvm_cloud.Sys.Host.{Host}
use kvm_cloud.Vm.InstanceInfo.{InstanceInfo}
use kvm_cloud.Vm.Proxy
use kvm_cloud.Vm.Proxy.{Link, collect_instances}
use kvm_cloud.Vm.Proxy.Filing.{listing-All}
use kvm_cloud.Controller
use kvm_cloud.Manager.{ControllerRef, Handler, dispatch, write_infos}
use kvm_cloud.Manager.Answering.{answer_client, drained, replied, answer_client-sends}
use kvm_cloud.Vm.Proxy.Calls.{call-read}
use kvm_cloud.Manager.Relay.{IsQuietClient}
use kvm_cloud.Manager.Listing.{write_groups}
use kvm_cloud.Manager.Gathering.{IsReady, reply, groups, left, get_instances-left}

nothing-nil : (found : StdMap Bytes InstanceInfo) → All (λ e. ⊥) found → found ≡ []
nothing-nil [] a = refl
nothing-nil (e ∷ found) a = absurd a.0

module _ (h : Host) where
  -- the node has no instance
  abbrev pub IsVacant : ControllerRef (Controller.Handler h) → Type 0
  IsVacant c = c.proxy.peer.node.controller.instances ≡ []

  reply-nil :
      (c : ControllerRef (Controller.Handler h)) (r : IsReady h c)
      → IsVacant c
      → (reply h c r).0 ≡ []
  unfolding find
  reply-nil c r v = nothing-nil (reply h c r).0 (
      listing-All h c.proxy.peer.node.host (λ _ _. ⊥) c.proxy.peer.node.controller.instances
        (reply h c r).0 (reply h c r).1
        (λ id inst int e. some-ne-none inst (sym e ∙ ap (find id) v)))

  -- nothing is written
  write_groups-Vacant :
      (cs : List (ControllerRef (Controller.Handler h))) (a : All (IsReady h) cs) (s : Socket)
      → All IsVacant cs
      → write_groups (groups h cs a) s ≡ s
  unfolding write_infos
  write_groups-Vacant [] a s v = refl
  write_groups-Vacant (c ∷ cs) a s v =
      ap (λ m. write_groups (groups h cs a.1) (write_infos c.id m s)) (reply-nil c a.0 v.0)
      ∙ write_groups-Vacant cs a.1 s v.1

  module _ (l : Link (Handler (Controller.answer h)))
      (a : All (IsReady h) l.peer.manager.controllers)
      (v : All IsVacant l.peer.manager.controllers) where
    abbrev rested : Handler (Controller.answer h)
    rested = drained (Controller.answer h) l.peer

    abbrev asked : Handler (Controller.answer h)
    asked = record {
      socket = rested.socket;
      manager = record rested.manager { controllers = left h l.peer.manager.controllers a };
    }

    dispatch-Vacant :
        dispatch (Controller.answer h) (codes "getInstances") (codes "getInstances" ∷ []) rested
        ≡ ok asked
    unfolding dispatch str_eq
    dispatch-Vacant =
        ap
          (λ r. r >>= λ o.
            ok (record { socket = o.1; manager = record rested.manager { controllers = o.0 } }))
          (get_instances-left h l.peer.manager.controllers a rested.socket
            ∙ ap (λ s. ok (left h l.peer.manager.controllers a, s))
                (write_groups-Vacant l.peer.manager.controllers a rested.socket v))

    -- the reply, which is read as no line or not read at all
    read-reply :
        IsQuietClient (Controller.answer h) l
        → Stream.read (send rested.socket).outgoing
          ≡ (if l.peer.socket.write_count == 0 then ok ([], []) else err blocked)
    read-reply quiet =
        let (m, out, reads) = read-send_empty rested.socket in
        ap Stream.read (out ∙ ap (λ o. o ++ m) quiet.far.outgoing) ∙ reads

    pub get_instances-Vacant :
        IsQuietClient (Controller.answer h) l
        → (Proxy.get_instances (answer_client (Controller.answer h)) l).0
          ≡ (if l.peer.socket.write_count == 0 then ok [] else err blocked)
    unfolding Proxy.get_instances collect_instances
    get_instances-Vacant quiet =
        let A = Controller.answer h in
        let cmd = codes "getInstances" in
        let called =
          call-read (answer_client A) (λ s. write s cmd) (λ fields. collect_instances fields []) l
            (cmd ∷ []) (replied A asked) (send rested.socket).outgoing
            (write-Pending (IsIdle-Pending quiet.near) cmd) (cons-ne-nil cmd [])
            (answer_client-sends A l.peer asked cmd [] quiet.far.incoming (omega arith)
              dispatch-Vacant) in
        called
        ∙ ap (λ r. r >>= λ o. collect_instances o.0 []) (read-reply quiet)
        ∙ elim (Bool-cases (l.peer.socket.write_count == 0)) [
          | inl first ↦ rw first
          | inr again ↦ rw again
        ]
