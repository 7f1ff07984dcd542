-- ===== src/Manager/Blank.antt =====
-- `run` and `kill` of the manager of src/manager.cpp, when the call on the named controller stops.
use kvm_cloud.Base.{
  ◌≡◌, ◌≢◌, ap, ◌∙◌, Bool, List, [], ◌∷◌, ◌++◌, Bytes, codes, All, Lacks, Error, err, arith,
}
use mathlib.Core.List.{cons-ne-nil}
use kvm_cloud.Base.Exec.{Exec}
use kvm_cloud.Net.Stream.Frames.{IsLine}
use kvm_cloud.Net.Socket.{write}
use kvm_cloud.Net.Socket.Pending.{IsIdle-Pending, write-Pending}
use kvm_cloud.Std.Text.{str_eq, str_eq_refl}
use kvm_cloud.Vm.Proxy
use kvm_cloud.Vm.Proxy.{Answer, Link, verdict}
use kvm_cloud.Vm.Proxy.Calls.{call-stopped}
use kvm_cloud.Controller.Remote.Orders.{Order, remote}
use kvm_cloud.Manager.{
  ControllerRef, Handler, make_full_id, on_proxy, control_named, control, dispatch,
}
use kvm_cloud.Manager.Ids.{extract_id_parts-make_full_id}
use kvm_cloud.Manager.Named.{Unnamed, other_name}
use kvm_cloud.Manager.Answering.{answer_client, drained, answer_client-stopped}
use kvm_cloud.Manager.Relay.{IsQuietClient}

module _ {P : Type 0} (answer : Answer P) where
  -- The call on the controller that is named stops.
  pub record Stops (o : Order) (name id : Bytes) (e : Error) (cs : List (ControllerRef P))
      : Type 0 where
    pub before : List (ControllerRef P)
    pub chosen : ControllerRef P
    pub behind : List (ControllerRef P)
    pub listed : cs ≡ before ++ chosen ∷ behind
    pub others : All (λ c. c.id ≢ name) before
    pub named : chosen.id ≡ name
    pub stops : (remote answer o id chosen.proxy).0 ≡ err e

  module _ (method : Bytes → Exec (Link P) Bool) where
    control_named-stopped :
        (name id : Bytes) (before after : List (ControllerRef P)) (c : ControllerRef P) (e : Error)
        → Unnamed answer method name before
        → c.id ≡ name
        → (method id c.proxy).0 ≡ err e
        → control_named answer method (name, id) (before ++ c ∷ after) ≡ err e
    unfolding control_named on_proxy
    control_named-stopped name id [] after c e h named stops =
        rw (ap (λ i. str_eq i name) named ∙ str_eq_refl name, stops, control_named, on_proxy)
    control_named-stopped name id (d ∷ before) after c e h named stops = rw (
      other_name d.id name h.0,
      control_named-stopped name id before after c e h.1 named stops,
      control_named,
    )

    control-stopped :
        (cmd name id : Bytes) (more : List Bytes) (p : Handler answer)
        (before after : List (ControllerRef P)) (c : ControllerRef P) (e : Error)
        → Lacks b'/' name
        → p.manager.controllers ≡ before ++ c ∷ after
        → Unnamed answer method name before
        → c.id ≡ name
        → (method id c.proxy).0 ≡ err e
        → control answer method (cmd ∷ make_full_id name id ∷ more) p ≡ err e
    unfolding control
    control-stopped cmd name id more p before after c e plain listed h named stops = rw (
      extract_id_parts-make_full_id name id plain,
      listed,
      control_named-stopped name id before after c e h named stops,
    )

  pub remote-stopped :
      (o : Order) (name id : Bytes) (e : Error) (l : Link (Handler answer))
      → IsLine (make_full_id name id)
      → Lacks b'/' name
      → IsQuietClient answer l
      → Stops o name id e l.peer.manager.controllers
      → (remote (answer_client answer) o (make_full_id name id) l).0 ≡ err e
  unfolding Proxy.run Proxy.kill dispatch str_eq
  remote-stopped Order.run name id e l line plain quiet s =
      call-stopped (answer_client answer)
        (λ k. write (write k (codes "run")) (make_full_id name id)) verdict l
        (codes "run" ∷ make_full_id name id ∷ []) e
        (write-Pending (write-Pending (IsIdle-Pending quiet.near) (codes "run"))
          (make_full_id name id))
        (cons-ne-nil (codes "run") _)
        (answer_client-stopped answer l.peer (codes "run") (make_full_id name id ∷ []) e
          quiet.far.incoming (omega arith, (line, tt))
          (control-stopped (Proxy.run answer) (codes "run") name id [] (drained answer l.peer)
            s.before s.behind s.chosen e plain s.listed s.others s.named s.stops))
  remote-stopped Order.kill name id e l line plain quiet s =
      call-stopped (answer_client answer)
        (λ k. write (write k (codes "kill")) (make_full_id name id)) verdict l
        (codes "kill" ∷ make_full_id name id ∷ []) e
        (write-Pending (write-Pending (IsIdle-Pending quiet.near) (codes "kill"))
          (make_full_id name id))
        (cons-ne-nil (codes "kill") _)
        (answer_client-stopped answer l.peer (codes "kill") (make_full_id name id ∷ []) e
          quiet.far.incoming (omega arith, (line, tt))
          (control-stopped (Proxy.kill answer) (codes "kill") name id [] (drained answer l.peer)
            s.before s.behind s.chosen e plain s.listed s.others s.named s.stops))
