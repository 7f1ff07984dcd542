-- ===== src/Manager/Creating.antt =====
-- A proxy of src/Vm/ControllerProxy.hpp that is connected to the manager of src/manager.cpp, whose
-- controllers are nodes: `instantiate` makes an instance on one of the nodes.
use kvm_cloud.Base.{ℕ, ◌<◌, ◌≡◌, refl, sym, some, [], ◌∷◌, Bytes, codes, ok, length, arith}
use mathlib.Core.List.{cons-ne-nil}
use mathlib.Core.Path.{subst}
use kvm_cloud.Net.Stream.Frames.{IsLine, read-frame}
use kvm_cloud.Net.Socket.{Socket, write, write_all, send}
use kvm_cloud.Net.Socket.Pending.{IsIdle-Pending, write-Pending, write_all-Pending, send-Pending}
use kvm_cloud.Std.Int.{ℤ, IsInt}
use kvm_cloud.Std.Text.{str_eq}
use kvm_cloud.Sys.Host.{Host}
use kvm_cloud.Vm.Template.{Template}
use kvm_cloud.Vm.InstanceInfo
use kvm_cloud.Vm.InstanceInfo.{InstanceInfo, HasInts}
use kvm_cloud.Vm.InstanceInfo.Lines.{serialize-IsLine, serialize-ne-nil, deserialize-reply}
use kvm_cloud.Vm.Controller.{Node}
use kvm_cloud.Vm.Proxy
use kvm_cloud.Vm.Proxy.{Link, wanted}
use kvm_cloud.Vm.Proxy.Calls.{call-answered, settled}
use kvm_cloud.Controller
use kvm_cloud.Controller.Serving.{node_service}
use kvm_cloud.Manager.{Manager, Handler, dispatch, find_controller, instantiate}
use kvm_cloud.Manager.Turns.{turn, turn-lt}
use kvm_cloud.Manager.Service.{Publishes}
use kvm_cloud.Manager.Rounds.{Handed}
use kvm_cloud.Manager.Search.{find_controller-Handed}
use kvm_cloud.Manager.Answering.{answer_client, drained, replied, dispatch-Answers}
use kvm_cloud.Manager.Relay.{IsQuietClient}
use kvm_cloud.Manager.Labels.{relabel}
use kvm_cloud.Manager.Listing.{relabel-HasInts, relabel-IsPrintable}
use kvm_cloud.Manager.Hiring.{IsServed, IsLeft, same_turn, found, left_by, left_by-IsLeft}

module _ (h : Host) (names : ℕ → Bytes) (nodes : ℕ → Node h) where
  -- The remote call returned the description under its full id, the controller at `i` is left with
  -- the node `n`, and the others with theirs.
  pub record Hired (l : Link (Handler (Controller.answer h))) (t : Template) (memory cpus : ℤ)
      (i : ℕ) (info : InstanceInfo) (n : Node h) : Type 0 where
    pub after : Link (Handler (Controller.answer h))
    pub returned :
        Proxy.instantiate (answer_client (Controller.answer h)) t memory cpus l
        ≡ (ok (relabel (names i) info), after)
    pub left :
        IsLeft h names nodes (length l.peer.manager.controllers) i n after.peer.manager.controllers
    pub at_turn : after.peer.manager.next_controller ≡ i
    pub quiet : IsQuietClient (Controller.answer h) after

  module _ (l : Link (Handler (Controller.answer h))) (t : Template) (memory cpus : ℤ) where
    abbrev request : InstanceInfo
    request = wanted (answer_client (Controller.answer h)) t memory cpus

    abbrev size : ℕ
    size = length l.peer.manager.controllers

    abbrev base : ℕ
    base = l.peer.manager.next_controller

    dispatch-instantiate :
        (info : InstanceInfo) (m : Manager (Controller.Handler h))
        (p : Handler (Controller.answer h))
        → HasInts request
        → find_controller (Controller.answer h) (length p.manager.controllers) request p.manager
          ≡ ok (some info, m)
        → dispatch
            (Controller.answer h)
            (codes "instantiate")
            (codes "instantiate" ∷ InstanceInfo.serialize request)
            p
          ≡ ok (record { socket = write_all p.socket (InstanceInfo.serialize info); manager = m })
    unfolding dispatch str_eq instantiate
    dispatch-instantiate info m p ints e = rw (deserialize-reply request ints, e)

    Handed-Hired :
        (r : Handed (node_service h) names nodes size size request l.peer.manager) (u : Template)
        (info : InstanceInfo) (n : Node h)
        → IsServed h names nodes request size base r.k u info n
        → IsQuietClient (Controller.answer h) l
        → IsLine t.name
        → IsInt memory
        → IsInt cpus
        → Hired l t memory cpus (turn size base r.k) info n
    unfolding Proxy.instantiate
    Handed-Hired r u info n s quiet name memory_int cpus_int =
        let A = Controller.answer h in
        let i = turn size base r.k in
        let p = drained A l.peer in
        let full = relabel (names i) info in
        let lines = InstanceInfo.serialize full in
        let ints = relabel-HasInts (names i) info s.ints in
        let printable = relabel-IsPrintable (names i) info s.line s.printable in
        let request_ints : HasInts request = record {
          memory = memory_int;
          cpus = cpus_int;
          ssh_port = omega arith;
        } in
        let m = left_by h names nodes request l.peer.manager r u info n s memory_int cpus_int in
        let q : Handler A = record { socket = write_all p.socket lines; manager = m } in
        let pending =
          write_all-Pending lines
            (IsIdle-Pending (record { incoming = refl; outgoing = quiet.far.outgoing })) in
        let ask : Socket → Socket =
          λ s. write_all (write s (codes "instantiate")) (InstanceInfo.serialize request) in
        record {
          after = settled (answer_client A) (send (ask l.socket)) (replied A q);
          returned =
              call-answered (answer_client A) ask InstanceInfo.deserialize l
                (codes "instantiate" ∷ InstanceInfo.serialize request) lines (replied A q) full
                (write_all-Pending (InstanceInfo.serialize request)
                  (write-Pending (IsIdle-Pending quiet.near) (codes "instantiate")))
                (cons-ne-nil (codes "instantiate") _)
                (dispatch-Answers A l.peer q (codes "instantiate") (InstanceInfo.serialize request)
                  lines lines quiet.far.incoming
                  (
                    omega arith,
                    serialize-IsLine request (record { id = omega arith; templ = name }),
                  )
                  (dispatch-instantiate full m p request_ints
                    (found h names nodes request l.peer.manager r u info n s memory_int cpus_int))
                  pending (serialize-ne-nil full)
                  (read-frame lines [] (serialize-ne-nil full) (serialize-IsLine full printable)))
                (deserialize-reply full ints);
          left =
              left_by-IsLeft h names nodes request l.peer.manager r u info n s memory_int cpus_int;
          at_turn = r.at_turn;
          quiet = record {
            near = record { incoming = refl; outgoing = refl };
            far = record {
              incoming = (send-Pending pending (serialize-ne-nil full)).0;
              outgoing = refl;
            };
          };
        }

    pub instantiate-Hired :
        (k : ℕ) (u : Template) (info : InstanceInfo) (n : Node h)
        → IsQuietClient (Controller.answer h) l
        → Publishes (node_service h) names nodes l.peer.manager.controllers
        → base < size
        → IsLine t.name
        → IsInt memory
        → IsInt cpus
        → IsServed h names nodes request size base k u info n
        → Hired l t memory cpus (turn size base k) info n
    instantiate-Hired k u info n quiet published fits name memory_int cpus_int s =
        let r =
          find_controller-Handed (node_service h) names nodes request l.peer.manager published
            (turn size base k) fits (turn-lt k size base (omega (arith, s.early))) s.offers in
        let same = same_turn h names nodes request l.peer.manager k u info n s r in
        subst (λ j. Hired l t memory cpus (turn size base j) info n) same
          (Handed-Hired r u info n
            (subst (λ j. IsServed h names nodes request size base j u info n) (sym same) s) quiet
            name memory_int cpus_int)
