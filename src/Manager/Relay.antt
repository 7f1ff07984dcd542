-- ===== src/Manager/Relay.antt =====
-- A proxy of src/Vm/ControllerProxy.hpp that is connected to the manager of src/manager.cpp: `run` and
-- `kill` of a full id act on the node that the id names, and on no other.
use kvm_cloud.Base.{
  ◌≡◌, ◌≢◌, refl, ◌∙◌, Bool, List, [], ◌∷◌, ◌++◌, Bytes, codes, All, All-append, Lacks, ok, arith,
}
use mathlib.Core.List.{cons-ne-nil}
use kvm_cloud.Base.Exec.{Exec}
use kvm_cloud.Net.Stream.Frames.{IsLine, IsPlain, read-frame}
use kvm_cloud.Net.Socket.{write, send}
use kvm_cloud.Net.Socket.Pending.{IsIdle, IsIdle-Pending, write-Pending, send-Pending}
use kvm_cloud.Std.Int.{from_bool}
use kvm_cloud.Std.Number.{to_string}
use kvm_cloud.Std.Text.{str_eq}
use kvm_cloud.Sys.Host.{Host}
use kvm_cloud.Vm.Controller.{Node}
use kvm_cloud.Vm.Proxy
use kvm_cloud.Vm.Proxy.{Answer, Link, verdict}
use kvm_cloud.Vm.Proxy.Calls.{call, call-answered, settled}
use kvm_cloud.Controller
use kvm_cloud.Controller.Replies.{attempt}
use kvm_cloud.Controller.Remote.{IsQuiet}
use kvm_cloud.Controller.Remote.Orders.{Order, remote, method, remote-Returns}
use kvm_cloud.Vm.Proxy.Decode.{verdict-from_bool, flag-IsLine}
use kvm_cloud.Manager.{ControllerRef, Handler, make_full_id, control, dispatch}
use kvm_cloud.Manager.Named.{Unnamed, control-make_full_id}
use kvm_cloud.Manager.Answering.{answer_client, drained, replied, dispatch-Answers}

IsLine-All : (text : Bytes) → IsLine text → All IsPlain text
IsLine-All [] h = absurd h
IsLine-All (c ∷ text) h = h

append-IsLine : (s t : Bytes) → IsLine s → All IsPlain t → IsLine (s ++ t)
append-IsLine [] t h a = absurd h
append-IsLine (c ∷ s) t h a = All-append IsPlain (c ∷ s) t h a

pub make_full_id-IsLine :
    (name id : Bytes) → IsLine name → IsLine id → IsLine (make_full_id name id)
unfolding make_full_id
make_full_id-IsLine name id n i =
    append-IsLine (name ++ codes "/") id (append-IsLine name (codes "/") n (omega arith))
      (IsLine-All id i)

-- a full id without an id
pub blank_id-IsLine : (name : Bytes) → IsLine name → IsLine (make_full_id name [])
unfolding make_full_id
blank_id-IsLine name n =
    append-IsLine (name ++ codes "/") [] (append-IsLine name (codes "/") n (omega arith)) tt

module _ {P : Type 0} (answer : Answer P) where
  -- Both sockets of the connection to the manager are idle.
  pub record IsQuietClient (l : Link (Handler answer)) : Type 0 where
    pub near : IsIdle l.socket
    pub far : IsIdle l.peer.socket

  -- the call on one of the controllers, whose name and id are these
  pub record Asked (method : Bytes → Exec (Link P) Bool) (cs : List (ControllerRef P))
      (name id : Bytes) (b : Bool) (l : Link P) : Type 0 where
    pub before : List (ControllerRef P)
    pub chosen : ControllerRef P
    pub behind : List (ControllerRef P)
    pub listed : cs ≡ before ++ chosen ∷ behind
    pub others : Unnamed answer method name before
    pub named : chosen.id ≡ name
    pub called : method id chosen.proxy ≡ (ok b, l)

  -- The remote call returned, the chosen controller's link is as the call on it left it, and nothing
  -- else has changed.
  pub record Relayed (m : Exec (Link (Handler answer)) Bool) (l : Link (Handler answer)) (b : Bool)
      (cs : List (ControllerRef P)) : Type 0 where
    pub after : Link (Handler answer)
    pub returned : m l ≡ (ok b, after)
    pub controllers : after.peer.manager.controllers ≡ cs
    pub turn : after.peer.manager.next_controller ≡ l.peer.manager.next_controller
    pub quiet : IsQuietClient after

  module _ (method : Bytes → Exec (Link P) Bool) (cmd : Bytes)
      (branch : (commands : List Bytes) (p : Handler answer)
        → dispatch answer cmd commands p ≡ control answer method commands p) where
    pub relay :
        (name id : Bytes) (b : Bool) (l : Link (Handler answer)) (l' : Link P)
        → IsLine cmd
        → IsLine name
        → IsLine id
        → Lacks b'/' name
        → IsQuietClient l
        → (a : Asked method l.peer.manager.controllers name id b l')
        → Relayed
            (call (answer_client answer) (λ s. write (write s cmd) (make_full_id name id)) verdict)
            l
            b
            (a.before ++ record a.chosen { proxy = l' } ∷ a.behind)
    relay name id b l l' cmd_line name_line id_line plain quiet a =
        let full = make_full_id name id in
        let p = drained answer l.peer in
        let cs = a.before ++ record a.chosen { proxy = l' } ∷ a.behind in
        let q : Handler answer = record {
          socket = write p.socket (to_string (from_bool b));
          manager = record p.manager { controllers = cs };
        } in
        let pending =
          write-Pending (IsIdle-Pending (record { incoming = refl; outgoing = quiet.far.outgoing }))
            (to_string (from_bool b)) in
        record {
          after =
              settled (answer_client answer) (send (write (write l.socket cmd) full))
                (replied answer q);
          returned =
              call-answered (answer_client answer) (λ s. write (write s cmd) full) verdict l
                (cmd ∷ full ∷ []) (to_string (from_bool b) ∷ []) (replied answer q) b
                (write-Pending (write-Pending (IsIdle-Pending quiet.near) cmd) full)
                (cons-ne-nil cmd _)
                (dispatch-Answers answer l.peer q cmd (full ∷ []) (to_string (from_bool b) ∷ [])
                  (to_string (from_bool b) ∷ []) quiet.far.incoming
                  (cmd_line, (make_full_id-IsLine name id name_line id_line, tt))
                  (branch _ p
                    ∙ control-make_full_id answer method cmd name id [] p a.before a.behind a.chosen
                        b l' plain a.listed a.others a.named a.called)
                  pending (cons-ne-nil _ [])
                  (read-frame (to_string (from_bool b) ∷ []) [] (cons-ne-nil _ [])
                    (flag-IsLine b, tt)))
                (verdict-from_bool b);
          controllers = refl;
          turn = refl;
          quiet = record {
            near = record { incoming = refl; outgoing = refl };
            far = record {
              incoming = (send-Pending pending (cons-ne-nil _ [])).0;
              outgoing = refl;
            };
          };
        }

  pub remote-Relayed :
      (o : Order) (name id : Bytes) (b : Bool) (l : Link (Handler answer)) (l' : Link P)
      → IsLine name
      → IsLine id
      → Lacks b'/' name
      → IsQuietClient l
      → (a : Asked (remote answer o) l.peer.manager.controllers name id b l')
      → Relayed
          (remote (answer_client answer) o (make_full_id name id))
          l
          b
          (a.before ++ record a.chosen { proxy = l' } ∷ a.behind)
  unfolding Proxy.run Proxy.kill dispatch str_eq
  remote-Relayed Order.run name id b l l' name_line id_line plain quiet a =
      relay (Proxy.run answer) (codes "run") (λ commands p. refl) name id b l l' (omega arith)
        name_line id_line plain quiet a
  remote-Relayed Order.kill name id b l l' name_line id_line plain quiet a =
      relay (Proxy.kill answer) (codes "kill") (λ commands p. refl) name id b l l' (omega arith)
        name_line id_line plain quiet a

-- A manager whose controllers are nodes.
module _ (h : Host) where
  -- The order acted on the node that is named, as on the node alone, and on nothing else.
  pub record Obeyed (m : Exec (Link (Handler (Controller.answer h))) Bool)
      (l : Link (Handler (Controller.answer h))) (b : Bool)
      (before behind : List (ControllerRef (Controller.Handler h)))
      (chosen : ControllerRef (Controller.Handler h)) (n : Node h) : Type 0 where
    pub proxy : Link (Controller.Handler h)
    pub node : proxy.peer.node ≡ n
    pub quiet : IsQuiet h proxy
    pub relayed :
        Relayed (Controller.answer h) m l b (before ++ record chosen { proxy = proxy } ∷ behind)

  pub remote-Obeyed :
      (o : Order) (name id : Bytes) (b : Bool) (l : Link (Handler (Controller.answer h)))
      (before behind : List (ControllerRef (Controller.Handler h)))
      (chosen : ControllerRef (Controller.Handler h)) (n : Node h)
      → IsLine name
      → IsLine id
      → Lacks b'/' name
      → IsQuietClient (Controller.answer h) l
      → l.peer.manager.controllers ≡ before ++ chosen ∷ behind
      → All (λ c. c.id ≢ name) before
      → chosen.id ≡ name
      → IsQuiet h chosen.proxy
      → attempt h (method h o) id chosen.proxy.peer.node ≡ (ok b, n)
      → Obeyed
          (remote (answer_client (Controller.answer h)) o (make_full_id name id))
          l
          b
          before
          behind
          chosen
          n
  remote-Obeyed o name id b l before behind chosen n name_line id_line plain quiet listed others
        named near e =
      let r = remote-Returns h o chosen.proxy id b n near id_line e in
      record {
        proxy = r.after;
        node = r.node;
        quiet = r.quiet;
        relayed =
            remote-Relayed (Controller.answer h) o name id b l r.after name_line id_line plain quiet
              (record {
                before = before;
                chosen = chosen;
                behind = behind;
                listed = listed;
                others = others;
                named = named;
                called = r.returned;
              });
      }
