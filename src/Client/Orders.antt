-- ===== src/Client/Orders.antt =====
-- The client's commands `run` and `kill`, on a proxy that is connected to a node or to the manager.
use kvm_cloud.Base.{
  ◌≡◌, ◌≢◌, refl, ap, ◌∙◌, Bool, List, ◌∷◌, ◌++◌, append_assoc, Bytes, codes, All, Lacks, ok,
}
use kvm_cloud.Base.Exec.{Exec, >>=-ok}
use kvm_cloud.Net.Stream.Frames.{IsLine}
use kvm_cloud.Std.Text.{str_eq}
use kvm_cloud.Sys.Host.{Host}
use kvm_cloud.Vm.Controller.{Node}
use kvm_cloud.Vm.Proxy
use kvm_cloud.Vm.Proxy.{Answer, Link}
use kvm_cloud.Controller
use kvm_cloud.Controller.Replies.{attempt}
use kvm_cloud.Controller.Remote.{IsQuiet}
use kvm_cloud.Controller.Remote.Orders.{Order, word, remote, method}
use kvm_cloud.Manager.{ControllerRef, make_full_id}
use kvm_cloud.Manager.Answering.{answer_client}
use kvm_cloud.Manager.Relay.{IsQuietClient, remote-Obeyed}
use kvm_cloud.Client.{Session, obey, interpret, control, shown}
use kvm_cloud.Client.Calls.{Showed, run-Showed, kill-Showed}

module _ {P : Type 0} (answer : Answer P) where
  control_lem :
      (call : Bytes → Exec (Link P) Bool) (head text : Bytes) (more : List Bytes)
      (s : Session answer) (b : Bool) (l : Link P)
      → call text s.link ≡ (ok b, l)
      → control answer call (head ∷ text ∷ more) s
        ≡ (ok tt, record { link = l; printed = s.printed ++ shown answer b })
  unfolding control
  control_lem call head text more s b l e = rw e

  interpret_lem :
      (o : Order) (text : Bytes) (more : List Bytes) (s : Session answer) (b : Bool) (l : Link P)
      → remote answer o text s.link ≡ (ok b, l)
      → interpret answer (word o) (word o ∷ text ∷ more) s
        ≡ (ok tt, record { link = l; printed = s.printed ++ shown answer b })
  unfolding interpret str_eq
  interpret_lem Order.run text more s b l e =
      control_lem (Proxy.run answer) (codes "run") text more s b l e
  interpret_lem Order.kill text more s b l e =
      control_lem (Proxy.kill answer) (codes "kill") text more s b l e

  -- the prompt behind a line
  pub obey-prompt :
      (cmd : Bytes) (more : List Bytes) (s : Session answer) (text : Bytes) (l : Link P)
      → interpret answer cmd (cmd ∷ more) s
        ≡ (ok tt, record { link = l; printed = s.printed ++ text })
      → obey answer (cmd ∷ more) s
        ≡ (ok tt, record { link = l; printed = s.printed ++ (text ++ codes "\n> ") })
  unfolding obey
  obey-prompt cmd more s text l e =
      >>=-ok (interpret answer cmd (cmd ∷ more)) _ e
      ∙ ap (λ p. (ok tt, record { link = l; printed = p }))
          (append_assoc s.printed text (codes "\n> "))

module _ (h : Host) where
  -- On a quiet connection to a node, the client's line "run" or "kill" with a non-empty text free of
  -- CR and LF prints OK if the node's method returns true on the number that the text names. It
  -- prints ERROR if that returns false or throws or the text names no `int`, and the prompt in each
  -- case. The node is left in the state of that attempt, and the connection quiet. The attempt has
  -- to end, without undefined behaviour.
  pub order-Showed :
      (o : Order) (text : Bytes) (more : List Bytes) (s : Session (Controller.answer h)) (b : Bool)
      (n : Node h)
      → IsQuiet h s.link
      → IsLine text
      → attempt h (method h o) text s.link.peer.node ≡ (ok b, n)
      → Showed h
          (obey (Controller.answer h) (word o ∷ text ∷ more))
          s
          (shown (Controller.answer h) b ++ codes "\n> ")
          n
  order-Showed Order.run text more s b n quiet valid e = run-Showed h text more s b n quiet valid e
  order-Showed Order.kill text more s b n quiet valid e =
      kill-Showed h text more s b n quiet valid e

  -- The session on the manager went on: this was printed; the named node is left as `n`; and the
  -- manager has the other controllers as before.
  pub record Passed (m : Exec (Session (answer_client (Controller.answer h))) (Unit {0}))
      (s : Session (answer_client (Controller.answer h))) (text : Bytes)
      (before behind : List (ControllerRef (Controller.Handler h)))
      (chosen : ControllerRef (Controller.Handler h)) (n : Node h) : Type 0 where
    pub after : Session (answer_client (Controller.answer h))
    pub went_on : m s ≡ (ok tt, after)
    pub printed : after.printed ≡ s.printed ++ text
    pub proxy : Link (Controller.Handler h)
    pub node : proxy.peer.node ≡ n
    pub near : IsQuiet h proxy
    pub controllers :
        after.link.peer.manager.controllers ≡ before ++ record chosen { proxy = proxy } ∷ behind
    pub turn : after.link.peer.manager.next_controller ≡ s.link.peer.manager.next_controller
    pub quiet : IsQuietClient (Controller.answer h) after.link

  -- A client is connected to a manager, the manager to nodes. The client's line "run" or "kill" with
  -- the full id of a controller's name and a text prints OK if the method of that controller's node
  -- returns true on the number that the text names, and ERROR if that returns false or throws or the
  -- text names no `int`, and the prompt in each case. The node is left in the state of that attempt;
  -- the manager has the other controllers and `nextController` as before; and both connections are
  -- left quiet. The conditions: both connections are quiet; the name and the text are non-empty and
  -- free of CR and LF, and the name has no slash; no controller listed before has the same name; and
  -- the attempt ends, without undefined behaviour.
  pub order-Passed :
      (o : Order) (name id : Bytes) (more : List Bytes)
      (s : Session (answer_client (Controller.answer h))) (b : Bool)
      (before behind : List (ControllerRef (Controller.Handler h)))
      (chosen : ControllerRef (Controller.Handler h)) (n : Node h)
      → IsLine name
      → IsLine id
      → Lacks b'/' name
      → IsQuietClient (Controller.answer h) s.link
      → s.link.peer.manager.controllers ≡ before ++ chosen ∷ behind
      → All (λ c. c.id ≢ name) before
      → chosen.id ≡ name
      → IsQuiet h chosen.proxy
      → attempt h (method h o) id chosen.proxy.peer.node ≡ (ok b, n)
      → Passed
          (obey (answer_client (Controller.answer h)) (word o ∷ make_full_id name id ∷ more))
          s
          (shown (answer_client (Controller.answer h)) b ++ codes "\n> ")
          before
          behind
          chosen
          n
  order-Passed o name id more s b before behind chosen n name_line id_line plain quiet listed others
        named near e =
      let r =
        remote-Obeyed h o name id b s.link before behind chosen n name_line id_line plain quiet
          listed others named near e in
      let relayed = r.relayed in
      record {
        after = record {
          link = relayed.after;
          printed = s.printed ++ (shown (answer_client (Controller.answer h)) b ++ codes "\n> ");
        };
        went_on =
            obey-prompt (answer_client (Controller.answer h)) (word o) (make_full_id name id ∷ more)
              s (shown (answer_client (Controller.answer h)) b) relayed.after
              (interpret_lem (answer_client (Controller.answer h)) o (make_full_id name id) more s b
                relayed.after relayed.returned);
        printed = refl;
        proxy = r.proxy;
        node = r.node;
        near = r.quiet;
        controllers = relayed.controllers;
        turn = relayed.turn;
        quiet = relayed.quiet;
      }
