-- ===== src/Client/Blank.antt =====
-- The client's commands `run` and `kill` with a full id that has no id behind the slash, on the manager.
use kvm_cloud.Base.{◌≡◌, ◌≢◌, List, [], ◌∷◌, ◌++◌, Bytes, All, Lacks, err, undefined}
use kvm_cloud.Net.Stream.Frames.{IsLine}
use kvm_cloud.Std.Text.{str_eq}
use kvm_cloud.Sys.Host.{Host}
use kvm_cloud.Vm.Proxy.{Answer}
use kvm_cloud.Controller
use kvm_cloud.Controller.Remote.{IsQuiet}
use kvm_cloud.Controller.Remote.Orders.{Order, word, remote}
use kvm_cloud.Controller.Remote.Blank.{remote-undefined}
use kvm_cloud.Manager.{ControllerRef, make_full_id}
use kvm_cloud.Manager.Answering.{answer_client}
use kvm_cloud.Manager.Relay.{IsQuietClient, blank_id-IsLine}
use kvm_cloud.Manager.Blank.{remote-stopped}
use kvm_cloud.Client.{Session, obey, interpret, control}

module _ {P : Type 0} (answer : Answer P) where
  -- undefined behaviour is not caught
  obey-undefined :
      (o : Order) (text : Bytes) (more : List Bytes) (s : Session answer)
      → (remote answer o text s.link).0 ≡ err undefined
      → (obey answer (word o ∷ text ∷ more) s).0 ≡ err undefined
  unfolding obey interpret control str_eq
  obey-undefined Order.run text more s e = rw e
  obey-undefined Order.kill text more s e = rw e

module _ (h : Host) where
  -- A client is connected to a manager, the manager to nodes. The client's line "run" or "kill" with
  -- a full id that has a controller's name before the slash and nothing behind it leads to undefined
  -- behaviour: the node of that controller gets the command without an id, and reads behind the end
  -- of a vector. The conditions: both connections are quiet; the name is non-empty and free of CR
  -- and LF, and has no slash; and no controller listed before has the same name.
  pub blank_id_undefined :
      (o : Order) (name : Bytes) (more : List Bytes)
      (s : Session (answer_client (Controller.answer h)))
      (before behind : List (ControllerRef (Controller.Handler h)))
      (chosen : ControllerRef (Controller.Handler h))
      → IsLine name
      → Lacks b'/' name
      → IsQuietClient (Controller.answer h) s.link
      → s.link.peer.manager.controllers ≡ before ++ chosen ∷ behind
      → All (λ c. c.id ≢ name) before
      → chosen.id ≡ name
      → IsQuiet h chosen.proxy
      → (obey (answer_client (Controller.answer h)) (word o ∷ make_full_id name [] ∷ more) s).0
        ≡ err undefined
  blank_id_undefined o name more s before behind chosen line plain quiet listed others named near =
      obey-undefined (answer_client (Controller.answer h)) o (make_full_id name []) more s (
        remote-stopped (Controller.answer h) o name [] undefined s.link (blank_id-IsLine name line)
          plain quiet
          (record {
            before = before;
            chosen = chosen;
            behind = behind;
            listed = listed;
            others = others;
            named = named;
            stops = remote-undefined h o chosen.proxy near;
          }))
