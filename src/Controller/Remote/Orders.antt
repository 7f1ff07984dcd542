-- ===== src/Controller/Remote/Orders.antt =====
-- `run` and `kill`, which the handlers, the proxy and the client treat alike: an order, the word that
-- stands for it on the connection, the method of src/Vm/Controller.hpp that it asks for, and the one
-- of src/Vm/ControllerProxy.hpp that asks.
use kvm_cloud.Base.{◌≡◌, Bool, Bytes, codes, ok}
use kvm_cloud.Base.Exec.{Exec}
use kvm_cloud.Net.Stream.Frames.{IsLine}
use kvm_cloud.Std.Int.{ℤ}
use kvm_cloud.Sys.Host.{Host}
use kvm_cloud.Vm.Controller.{Node}
use kvm_cloud.Vm.Controller.Methods
use kvm_cloud.Vm.Proxy
use kvm_cloud.Vm.Proxy.{Answer, Link}
use kvm_cloud.Controller.{Handler, answer}
use kvm_cloud.Controller.Replies.{attempt}
use kvm_cloud.Controller.Remote.{IsQuiet, Returns, run-Returns, kill-Returns}

pub data Order : Type 0 where
  run kill : Order

abbrev pub word : Order → Bytes
word Order.run = codes "run"
word Order.kill = codes "kill"

abbrev pub remote : {P : Type 0} → Answer P → Order → Bytes → Exec (Link P) Bool
remote answer Order.run = Proxy.run answer
remote answer Order.kill = Proxy.kill answer

module _ (h : Host) where
  abbrev pub method : Order → ℤ → Exec (Node h) Bool
  method Order.run = Methods.run h
  method Order.kill = Methods.kill h

  -- On a quiet connection and with a non-empty text free of CR and LF, `run` and `kill` of the proxy
  -- return what the node's method returns on the number that the text names, or false if the text
  -- names no `int` or the method throws. The node is left in the state of that attempt, and the
  -- connection quiet. The attempt has to end, without undefined behaviour.
  pub remote-Returns :
      (o : Order) (l : Link (Handler h)) (text : Bytes) (b : Bool) (n : Node h)
      → IsQuiet h l
      → IsLine text
      → attempt h (method o) text l.peer.node ≡ (ok b, n)
      → Returns h (remote (answer h) o text) l b n
  remote-Returns Order.run l text b n quiet valid e = run-Returns h l text b n quiet valid e
  remote-Returns Order.kill l text b n quiet valid e = kill-Returns h l text b n quiet valid e
