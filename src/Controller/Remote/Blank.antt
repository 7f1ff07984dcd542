-- ===== src/Controller/Remote/Blank.antt =====
-- `run` and `kill` of a proxy of src/Vm/ControllerProxy.hpp with an empty id, on a handler of
-- src/controller.cpp: the empty line ends the message, so the handler gets the command alone.
use kvm_cloud.Base.{◌≡◌, refl, ap, ◌∙◌, [], ◌∷◌, ◌++◌, codes, err, ok, undefined, arith}
use mathlib.Core.List.{cons-ne-nil}
use kvm_cloud.Net.Stream
use kvm_cloud.Net.Stream.Frames.{IsLine, frame, read-frame}
use kvm_cloud.Net.Socket
use kvm_cloud.Net.Socket.{write}
use kvm_cloud.Net.Socket.Pending.{IsIdle-Pending, write-Pending}
use kvm_cloud.Std.Text.{str_eq}
use kvm_cloud.Sys.Host.{Host}
use kvm_cloud.Vm.Proxy
use kvm_cloud.Vm.Proxy.{Link, verdict}
use kvm_cloud.Vm.Proxy.Calls.{call-stopped}
use kvm_cloud.Controller.{Handler, answer, serve, read_commands, dispatch, control}
use kvm_cloud.Controller.Remote.{IsQuiet}
use kvm_cloud.Controller.Remote.Orders.{Order, word, remote}

module _ (h : Host) where
  word-IsLine : (o : Order) → IsLine (word o)
  word-IsLine Order.run = omega arith
  word-IsLine Order.kill = omega arith

  -- the handler reads `commands[1]`, which is not there
  dispatch-undefined :
      (o : Order) (p : Handler h) → (dispatch h (word o) (word o ∷ []) p).0 ≡ err undefined
  unfolding dispatch control str_eq
  dispatch-undefined Order.run p = refl
  dispatch-undefined Order.kill p = refl

  answer-undefined :
      (o : Order) (p : Handler h)
      → p.socket.incoming ≡ []
      → answer h p (frame (word o ∷ [] ∷ []) []) ≡ err undefined
  unfolding answer serve read_commands Socket.read
  answer-undefined o p none_in =
      let reads : Stream.read (p.socket.incoming ++ frame (word o ∷ [] ∷ []) [])
          ≡ ok (word o ∷ [], b'\r' ∷ b'\n' ∷ []) =
        ap (λ i. Stream.read (i ++ frame (word o ∷ [] ∷ []) [])) none_in
        ∙ read-frame (word o ∷ []) (b'\r' ∷ b'\n' ∷ []) (cons-ne-nil (word o) [])
            (word-IsLine o, tt) in
      rw (reads, dispatch-undefined o, answer, serve, read_commands, Socket.read)

  -- On a quiet connection, `run` and `kill` of the proxy with an empty id make the handler read
  -- `commands[1]` of a vector with one element.
  pub remote-undefined :
      (o : Order) (l : Link (Handler h))
      → IsQuiet h l
      → (remote (answer h) o [] l).0 ≡ err undefined
  unfolding Proxy.run Proxy.kill
  remote-undefined Order.run l quiet =
      call-stopped (answer h) (λ s. write (write s (codes "run")) []) verdict l
        (codes "run" ∷ [] ∷ []) undefined
        (write-Pending (write-Pending (IsIdle-Pending quiet.near) (codes "run")) [])
        (cons-ne-nil (codes "run") _) (answer-undefined Order.run l.peer quiet.far.incoming)
  remote-undefined Order.kill l quiet =
      call-stopped (answer h) (λ s. write (write s (codes "kill")) []) verdict l
        (codes "kill" ∷ [] ∷ []) undefined
        (write-Pending (write-Pending (IsIdle-Pending quiet.near) (codes "kill")) [])
        (cons-ne-nil (codes "kill") _) (answer-undefined Order.kill l.peer quiet.far.incoming)
