-- ===== src/Controller/Remote.antt =====
-- A proxy of src/Vm/ControllerProxy.hpp that is connected to a handler of src/controller.cpp: each
-- remote call does on the node, and returns, what the method of src/Vm/Controller.hpp does.
pub mod Making
pub mod Listing
pub mod Orders
pub mod Blank
use kvm_cloud.Base.{
  ◌≡◌, ◌≢◌, refl, ap, ◌∙◌, List, [], ◌∷◌, Bytes, All, Result, ok, Bool, true, false, codes, arith,
}
use mathlib.Core.List.{cons-ne-nil}
use kvm_cloud.Base.Exec.{Exec, >>=-ok, lift, modify, ◌>>=◌, ◌>>◌}
use kvm_cloud.Net.Stream
use kvm_cloud.Net.Stream.Frames.{IsLine, frame, read-frame}
use kvm_cloud.Net.Socket.{Socket, send, write}
use kvm_cloud.Net.Socket.Pending.{Pending, IsIdle, IsIdle-Pending, write-Pending, send-Pending}
use kvm_cloud.Std.Int.{from_bool}
use kvm_cloud.Std.Number.{to_string, stoi-to_string}
use kvm_cloud.Sys.Host.{Host}
use kvm_cloud.Vm.Template.{IsPrintable}
use kvm_cloud.Vm.Controller.{Node}
use kvm_cloud.Vm.Controller.Methods
use kvm_cloud.Vm.Proxy
use kvm_cloud.Vm.Proxy.{Link, receive, collect_templates, verdict}
use kvm_cloud.Vm.Proxy.Calls.{call, call-answered, settled}
use kvm_cloud.Vm.Proxy.Decode.{
  template_lines, collect_templates-lines, IsByName, verdict-from_bool, flag-IsLine,
}
use kvm_cloud.Controller.{Handler, dispatch, answer}
use kvm_cloud.Controller.Replies.{
  drained, replied, dispatch-Answers, dispatch-get_templates, write_templates-Pending,
  template_lines-IsLine, template_lines-ne-nil, attempt, dispatch-run, dispatch-kill,
}

module _ (h : Host) where
  -- Both sockets of the connection are idle.
  pub record IsQuiet (l : Link (Handler h)) : Type 0 where
    pub near : IsIdle l.socket
    pub far : IsIdle l.peer.socket

  -- The remote call `m` returns `a` and leaves the node as `n`, and the connection quiet.
  pub record Returns {A : Type 0} (m : Exec (Link (Handler h)) A) (l : Link (Handler h)) (a : A)
      (n : Node h) : Type 0 where
    pub after : Link (Handler h)
    pub returned : m l ≡ (ok a, after)
    pub node : after.peer.node ≡ n
    pub quiet : IsQuiet after

  pub drained-Pending : (p : Handler h) → IsIdle p.socket → Pending (drained h p).socket []
  drained-Pending p q = IsIdle-Pending (record { incoming = refl; outgoing = q.outgoing })

  pub call_read-Returns :
      {A : Type 0} (f : Socket → Socket) (decode : List Bytes → Result A) (l : Link (Handler h))
      (q : Handler h) (cmd : Bytes) (args written reply : List Bytes) (a : A)
      → IsQuiet l
      → Pending (f l.socket) (cmd ∷ args)
      → All IsLine (cmd ∷ args)
      → dispatch h cmd (cmd ∷ args) (drained h l.peer) ≡ (ok tt, q)
      → Pending q.socket written
      → written ≢ []
      → Stream.read (frame written []) ≡ ok (reply, [])
      → decode reply ≡ ok a
      → Returns (call (answer h) f decode) l a q.node
  call_read-Returns f decode l q cmd args written reply a quiet asked valid done pending ne reads
        decoded =
      record {
        after = settled (answer h) (send (f l.socket)) (replied h q);
        returned =
            call-answered (answer h) f decode l (cmd ∷ args) reply (replied h q) a asked
              (cons-ne-nil cmd args)
              (dispatch-Answers h l.peer q cmd args written reply quiet.far.incoming valid done
                pending ne reads)
              decoded;
        node = refl;
        quiet = record {
          near = record { incoming = refl; outgoing = refl };
          far = record { incoming = (send-Pending pending ne).0; outgoing = refl };
        };
      }

  -- a reply of lines that can stand in a message
  pub call-Returns :
      {A : Type 0} (f : Socket → Socket) (decode : List Bytes → Result A) (l : Link (Handler h))
      (q : Handler h) (cmd : Bytes) (args reply : List Bytes) (a : A)
      → IsQuiet l
      → Pending (f l.socket) (cmd ∷ args)
      → All IsLine (cmd ∷ args)
      → dispatch h cmd (cmd ∷ args) (drained h l.peer) ≡ (ok tt, q)
      → Pending q.socket reply
      → reply ≢ []
      → All IsLine reply
      → decode reply ≡ ok a
      → Returns (call (answer h) f decode) l a q.node
  call-Returns f decode l q cmd args reply a quiet asked valid done pending ne lines decoded =
      call_read-Returns f decode l q cmd args reply reply a quiet asked valid done pending ne
        (read-frame reply [] ne lines) decoded

  -- On a quiet connection to a node that has templates, filed under their own names in the order of
  -- the names, with fields that are non-empty and free of CR and LF, `getTemplates` of the proxy
  -- returns exactly these templates. The node is left unchanged and the connection quiet.
  pub get_templates-Returns :
      (l : Link (Handler h))
      → IsQuiet l
      → IsByName l.peer.node.controller.templates
      → All (λ e. IsPrintable e.1) l.peer.node.controller.templates
      → l.peer.node.controller.templates ≢ []
      → Returns (Proxy.get_templates (answer h)) l l.peer.node.controller.templates l.peer.node
  unfolding Proxy.get_templates
  get_templates-Returns l quiet by_name printable ne =
      let m = l.peer.node.controller.templates in
      call-Returns (λ s. write s (codes "getTemplates")) (λ fields. collect_templates fields []) l _
        (codes "getTemplates") [] (template_lines m) m quiet
        (write-Pending (IsIdle-Pending quiet.near) (codes "getTemplates")) (omega arith)
        (dispatch-get_templates h (drained h l.peer))
        (write_templates-Pending h m (drained-Pending l.peer quiet.far))
        (template_lines-ne-nil h m ne) (template_lines-IsLine h m printable)
        (collect_templates-lines m by_name)

  -- On a quiet connection and with a non-empty text free of CR and LF, `run` of the proxy returns
  -- what the node's method returns on the number that the text names, or false if the text names no
  -- `int` or the method throws. The node is left in the state of that attempt, and the connection
  -- quiet. The attempt has to end, without undefined behaviour.
  pub run-Returns :
      (l : Link (Handler h)) (text : Bytes) (b : Bool) (n : Node h)
      → IsQuiet l
      → IsLine text
      → attempt h (Methods.run h) text l.peer.node ≡ (ok b, n)
      → Returns (Proxy.run (answer h) text) l b n
  unfolding Proxy.run
  run-Returns l text b n quiet valid e =
      call-Returns (λ s. write (write s (codes "run")) text) verdict l _ (codes "run") (text ∷ [])
        (to_string (from_bool b) ∷ []) b quiet
        (write-Pending (write-Pending (IsIdle-Pending quiet.near) (codes "run")) text)
        (omega arith, (valid, tt)) (dispatch-run h text b n (drained h l.peer) e)
        (write-Pending (drained-Pending l.peer quiet.far) (to_string (from_bool b)))
        (cons-ne-nil _ []) (flag-IsLine b, tt) (verdict-from_bool b)

  -- On a quiet connection and with a non-empty text free of CR and LF, `kill` of the proxy returns
  -- what the node's method returns on the number that the text names, or false if the text names no
  -- `int` or the method throws. The node is left in the state of that attempt, and the connection
  -- quiet. The attempt has to end, without undefined behaviour.
  pub kill-Returns :
      (l : Link (Handler h)) (text : Bytes) (b : Bool) (n : Node h)
      → IsQuiet l
      → IsLine text
      → attempt h (Methods.kill h) text l.peer.node ≡ (ok b, n)
      → Returns (Proxy.kill (answer h) text) l b n
  unfolding Proxy.kill
  kill-Returns l text b n quiet valid e =
      call-Returns (λ s. write (write s (codes "kill")) text) verdict l _ (codes "kill") (text ∷ [])
        (to_string (from_bool b) ∷ []) b quiet
        (write-Pending (write-Pending (IsIdle-Pending quiet.near) (codes "kill")) text)
        (omega arith, (valid, tt)) (dispatch-kill h text b n (drained h l.peer) e)
        (write-Pending (drained-Pending l.peer quiet.far) (to_string (from_bool b)))
        (cons-ne-nil _ []) (flag-IsLine b, tt) (verdict-from_bool b)
