-- ===== src/Controller/Replies.antt =====
-- One round of the handler of src/controller.cpp: a request that arrives as a message is answered by
-- the lines that its branch writes.
use kvm_cloud.Base.{
  ◌≡◌, ◌≢◌, refl, ap, ◌∙◌, List, [], ◌∷◌, ◌++◌, append-nil, append_assoc, Bytes, All, All-append,
  Result, ok, err, Bool, codes, false, Result-cases, inl, inr, arith,
}
use mathlib.Core.List.{cons-ne-nil}
use kvm_cloud.Base.Exec.{Exec, >>=-ok, catch_all, handled, lift, pure, ◌>>=◌}
use kvm_cloud.Net.Stream
use kvm_cloud.Net.Stream.Frames.{IsLine, frame, read-frame}
use kvm_cloud.Net.Socket
use kvm_cloud.Net.Socket.{Socket, send, write, write_all}
use kvm_cloud.Net.Socket.Pending.{Pending, write_all-Pending, send-Pending}
use kvm_cloud.Std.Map.{StdMap}
use kvm_cloud.Std.Text.{str_eq}
use kvm_cloud.Sys.Host.{Host}
use kvm_cloud.Std.Int.{ℤ, from_bool}
use kvm_cloud.Std.Number.{stoi, to_string}
use kvm_cloud.Vm.Controller.{Node}
use kvm_cloud.Vm.Controller.Methods
use kvm_cloud.Vm.Template
use kvm_cloud.Vm.Template.{Template, IsPrintable}
use kvm_cloud.Vm.Proxy.Calls.{Answers}
use kvm_cloud.Vm.Proxy.Decode.{template_lines}
use kvm_cloud.Controller.{
  Handler, read_commands, dispatch, arrive, on_node, control, serve, answer, flush, write_templates,
}

module _ (h : Host) where
  -- the handler once the request is read
  abbrev pub drained : Handler h → Handler h
  drained p = record p { socket = record p.socket { incoming = [] } }

  -- the handler once the reply has left
  abbrev pub replied : Handler h → Handler h
  replied q = record q { socket = record (send q.socket) { outgoing = [] } }

  read_commands_lem :
      (p : Handler h) (req : List Bytes)
      → p.socket.incoming ≡ []
      → req ≢ []
      → All IsLine req
      → read_commands h (arrive h (frame req []) p) ≡ (ok req, drained p)
  unfolding read_commands Socket.read
  read_commands_lem p req none_in ne lines = rw (
    (ap (λ i. Stream.read (i ++ frame req [])) none_in ∙ read-frame req [] ne lines),
    read_commands,
    Socket.read,
  )

  abbrev ended : Handler h → Handler h
  ended q = record q { socket = send q.socket }

  serve_lem :
      (p q : Handler h) (cmd : Bytes) (args : List Bytes)
      → p.socket.incoming ≡ []
      → All IsLine (cmd ∷ args)
      → dispatch h cmd (cmd ∷ args) (drained p) ≡ (ok tt, q)
      → serve h (arrive h (frame (cmd ∷ args) []) p) ≡ (ok tt, ended q)
  unfolding serve
  serve_lem p q cmd args none_in lines done =
      >>=-ok (read_commands h) _
        (read_commands_lem p (cmd ∷ args) none_in (cons-ne-nil cmd args) lines)
      ∙ >>=-ok (dispatch h cmd (cmd ∷ args)) _ done

  answer_of :
      (p q : Handler h) (cmd : Bytes) (args : List Bytes)
      → serve h (arrive h (frame (cmd ∷ args) []) p) ≡ (ok tt, ended q)
      → answer h p (frame (cmd ∷ args) []) ≡ ok (replied q, (send q.socket).outgoing)
  unfolding answer
  answer_of p q cmd args e = ap (flush h) e

  -- A branch that writes some lines answers its request by what is read of them.
  pub dispatch-Answers :
      (p q : Handler h) (cmd : Bytes) (args written reply : List Bytes)
      → p.socket.incoming ≡ []
      → All IsLine (cmd ∷ args)
      → dispatch h cmd (cmd ∷ args) (drained p) ≡ (ok tt, q)
      → Pending q.socket written
      → written ≢ []
      → Stream.read (frame written []) ≡ ok (reply, [])
      → Answers (answer h) p (cmd ∷ args) reply (replied q)
  dispatch-Answers p q cmd args written reply none_in req_lines done pending ne reads = record {
    bytes = frame written [];
    answered =
        answer_of p q cmd args (serve_lem p q cmd args none_in req_lines done)
        ∙ ap (λ o. ok (replied q, o)) (send-Pending pending ne).1;
    reads = reads;
  }

  pub write_templates-Pending :
      {K : Type 0} (m : StdMap K Template) {s : Socket} {ls : List Bytes}
      → Pending s ls
      → Pending (write_templates m s) (ls ++ template_lines m)
  unfolding write_templates
  write_templates-Pending [] {s} {ls} p = rw append-nil p
  write_templates-Pending ((k, t) ∷ m) {s} {ls} p =
      rw append_assoc at (write_templates-Pending m (write_all-Pending (Template.serialize t) p))

  pub dispatch-get_templates :
      (p : Handler h)
      → dispatch h (codes "getTemplates") (codes "getTemplates" ∷ []) p
        ≡ (ok tt, record p { socket = write_templates p.node.controller.templates p.socket })
  unfolding dispatch str_eq
  dispatch-get_templates p = refl

  pub template_lines-IsLine :
      {K : Type 0} (m : StdMap K Template)
      → All (λ e. IsPrintable e.1) m
      → All IsLine (template_lines m)
  template_lines-IsLine [] h = tt
  template_lines-IsLine ((k, t) ∷ m) h =
      All-append IsLine (Template.serialize t) (template_lines m) h.0 (template_lines-IsLine m h.1)

  pub template_lines-ne-nil : {K : Type 0} (m : StdMap K Template) → m ≢ [] → template_lines m ≢ []
  unfolding Template.serialize
  template_lines-ne-nil [] ne = absurd (ne refl)
  template_lines-ne-nil ((k, t) ∷ m) ne = cons-ne-nil t.name _

  -- `try { result = method(stoi(text)); } catch (...) { }` on the node alone
  abbrev pub attempt : (ℤ → Exec (Node h) Bool) → Bytes → Exec (Node h) Bool
  attempt method text = catch_all (do id ← lift (stoi text); method id) (pure false)

  -- the same on the handler
  abbrev attempt_here : (ℤ → Exec (Node h) Bool) → Result ℤ → Exec (Handler h) Bool
  attempt_here method id = catch_all (do z ← lift id; on_node h (method z)) (pure false)

  handled-node :
      (r : Result Bool) (n : Node h) (p : Handler h)
      → handled r (pure false) (record p { node = n })
        ≡ ((handled r (pure false) n).0, record p { node = (handled r (pure false) n).1 })
  handled-node (ok b) n p = refl
  handled-node (err e) n p = ground arith

  attempt_here_lem :
      (method : ℤ → Exec (Node h) Bool) (text : Bytes) (p : Handler h)
      → attempt_here method (stoi text) p
        ≡ ((attempt method text p.node).0, record p { node = (attempt method text p.node).1 })
  attempt_here_lem method text p = elim (Result-cases (stoi text)) [
    | inl (id, e) ↦ rw e (handled-node (method id p.node).0 (method id p.node).1 p)
    | inr (x, e) ↦ rw e (handled-node (err x) p.node p)
  ]

  -- the handler behind a `run` or `kill` that ends with `b` and the node `n`
  abbrev pub reported : Bool → Node h → Handler h → Handler h
  reported b n p = record p { node = n; socket = write p.socket (to_string (from_bool b)) }

  control_lem :
      (method : ℤ → Exec (Node h) Bool) (cmd text : Bytes) (b : Bool) (n : Node h) (p : Handler h)
      → attempt method text p.node ≡ (ok b, n)
      → control h method (cmd ∷ text ∷ []) p ≡ (ok tt, reported b n p)
  unfolding control
  control_lem method cmd text b n p e =
      >>=-ok (attempt_here method (stoi text)) _
        (attempt_here_lem method text p ∙ ap (λ r. (r.0, record p { node = r.1 })) e)

  pub dispatch-run :
      (text : Bytes) (b : Bool) (n : Node h) (p : Handler h)
      → attempt (Methods.run h) text p.node ≡ (ok b, n)
      → dispatch h (codes "run") (codes "run" ∷ text ∷ []) p ≡ (ok tt, reported b n p)
  unfolding dispatch str_eq
  dispatch-run text b n p e = control_lem (Methods.run h) (codes "run") text b n p e

  pub dispatch-kill :
      (text : Bytes) (b : Bool) (n : Node h) (p : Handler h)
      → attempt (Methods.kill h) text p.node ≡ (ok b, n)
      → dispatch h (codes "kill") (codes "kill" ∷ text ∷ []) p ≡ (ok tt, reported b n p)
  unfolding dispatch str_eq
  dispatch-kill text b n p e = control_lem (Methods.kill h) (codes "kill") text b n p e
