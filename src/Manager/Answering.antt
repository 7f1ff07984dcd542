-- ===== src/Manager/Answering.antt =====
-- The manager of src/manager.cpp as the other end of a proxy: one round of its handler answers a
-- request.
use kvm_cloud.Base.{◌≡◌, ◌≢◌, ap, ◌∙◌, List, [], ◌∷◌, ◌++◌, Bytes, All, ok, Error, err, ◌>>=◌}
use mathlib.Core.List.{cons-ne-nil}
use kvm_cloud.Net.Stream
use kvm_cloud.Net.Stream.Frames.{IsLine, frame, read-frame}
use kvm_cloud.Net.Socket
use kvm_cloud.Net.Socket.{Socket, send}
use kvm_cloud.Net.Socket.Pending.{Pending, send-Pending}
use kvm_cloud.Vm.Proxy.{Answer}
use kvm_cloud.Vm.Proxy.Calls.{Answers}
use kvm_cloud.Manager.{Handler, dispatch, serve}

module _ {P : Type 0} (answer : Answer P) where
  abbrev arrive : Bytes → Handler answer → Handler answer
  arrive bytes p = record p { socket = record p.socket { incoming = p.socket.incoming ++ bytes } }

  -- what has been written leaves
  abbrev flush : Handler answer → Handler answer × Bytes
  flush p = (record p { socket = record p.socket { outgoing = [] } }, p.socket.outgoing)

  -- What the manager does when a request reaches it.
  unfoldable pub answer_client : Answer (Handler answer)
  unfolding serve
  answer_client p bytes = serve answer (arrive bytes p) >>= λ q. ok (flush q)

  -- the handler once the request is read
  abbrev pub drained : Handler answer → Handler answer
  drained p = record p { socket = record p.socket { incoming = [] } }

  -- the handler once the reply has left
  abbrev pub replied : Handler answer → Handler answer
  replied q = record q { socket = record (send q.socket) { outgoing = [] } }

  serve_lem :
      (p q : Handler answer) (cmd : Bytes) (args : List Bytes)
      → p.socket.incoming ≡ []
      → All IsLine (cmd ∷ args)
      → dispatch answer cmd (cmd ∷ args) (drained p) ≡ ok q
      → serve answer (arrive (frame (cmd ∷ args) []) p) ≡ ok (record q { socket = send q.socket })
  unfolding serve Socket.read
  serve_lem p q cmd args none_in lines done =
      let reads : Stream.read (p.socket.incoming ++ frame (cmd ∷ args) []) ≡ ok (cmd ∷ args, []) =
        ap (λ i. Stream.read (i ++ frame (cmd ∷ args) [])) none_in
        ∙ read-frame (cmd ∷ args) [] (cons-ne-nil cmd args) lines in
      rw (reads, done, serve, Socket.read)

  -- What is written leaves.
  pub answer_client-sends :
      (p q : Handler answer) (cmd : Bytes) (args : List Bytes)
      → p.socket.incoming ≡ []
      → All IsLine (cmd ∷ args)
      → dispatch answer cmd (cmd ∷ args) (drained p) ≡ ok q
      → answer_client p (frame (cmd ∷ args) []) ≡ ok (replied q, (send q.socket).outgoing)
  unfolding answer_client
  answer_client-sends p q cmd args none_in lines done =
      ap (λ r. r >>= λ s. ok (flush s)) (serve_lem p q cmd args none_in lines done)

  -- A branch that writes some lines answers its request by what is read of them.
  pub dispatch-Answers :
      (p q : Handler answer) (cmd : Bytes) (args written reply : List Bytes)
      → p.socket.incoming ≡ []
      → All IsLine (cmd ∷ args)
      → dispatch answer cmd (cmd ∷ args) (drained p) ≡ ok q
      → Pending q.socket written
      → written ≢ []
      → Stream.read (frame written []) ≡ ok (reply, [])
      → Answers answer_client p (cmd ∷ args) reply (replied q)
  dispatch-Answers p q cmd args written reply none_in lines done pending ne reads = record {
    bytes = frame written [];
    answered =
        answer_client-sends p q cmd args none_in lines done
        ∙ ap (λ o. ok (replied q, o)) (send-Pending pending ne).1;
    reads = reads;
  }

  -- What stops a branch stops the answer.
  pub answer_client-stopped :
      (p : Handler answer) (cmd : Bytes) (args : List Bytes) (e : Error)
      → p.socket.incoming ≡ []
      → All IsLine (cmd ∷ args)
      → dispatch answer cmd (cmd ∷ args) (drained p) ≡ err e
      → answer_client p (frame (cmd ∷ args) []) ≡ err e
  unfolding answer_client serve Socket.read
  answer_client-stopped p cmd args e none_in lines stopped =
      let reads : Stream.read (p.socket.incoming ++ frame (cmd ∷ args) []) ≡ ok (cmd ∷ args, []) =
        ap (λ i. Stream.read (i ++ frame (cmd ∷ args) [])) none_in
        ∙ read-frame (cmd ∷ args) [] (cons-ne-nil cmd args) lines in
      rw (reads, stopped, answer_client, serve, Socket.read)
