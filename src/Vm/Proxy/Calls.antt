-- ===== src/Vm/Proxy/Calls.antt =====
-- A remote call of src/Vm/ControllerProxy.hpp: if the peer answers a request by a message, the
-- proxy reads that message, and its socket is idle again.
use kvm_cloud.Base.{
  ◌≡◌, ◌≢◌, ap, ◌∙◌, List, [], ◌++◌, Bytes, Result, ok, Error, err, Result-cases, inl, inr,
}
use kvm_cloud.Base
use kvm_cloud.Base.Exec.{Exec, >>=-ok, lift, modify, ◌>>=◌, ◌>>◌}
use kvm_cloud.Net.Stream
use kvm_cloud.Net.Stream.Frames.{frame}
use kvm_cloud.Net.Socket
use kvm_cloud.Net.Socket.{Socket, write, write_all, send}
use kvm_cloud.Net.Socket.Pending.{Pending, send-Pending}
use kvm_cloud.Vm.Proxy.{Answer, Link, deliver, take_message, receive}

module _ {P : Type 0} (answer : Answer P) where
  -- The peer `p` answers the request `asked` by bytes that are read as `reply`, and becomes `q`.
  pub record Answers (p : P) (asked reply : List Bytes) (q : P) : Type 0 where
    pub bytes : Bytes
    pub answered : answer p (frame asked []) ≡ ok (q, bytes)
    pub reads : Stream.read bytes ≡ ok (reply, [])

  -- the link once the reply is read
  abbrev pub settled : Socket → P → Link P
  settled s q = record { socket = record s { incoming = []; outgoing = [] }; peer = q }

  deliver_lem :
      (s : Socket) {p q : P} {reply : Bytes}
      → answer p s.outgoing ≡ ok (q, reply)
      → deliver answer (record { socket = s; peer = p }) ≡ (
        ok tt,
        record { socket = record s { outgoing = []; incoming = s.incoming ++ reply }; peer = q },
      )
  unfolding deliver
  deliver_lem s e = rw (e, deliver)

  take_message_lem :
      (l : Link P) {lines : List Bytes} {rest : Bytes}
      → Stream.read l.socket.incoming ≡ ok (lines, rest)
      → take_message answer l
        ≡ (ok lines, record l { socket = record l.socket { incoming = rest } })
  unfolding take_message Socket.read
  take_message_lem l e = rw (e, take_message, Socket.read)

  -- The request on the socket is answered, and the answer is read.
  pub receive_lem :
      (s : Socket) {asked reply : List Bytes} {p q : P}
      → s.incoming ≡ []
      → s.outgoing ≡ frame asked []
      → Answers p asked reply q
      → receive answer (record { socket = s; peer = p }) ≡ (ok reply, settled s q)
  unfolding receive
  receive_lem s {asked} {reply} {p} {q} none_in out a =
      let reads : Stream.read (s.incoming ++ a.bytes) ≡ ok (reply, []) =
        ap (λ i. Stream.read (i ++ a.bytes)) none_in ∙ a.reads in
      >>=-ok (deliver answer) (λ _. take_message answer)
        (deliver_lem s (ap (answer p) out ∙ a.answered))
      ∙ take_message_lem _ reads

  -- What each method of the proxy does: a request, the reply, and its decoding.
  abbrev pub call : {A : Type 0} → (Socket → Socket) → (List Bytes → Result A) → Exec (Link P) A
  call f decode = do
    modify (λ l. record l { socket = send (f l.socket) })
    fields ← receive answer
    lift (decode fields)

  -- A request that the peer answers returns what its reply is decoded to.
  pub call-answered :
      {A : Type 0} (f : Socket → Socket) (decode : List Bytes → Result A) (l : Link P)
      (asked reply : List Bytes) (q : P) (a : A)
      → Pending (f l.socket) asked
      → asked ≢ []
      → Answers l.peer asked reply q
      → decode reply ≡ ok a
      → call f decode l ≡ (ok a, settled (send (f l.socket)) q)
  call-answered f decode l asked reply q a pending ne answered decoded =
      let (incoming, outgoing) = send-Pending pending ne in
      >>=-ok (receive answer) (λ fields. lift (decode fields))
        (receive_lem (send (f l.socket)) incoming outgoing answered)
      ∙ ap (λ r. (r, settled (send (f l.socket)) q)) decoded

  -- What stops the peer stops the call.
  pub call-stopped :
      {A : Type 0} (f : Socket → Socket) (decode : List Bytes → Result A) (l : Link P)
      (asked : List Bytes) (e : Error)
      → Pending (f l.socket) asked
      → asked ≢ []
      → answer l.peer (frame asked []) ≡ err e
      → (call f decode l).0 ≡ err e
  unfolding receive deliver
  call-stopped f decode l asked e pending ne stopped =
      let stops : answer l.peer (send (f l.socket)).outgoing ≡ err e =
        ap (answer l.peer) (send-Pending pending ne).1 ∙ stopped in
      rw (stops, receive, deliver)

  -- The call returns what the reply is decoded to, if the reply can be read.
  pub call-read :
      {A : Type 0} (f : Socket → Socket) (decode : List Bytes → Result A) (l : Link P)
      (asked : List Bytes) (q : P) (reply : Bytes)
      → Pending (f l.socket) asked
      → asked ≢ []
      → answer l.peer (frame asked []) ≡ ok (q, reply)
      → (call f decode l).0 ≡ Base.◌>>=◌ (Stream.read reply) (λ r. decode r.0)
  unfolding receive deliver take_message Socket.read
  call-read f decode l asked q reply pending ne answered =
      let (incoming, outgoing) = send-Pending pending ne in
      let answers : answer l.peer (send (f l.socket)).outgoing ≡ ok (q, reply) =
        ap (answer l.peer) outgoing ∙ answered in
      let arrived : Stream.read ((send (f l.socket)).incoming ++ reply) ≡ Stream.read reply =
        ap (λ i. Stream.read (i ++ reply)) incoming in
      elim (Result-cases (Stream.read reply)) [
        | inl (r, e) ↦ rw (answers, arrived, e, receive, deliver, take_message, Socket.read)
        | inr (x, e) ↦ rw (answers, arrived, e, receive, deliver, take_message, Socket.read)
      ]
