-- ===== src/Net/Socket/Delivery.antt =====
-- What `write` and `send` put on the connection is what `read` takes from it.
use kvm_cloud.Base.{
  ◌+◌, ◌<◌, ◌≡◌, ◌≢◌, refl, ap, ◌∙◌, List, [], ◌∷◌, ◌++◌, append_assoc, Bytes, All, length, ok, err,
  blocked, ◌==◌, if◌then◌else◌, Bool-cases, inl, inr, arith,
}
use kvm_cloud.Net.Stream
use kvm_cloud.Net.Stream.{cr, lf}
use kvm_cloud.Net.Stream.Frames.{IsLine, frame, read-frame}
use kvm_cloud.Net.Socket.{Socket, write, write_each, write_all, send}

pub write_each-outgoing :
    (ls : List Bytes) (s : Socket) (rest : Bytes)
    → (write_each s ls).outgoing ++ cr ∷ lf ∷ rest ≡ s.outgoing ++ frame ls rest
unfolding write_each
write_each-outgoing [] s rest = refl
write_each-outgoing (l ∷ ls) s rest = write_each-outgoing ls (write s l) rest ∙ simp append_assoc

pub write_each-count :
    (ls : List Bytes) (s : Socket) → (write_each s ls).write_count ≡ s.write_count + length ls
unfolding write_each
write_each-count [] s = omega arith
write_each-count (l ∷ ls) s = omega (arith, write_each-count ls (write s l))

pub write_each-incoming : (ls : List Bytes) (s : Socket) → (write_each s ls).incoming ≡ s.incoming
unfolding write_each
write_each-incoming [] s = refl
write_each-incoming (l ∷ ls) s = write_each-incoming ls (write s l)

pub send_counted : (s : Socket) → 0 < s.write_count → (send s).outgoing ≡ s.outgoing ++ cr ∷ lf ∷ []
unfolding send
send_counted s h = ground arith

-- A message of some lines goes out as its frame, behind what was written before.
pub send-write_all :
    (s : Socket) (ls : List Bytes)
    → ls ≢ []
    → (send (write_all s ls)).outgoing ≡ s.outgoing ++ frame ls []
unfolding write_all
send-write_all s [] h = absurd (h refl)
send-write_all s (l ∷ ls) h =
    let counted = record s { write_count = s.write_count + length (l ∷ ls) } in
    send_counted (write_each counted (l ∷ ls)) (omega (arith, write_each-count (l ∷ ls) counted))
    ∙ write_each-outgoing (l ∷ ls) _ []

frame-append : (ls : List Bytes) (rest : Bytes) → frame ls [] ++ rest ≡ frame ls rest
frame-append [] rest = refl
frame-append (l ∷ ls) rest = simp (append_assoc, frame-append ls rest)

-- At least one line, each non-empty and free of CR and LF, written to any socket and sent, adds
-- bytes to the connection from which the other side reads exactly these lines, whatever follows.
pub read-send-write_all :
    (s : Socket) (ls : List Bytes)
    → ls ≢ []
    → All IsLine ls
    → (m : Bytes) × ((send (write_all s ls)).outgoing ≡ s.outgoing ++ m)
      × ((rest : Bytes) → Stream.read (m ++ rest) ≡ ok (ls, rest))
read-send-write_all s ls ne lines =
    (frame ls [], send-write_all s ls ne, λ rest. rw frame-append (read-frame ls rest ne lines))

send_first :
    (s : Socket) → s.write_count ≡ 0 → (send s).outgoing ≡ s.outgoing ++ cr ∷ lf ∷ cr ∷ lf ∷ []
unfolding send
send_first s h = ground (arith, append_assoc s.outgoing (cr ∷ lf ∷ []) (cr ∷ lf ∷ []))

-- A message without a line is read as no line if the socket has written nothing before. On a socket
-- that has written, `send` puts out one empty line, behind which the reader waits for more.
pub read-send_empty :
    (s : Socket)
    → (m : Bytes) × ((send s).outgoing ≡ s.outgoing ++ m)
      × (Stream.read m ≡ (if s.write_count == 0 then ok ([], []) else err blocked))
unfolding Stream.read
read-send_empty s = elim (Bool-cases (s.write_count == 0)) [
  | inl first ↦ (cr ∷ lf ∷ cr ∷ lf ∷ [], send_first s (ground arith), rw first)
  | inr again ↦ (cr ∷ lf ∷ [], send_counted s (ground arith), rw again)
]

send-count : (s : Socket) → 0 < (send s).write_count
unfolding send
send-count s = ground arith

read_one_empty : Stream.read (cr ∷ lf ∷ []) ≡ err blocked
unfolding Stream.read
read_one_empty = refl

-- Behind a first message of at least one line, each non-empty and free of CR and LF, a message
-- without a line is not delivered: the reader has the first message, and its next read waits.
pub empty_reply_blocks :
    (s : Socket) (ls : List Bytes)
    → ls ≢ []
    → All IsLine ls
    → (m : Bytes) × ((send (send (write_all s ls))).outgoing ≡ s.outgoing ++ m)
      × (rest : Bytes) × (Stream.read m ≡ ok (ls, rest))
      × (Stream.read rest ≡ err blocked)
empty_reply_blocks s ls ne lines = (
  frame ls (cr ∷ lf ∷ []),
  send_counted (send (write_all s ls)) (send-count (write_all s ls))
      ∙ rw (send-write_all s ls ne) (append_assoc s.outgoing (frame ls []) (cr ∷ lf ∷ []))
      ∙ ap (λ m. s.outgoing ++ m) (frame-append ls (cr ∷ lf ∷ [])),
  cr ∷ lf ∷ [],
  read-frame ls _ ne lines,
  read_one_empty,
)
