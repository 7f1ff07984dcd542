-- ===== src/Net/Socket/Pending.antt =====
-- A socket of src/Net/Socket.hpp in the middle of a message: lines written, and no `send` yet.
use kvm_cloud.Base.{
  ℕ, ◌+◌, ◌<◌, ◌≤◌, ◌≡◌, ◌≢◌, refl, ap, ◌∙◌, List, [], ◌∷◌, ◌++◌, append_assoc, append-nil, Bytes,
  length, length-append, arith,
}
use kvm_cloud.Net.Stream.{cr, lf}
use kvm_cloud.Net.Stream.Frames.{frame}
use kvm_cloud.Net.Socket.{Socket, write, write_each, write_all, send}
use kvm_cloud.Net.Socket.Delivery.{send_counted}

-- The lines of a message without its empty line.
abbrev pub body : List Bytes → Bytes
body [] = []
body (l ∷ ls) = l ++ cr ∷ lf ∷ body ls

pub body-append : (ls ms : List Bytes) → body (ls ++ ms) ≡ body ls ++ body ms
body-append [] ms = refl
body-append (l ∷ ls) ms = simp (append_assoc, body-append ls ms)

body-frame : (ls : List Bytes) (rest : Bytes) → body ls ++ cr ∷ lf ∷ rest ≡ frame ls rest
body-frame [] rest = refl
body-frame (l ∷ ls) rest = simp (append_assoc, body-frame ls rest)

-- Nothing has arrived, and these lines are written.
pub record Pending (s : Socket) (ls : List Bytes) : Type 0 where
  pub incoming : s.incoming ≡ []
  pub outgoing : s.outgoing ≡ body ls
  pub counted : length ls ≤ s.write_count

-- Nothing has arrived, and nothing waits to leave.
pub record IsIdle (s : Socket) : Type 0 where
  pub incoming : s.incoming ≡ []
  pub outgoing : s.outgoing ≡ []

pub IsIdle-Pending : {s : Socket} → IsIdle s → Pending s []
IsIdle-Pending h = record { incoming = h.incoming; outgoing = h.outgoing; counted = omega arith }

length-pos : (ls : List Bytes) → ls ≢ [] → 0 < length ls
length-pos [] ne = absurd (ne refl)
length-pos (l ∷ ls) ne = omega arith

send-incoming : (s : Socket) → (send s).incoming ≡ s.incoming
unfolding send write
send-incoming s = ground arith

module _ {s : Socket} {ls : List Bytes} (p : Pending s ls) where
  pub write-Pending : (d : Bytes) → Pending (write s d) (ls ++ d ∷ [])
  unfolding write
  write-Pending d = record {
    incoming = p.incoming;
    outgoing = rw (p.outgoing, body-append ls (d ∷ []));
    counted = omega (arith, length-append ls (d ∷ []), p.counted);
  }

  count_more : (n : ℕ) → Pending (record s { write_count = s.write_count + n }) ls
  count_more n = record {
    incoming = p.incoming;
    outgoing = p.outgoing;
    counted = omega (arith, p.counted);
  }

  -- `send` ends the message.
  pub send-Pending : ls ≢ [] → ((send s).incoming ≡ []) × ((send s).outgoing ≡ frame ls [])
  send-Pending ne = (
    send-incoming s ∙ p.incoming,
    send_counted s (omega (arith, length-pos ls ne, p.counted))
        ∙ ap (λ o. o ++ cr ∷ lf ∷ []) p.outgoing
        ∙ body-frame ls [],
  )

write_each-Pending :
    (ds : List Bytes) {s : Socket} {ls : List Bytes}
    → Pending s ls
    → Pending (write_each s ds) (ls ++ ds)
unfolding write_each
write_each-Pending [] {s} {ls} p = rw append-nil p
write_each-Pending (d ∷ ds) {s} {ls} p =
    rw append_assoc at (write_each-Pending ds (write-Pending p d))

pub write_all-Pending :
    (ds : List Bytes) {s : Socket} {ls : List Bytes}
    → Pending s ls
    → Pending (write_all s ds) (ls ++ ds)
unfolding write_all
write_all-Pending ds p = write_each-Pending ds (count_more p (length ds))
