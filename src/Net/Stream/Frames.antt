-- ===== src/Net/Stream/Frames.antt =====
-- A message on the connection: its lines, each ended by CR LF, and an empty line. Each lemma runs
-- the stream of src/Net/SocketIstream.hpp over one piece of a message.
use kvm_cloud.Base.{
  ℕ, zero, suc, ◌+◌, ◌≤◌, ◌≡◌, ◌≢◌, refl, ap, ◌∙◌, true, false, some, none, List, [], ◌∷◌, ◌++◌,
  append_assoc, Bytes, All, length, length-append, ok, arith,
}
use kvm_cloud.Net.Stream.{
  Buffer, cr, lf, open_stream, underflow, uflow, scan_line, fuel_for, drain, read,
}

-- A byte that a line can hold.
abbrev pub IsPlain : ℕ → Type 0
IsPlain c = (c ≢ cr) × (c ≢ lf)

-- A line that a message can hold: plain bytes, and at least one.
abbrev pub IsLine : Bytes → Type 0
IsLine [] = ⊥
IsLine (c ∷ l) = All IsPlain (c ∷ l)

-- The lines of a message, its empty line, and what follows it.
abbrev pub frame : List Bytes → Bytes → Bytes
frame [] rest = cr ∷ lf ∷ rest
frame (l ∷ ls) rest = l ++ cr ∷ lf ∷ frame ls rest

-- The stream inside a line: at `c`, with `l`, CR LF and `tail` to come.
abbrev held : ℕ → Bytes → Bytes → Buffer
held c [] tail = record { stream = tail; curr = c; next = lf; is_eos = false }
held c (d ∷ l) tail = record { stream = l ++ cr ∷ lf ∷ tail; curr = c; next = d; is_eos = false }

-- at the end of a line that `x` follows
abbrev between : ℕ → Bytes → Buffer
between x tail = record { stream = tail; curr = lf; next = x; is_eos = false }

abbrev ended : Bytes → Buffer
ended rest = record { stream = rest; curr = lf; next = lf; is_eos = true }

open_stream-held :
    (c : ℕ) (l tail : Bytes)
    → All IsPlain (c ∷ l)
    → open_stream (c ∷ (l ++ cr ∷ lf ∷ tail)) ≡ ok (held c l tail)
unfolding open_stream
open_stream-held c [] tail h = ground arith
open_stream-held c (d ∷ l) tail h = ground arith

uflow-held :
    (c d : ℕ) (l tail : Bytes)
    → All IsPlain (c ∷ d ∷ l)
    → uflow (held c (d ∷ l) tail) ≡ ok (some c, held d l tail)
unfolding uflow
uflow-held c d [] tail h = ground arith
uflow-held c d (e ∷ l) tail h = ground arith

uflow-ended : (c : ℕ) (rest : Bytes) → uflow (held c [] (cr ∷ lf ∷ rest)) ≡ ok (none, ended rest)
unfolding uflow
uflow-ended c rest = refl

uflow-between :
    (c x : ℕ) (tail : Bytes)
    → IsPlain x
    → uflow (held c [] (x ∷ tail)) ≡ ok (some c, between x tail)
unfolding uflow
uflow-between c x tail h = ground arith

uflow-next :
    (x : ℕ) (l tail : Bytes)
    → All IsPlain (x ∷ l)
    → uflow (between x (l ++ cr ∷ lf ∷ tail)) ≡ ok (some lf, held x l tail)
unfolding uflow
uflow-next x [] tail h = ground arith
uflow-next x (d ∷ l) tail h = ground arith

-- The last line of a message ends the stream.
scan_line-last :
    (l : Bytes) (f c : ℕ) (rest text : Bytes)
    → length l + 2 ≤ f
    → All IsPlain (c ∷ l)
    → scan_line f (some c) (held c l (cr ∷ lf ∷ rest)) text
      ≡ ok (record { text = text ++ c ∷ l; at_end = true; rest = ended rest })
unfolding scan_line
scan_line-last l zero c rest text fits h = absurd (omega arith)
scan_line-last l (suc zero) c rest text fits h = absurd (omega arith)
scan_line-last [] (suc (suc f)) c rest text fits h = ground (arith, uflow-ended c rest)
scan_line-last (d ∷ l) (suc (suc f)) c rest text fits h = ground (
  arith,
  uflow-held c d l (cr ∷ lf ∷ rest),
  scan_line-last l (suc f) d rest (text ++ c ∷ []),
  append_assoc text (c ∷ []) (d ∷ l),
)

-- A line that another follows ends at its LF, with the stream at the next line.
scan_line-next :
    (l : Bytes) (f c x : ℕ) (m tail text : Bytes)
    → length l + 2 ≤ f
    → All IsPlain (c ∷ l)
    → All IsPlain (x ∷ m)
    → scan_line f (some c) (held c l (x ∷ (m ++ cr ∷ lf ∷ tail))) text
      ≡ ok (record { text = text ++ c ∷ l; at_end = false; rest = held x m tail })
unfolding scan_line
scan_line-next l zero c x m tail text fits h k = absurd (omega arith)
scan_line-next l (suc zero) c x m tail text fits h k = absurd (omega arith)
scan_line-next [] (suc (suc f)) c x m tail text fits h k =
    ground (arith, uflow-between c x (m ++ cr ∷ lf ∷ tail), uflow-next x m tail)
scan_line-next (d ∷ l) (suc (suc f)) c x m tail text fits h k = ground (
  arith,
  uflow-held c d l (x ∷ (m ++ cr ∷ lf ∷ tail)),
  scan_line-next l (suc f) d x m tail (text ++ c ∷ []),
  append_assoc text (c ∷ []) (d ∷ l),
)

length-held : (c : ℕ) (l tail : Bytes) → length l + 2 ≤ fuel_for (held c l tail)
length-held c [] tail = omega arith
length-held c (d ∷ l) tail = omega (arith, length-append l (cr ∷ lf ∷ tail))

underflow-held : (c : ℕ) (l tail : Bytes) → underflow (held c l tail) ≡ some c
underflow-held c [] tail = refl
underflow-held c (d ∷ l) tail = refl

drain-frame :
    (ls : List Bytes) (f c : ℕ) (l rest : Bytes) (lines : List Bytes)
    → length ls + 2 ≤ f
    → All IsLine ((c ∷ l) ∷ ls)
    → drain f false (held c l (frame ls rest)) lines ≡ ok (lines ++ (c ∷ l) ∷ ls, rest)
unfolding drain
drain-frame ls zero c l rest lines fits h = absurd (omega arith)
drain-frame ls (suc zero) c l rest lines fits h = absurd (omega arith)
drain-frame [] (suc (suc f)) c l rest lines fits h =
    let tail = cr ∷ lf ∷ rest in
    rw
      (
        underflow-held c l tail,
        scan_line-last l (fuel_for (held c l tail)) c rest [] (length-held c l tail) h.0,
      )
      refl
drain-frame ((x ∷ m) ∷ ls) (suc (suc f)) c l rest lines fits h =
    let tail = x ∷ (m ++ cr ∷ lf ∷ frame ls rest) in
    rw
      (
        underflow-held c l tail,
        scan_line-next l (fuel_for (held c l tail)) c x m (frame ls rest) [] (length-held c l tail)
            h.0 h.1.0,
      )
      (drain-frame ls (suc f) x m rest (lines ++ (c ∷ l) ∷ []) (omega arith) h.1
        ∙ ap (λ t. ok (t, rest)) (append_assoc lines ((c ∷ l) ∷ []) ((x ∷ m) ∷ ls)))
drain-frame ([] ∷ ls) (suc (suc f)) c l rest lines fits h = elim h.1.0 [ ]

length-frame : (ls : List Bytes) (rest : Bytes) → length ls ≤ length (frame ls rest)
length-frame [] rest = omega arith
length-frame (l ∷ ls) rest =
    omega (arith, length-frame ls rest, length-append l (cr ∷ lf ∷ frame ls rest))

fuel_for-frame :
    (c : ℕ) (l : Bytes) (ls : List Bytes) (rest : Bytes)
    → length ls + 2 ≤ fuel_for (held c l (frame ls rest))
fuel_for-frame c [] ls rest = omega (arith, length-frame ls rest)
fuel_for-frame c (d ∷ l) ls rest =
    omega (arith, length-frame ls rest, length-append l (cr ∷ lf ∷ frame ls rest))

-- From the bytes of a message of at least one line, each non-empty and free of CR and LF, a read
-- takes exactly its lines, and leaves exactly the bytes behind the message.
pub read-frame :
    (ls : List Bytes) (rest : Bytes)
    → ls ≢ []
    → All IsLine ls
    → read (frame ls rest) ≡ ok (ls, rest)
unfolding read
read-frame [] rest ne h = absurd (ne refl)
read-frame ([] ∷ ls) rest ne h = elim h.0 [ ]
read-frame ((c ∷ l) ∷ ls) rest ne h =
    rw (open_stream-held c l (frame ls rest) h.0)
      (drain-frame ls _ c l rest [] (fuel_for-frame c l ls rest) h)
