-- ===== src/Net/Stream.antt =====
-- src/Net/SocketIstream.hpp, and `Socket::read` of src/Net/Socket.hpp, which drains such a stream
-- with `std::getline`. The connection is the list of the bytes that arrive; a read past its end
-- waits, as on an open connection, and `read_to` adds what it does on a closed one. `getline` is that
-- of libstdc++, which takes characters by `sgetc` and `snextc`.
mod Tests
pub mod Frames
pub mod Ends
use kvm_cloud.Base.{
  ℕ, zero, suc, ◌+◌, Bool, true, false, ◌&&◌, ◌||◌, Option, none, some, List, [], ◌∷◌, ◌++◌, ◌==◌,
  if◌then◌else◌, Bytes, length, Result, Error, ok, err, ◌>>=◌, blocked, undefined, diverges,
}

abbrev pub cr : ℕ
cr = b'\r'

abbrev pub lf : ℕ
lf = b'\n'

-- `SocketStreambuf`; `stream` holds the bytes not yet read from the socket
pub record Buffer : Type 0 where
  pub stream : Bytes
  pub curr : ℕ
  pub next : ℕ
  pub is_eos : Bool

-- `peek`: one byte from the socket, past every carriage return
unfoldable pub peek : Bytes → Result (ℕ × Bytes)
peek [] = err blocked
peek (c ∷ s) = if c == cr then peek s else ok (c, s)

-- what `next` does with the byte that `peek` returned
abbrev pub shift : Buffer → ℕ × Bytes → Buffer
shift b (c, s) = record {
  stream = s;
  curr = b.next;
  next = c;
  is_eos = b.is_eos || (b.next == lf && c == lf);
}

-- `next`
abbrev pub advance : Buffer → Result Buffer
advance b = peek b.stream >>= λ p. ok (shift b p)

-- the constructor; `currChar` is not set before the first `next`
unfoldable pub open_stream : Bytes → Result Buffer
unfolding peek
open_stream s =
    peek s >>= λ p. advance (record { stream = p.1; curr = 0; next = p.0; is_eos = false })

-- `underflow`; `none` is `eof`
abbrev pub underflow : Buffer → Option ℕ
underflow b = if b.is_eos then none else some b.curr

-- `uflow`
unfoldable pub uflow : Buffer → Result (Option ℕ × Buffer)
unfolding peek
uflow b =
    if b.is_eos
    then ok (none, b)
    else advance b >>= λ b'. ok (if b'.is_eos then none else some b.curr, b')

-- `snextc` of `std::streambuf`: `uflow`, then a look at what comes
abbrev pub after_uflow : Option ℕ × Buffer → Option ℕ × Buffer
after_uflow (none, b) = (none, b)
after_uflow (some _, b) = (underflow b, b)

-- A line as `std::getline` leaves it: its text, `eofbit`, and the stream behind it.
pub record Line : Type 0 where
  pub text : Bytes
  pub at_end : Bool
  pub rest : Buffer

-- The loop of `std::getline` at the character `c`.
unfoldable pub scan_line : ℕ → Option ℕ → Buffer → Bytes → Result Line
unfolding uflow
scan_line zero c b text = err diverges
scan_line (suc f) none b text = ok (record { text = text; at_end = true; rest = b })
scan_line (suc f) (some c) b text = elim (c == lf) [
  | true ↦ uflow b >>= λ p. ok (record { text = text; at_end = false; rest = p.1 })
  | false ↦ uflow b >>= λ p. let (c', b') = after_uflow p in scan_line f c' b' (text ++ c ∷ [])
]

-- `failbit`: nothing was taken, not even a delimiter.
abbrev pub failed : Line → Bool
failed l = elim l.text [ [] ↦ l.at_end | _ ∷ _ ↦ false ]

abbrev pub fuel_for : Buffer → ℕ
fuel_for b = length b.stream + 2

-- `while (std::getline(socketStream, line)) result.push_back(line)`, with the stream's `eofbit`; a
-- stream at its end yields no further line. The result is the lines and the bytes left unread.
unfoldable pub drain : ℕ → Bool → Buffer → List Bytes → Result (List Bytes × Bytes)
unfolding scan_line
drain zero at_end b lines = err diverges
drain (suc f) true b lines = ok (lines, b.stream)
drain (suc f) false b lines = scan_line (fuel_for b) (underflow b) b [] >>= λ l. elim (failed l) [
  | true ↦ ok (lines, l.rest.stream)
  | false ↦ drain f l.at_end l.rest (lines ++ l.text ∷ [])
]

-- `Socket::read`
unfoldable pub read : Bytes → Result (List Bytes × Bytes)
unfolding open_stream drain
read s = open_stream s >>= λ b. drain (fuel_for b) false b []

-- The other side may still send, or has closed the connection.
pub data End : Type 0 where
  alive closed : End

-- A byte that has not arrived: `::read` waits for it, or returns 0 and leaves `c` unset.
abbrev pub starved : End → Error
starved End.alive = blocked
starved End.closed = undefined

abbrev pub missed : End → Error → Error
missed e blocked = starved e
missed e x = x

-- `Socket::read` on a connection that has this end behind its bytes
unfoldable pub read_to : End → Bytes → Result (List Bytes × Bytes)
unfolding read
read_to e s = elim (read s) [ ok r ↦ ok r | err x ↦ err (missed e x) ]
