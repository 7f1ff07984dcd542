-- ===== src/Util/Logger/Overflow.antt =====
-- When a log line of src/Util/Logger.hpp fits the buffer.
use kvm_cloud.Base.{
  append-nil, ℕ, ◌+◌, ◌≤◌, ◌≡◌, ◌≢◌, ◌↔◌, refl, [], ◌∷◌, ◌++◌, Bytes, codes, All-append, Lacks,
  length, length-append, ltb, leb, if◌then◌else◌, Bool-cases, inl, inr, ok, err, undefined, arith,
}
use kvm_cloud.Util.Logger.{
  c_str, sprintf, printf, buffer_size, buffered, Level, number, level_string, output, log_request,
}

c_str-Lacks : (s : Bytes) → Lacks 0 s → c_str s ≡ s
unfolding c_str
c_str-Lacks [] h = refl
c_str-Lacks (c ∷ s) h = ground (arith, c_str-Lacks s h.1)

level_string-Lacks : (l : Level) → Lacks 0 (level_string l)
level_string-Lacks Level.debug = omega arith
level_string-Lacks Level.info = omega arith
level_string-Lacks Level.warn = omega arith
level_string-Lacks Level.error = omega arith
level_string-Lacks Level.none = omega arith

-- the line in front of its end
abbrev pub line : Level → Bytes → Bytes → Bytes
line l time message =
    codes "[" ++ (level_string l ++ (codes "] " ++ (time ++ (codes " : " ++ message))))

sprintf-line :
    (level time message : Bytes)
    → sprintf (codes "[%s] %s : %s") (level ∷ time ∷ message ∷ [])
      ≡ ok (
          codes "["
          ++ (c_str level
              ++ (codes "] " ++ (c_str time ++ (codes " : " ++ (c_str message ++ []))))))
unfolding sprintf
sprintf-line level time message = refl

printf-line :
    (l : Level) (time message : Bytes)
    → Lacks 0 time
    → Lacks 0 message
    → printf (codes "[%s] %s : %s") (level_string l ∷ time ∷ message ∷ [])
      ≡ buffered (line l time message)
unfolding printf
printf-line l time message t m = rw (
  sprintf-line (level_string l) time message,
  c_str-Lacks (level_string l) (level_string-Lacks l),
  c_str-Lacks time t,
  c_str-Lacks message m,
  append-nil message,
)

length-line :
    (l : Level) (time message : Bytes)
    → length (line l time message) ≡ 6 + length (level_string l) + length time + length message
length-line l time message = omega (
  arith,
  length-append (level_string l) (codes "] " ++ (time ++ (codes " : " ++ message))),
  length-append time (codes " : " ++ message),
)

-- For a time and a message without NUL, `output` prints the line of level, time and message if the
-- message's level is at least that of the logger and the line fits the buffer; if it does not fit
-- the behaviour is undefined, and below the logger's level nothing is printed.
pub output_lem :
    (logger_level l : Level) (time message : Bytes)
    → Lacks 0 time
    → Lacks 0 message
    → output logger_level time l message ≡ (
        if leb (number logger_level) (number l)
        then (if ltb (6 + length (level_string l) + length time + length message) buffer_size
            then ok (line l time message ++ codes "\n")
            else err undefined)
        else ok [])
unfolding output
output_lem logger_level l time message t m =
    elim (Bool-cases (leb (number logger_level) (number l))) [
      | inl shown ↦
          rw (shown, printf-line l time message t m, length-line l time message)
            (elim (Bool-cases
              (ltb (6 + length (level_string l) + length time + length message) buffer_size)) [
                | inl fits ↦ rw fits
                | inr long ↦ rw long
              ])
      | inr hidden ↦ rw hidden
    ]

-- the test on the length of the whole line
overflow :
    (text : Bytes) (k n : ℕ)
    → k ≡ 38 + n
    → ((if ltb k buffer_size then ok text else err undefined) ≡ err undefined) ↔ (986 ≤ n)
overflow text k n e = (λ h. ground arith, λ h. ground arith)

-- With a time of 8 bytes, and a time and a request without NUL, logging a request overruns the
-- buffer exactly if the request has at least 986 bytes.
pub log_request_overflow :
    (time cmd : Bytes)
    → length time ≡ 8
    → Lacks 0 time
    → Lacks 0 cmd
    → (log_request time cmd ≡ err undefined) ↔ (986 ≤ length cmd)
unfolding log_request
log_request_overflow time cmd clock t m =
    let whole =
      output_lem Level.info Level.info time (codes "processing request: " ++ cmd) t
        (All-append (λ c. c ≢ 0) (codes "processing request: ") cmd (omega arith) m) in
    rw whole (
      overflow _ (6 + 4 + length time + length (codes "processing request: " ++ cmd)) (length cmd)
        (omega (arith, length-append (codes "processing request: ") cmd)))
