-- ===== src/Util/Logger.antt =====
-- src/Util/Logger.hpp, and `printf` of src/Util/Helpers.hpp, which formats a log line in a buffer of
-- 1024 bytes. The time is a parameter.
pub mod Overflow
use kvm_cloud.Base.{
  ℕ, ◌+◌, ◌==◌, ltb, leb, Bool, true, false, List, [], ◌∷◌, ◌++◌, Bytes, codes, length,
  if◌then◌else◌, Result, ok, err, undefined, ◌>>=◌,
}

-- what `%s` prints of a `c_str()`: the bytes in front of the first NUL
unfoldable pub c_str : Bytes → Bytes
c_str [] = []
c_str (c ∷ s) = if c == 0 then [] else c ∷ c_str s

abbrev behind : Bytes → Result Bytes → Result Bytes
behind s rest = rest >>= λ t. ok (s ++ t)

-- `sprintf` with the directive that the program uses, `%s`; too few arguments are undefined.
unfoldable pub sprintf : Bytes → List Bytes → Result Bytes
unfolding c_str
sprintf [] args = ok []
sprintf (c ∷ []) args = if c == b'%' then err undefined else ok (c ∷ [])
sprintf (c ∷ d ∷ f) [] =
    let rest = sprintf (d ∷ f) [] in if c == b'%' then err undefined else behind (c ∷ []) rest
sprintf (c ∷ d ∷ f) (arg ∷ args) =
    let directive = behind (c_str arg) (sprintf f args) in
    let rest = behind (c ∷ []) (sprintf (d ∷ f) (arg ∷ args)) in
    if c == b'%' then (if d == b's' then directive else err undefined) else rest

abbrev pub buffer_size : ℕ
buffer_size = 1024

-- a text with its NUL that does not fit overruns the buffer
abbrev buffered : Bytes → Result Bytes
buffered text = if ltb (length text) buffer_size then ok text else err undefined

unfoldable pub printf : Bytes → List Bytes → Result Bytes
unfolding sprintf
printf format args = sprintf format args >>= buffered

pub data Level : Type 0 where
  debug info warn error none : Level

abbrev pub number : Level → ℕ
number Level.debug = 0
number Level.info = 1
number Level.warn = 2
number Level.error = 3
number Level.none = 4

abbrev pub level_string : Level → Bytes
level_string Level.debug = codes "DEBUG"
level_string Level.info = codes "INFO"
level_string Level.warn = codes "WARN"
level_string Level.error = codes "ERROR"
level_string Level.none = codes "NONE"

-- `output` at this time: what it prints
unfoldable pub output : Level → Bytes → Level → Bytes → Result Bytes
unfolding printf
output logger_level time message_level message =
    if leb (number logger_level) (number message_level)
    then (printf (codes "[%s] %s : %s") (level_string message_level ∷ time ∷ message ∷ [])
        >>= λ line. ok (line ++ codes "\n"))
    else ok []

-- `logger->info("processing request: " + cmd)` of both handlers
unfoldable pub log_request : Bytes → Bytes → Result Bytes
unfolding output
log_request time cmd = output Level.info time Level.info (codes "processing request: " ++ cmd)
