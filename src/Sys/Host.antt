-- ===== src/Sys/Host.antt =====
-- The operating system of one machine, which the program calls and does not implement: its files,
-- its processes and the ports on which something listens. A record of operations; `HostLaws` states
-- what the theorems use of their documented behaviour.
pub mod Files
use kvm_cloud.Base.{
  ℕ, ◌<◌, ◌≡◌, ◌≢◌, some, ◌∷◌, ◌++◌, Lacks, length, Bool, false, Option, List, Bytes,
}
use kvm_cloud.Std.Int.{ℤ}

pub record Host : Type 1 where
  pub State : Type 0
  -- `stat` finds a directory
  pub dir_exists : State → Bytes → Bool
  -- the text of a file that can be opened for reading
  pub read_file : State → Bytes → Option Bytes
  -- a file opened by `std::ofstream`, written and closed; nothing if it cannot be opened
  pub write_file : State → Bytes → Bytes → State
  -- `opendir` and `readdir`
  pub entries : State → Bytes → Option (List Bytes)
  -- a socket can be made, and its connection to this port of 127.0.0.1 is accepted
  pub listening : State → ℕ → Bool
  -- `fork`, and in the child `execvp` of a program with its arguments; the result of `fork`
  pub fork_exec : State → Bytes → List Bytes → ℤ × State
  -- `waitpid`
  pub wait_pid : State → ℤ → State
  -- `::kill(pid, 0) == 0`
  pub alive : State → ℤ → Bool
  -- `::kill(pid, signal)`
  pub signal : State → ℤ → ℤ → State

-- The documented behaviour that the theorems rely on.
pub record HostLaws (h : Host) : Type 0 where
  -- nothing listens on port 0
  pub port_zero : (s : h.State) → h.listening s 0 ≡ false
  -- writing a file makes and removes no directory, and opens no port
  pub dir_exists-write_file :
      (s : h.State) (p d text : Bytes) → h.dir_exists (h.write_file s p text) d ≡ h.dir_exists s d
  pub listening-write_file :
      (s : h.State) (p text : Bytes) (n : ℕ)
      → h.listening (h.write_file s p text) n ≡ h.listening s n
  pub alive-write_file :
      (s : h.State) (p text : Bytes) (pid : ℤ) → h.alive (h.write_file s p text) pid ≡ h.alive s pid

-- A name that a file can have: no slash, and neither "." nor "..".
abbrev pub IsName : Bytes → Type 0
IsName a = Lacks b'/' a × (2 < length a)

-- The documented behaviour of the files in a directory that the program can write to.
pub record FileLaws (h : Host) : Type 1 where
  -- the directory holds ordinary files alone, and files in it can be opened for writing
  pub IsOpen : h.State → Bytes → Type 0
  pub IsOpen-write_file :
      (s : h.State) (d p text : Bytes) → IsOpen s d → IsOpen (h.write_file s p text) d
  pub read_file-write_file :
      (s : h.State) (d a text : Bytes)
      → IsOpen s d
      → IsName a
      → h.read_file (h.write_file s (d ++ b'/' ∷ a) text) (d ++ b'/' ∷ a) ≡ some text
  pub read_file-write_file_ne :
      (s : h.State) (d a b text : Bytes)
      → IsOpen s d
      → IsName a
      → IsName b
      → a ≢ b
      → h.read_file (h.write_file s (d ++ b'/' ∷ a) text) (d ++ b'/' ∷ b)
        ≡ h.read_file s (d ++ b'/' ∷ b)
