-- ===== src/Sys/Process.antt =====
-- src/Sys/Process.hpp.
use kvm_cloud.Base.{
  Bool, false, List, [], ◌∷◌, ◌++◌, Bytes, codes, if◌then◌else◌, Error, exception, ok, ◌≡◌, ap,
}
use kvm_cloud.Base.Exec.{Exec, raise, steps, modify, ◌>>◌}
use kvm_cloud.Std.Int.{ℤ, pos, int_eq}
use kvm_cloud.Sys.Host.{Host, HostLaws}

-- `_pid` is 0 before the first run.
pub record Process : Type 0 where
  pub path : Bytes
  pub opts : List Bytes
  pub pid : ℤ

abbrev pub process : Bytes → List Bytes → Process
process path opts = record { path = path; opts = opts; pid = pos 0 }

-- The text of a `Util::Exception` with a place (src/Util/Exception.hpp).
abbrev pub failure : Bytes → Bytes → Error
failure place what = exception (codes "in " ++ place ++ codes ": " ++ what)

module _ (h : Host) where
  -- A process object, and the machine that it runs on.
  abbrev pub OnHost : Type 0
  OnHost = Process × h.State

  unfoldable pub is_running : h.State → Process → Bool
  is_running s p = if int_eq p.pid (pos 0) then false else h.alive s p.pid

  -- `fork` and `execvp`: the arguments get an empty name in front
  abbrev start : OnHost → ℤ × OnHost
  start (p, s) =
      let (pid, s') = h.fork_exec s p.path ([] ∷ p.opts) in (pid, (record p { pid = pid }, s'))

  unfoldable pub run : Exec OnHost ℤ
  unfolding is_running
  run (p, s) =
      if is_running s p
      then raise (failure (codes "Process::run(bool)") (codes "attempt to run running process"))
          (p, s)
      else steps start (p, s)

  -- `SIGINT`
  unfoldable pub kill : OnHost → OnHost
  kill (p, s) = (p, h.signal s p.pid (pos 2))

  unfoldable pub wait : OnHost → OnHost
  wait (p, s) = (p, h.wait_pid s p.pid)

  unfoldable pub run_and_wait : Exec OnHost (Unit {0})
  unfolding run wait
  run_and_wait = do run; modify wait

  -- A process that does not run is started with an empty argument in front of its own; what `fork`
  -- returned becomes its process id.
  pub run_lem :
      (p : Process) (s : h.State)
      → is_running s p ≡ false
      → run (p, s) ≡ (
        ok (h.fork_exec s p.path ([] ∷ p.opts)).0,
        (
          record p { pid = (h.fork_exec s p.path ([] ∷ p.opts)).0 },
          (h.fork_exec s p.path ([] ∷ p.opts)).1,
        ),
      )
  unfolding run
  run_lem p s stopped = rw (stopped, run)

  -- Writing a file starts and ends no process.
  pub is_running-write_file :
      (laws : HostLaws h) (s : h.State) (f text : Bytes) (p : Process)
      → is_running (h.write_file s f text) p ≡ is_running s p
  unfolding is_running
  is_running-write_file laws s f text p =
      ap (λ b. if int_eq p.pid (pos 0) then false else b) (laws.alive-write_file s f text p.pid)
