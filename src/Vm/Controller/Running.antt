-- ===== src/Vm/Controller/Running.antt =====
-- `run` of src/Vm/Controller.hpp on every branch, and its search for another port.
use kvm_cloud.Base.{
  ◌≡◌, refl, ◌∙◌, true, false, not, some, [], ◌∷◌, ◌++◌, Bytes, codes, ok, Option-cases, inl, inr,
}
use kvm_cloud.Std.Int.{ℤ, succ}
use kvm_cloud.Vm.Controller.Search.{Fits, IsFirstFree, find_next_port_lem}
use kvm_cloud.Std.Map.{find}
use kvm_cloud.Std.Map.Keys.{int_order}
use kvm_cloud.Sys.Host.{Host, HostLaws}
use kvm_cloud.Sys.Process
use kvm_cloud.Sys.Process.{Process}
use kvm_cloud.Util.Cookie
use kvm_cloud.Vm.Instance.{Instance, set_ssh_port}
use kvm_cloud.Vm.Controller.{
  Node, is_port_free, find_next_port, advance_port, inst_dir, put_instance,
}
use kvm_cloud.Vm.Controller.Methods.{rebind, run_known, run}

module _ (h : Host) where
  abbrev pub dir_of : Node h → ℤ → Bytes
  dir_of n id = inst_dir n.controller.working_dir id

  -- the node once `inst` has been started and its process id written
  abbrev pub started : ℤ → Instance → Node h → Node h
  started id inst n =
      let (pid, s) = h.fork_exec n.host inst.process.path ([] ∷ inst.process.opts) in
      put_instance h id (record inst { process = record inst.process { pid = pid } })
        (record n { host = Cookie.write_int h s (dir_of n id ++ codes "/.pid") pid })

  -- the node once `inst` has got another port
  abbrev pub moved : ℤ → Instance → ℤ → Node h → Node h
  moved id inst port n = put_instance h id (set_ssh_port inst port) (record n {
    controller = record n.controller { next_port = port };
    host = Cookie.write_int h n.host (dir_of n id ++ codes "/.ssh") port;
  })

  still_stopped :
      (laws : HostLaws h) (s : h.State) (p : Process) (f : Bytes) (port : ℤ)
      → Process.is_running h s p ≡ false
      → Process.is_running h (Cookie.write_int h s f port) p ≡ false
  unfolding Cookie.write_int Cookie.write
  still_stopped laws s p f port stopped = Process.is_running-write_file h laws s f _ p ∙ stopped

  rebind_free :
      (id : ℤ) (inst : Instance) (n : Node h)
      → is_port_free h n.host inst.ssh_port ≡ true
      → rebind h id (dir_of n id) inst n ≡ (ok inst, n)
  unfolding rebind
  rebind_free id inst n free = rw (free, rebind)

  rebind_taken :
      (id : ℤ) (inst : Instance) (port : ℤ) (n : Node h)
      → is_port_free h n.host inst.ssh_port ≡ false
      → find_next_port h n n.controller.next_port ≡ ok port
      → rebind h id (dir_of n id) inst n ≡ (ok (set_ssh_port inst port), moved id inst port n)
  unfolding rebind advance_port
  rebind_taken id inst port n taken found = rw (taken, found, rebind, advance_port)

  run_known_lem :
      (id : ℤ) (inst bound : Instance) (n n' : Node h)
      → Process.is_running h n.host inst.process ≡ false
      → rebind h id (dir_of n id) inst n ≡ (ok bound, n')
      → Process.is_running h n'.host bound.process ≡ false
      → n'.controller.working_dir ≡ n.controller.working_dir
      → run_known h id inst n ≡ (ok true, started id bound n')
  unfolding run_known
  run_known_lem id inst bound n n' stopped e still same_dir =
      rw (stopped, e, Process.run_lem h bound.process n'.host still, same_dir, run_known)

  -- If an id names no instance, or one that runs, `run` returns false and changes nothing.
  pub run_refused :
      (id : ℤ) (n : Node h)
      → ((inst : Instance)
          → find id n.controller.instances ≡ some inst
          → Process.is_running h n.host inst.process ≡ true)
      → run h id n ≡ (ok false, n)
  unfolding run run_known
  run_refused id n all_run = elim (Option-cases (find id n.controller.instances)) [
    | inl e ↦ rw (e, run)
    | inr (inst, e) ↦ rw (e, all_run inst e, run, run_known)
  ]

  -- A known instance that does not run and whose port is free is started by `run`: its process gets
  -- what `fork` returned as its id, the `.pid` cookie is written, and true is returned. Neither the
  -- ports nor the rest of the node change.
  pub run-started :
      (id : ℤ) (inst : Instance) (n : Node h)
      → find id n.controller.instances ≡ some inst
      → Process.is_running h n.host inst.process ≡ false
      → is_port_free h n.host inst.ssh_port ≡ true
      → run h id n ≡ (ok true, started id inst n)
  unfolding run
  run-started id inst n known stopped free =
      rw (known, run)
        (run_known_lem id inst inst n n stopped (rebind_free id inst n free) stopped refl)

  -- If the port of a known instance that does not run is taken, and `nextPort` is at least 65537
  -- below the end of the `int`s, and if nothing listens on port 0 and writing a file starts no
  -- process, `run` assigns the first free port behind `nextPort`, writes it to the `.ssh` cookie and
  -- the instance, and starts the process with the arguments that it had before.
  pub run-moved :
      (laws : HostLaws h) (id : ℤ) (inst : Instance) (n : Node h)
      → find id n.controller.instances ≡ some inst
      → Process.is_running h n.host inst.process ≡ false
      → is_port_free h n.host inst.ssh_port ≡ false
      → Fits n.controller.next_port 65537
      → (port : ℤ) × IsFirstFree
          (λ z. not (is_port_free h n.host z))
          (succ n.controller.next_port)
          port
        × (run h id n ≡ (ok true, started id (set_ssh_port inst port) (moved id inst port n)))
  unfolding run
  run-moved laws id inst n known stopped taken fits =
      let (port, found, first, _) = find_next_port_lem h laws n n.controller.next_port fits in
      (
        port,
        first,
        rw (known, run)
            (run_known_lem id inst (set_ssh_port inst port) n (moved id inst port n) stopped
              (rebind_taken id inst port n taken found)
              (still_stopped laws n.host inst.process (dir_of n id ++ codes "/.ssh") port stopped)
              refl),
      )
