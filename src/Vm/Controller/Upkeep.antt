-- ===== src/Vm/Controller/Upkeep.antt =====
-- One walk through the methods of src/Vm/Controller.hpp for every invariant of the controller: what
-- a method does to the controller is a change of a counter or of one entry of the map, on every
-- branch and also behind an exception.
use kvm_cloud.Base.{
  ◌≡◌, some, Bytes, Result, ok, err, Bool-cases, Result-cases, Option-cases, inl, inr,
}
use kvm_cloud.Std.Int.{ℤ, IsInt}
use kvm_cloud.Std.Map.{find, insert}
use kvm_cloud.Std.Map.Keys.{bytes_order, int_order}
use kvm_cloud.Sys.Host.{Host}
use kvm_cloud.Sys.Process
use kvm_cloud.Sys.Process.{Process, process}
use kvm_cloud.Vm.Instance.{Instance, set_ssh_port}
use kvm_cloud.Vm.Controller.{Controller, Node, is_port_free, find_next_port, advance_port, inst_dir}
use kvm_cloud.Vm.Controller.Outcomes.{find_next_port-ok}
use kvm_cloud.Vm.Controller.Methods.{rebind, run_known, run, kill}

-- `P` is an invariant of the methods on the ids `Allowed`: the counters may be any `int`s, and an
-- entry may be any instance that `Fits`. What is found fits, and so does what `restore` makes.
pub record Invariant (Allowed : ℤ → Type 0) : Type 1 where
  pub P : Controller → Type 0
  pub Fits : ℤ → Instance → Type 0
  pub counters : (c : Controller) → P c → IsInt c.next_id × IsInt c.next_port
  pub new_port : (c : Controller) (port : ℤ) → IsInt port → P c → P (record c { next_port = port })
  pub new_id : (c : Controller) (id : ℤ) → IsInt id → P c → P (record c { next_id = id })
  pub put :
      (c : Controller) (id : ℤ) (inst : Instance)
      → Fits id inst
      → P c
      → P (record c { instances = insert id inst c.instances })
  pub found :
      (c : Controller) (id : ℤ) (inst : Instance)
      → Allowed id
      → P c
      → find id c.instances ≡ some inst
      → Fits id inst
  pub moved :
      (id port : ℤ) (inst : Instance) → IsInt port → Fits id inst → Fits id (set_ssh_port inst port)
  pub processed :
      (id : ℤ) (inst : Instance) (p : Process)
      → Fits id inst
      → Fits id (record inst { process = p })
  pub fresh :
      (c : Controller) (inst : Instance) (name : Bytes)
      → Allowed inst.id
      → P c
      → find name c.templates ≡ some inst.templat
      → IsInt inst.memory × IsInt inst.cpus × IsInt inst.ssh_port
      → Fits inst.id inst

module _ (h : Host) {Allowed : ℤ → Type 0} (i : Invariant Allowed) where
  abbrev pub Holds : Node h → Type 0
  Holds n = i.P n.controller

  pub advance_port-Holds : (n : Node h) → Holds n → Holds (advance_port h n).1
  unfolding advance_port
  advance_port-Holds n p = elim (Result-cases (find_next_port h n n.controller.next_port)) [
    | inl (port, e) ↦
        rw (e, advance_port)
          (i.new_port n.controller port
            (find_next_port-ok h n _ port (i.counters n.controller p).1 e) p)
    | inr (x, e) ↦ rw (e, advance_port) p
  ]

  rebind-Holds :
      (id : ℤ) (dir : Bytes) (inst : Instance) (n : Node h)
      → i.Fits id inst
      → Holds n
      → Holds (rebind h id dir inst n).1
  unfolding rebind advance_port
  rebind-Holds id dir inst n fits p = elim (Bool-cases (is_port_free h n.host inst.ssh_port)) [
    | inl free ↦ rw (free, rebind) p
    | inr taken ↦ elim (Result-cases (find_next_port h n n.controller.next_port)) [
      | inl (port, e) ↦
          let int = find_next_port-ok h n _ port (i.counters n.controller p).1 e in
          rw (taken, e, rebind, advance_port)
            (i.put _ id (set_ssh_port inst port) (i.moved id port inst int fits)
              (i.new_port n.controller port int p))
      | inr (x, e) ↦ rw (taken, e, rebind, advance_port) p
    ]
  ]

  rebind-Fits :
      (id : ℤ) (dir : Bytes) (inst bound : Instance) (n : Node h)
      → i.Fits id inst
      → Holds n
      → (rebind h id dir inst n).0 ≡ ok bound
      → i.Fits id bound
  unfolding rebind advance_port
  rebind-Fits id dir inst bound n fits p done =
      elim (Bool-cases (is_port_free h n.host inst.ssh_port)) [
        | inl free ↦ let same : inst ≡ bound = cc (rw (free, rebind) at done) in rw (← same) fits
        | inr taken ↦ elim (Result-cases (find_next_port h n n.controller.next_port)) [
          | inl (port, e) ↦
              let same : set_ssh_port inst port ≡ bound =
                cc (rw (taken, e, rebind, advance_port) at done) in
              rw (← same) (
                i.moved id port inst (find_next_port-ok h n _ port (i.counters n.controller p).1 e)
                  fits)
          | inr (x, e) ↦
              let never : ◌≡◌ {A = Result Instance} (err x) (ok bound) =
                rw (taken, e, rebind, advance_port) at done in
              cc
        ]
      ]

  run_known-Holds :
      (id : ℤ) (inst : Instance) (n : Node h)
      → i.Fits id inst
      → Holds n
      → Holds (run_known h id inst n).1
  unfolding run_known
  run_known-Holds id inst n fits p =
      let dir = inst_dir n.controller.working_dir id in
      let tried = rebind h id dir inst n in
      let kept = rebind-Holds id dir inst n fits p in
      elim (Bool-cases (Process.is_running h n.host inst.process)) [
        | inl running ↦ rw (running, run_known) p
        | inr stopped ↦ elim (Result-cases tried.0) [
          | inl (bound, e) ↦
              let after =
                i.put tried.1.controller id _
                  (i.processed id bound _ (rebind-Fits id dir inst bound n fits p e)) kept in
              elim (Result-cases (Process.run h (bound.process, tried.1.host)).0) [
                | inl (pid, f) ↦ rw (stopped, e, f, run_known) after
                | inr (x, f) ↦ rw (stopped, e, f, run_known) after
              ]
          | inr (x, e) ↦ rw (stopped, e, run_known) kept
        ]
      ]

  pub run-Holds : (id : ℤ) (n : Node h) → Allowed id → Holds n → Holds (run h id n).1
  unfolding run
  run-Holds id n a p = elim (Option-cases (find id n.controller.instances)) [
    | inl e ↦ rw (e, run) p
    | inr (inst, e) ↦ rw (e, run) (run_known-Holds id inst n (i.found n.controller id inst a p e) p)
  ]

  pub kill-Holds : (id : ℤ) (n : Node h) → Holds n → Holds (kill h id n).1
  unfolding kill
  kill-Holds id n p = elim (Option-cases (find id n.controller.instances)) [
    | inl e ↦ rw (e, kill) p
    | inr (inst, e) ↦ elim (Bool-cases (Process.is_running h n.host inst.process)) [
      | inl running ↦ rw (e, running, kill) p
      | inr stopped ↦ rw (e, stopped, kill) p
    ]
  ]
