-- ===== src/Vm/Controller/Rerunning.antt =====
-- `run` of src/Vm/Controller.hpp on every branch, and a second `run` and a `kill` behind it.
use kvm_cloud.Base.{
  ◌≡◌, refl, sym, ap, ◌∙◌, Bool, true, false, some, [], ◌∷◌, ◌++◌, List, Bytes, codes,
  if◌then◌else◌, Result, ok, Bool-cases, Option-cases, Result-cases, inl, inr,
}
use mathlib.Core.Path.{subst}
use mathlib.Core.Option
use kvm_cloud.Base.Exec.{err-ne-ok}
use kvm_cloud.Std.Int.{ℤ, pos, int_eq}
use kvm_cloud.Std.Map.{find}
use kvm_cloud.Std.Map.Laws.{find-insert, same_iff}
use kvm_cloud.Std.Map.Keys.{int_order}
use kvm_cloud.Sys.Host.{Host, HostLaws}
use kvm_cloud.Sys.Process
use kvm_cloud.Sys.Process.{Process}
use kvm_cloud.Util.Cookie
use kvm_cloud.Vm.Instance.{Instance}
use kvm_cloud.Vm.Controller.{Node, put_instance}
use kvm_cloud.Vm.Controller.Methods.{rebind, run_known, run, kill}
use kvm_cloud.Vm.Controller.Running.{dir_of, run_refused}

module _ (h : Host) where
  -- On this machine `fork` succeeds: its result is not 0, and names a process that is alive.
  pub record Forks : Type 0 where
    pub child :
        (s : h.State) (path : Bytes) (args : List Bytes)
        → int_eq (h.fork_exec s path args).0 (pos 0) ≡ false
    pub alive :
        (s : h.State) (path : Bytes) (args : List Bytes)
        → h.alive (h.fork_exec s path args).1 (h.fork_exec s path args).0 ≡ true

  -- The instance runs; it is not started again, and `kill` sends SIGINT to its process and does
  -- nothing else.
  pub record Runs (id : ℤ) (n : Node h) : Type 0 where
    pub inst : Instance
    pub known : find id n.controller.instances ≡ some inst
    pub running : Process.is_running h n.host inst.process ≡ true
    pub again : run h id n ≡ (ok false, n)
    pub killed :
        kill h id n ≡ (ok true, record n { host = h.signal n.host inst.process.pid (pos 2) })

  -- what a started instance and its node are
  abbrev with_pid : Instance → h.State → Instance
  with_pid inst s = record inst {
    process = record inst.process {
      pid = (h.fork_exec s inst.process.path ([] ∷ inst.process.opts)).0;
    };
  }

  abbrev launched : Bytes → ℤ → Instance → Node h → Node h
  launched dir id inst n =
      let (pid, s) = h.fork_exec n.host inst.process.path ([] ∷ inst.process.opts) in
      put_instance h id (with_pid inst n.host)
        (record n { host = Cookie.write_int h s (dir ++ codes "/.pid") pid })

  Runs-running :
      (id : ℤ) (inst : Instance) (n : Node h)
      → find id n.controller.instances ≡ some inst
      → Process.is_running h n.host inst.process ≡ true
      → Runs id n
  unfolding kill Process.kill
  Runs-running id inst n known running = record {
    inst = inst;
    known = known;
    running = running;
    again = run_refused h id n (λ other e.
        subst (λ i. Process.is_running h n.host i.process ≡ true)
          (Option.some-injective inst other (sym known ∙ e)) running);
    killed = rw (known, running);
  }

  launched-running :
      (laws : HostLaws h) (forks : Forks) (dir : Bytes) (id : ℤ) (inst : Instance) (n : Node h)
      → Process.is_running h (launched dir id inst n).host (with_pid inst n.host).process ≡ true
  unfolding Process.is_running Cookie.write_int Cookie.write
  launched-running laws forks dir id inst n =
      let args = [] ∷ inst.process.opts in
      let child = forks.child n.host inst.process.path args in
      let up = forks.alive n.host inst.process.path args in
      rw (child, laws.alive-write_file _ _ _ _, up)

  launched-Runs :
      (laws : HostLaws h) (forks : Forks) (dir : Bytes) (id : ℤ) (inst : Instance) (n : Node h)
      → Runs id (launched dir id inst n)
  launched-Runs laws forks dir id inst n =
      let filed = with_pid inst n.host in
      let known =
        find-insert id id filed n.controller.instances
        ∙ ap (λ b. if b then some filed else find id n.controller.instances)
            ((same_iff id id).1 refl) in
      Runs-running id filed (launched dir id inst n) known
        (launched-running laws forks dir id inst n)

  run_known-Runs :
      (laws : HostLaws h) (forks : Forks) (id : ℤ) (inst : Instance) (n n' : Node h)
      → run_known h id inst n ≡ (ok true, n')
      → Runs id n'
  unfolding run_known Process.run
  run_known-Runs laws forks id inst n n' e =
      let dir = dir_of h n id in
      elim (Bool-cases (Process.is_running h n.host inst.process)) [
        | inl up ↦
            let no : ◌≡◌ {A = Result Bool × Node h} (ok false, n) (ok true, n') = rw (up) at e in cc
        | inr down ↦ elim (Result-cases (rebind h id dir inst n).0) [
          | inl (bound, r) ↦
              let n1 = (rebind h id dir inst n).1 in
              elim (Bool-cases (Process.is_running h n1.host bound.process)) [
                | inl up ↦ absurd (err-ne-ok (rw (down, r, up) at e))
                | inr still ↦
                    let done : ◌≡◌ {A = Result Bool × Node h} (ok true, launched dir id bound n1)
                        (ok true, n') =
                      rw (down, r, still) at e in
                    let same_node : launched dir id bound n1 ≡ n' = cc in
                    subst (Runs id) same_node (launched-Runs laws forks dir id bound n1)
              ]
          | inr (x, r) ↦ absurd (err-ne-ok (rw (down, r) at e))
        ]
      ]

  -- If `run` returns true, whatever branch it took, the instance is known and its process runs. A
  -- second `run` then returns false and changes nothing, and a `kill` returns true, sends SIGINT to
  -- that process and changes nothing else. The conditions: on the machine `fork` succeeds and names
  -- a process that is alive, and the machine obeys the laws of its files.
  pub run-Runs :
      (laws : HostLaws h) (forks : Forks) (id : ℤ) (n n' : Node h)
      → run h id n ≡ (ok true, n')
      → Runs id n'
  unfolding run
  run-Runs laws forks id n n' e = elim (Option-cases (find id n.controller.instances)) [
    | inl none_here ↦
        let no : ◌≡◌ {A = Result Bool × Node h} (ok false, n) (ok true, n') = rw (none_here) at e in
        cc
    | inr (inst, known) ↦ run_known-Runs laws forks id inst n n' (rw (known) at e)
  ]
