-- ===== src/Vm/Controller/Others.antt =====
-- What `run` and `instantiate` of src/Vm/Controller.hpp do to other instances.
use kvm_cloud.Base.{
  ◌≡◌, ◌≢◌, sym, ap, ◌∙◌, some, Bytes, if◌then◌else◌, Bool-cases, Result-cases, Option-cases, inl,
  inr,
}
use mathlib.Core.Option.{none-ne-some}
use kvm_cloud.Std.Int.{ℤ, IsInt}
use kvm_cloud.Std.Map.{find, insert, same}
use kvm_cloud.Std.Map.Laws.{find-insert, same_iff}
use kvm_cloud.Std.Map.Keys.{int_order}
use kvm_cloud.Sys.Host.{Host}
use kvm_cloud.Sys.Process
use kvm_cloud.Vm.Instance.{Instance}
use kvm_cloud.Vm.Controller.{
  Controller, Node, is_port_free, find_next_port, advance_port, put_instance, inst_dir,
}
use kvm_cloud.Vm.Controller.Methods.{rebind, run_known, run, instantiate}
use kvm_cloud.Vm.Template.{Template}
use kvm_cloud.Vm.Controller.Upkeep.{Invariant}
use kvm_cloud.Vm.Controller.Making.{instantiate-Holds}

module _ (h : Host) (other : ℤ) where
  -- The instance with the other id stays as it is.
  abbrev pub Kept : Node h → Node h → Type 0
  Kept n n' = find other n'.controller.instances ≡ find other n.controller.instances

  pub insert-Kept :
      (id : ℤ) (inst : Instance) (c : Controller)
      → id ≢ other
      → find other (insert id inst c.instances) ≡ find other c.instances
  insert-Kept id inst c ne = elim (Bool-cases (same id other)) [
    | inl e ↦ absurd (ne ((same_iff id other).0 e))
    | inr e ↦
        find-insert id other inst c.instances
        ∙ ap (λ b. if b then some inst else find other c.instances) e
  ]

  put_instance-Kept :
      (id : ℤ) (inst : Instance) (n : Node h) → id ≢ other → Kept n (put_instance h id inst n)
  put_instance-Kept id inst n ne = insert-Kept id inst n.controller ne

  rebind-Kept :
      (id : ℤ) (dir : Bytes) (inst : Instance) (n : Node h)
      → id ≢ other
      → Kept n (rebind h id dir inst n).1
  unfolding rebind advance_port
  rebind-Kept id dir inst n ne = elim (Bool-cases (is_port_free h n.host inst.ssh_port)) [
    | inl free ↦ rw (free, rebind)
    | inr taken ↦ elim (Result-cases (find_next_port h n n.controller.next_port)) [
      | inl (port, e) ↦ rw (taken, e, rebind, advance_port) (put_instance-Kept id _ n ne)
      | inr (x, e) ↦ rw (taken, e, rebind, advance_port)
    ]
  ]

  run_known-Kept :
      (id : ℤ) (inst : Instance) (n : Node h) → id ≢ other → Kept n (run_known h id inst n).1
  unfolding run_known
  run_known-Kept id inst n ne =
      let tried = rebind h id (inst_dir n.controller.working_dir id) inst n in
      elim (Bool-cases (Process.is_running h n.host inst.process)) [
        | inl running ↦ rw (running, run_known)
        | inr stopped ↦ elim (Result-cases tried.0) [
          | inl (bound, e) ↦ elim (Result-cases (Process.run h (bound.process, tried.1.host)).0) [
            | inl (pid, f) ↦
                rw (stopped, e, f, run_known)
                  (put_instance-Kept id _ tried.1 ne ∙ rebind-Kept id _ inst n ne)
            | inr (x, f) ↦
                rw (stopped, e, f, run_known)
                  (put_instance-Kept id _ tried.1 ne ∙ rebind-Kept id _ inst n ne)
          ]
          | inr (x, e) ↦ rw (stopped, e, run_known) (rebind-Kept id _ inst n ne)
        ]
      ]

  -- `run` of an id leaves the entry of every other id in the map of instances as it is, on every
  -- branch and also if it throws.
  pub run-Kept : (id : ℤ) (n : Node h) → id ≢ other → Kept n (run h id n).1
  unfolding run
  run-Kept id n ne = elim (Option-cases (find id n.controller.instances)) [
    | inl e ↦ rw (e, run)
    | inr (inst, e) ↦ rw (e, run) (run_known-Kept id inst n ne)
  ]

  -- The other id keeps this entry, if the counters are `int`s.
  abbrev pub keeping : Instance → Invariant (λ id. id ≢ other)
  keeping kept = record {
    P = λ c. (find other c.instances ≡ some kept) × IsInt c.next_id × IsInt c.next_port;
    Fits = λ id inst. id ≢ other;
    counters = λ c p. (p.1, p.2);
    new_port = λ c port int p. (p.0, p.1, int);
    new_id = λ c id int p. (p.0, int, p.2);
    put = λ c id inst ne p. (insert-Kept id inst c ne ∙ p.0, p.1, p.2);
    found = λ c id inst ne p e. ne;
    moved = λ id port inst int ne. ne;
    processed = λ id inst p ne. ne;
    fresh = λ c inst name ne p known ints. ne;
  }

  -- If the counters are `int`s, `instantiate` leaves the entry of every instance that is in the map
  -- as it is, on every branch and also if it throws.
  pub instantiate-Kept :
      (t : Template) (memory cpus : ℤ) (n : Node h) (kept : Instance)
      → IsInt n.controller.next_id
      → IsInt n.controller.next_port
      → find other n.controller.instances ≡ some kept
      → find other (instantiate h t memory cpus n).1.controller.instances ≡ some kept
  instantiate-Kept t memory cpus n kept next_id next_port here =
      (instantiate-Holds h (keeping kept) t memory cpus n
        (λ id int free same.
          none-ne-some kept (sym free ∙ ap (λ z. find z n.controller.instances) same ∙ here))
        (here, next_id, next_port)).0
