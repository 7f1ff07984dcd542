-- ===== src/Vm/Controller/WellFormed.antt =====
-- The states that a controller of src/Vm/Controller.hpp can reach, and what holds in all of them.
use kvm_cloud.Base.{◌≡◌, refl, sym, ◌∙◌, ap, some, All, Bytes}
use kvm_cloud.Std.Int.{ℤ, IsInt}
use kvm_cloud.Std.Map.{StdMap, find, insert, IsSorted}
use kvm_cloud.Std.Map.Laws.{All-insert, insert-IsSorted, All-find}
use kvm_cloud.Std.Map.Keys.{bytes_order, int_order}
use kvm_cloud.Sys.Host.{Host}
use kvm_cloud.Vm.Template.{Template}
use kvm_cloud.Vm.Instance.{Instance}
use kvm_cloud.Vm.Controller.{Controller, Node, initial_templates}
use kvm_cloud.Vm.Controller.Upkeep.{Invariant, run-Holds, kill-Holds}
use kvm_cloud.Vm.Controller.Making.{instantiate-Holds, construct-Holds}
use kvm_cloud.Vm.Controller.Methods.{construct, run, kill, instantiate}

-- An instance as the map may hold it under this id: it has that id, its numbers are `int`s, and its
-- template is one of these.
pub record IsEntry (templates : StdMap Bytes Template) (id : ℤ) (inst : Instance) : Type 0 where
  pub named : inst.id ≡ id
  pub int : IsInt id
  pub ints : IsInt inst.memory × IsInt inst.cpus × IsInt inst.ssh_port
  pub name : Bytes
  pub offered : find name templates ≡ some inst.templat

pub record IsWellFormed (c : Controller) : Type 0 where
  pub templates : c.templates ≡ initial_templates
  pub sorted : IsSorted c.instances
  pub entries : All (λ e. IsEntry initial_templates e.0 e.1) c.instances
  pub next_id : IsInt c.next_id
  pub next_port : IsInt c.next_port

pub put-IsWellFormed :
    (c : Controller) (id : ℤ) (inst : Instance)
    → IsEntry initial_templates id inst
    → IsWellFormed c
    → IsWellFormed (record c { instances = insert id inst c.instances })
put-IsWellFormed c id inst e w = record {
  templates = w.templates;
  sorted = insert-IsSorted id inst c.instances w.sorted;
  entries = All-insert (λ p. IsEntry initial_templates p.0 p.1) id inst c.instances e w.entries;
  next_id = w.next_id;
  next_port = w.next_port;
}

abbrev pub well_formed : Invariant IsInt
well_formed = record {
  P = IsWellFormed;
  Fits = IsEntry initial_templates;
  counters = λ c w. (w.next_id, w.next_port);
  new_port = λ c port int w. record {
    templates = w.templates;
    sorted = w.sorted;
    entries = w.entries;
    next_id = w.next_id;
    next_port = int;
  };
  new_id = λ c id int w. record {
    templates = w.templates;
    sorted = w.sorted;
    entries = w.entries;
    next_id = int;
    next_port = w.next_port;
  };
  put = put-IsWellFormed;
  found = λ c id inst a w e.
      All-find (λ p. IsEntry initial_templates p.0 p.1) id inst c.instances w.entries e;
  moved = λ id port inst int e. record {
    named = e.named;
    int = e.int;
    ints = (e.ints.0, e.ints.1, int);
    name = e.name;
    offered = e.offered;
  };
  processed = λ id inst p e. record {
    named = e.named;
    int = e.int;
    ints = e.ints;
    name = e.name;
    offered = e.offered;
  };
  fresh = λ c inst name int w known ints. record {
    named = refl;
    int = int;
    ints = ints;
    name = name;
    offered = ap (find name) (sym w.templates) ∙ known;
  };
}

module _ (h : Host) where
  -- A controller that starts, the calls of its handlers in any order, and between them whatever the
  -- machine does by itself. A call that throws leaves the state that it reached.
  pub data Reach (working_dir : Bytes) (initial_id initial_port : ℤ) : Node h → Type 0 where
    start :
        (s : h.State)
        → Reach working_dir initial_id initial_port
            (construct h working_dir initial_id initial_port s).1
    ran :
        (id : ℤ) {n : Node h}
        → IsInt id
        → Reach working_dir initial_id initial_port n
        → Reach working_dir initial_id initial_port (run h id n).1
    killed :
        (id : ℤ) {n : Node h}
        → Reach working_dir initial_id initial_port n
        → Reach working_dir initial_id initial_port (kill h id n).1
    instantiated :
        (t : Template) (memory cpus : ℤ) {n : Node h}
        → Reach working_dir initial_id initial_port n
        → Reach working_dir initial_id initial_port (instantiate h t memory cpus n).1
    passed :
        (s : h.State) {n : Node h}
        → Reach working_dir initial_id initial_port n
        → Reach working_dir initial_id initial_port (record n { host = s })

  -- If the first id and port are `int`s, then in every state that a controller reaches, its
  -- templates are the initial ones; its map of instances is sorted, and holds each instance under
  -- its own id, with `int`s as numbers and with a template of the map; and its counters are `int`s.
  -- Reached are the states behind the constructor and behind any calls of `run` with an `int`,
  -- `kill` and `instantiate`, also those that throw, with any changes of the machine in between.
  pub Reach-IsWellFormed :
      {working_dir : Bytes} {initial_id initial_port : ℤ} {n : Node h}
      → IsInt initial_id
      → IsInt initial_port
      → Reach working_dir initial_id initial_port n
      → IsWellFormed n.controller
  Reach-IsWellFormed {working_dir} {initial_id} {initial_port} i p (start s) =
      construct-Holds h well_formed (λ id int. int) working_dir initial_id initial_port s
        (record { templates = refl; sorted = tt; entries = tt; next_id = i; next_port = p })
  Reach-IsWellFormed i p (ran id {n} int r) =
      run-Holds h well_formed id n int (Reach-IsWellFormed i p r)
  Reach-IsWellFormed i p (killed id {n} r) =
      kill-Holds h well_formed id n (Reach-IsWellFormed i p r)
  Reach-IsWellFormed i p (instantiated t memory cpus {n} r) =
      instantiate-Holds h well_formed t memory cpus n (λ id int _. int) (Reach-IsWellFormed i p r)
  Reach-IsWellFormed i p (passed s r) = Reach-IsWellFormed i p r
