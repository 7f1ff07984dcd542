-- ===== src/Vm/Controller/Making.antt =====
-- `restore`, `instantiate` and the constructor of src/Vm/Controller.hpp keep every invariant.
use kvm_cloud.Base.{
  ◌≡◌, refl, Bool, Option, none, some, List, [], ◌∷◌, Bytes, codes, ◌++◌, Result, ok, err,
  is_exception, Bool-cases, Result-cases, Option-cases, inl, inr,
}
use kvm_cloud.Std.Int.{ℤ, IsInt}
use kvm_cloud.Std.Map.{find}
use kvm_cloud.Std.Map.Keys.{bytes_order, int_order}
use kvm_cloud.Std.Number.{stoi}
use kvm_cloud.Std.Number.Range.{stoi-IsInt}
use kvm_cloud.Sys.Host.{Host}
use kvm_cloud.Sys.Process
use kvm_cloud.Sys.Process.{Process, process}
use kvm_cloud.Util.Cookie
use kvm_cloud.Vm.Template.{Template}
use kvm_cloud.Vm.Instance.{Instance}
use kvm_cloud.Vm.Controller.{
  Node, is_port_free, find_next_id, find_next_port, advance_port, advance_id, inst_dir,
  read_metadata,
}
use kvm_cloud.Vm.Controller.Outcomes.{find_next_id-ok, find_next_port-ok, read_metadata-AreInts}
use kvm_cloud.Vm.Controller.Upkeep.{Invariant, Holds}
use kvm_cloud.Vm.Controller.NewFiles.{write_files_lem, filled_by}
use kvm_cloud.Vm.Controller.Methods.{
  usable_port, put_new, finish_restore, restore_new, or_restore, restore, opens, furnish,
  instantiate, forget, fresh, load_entry, load_all, construct,
}

module _ (h : Host) {Allowed : ℤ → Type 0} (i : Invariant Allowed) where
  usable_port-Holds :
      (dir : Bytes) (assigned : ℤ) (n : Node h)
      → Holds h i n
      → Holds h i (usable_port h dir assigned n).1
  unfolding usable_port advance_port
  usable_port-Holds dir assigned n p = elim (Bool-cases (is_port_free h n.host assigned)) [
    | inl free ↦ rw (free, usable_port) p
    | inr taken ↦ elim (Result-cases (find_next_port h n n.controller.next_port)) [
      | inl (port, e) ↦
          rw (taken, e, usable_port, advance_port)
            (i.new_port n.controller port
              (find_next_port-ok h n _ port (i.counters n.controller p).1 e) p)
      | inr (x, e) ↦ rw (taken, e, usable_port, advance_port) p
    ]
  ]

  usable_port-IsInt :
      (dir : Bytes) (assigned port : ℤ) (n : Node h)
      → IsInt assigned
      → Holds h i n
      → (usable_port h dir assigned n).0 ≡ ok port
      → IsInt port
  unfolding usable_port advance_port
  usable_port-IsInt dir assigned port n int p done =
      elim (Bool-cases (is_port_free h n.host assigned)) [
        | inl free ↦
            let same : assigned ≡ port = cc (rw (free, usable_port) at done) in rw (← same) int
        | inr taken ↦ elim (Result-cases (find_next_port h n n.controller.next_port)) [
          | inl (z, e) ↦
              let same : z ≡ port = cc (rw (taken, e, usable_port, advance_port) at done) in
              rw (← same) (find_next_port-ok h n _ z (i.counters n.controller p).1 e)
          | inr (x, e) ↦
              let never : ◌≡◌ {A = Result ℤ} (err x) (ok port) =
                rw (taken, e, usable_port, advance_port) at done in
              cc
        ]
      ]

  put_new-Holds :
      (id memory cpus port : ℤ) (name : Bytes) (pr : Process) (t : Option Template) (n : Node h)
      → Allowed id
      → IsInt memory × IsInt cpus × IsInt port
      → find name n.controller.templates ≡ t
      → Holds h i n
      → Holds h i (put_new h id memory cpus port name pr t n).1
  unfolding put_new
  put_new-Holds id memory cpus port name pr none n a ints known p = p
  put_new-Holds id memory cpus port name pr (some t) n a ints known p =
      i.put n.controller id _ (i.fresh n.controller _ name a p known ints) p

  finish_restore-Holds :
      (id : ℤ) (dir : Bytes) (with_kernel : Bool) (name : Bytes) (memory cpus assigned : ℤ)
      (append : Bytes) (n : Node h)
      → Allowed id
      → IsInt memory × IsInt cpus × IsInt assigned
      → Holds h i n
      → Holds h i (finish_restore h id dir with_kernel (name, memory, cpus, assigned) append n).1
  unfolding finish_restore
  finish_restore-Holds id dir with_kernel name memory cpus assigned append n a ints p =
      elim (Result-cases (usable_port h dir assigned n).0) [
        | inl (port, e) ↦
            rw (e, finish_restore)
              (put_new-Holds id memory cpus port name _ _ (usable_port h dir assigned n).1 a
                (ints.0, ints.1, usable_port-IsInt dir assigned port n ints.2 p e) refl
                (usable_port-Holds dir assigned n p))
        | inr (x, e) ↦ rw (e, finish_restore) (usable_port-Holds dir assigned n p)
      ]

  restore_new-Holds :
      (id : ℤ) (dir : Bytes) (n : Node h)
      → Allowed id
      → Holds h i n
      → Holds h i (restore_new h id dir n).1
  unfolding restore_new
  restore_new-Holds id dir n a p =
      let with_kernel = opens (h.read_file n.host (dir ++ codes "/kernel")) in
      elim (Result-cases (read_metadata h n.host dir)) [
        | inl ((name, memory, cpus, assigned), e) ↦
            let ints = read_metadata-AreInts h n.host dir (name, memory, cpus, assigned) e in
            elim (Result-cases (Cookie.read h n.host (dir ++ codes "/.append"))) [
              | inl (append, f) ↦
                  rw (e, f, restore_new)
                    (finish_restore-Holds id dir with_kernel name memory cpus assigned append n a
                      ints p)
              | inr (x, f) ↦ elim (Bool-cases (is_exception x)) [
                | inl caught ↦
                    rw (e, f, caught, restore_new)
                      (finish_restore-Holds id dir with_kernel name memory cpus assigned [] n a ints
                        p)
                | inr thrown ↦ rw (e, f, thrown, restore_new) p
              ]
            ]
        | inr (x, e) ↦ elim (Bool-cases (is_exception x)) [
          | inl caught ↦ rw (e, caught, restore_new) p
          | inr thrown ↦ rw (e, thrown, restore_new) p
        ]
      ]

  or_restore-Holds :
      (id : ℤ) (dir : Bytes) (known : Option Instance) (n : Node h)
      → Allowed id
      → Holds h i n
      → Holds h i (or_restore h id dir known n).1
  or_restore-Holds id dir none n a p = restore_new-Holds id dir n a p
  or_restore-Holds id dir (some inst) n a p = p

  pub restore-Holds :
      (id : ℤ) (n : Node h) → Allowed id → Holds h i n → Holds h i (restore h id n).1
  unfolding restore
  restore-Holds id n a p =
      let dir = inst_dir n.controller.working_dir id in
      elim (Bool-cases (h.dir_exists n.host dir)) [
        | inl exists ↦
            rw (exists, restore) (or_restore-Holds id dir (find id n.controller.instances) n a p)
        | inr missing ↦ rw (missing, restore) p
      ]

  -- what `instantiate` does behind the two searches
  furnish-Holds :
      (t : Template) (memory cpus port id : ℤ) (n : Node h)
      → Allowed id
      → Holds h i n
      → Holds h i (furnish h t memory cpus port id n).1
  unfolding furnish
  furnish-Holds t memory cpus port id n a p =
      let dir = inst_dir n.controller.working_dir id in
      let made = Process.run_and_wait h (process (codes "/bin/mkdir") (dir ∷ []), n.host) in
      elim (Result-cases made.0) [
        | inl (u, e) ↦
            let n1 = record n { host = made.1.1 } in
            rw (e, write_files_lem h t memory cpus port dir n1, furnish)
              (restore-Holds id (record n1 { host = filled_by h t memory cpus port dir made.1.1 }) a
                p)
        | inr (x, e) ↦ rw (e, furnish) p
      ]

  -- If every id that names no instance is allowed, `instantiate` keeps the invariant.
  pub instantiate-Holds :
      (t : Template) (memory cpus : ℤ) (n : Node h)
      → ((id : ℤ) → IsInt id → find id n.controller.instances ≡ none → Allowed id)
      → Holds h i n
      → Holds h i (instantiate h t memory cpus n).1
  unfolding instantiate advance_port advance_id
  instantiate-Holds t memory cpus n spare p =
      elim (Result-cases (find_next_port h n n.controller.next_port)) [
        | inl (port, e) ↦
            let ints = i.counters n.controller p in
            let n1 : Node h = record n { controller = record n.controller { next_port = port } } in
            let p1 = i.new_port n.controller port (find_next_port-ok h n _ port ints.1 e) p in
            elim (Result-cases (find_next_id h n1 n.controller.next_id)) [
              | inl (id, f) ↦
                  let (int, free) = find_next_id-ok h n1 _ id ints.0 f in
                  rw (e, f, instantiate, advance_port, advance_id)
                    (furnish-Holds t memory cpus port id _ (spare id int free)
                      (i.new_id n1.controller id int p1))
              | inr (x, f) ↦ rw (e, f, instantiate, advance_port, advance_id) p1
            ]
        | inr (x, e) ↦ rw (e, instantiate, advance_port) p
      ]

  forget-restore-Holds :
      (id : ℤ) (n : Node h) → Allowed id → Holds h i n → Holds h i (forget h (restore h id) n).1
  forget-restore-Holds id n a p = elim (Result-cases (restore h id n).0) [
    | inl (inst, e) ↦ rw e (restore-Holds id n a p)
    | inr (x, e) ↦ rw e (restore-Holds id n a p)
  ]

  module _ (all_ints : (id : ℤ) → IsInt id → Allowed id) where
    load_entry-Holds : (name : Bytes) (n : Node h) → Holds h i n → Holds h i (load_entry h name n).1
    unfolding load_entry
    load_entry-Holds name n p = elim (Result-cases (stoi name)) [
      | inl (id, e) ↦
          rw (e, load_entry) (forget-restore-Holds id n (all_ints id (stoi-IsInt name id e)) p)
      | inr (x, e) ↦ rw (e, load_entry) p
    ]

    load_all-Holds :
        (names : List Bytes) (n : Node h) → Holds h i n → Holds h i (load_all h names n).1
    unfolding load_all
    load_all-Holds [] n p = p
    load_all-Holds (name ∷ names) n p = elim (Result-cases (load_entry h name n).0) [
      | inl (u, e) ↦
          rw (e, load_all)
            (load_all-Holds names (load_entry h name n).1 (load_entry-Holds name n p))
      | inr (x, e) ↦ rw (e, load_all) (load_entry-Holds name n p)
    ]

    pub construct-Holds :
        (working_dir : Bytes) (initial_id initial_port : ℤ) (s : h.State)
        → i.P (fresh h working_dir initial_id initial_port)
        → Holds h i (construct h working_dir initial_id initial_port s).1
    unfolding construct
    construct-Holds working_dir initial_id initial_port s p =
        elim (Option-cases (h.entries s working_dir)) [
          | inl e ↦ rw (e, construct) p
          | inr (names, e) ↦
              rw (e, construct)
                (load_all-Holds names
                  (record { controller = fresh h working_dir initial_id initial_port; host = s }) p)
        ]
