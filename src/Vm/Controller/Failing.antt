-- ===== src/Vm/Controller/Failing.antt =====
-- What `restore` and `instantiate` of src/Vm/Controller.hpp leave behind when they throw.
use kvm_cloud.Base.{
  ◌≡◌, refl, ◌∙◌, Bool, Option, none, some, [], ◌∷◌, ◌++◌, Bytes, codes, Error, is_exception,
  Result, err, Bool-cases, Result-cases, inl, inr,
}
use kvm_cloud.Std.Int.{ℤ}
use kvm_cloud.Std.Map.{find}
use kvm_cloud.Std.Map.Keys.{bytes_order, int_order}
use kvm_cloud.Sys.Host.{Host}
use kvm_cloud.Sys.Process
use kvm_cloud.Sys.Process.{process, Process}
use kvm_cloud.Util.Cookie
use kvm_cloud.Vm.Controller.NewFiles.{write_files_lem, filled_by}
use kvm_cloud.Vm.Template.{Template}
use kvm_cloud.Vm.Instance.{Instance}
use kvm_cloud.Vm.Controller.{
  Node, is_port_free, inst_dir, find_next_port, find_next_id, read_metadata, advance_port,
  advance_id,
}
use kvm_cloud.Vm.Controller.Methods.{
  usable_port, put_new, finish_restore, restore_new, or_restore, opens, restore, furnish,
  instantiate,
}

module _ (h : Host) where
  -- Where the result is an exception the instances are these.
  abbrev pub Keeps : {A : Type 0} → Node h → Result A × Node h → Type 0
  Keeps n r = (e : Error) → r.0 ≡ err e → r.1.controller.instances ≡ n.controller.instances

  usable_port-instances :
      (dir : Bytes) (port : ℤ) (n : Node h)
      → (usable_port h dir port n).1.controller.instances ≡ n.controller.instances
  unfolding usable_port advance_port
  usable_port-instances dir port n = elim (Bool-cases (is_port_free h n.host port)) [
    | inl free ↦ rw (free, usable_port)
    | inr taken ↦ elim (Result-cases (find_next_port h n n.controller.next_port)) [
      | inl (next, e) ↦ rw (taken, e, usable_port, advance_port)
      | inr (x, e) ↦ rw (taken, e, usable_port, advance_port)
    ]
  ]

  put_new-Keeps :
      (id memory cpus port : ℤ) (name : Bytes) (p : Process) (t : Option Template) (n : Node h)
      → Keeps n (put_new h id memory cpus port name p t n)
  unfolding put_new
  put_new-Keeps id memory cpus port name p none n e thrown = refl
  put_new-Keeps id memory cpus port name p (some t) n e thrown = cc

  finish_restore-Keeps :
      (id : ℤ) (dir : Bytes) (with_kernel : Bool) (d : Bytes × ℤ × ℤ × ℤ) (append : Bytes)
      (n : Node h)
      → Keeps n (finish_restore h id dir with_kernel d append n)
  unfolding finish_restore
  finish_restore-Keeps id dir with_kernel (name, memory, cpus, assigned) append n e =
      elim (Result-cases (usable_port h dir assigned n).0) [
        | inl (port, f) ↦
            rw (f, finish_restore)
              (λ thrown.
                put_new-Keeps id memory cpus port name _
                  (find name (usable_port h dir assigned n).1.controller.templates)
                  (usable_port h dir assigned n).1 e thrown
                ∙ usable_port-instances dir assigned n)
        | inr (x, f) ↦ rw (f, finish_restore) (λ thrown. usable_port-instances dir assigned n)
      ]

  restore_new-Keeps : (id : ℤ) (dir : Bytes) (n : Node h) → Keeps n (restore_new h id dir n)
  unfolding restore_new
  restore_new-Keeps id dir n e =
      let with_kernel = opens (h.read_file n.host (dir ++ codes "/kernel")) in
      elim (Result-cases (read_metadata h n.host dir)) [
        | inl (d, read) ↦ elim (Result-cases (Cookie.read h n.host (dir ++ codes "/.append"))) [
          | inl (append, f) ↦
              rw (read, f, restore_new) (finish_restore-Keeps id dir with_kernel d append n e)
          | inr (x, f) ↦ elim (Bool-cases (is_exception x)) [
            | inl caught ↦
                rw (read, f, caught, restore_new) (finish_restore-Keeps id dir with_kernel d [] n e)
            | inr fatal ↦ rw (read, f, fatal, restore_new) (λ thrown. refl)
          ]
        ]
        | inr (x, read) ↦ elim (Bool-cases (is_exception x)) [
          | inl caught ↦ rw (read, caught, restore_new) (λ thrown. refl)
          | inr fatal ↦ rw (read, fatal, restore_new) (λ thrown. refl)
        ]
      ]

  or_restore-Keeps :
      (id : ℤ) (dir : Bytes) (known : Option Instance) (n : Node h)
      → Keeps n (or_restore h id dir known n)
  or_restore-Keeps id dir none n e thrown = restore_new-Keeps id dir n e thrown
  or_restore-Keeps id dir (some inst) n e thrown = refl

  restore-Keeps : (id : ℤ) (n : Node h) → Keeps n (restore h id n)
  unfolding restore
  restore-Keeps id n e =
      let dir = inst_dir n.controller.working_dir id in
      elim (Bool-cases (h.dir_exists n.host dir)) [
        | inl exists ↦
            rw (exists, restore) (or_restore-Keeps id dir (find id n.controller.instances) n e)
        | inr missing ↦ rw (missing, restore) (λ thrown. refl)
      ]

  furnish-Keeps :
      (t : Template) (memory cpus port id : ℤ) (n : Node h)
      → Keeps n (furnish h t memory cpus port id n)
  unfolding furnish
  furnish-Keeps t memory cpus port id n e =
      let dir = inst_dir n.controller.working_dir id in
      let made = Process.run_and_wait h (process (codes "/bin/mkdir") (dir ∷ []), n.host) in
      elim (Result-cases made.0) [
        | inl (u, f) ↦
            let n1 = record n { host = made.1.1 } in
            rw (f, write_files_lem h t memory cpus port dir n1, furnish)
              (restore-Keeps id (record n1 { host = filled_by h t memory cpus port dir made.1.1 })
                e)
        | inr (x, f) ↦ rw (f, furnish) (λ thrown. refl)
      ]

  instantiate-Keeps :
      (t : Template) (memory cpus : ℤ) (n : Node h) → Keeps n (instantiate h t memory cpus n)
  unfolding instantiate advance_port advance_id
  instantiate-Keeps t memory cpus n e =
      elim (Result-cases (find_next_port h n n.controller.next_port)) [
        | inl (port, f) ↦
            let n1 = record n { controller = record n.controller { next_port = port } } in
            elim (Result-cases (find_next_id h n1 n1.controller.next_id)) [
              | inl (id, g) ↦
                  rw (f, g, instantiate, advance_port, advance_id)
                    (furnish-Keeps t memory cpus port id
                      (record n1 { controller = record n1.controller { next_id = id } }) e)
              | inr (x, g) ↦ rw (f, g, instantiate, advance_port, advance_id) (λ thrown. refl)
            ]
        | inr (x, f) ↦ rw (f, instantiate, advance_port) (λ thrown. refl)
      ]

  -- If `instantiate` ends with an error, whichever it is and wherever it comes from, the map of
  -- instances is the one from before.
  pub instantiate-err :
      (t : Template) (memory cpus : ℤ) (n : Node h) (e : Error)
      → (instantiate h t memory cpus n).0 ≡ err e
      → (instantiate h t memory cpus n).1.controller.instances ≡ n.controller.instances
  instantiate-err t memory cpus n e thrown = instantiate-Keeps t memory cpus n e thrown
