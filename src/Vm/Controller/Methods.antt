-- ===== src/Vm/Controller/Methods.antt =====
-- The methods of src/Vm/Controller.hpp.
use kvm_cloud.Base.{
  Bool, true, false, Option, none, some, List, [], ◌∷◌, ◌++◌, Bytes, codes, if◌then◌else◌, Error,
  Result, ok, err, exception, invalid_argument,
}
use kvm_cloud.Base.Exec.{Exec, pure, raise, lift, gets, modify, catch_all, ◌>>=◌, ◌>>◌}
use kvm_cloud.Std.Int.{ℤ, pos}
use kvm_cloud.Std.Text.{str_eq}
use kvm_cloud.Std.Number.{stoi}
use kvm_cloud.Std.Map.{find}
use kvm_cloud.Std.Map.Keys.{bytes_order, int_order}
use kvm_cloud.Sys.Host.{Host}
use kvm_cloud.Sys.Process
use kvm_cloud.Sys.Process.{Process, OnHost, process, failure}
use kvm_cloud.Util.Cookie
use kvm_cloud.Vm.Template.{Template}
use kvm_cloud.Vm.Instance.{Instance, set_ssh_port, vm_args}
use kvm_cloud.Vm.Controller.{
  Controller, Node, is_port_free, advance_port, advance_id, on_host, put_instance, instance_dir,
  read_metadata, no_kernel, corrupted, initial_templates,
}

abbrev restore_failure : Bytes → Error
restore_failure what = failure (codes "Controller::restore(int)") what

-- `ifstream` opens the file
abbrev pub opens : Option Bytes → Bool
opens none = false
opens (some _) = true

-- what `dst << src.rdbuf()` writes
abbrev pub copied : Option Bytes → Bytes
copied none = []
copied (some text) = text

module _ (h : Host) where
  -- `isPortFree` on a port that is already assigned; if it is taken, the next free port is
  -- assigned, and written to the cookie.
  unfoldable pub usable_port : Bytes → ℤ → Exec (Node h) ℤ
  unfolding advance_port Cookie.write_int
  usable_port dir ssh_port = do
    free ← gets (λ n. is_port_free h n.host ssh_port)
    if free then pure ssh_port else do
      port ← advance_port h
      on_host h (λ s. Cookie.write_int h s (dir ++ codes "/.ssh") port)
      pure port

  -- the end of `restore`, once the template is looked up
  unfoldable pub put_new :
      ℤ → ℤ → ℤ → ℤ → Bytes → Process → Option Template → Exec (Node h) Instance
  put_new id memory cpus ssh_port name p none =
      raise (restore_failure (codes "template " ++ name ++ codes " is missing"))
  put_new id memory cpus ssh_port name p (some t) = do
    let inst : Instance = record {
      id = id;
      memory = memory;
      cpus = cpus;
      ssh_port = ssh_port;
      templat = t;
      process = p;
    }
    modify (put_instance h id inst)
    pure inst

  -- what follows the cookies
  unfoldable pub finish_restore :
      ℤ → Bytes → Bool → Bytes × ℤ × ℤ × ℤ → Bytes → Exec (Node h) Instance
  unfolding usable_port put_new vm_args
  finish_restore id dir with_kernel (name, memory, cpus, assigned) append = do
    ssh_port ← usable_port dir assigned
    templ ← gets (λ n. find name n.controller.templates)
    put_new id memory cpus ssh_port name
        (process (codes "/bin/bash") (
          vm_args memory cpus ssh_port with_kernel (dir ++ codes "/kernel")
            (dir ++ codes "/rootfs.img") append))
        templ

  -- `restore` of an instance that is not in the map
  unfoldable pub restore_new : ℤ → Bytes → Exec (Node h) Instance
  unfolding finish_restore read_metadata Cookie.read
  restore_new id dir = do
    with_kernel ← gets (λ n. opens (h.read_file n.host (dir ++ codes "/kernel")))
    metadata ← catch_all (λ n. (read_metadata h n.host dir, n)) (raise corrupted)
    append ← catch_all (λ n. (Cookie.read h n.host (dir ++ codes "/.append"), n)) (pure [])
    finish_restore id dir with_kernel metadata append

  abbrev pub or_restore : ℤ → Bytes → Option Instance → Exec (Node h) Instance
  or_restore id dir none = restore_new id dir
  or_restore id dir (some inst) = pure inst

  unfoldable pub restore : ℤ → Exec (Node h) Instance
  unfolding restore_new
  restore id = do
    dir ← instance_dir h id
    exists ← gets (λ n. h.dir_exists n.host dir)
    known ← gets (λ n. find id n.controller.instances)
    if exists
        then or_restore id dir known
        else raise (restore_failure (codes "instnace with given id does not exist"))

  -- A process method on the process of an instance, which stays in the map.
  abbrev pub on_process : {A : Type 0} → ℤ → Instance → Exec (OnHost h) A → Exec (Node h) A
  on_process id inst m n =
      let (r, (p, s)) = m (inst.process, n.host) in
      (r, put_instance h id (record inst { process = p }) (record n { host = s }))

  -- A process object of its own.
  abbrev pub run_program : Process → Exec (Node h) (Unit {0})
  run_program p n =
      let (r, (p', s)) = Process.run_and_wait h (p, n.host) in (r, record n { host = s })

  -- `run` gives the instance another port if its own is taken.
  unfoldable pub rebind : ℤ → Bytes → Instance → Exec (Node h) Instance
  unfolding advance_port Cookie.write_int
  rebind id dir inst = do
    free ← gets (λ n. is_port_free h n.host inst.ssh_port)
    if free then pure inst else do
      port ← advance_port h
      on_host h (λ s. Cookie.write_int h s (dir ++ codes "/.ssh") port)
      modify (put_instance h id (set_ssh_port inst port))
      pure (set_ssh_port inst port)

  unfoldable pub run_known : ℤ → Instance → Exec (Node h) Bool
  unfolding rebind Process.run Cookie.write_int
  run_known id inst = do
    running ← gets (λ n. Process.is_running h n.host inst.process)
    if running then pure false else do
      dir ← instance_dir h id
      bound ← rebind id dir inst
      pid ← on_process id bound (Process.run h)
      on_host h (λ s. Cookie.write_int h s (dir ++ codes "/.pid") pid)
      pure true

  abbrev pub or_run : ℤ → Option Instance → Exec (Node h) Bool
  or_run id none = pure false
  or_run id (some inst) = run_known id inst

  unfoldable pub run : ℤ → Exec (Node h) Bool
  unfolding run_known
  run id = do known ← gets (λ n. find id n.controller.instances); or_run id known

  abbrev pub or_kill : Option Instance → Exec (Node h) Bool
  or_kill none = pure false
  or_kill (some inst) = do
    running ← gets (λ n. Process.is_running h n.host inst.process)
    if running
        then (do on_host h (λ s. (Process.kill h (inst.process, s)).1); pure true)
        else pure true

  unfoldable pub kill : ℤ → Exec (Node h) Bool
  unfolding Process.is_running Process.kill
  kill id = do known ← gets (λ n. find id n.controller.instances); or_kill known

  abbrev copy_file : Bytes → Bytes → Exec (Node h) (Unit {0})
  copy_file from to = on_host h (λ s. h.write_file s to (copied (h.read_file s from)))

  -- the files of a new instance
  unfoldable pub write_files : Template → ℤ → ℤ → ℤ → Bytes → Exec (Node h) (Unit {0})
  unfolding Cookie.write Cookie.write_int str_eq
  write_files t memory cpus ssh_port dir = do
    if str_eq t.kernel_path no_kernel
        then pure tt
        else copy_file t.kernel_path (dir ++ codes "/kernel")
    copy_file t.rootfs_path (dir ++ codes "/rootfs.img")
    on_host h (λ s. Cookie.write h s (dir ++ codes "/.template") t.name)
    on_host h (λ s. Cookie.write_int h s (dir ++ codes "/.memory") memory)
    on_host h (λ s. Cookie.write_int h s (dir ++ codes "/.cpus") cpus)
    on_host h (λ s. Cookie.write_int h s (dir ++ codes "/.ssh") ssh_port)
    on_host h (λ s. Cookie.write_int h s (dir ++ codes "/.pid") (pos 0))

  -- `instantiate` once the port and the id are found
  unfoldable pub furnish : Template → ℤ → ℤ → ℤ → ℤ → Exec (Node h) Instance
  furnish t memory cpus port id = do
    dir ← instance_dir h id
    run_program (process (codes "/bin/mkdir") (dir ∷ []))
    write_files t memory cpus port dir
    restore id

  unfoldable pub instantiate : Template → ℤ → ℤ → Exec (Node h) Instance
  unfolding advance_port advance_id
  instantiate t memory cpus = do
    port ← advance_port h
    id ← advance_id h
    furnish t memory cpus port id

  abbrev pub forget : {A : Type 0} → Exec (Node h) A → Exec (Node h) (Unit {0})
  forget m = do m; pure tt

  -- the two handlers of the constructor: `std::invalid_argument` and `Util::Exception`
  abbrev skipped : Result (Unit {0}) → Result (Unit {0})
  skipped (err invalid_argument) = ok tt
  skipped (err (exception _)) = ok tt
  skipped r = r

  unfoldable pub load_entry : Bytes → Exec (Node h) (Unit {0})
  load_entry name n =
      let (r, n') = forget (do id ← lift (stoi name); restore id) n in (skipped r, n')

  unfoldable pub load_all : List Bytes → Exec (Node h) (Unit {0})
  load_all [] = pure tt
  load_all (name ∷ names) = do load_entry name; load_all names

  abbrev pub fresh : Bytes → ℤ → ℤ → Controller
  fresh working_dir initial_id initial_port = record {
    next_id = initial_id;
    next_port = initial_port;
    templates = initial_templates;
    instances = [];
    working_dir = working_dir;
  }

  abbrev or_load : Option (List Bytes) → Exec (Node h) (Unit {0})
  or_load none n = (
    err (
        failure (codes "Controller::Controller(...)")
          (codes "failed to open working directory " ++ n.controller.working_dir)),
    n,
  )
  or_load (some names) n = load_all names n

  -- the constructor
  unfoldable pub construct : Bytes → ℤ → ℤ → h.State → Result (Unit {0}) × Node h
  construct working_dir initial_id initial_port s =
      or_load (h.entries s working_dir)
        (record { controller = fresh working_dir initial_id initial_port; host = s })
