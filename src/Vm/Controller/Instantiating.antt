-- ===== src/Vm/Controller/Instantiating.antt =====
-- `instantiate` of src/Vm/Controller.hpp where nothing fails.
use kvm_cloud.Base.{
  ◌≡◌, refl, sym, ap, ◌∙◌, Bool, true, not, some, none, List, [], ◌∷◌, ◌++◌, Bytes, Lacks, codes,
  ok, arith,
}
use kvm_cloud.Base.Exec.{>>=-ok}
use kvm_cloud.Std.Int.{ℤ, pos, IsInt, to_u16}
use kvm_cloud.Std.Text.{str_eq}
use kvm_cloud.Std.Map.{find}
use kvm_cloud.Std.Map.Keys.{bytes_order, int_order}
use kvm_cloud.Sys.Host.{Host, HostLaws, FileLaws}
use kvm_cloud.Sys.Host.Files.{write_named, dir_exists-write_named, listening-write_named}
use kvm_cloud.Sys.Process
use kvm_cloud.Sys.Process.{process, run_lem}
use kvm_cloud.Vm.Template.{Template}
use kvm_cloud.Vm.Instance.{Instance, vm_args}
use kvm_cloud.Vm.Controller.{
  Node, is_port_free, inst_dir, put_instance, find_next_port, find_next_id, advance_port,
  advance_id, no_kernel,
}
use kvm_cloud.Vm.Controller.Methods.{write_files, furnish, instantiate, restore, run_program, opens}
use kvm_cloud.Vm.Controller.Outcomes.{find_next_id-ok}
use kvm_cloud.Vm.Controller.Restoring.{IsSaved, restore-IsSaved}
use kvm_cloud.Vm.Controller.NewFiles.{
  described, write_files_lem, IsNew, new_files, filled-IsSaved, filled-append, filled-kernel,
}

module _ (h : Host) where
  -- the machine behind `mkdir` of this directory
  abbrev pub made_dir : Bytes → h.State → h.State
  made_dir dir s =
      let (pid, s') = h.fork_exec s (codes "/bin/mkdir") ([] ∷ dir ∷ []) in h.wait_pid s' pid

  run_program-mkdir :
      (dir : Bytes) (n : Node h)
      → run_program h (process (codes "/bin/mkdir") (dir ∷ [])) n
        ≡ (ok tt, record n { host = made_dir dir n.host })
  unfolding Process.run_and_wait Process.run Process.is_running Process.wait
  run_program-mkdir dir n = refl

  abbrev built : Template → ℤ → ℤ → ℤ → ℤ → Bytes → Bool → Instance
  built t memory cpus port id dir with_kernel = record {
    id = id;
    memory = memory;
    cpus = cpus;
    ssh_port = port;
    templat = t;
    process = process (codes "/bin/bash") (
        vm_args memory cpus port with_kernel (dir ++ codes "/kernel") (dir ++ codes "/rootfs.img")
          []);
  }

  -- the instance with these numbers in this directory, with the kernel that its template has
  abbrev pub new_instance : Template → ℤ → ℤ → ℤ → ℤ → Bytes → Instance
  new_instance t memory cpus port id dir =
      built t memory cpus port id dir (not (str_eq t.kernel_path no_kernel))

  -- the node with the counters that the searches leave
  abbrev pub counted : ℤ → ℤ → Node h → Node h
  counted port id n = record n {
    controller = record n.controller { next_port = port; next_id = id };
  }

  -- The directory holds all that `restore` needs to build that instance, and a process id.
  pub record IsKept (s : h.State) (dir : Bytes) (t : Template) (memory cpus port pid : ℤ)
      : Type 0 where
    pub exists : h.dir_exists s dir ≡ true
    pub saved : IsSaved h s dir (record (described h t memory cpus port) { pid = pid })
    pub no_append : h.read_file s (dir ++ codes "/.append") ≡ none
    pub kernel :
        opens (h.read_file s (dir ++ codes "/kernel")) ≡ not (str_eq t.kernel_path no_kernel)
    pub port_free : is_port_free h s port ≡ true

  pub restore-IsKept :
      (t : Template) (memory cpus port pid id : ℤ) (n : Node h)
      → IsKept n.host (inst_dir n.controller.working_dir id) t memory cpus port pid
      → find id n.controller.instances ≡ none
      → find t.name n.controller.templates ≡ some t
      → restore h id n ≡ (
        ok (new_instance t memory cpus port id (inst_dir n.controller.working_dir id)),
        put_instance h id
            (new_instance t memory cpus port id (inst_dir n.controller.working_dir id))
            n,
      )
  restore-IsKept t memory cpus port pid id n k unknown known =
      let dir = inst_dir n.controller.working_dir id in
      restore-IsSaved h id n (record (described h t memory cpus port) { pid = pid }) t k.exists
        unknown k.saved k.no_append k.port_free known
      ∙ ap
          (λ b. (
            ok (built t memory cpus port id dir b),
            put_instance h id (built t memory cpus port id dir b) n,
          ))
          k.kernel

  module _ (laws : HostLaws h) (files : FileLaws h) (t : Template) (memory cpus port id : ℤ) where
    -- What a new instance relies on: its numbers, its template, and what `mkdir` does.
    pub record IsPossible (n : Node h) : Type 0 where
      pub ints : IsInt memory × IsInt cpus × IsInt port
      pub one_line : Lacks b'\n' t.name
      pub known : find t.name n.controller.templates ≡ some t
      pub fresh :
          IsNew h files
            (made_dir (inst_dir n.controller.working_dir id) n.host)
            (inst_dir n.controller.working_dir id)
      pub port_free :
          is_port_free h (made_dir (inst_dir n.controller.working_dir id) n.host) port ≡ true

    abbrev dir_of : Node h → Bytes
    dir_of n = inst_dir n.controller.working_dir id

    abbrev instance_of : Node h → Instance
    instance_of n = new_instance t memory cpus port id (dir_of n)

    abbrev files_of : Node h → List (Bytes × Bytes)
    files_of n =
        new_files h t (described h t memory cpus port) (dir_of n) (made_dir (dir_of n) n.host)

    -- the machine with the files of the instance
    abbrev filled_of : Node h → h.State
    filled_of n = write_named h (files_of n) (dir_of n) (made_dir (dir_of n) n.host)

    filled-IsKept :
        (n : Node h) → IsPossible n → IsKept (filled_of n) (dir_of n) t memory cpus port (pos 0)
    filled-IsKept n p =
        let dir = dir_of n in
        let made = made_dir dir n.host in
        let d = described h t memory cpus port in
        record {
          exists = dir_exists-write_named h laws (files_of n) dir dir made ∙ p.fresh.exists;
          saved =
              filled-IsSaved h files t d dir made p.fresh p.one_line
                (p.ints.0, p.ints.1, p.ints.2, omega arith);
          no_append = filled-append h files t d dir made p.fresh;
          kernel = filled-kernel h files t d dir made p.fresh;
          port_free =
              ap not (listening-write_named h laws (files_of n) dir made (to_u16 port))
              ∙ p.port_free;
        }

    furnish_lem :
        (n : Node h)
        → IsPossible n
        → find id n.controller.instances ≡ none
        → furnish h t memory cpus port id n ≡ (
          ok (instance_of n),
          put_instance h id (instance_of n) (record n { host = filled_of n }),
        )
    unfolding furnish
    furnish_lem n p unknown =
        let dir = dir_of n in
        >>=-ok (run_program h (process (codes "/bin/mkdir") (dir ∷ []))) _ (run_program-mkdir dir n)
        ∙ >>=-ok (write_files h t memory cpus port dir) _
            (write_files_lem h t memory cpus port dir (record n { host = made_dir dir n.host }))
        ∙ restore-IsKept t memory cpus port (pos 0) id (record n { host = filled_of n })
            (filled-IsKept n p) unknown p.known

    -- the port and the id that the searches find
    pub record IsFound (n : Node h) : Type 0 where
      pub port_found : find_next_port h n n.controller.next_port ≡ ok port
      pub id_found :
          find_next_id h
            (record n { controller = record n.controller { next_port = port } })
            n.controller.next_id
          ≡ ok id
      pub counter : IsInt n.controller.next_id

    -- `instantiate` returns an instance with the id and the port that the searches find, the memory,
    -- the cpus and the template that were asked for, and a process that is not started, with the
    -- command line for these. It adds the instance to the map, stores both counters, changes nothing
    -- else in the controller, and leaves a directory that holds all that `restore` needs to build
    -- the same instance. The conditions: the numbers are `int`s; the template is known under its
    -- name, which is one line; the machine obeys the laws of its files; and behind `mkdir` the
    -- directory is there, open and empty, and the port still free.
    pub instantiate-IsKept :
        (n : Node h)
        → IsFound n
        → IsPossible n
        → (s : h.State) × (instantiate h t memory cpus n ≡ (
          ok (instance_of n),
          put_instance h id (instance_of n) (record (counted port id n) { host = s }),
        ))
          × IsKept s (dir_of n) t memory cpus port (pos 0)
    unfolding instantiate advance_port advance_id
    instantiate-IsKept n f p =
        let n' = counted port id n in
        let q : IsPossible n' = record {
          ints = p.ints;
          one_line = p.one_line;
          known = p.known;
          fresh = p.fresh;
          port_free = p.port_free;
        } in
        let found =
          find_next_id-ok h (record n { controller = record n.controller { next_port = port } })
            n.controller.next_id id f.counter f.id_found in
        (filled_of n, rw (f.port_found, f.id_found) (furnish_lem n' q found.1), filled-IsKept n p)

  -- Under the conditions of `instantiate-IsKept`, a controller that starts on the machine that
  -- `instantiate` left, with the same working directory and the same template, and that has no
  -- instance with the id yet, restores the very instance that `instantiate` returned.
  pub restore-instantiate :
      (laws : HostLaws h) (files : FileLaws h) (t : Template) (memory cpus port id : ℤ) (n : Node h)
      → IsFound laws files t memory cpus port id n
      → IsPossible laws files t memory cpus port id n
      → (r : Node h) → r.host ≡ (instantiate h t memory cpus n).1.host
      → r.controller.working_dir ≡ n.controller.working_dir
      → find id r.controller.instances ≡ none
      → find t.name r.controller.templates ≡ some t
      → (restore h id r).0 ≡ (instantiate h t memory cpus n).0
  restore-instantiate laws files t memory cpus port id n f p r same_host same_dir unknown known =
      let (s, done, kept) = instantiate-IsKept laws files t memory cpus port id n f p in
      let host : r.host ≡ s = same_host ∙ ap (λ x. x.1.host) done in
      let here : IsKept r.host (inst_dir r.controller.working_dir id) t memory cpus port (pos 0) =
        rw (host, same_dir) kept in
      ap (λ x. x.0) (restore-IsKept t memory cpus port (pos 0) id r here unknown known)
      ∙ ap (λ d. ok (new_instance t memory cpus port id (inst_dir d id))) same_dir
      ∙ sym (ap (λ x. x.0) done)
