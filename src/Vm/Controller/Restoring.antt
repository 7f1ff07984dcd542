-- ===== src/Vm/Controller/Restoring.antt =====
-- `restore` of src/Vm/Controller.hpp: an instance that an earlier controller left on disk.
use kvm_cloud.Base.{◌≡◌, refl, true, none, some, [], ◌++◌, Bytes, Lacks, codes, ok}
use kvm_cloud.Std.Int.{ℤ, IsInt}
use kvm_cloud.Std.Number.{to_string}
use kvm_cloud.Std.Map.{find}
use kvm_cloud.Std.Map.Keys.{bytes_order, int_order}
use kvm_cloud.Sys.Host.{Host}
use kvm_cloud.Sys.Process.{process}
use kvm_cloud.Util.Cookie
use kvm_cloud.Util.Cookie.Saved.{read-Lacks, read_int-to_string}
use kvm_cloud.Vm.Template.{Template}
use kvm_cloud.Vm.Instance.{Instance, vm_args}
use kvm_cloud.Vm.Controller.{Node, is_port_free, inst_dir, put_instance, read_metadata}
use kvm_cloud.Vm.Controller.Methods.{usable_port, restore_new, put_new, restore, opens}

-- What the cookies of an instance say.
pub record Metadata : Type 0 where
  pub name : Bytes
  pub memory : ℤ
  pub cpus : ℤ
  pub ssh_port : ℤ
  pub pid : ℤ

module _ (h : Host) where
  -- The cookies in this directory hold the metadata, as `instantiate` writes them.
  pub record IsSaved (s : h.State) (dir : Bytes) (d : Metadata) : Type 0 where
    pub name : h.read_file s (dir ++ codes "/.template") ≡ some d.name
    pub memory : h.read_file s (dir ++ codes "/.memory") ≡ some (to_string d.memory)
    pub cpus : h.read_file s (dir ++ codes "/.cpus") ≡ some (to_string d.cpus)
    pub ssh_port : h.read_file s (dir ++ codes "/.ssh") ≡ some (to_string d.ssh_port)
    pub pid : h.read_file s (dir ++ codes "/.pid") ≡ some (to_string d.pid)
    pub one_line : Lacks b'\n' d.name
    pub ints : IsInt d.memory × IsInt d.cpus × IsInt d.ssh_port × IsInt d.pid

  read_metadata-IsSaved :
      (s : h.State) (dir : Bytes) (d : Metadata)
      → IsSaved s dir d
      → read_metadata h s dir ≡ ok (d.name, d.memory, d.cpus, d.ssh_port)
  unfolding read_metadata
  read_metadata-IsSaved s dir d saved =
      let (memory, cpus, ssh_port, pid) = saved.ints in
      rw (
        read-Lacks h s _ d.name saved.name saved.one_line,
        read_int-to_string h s _ d.memory saved.memory memory,
        read_int-to_string h s _ d.cpus saved.cpus cpus,
        read_int-to_string h s _ d.ssh_port saved.ssh_port ssh_port,
        read_int-to_string h s _ d.pid saved.pid pid,
        read_metadata,
      )

  usable_port-free :
      (dir : Bytes) (port : ℤ) (n : Node h)
      → is_port_free h n.host port ≡ true
      → usable_port h dir port n ≡ (ok port, n)
  unfolding usable_port
  usable_port-free dir port n free = rw (free, usable_port)

  abbrev pub dir_in : Node h → ℤ → Bytes
  dir_in n id = inst_dir n.controller.working_dir id

  -- the instance that the metadata describe
  abbrev pub restored : Node h → ℤ → Metadata → Template → Instance
  restored n id d t =
      let dir = dir_in n id in
      record {
        id = id;
        memory = d.memory;
        cpus = d.cpus;
        ssh_port = d.ssh_port;
        templat = t;
        process = process (codes "/bin/bash") (
            vm_args d.memory d.cpus d.ssh_port (opens (h.read_file n.host (dir ++ codes "/kernel")))
              (dir ++ codes "/kernel") (dir ++ codes "/rootfs.img") []);
      }

  -- If the directory of an id exists, no instance with that id is in the map, and its cookies hold
  -- the name of a known template on one line and the digits of `int`s, with a port that is free and
  -- no `.append` cookie, then `restore` returns the instance that the cookies describe, with the
  -- command line that they give, and adds it to the map. Nothing else changes, and the process id in
  -- the `.pid` cookie is not used.
  pub restore-IsSaved :
      (id : ℤ) (n : Node h) (d : Metadata) (t : Template)
      → h.dir_exists n.host (dir_in n id) ≡ true
      → find id n.controller.instances ≡ none
      → IsSaved n.host (dir_in n id) d
      → h.read_file n.host (dir_in n id ++ codes "/.append") ≡ none
      → is_port_free h n.host d.ssh_port ≡ true
      → find d.name n.controller.templates ≡ some t
      → restore h id n ≡ (ok (restored n id d t), put_instance h id (restored n id d t) n)
  unfolding restore restore_new put_new Cookie.read
  restore-IsSaved id n d t exists unknown saved no_append free known =
      rw (exists, unknown, restore)
        (rw
          (
            read_metadata-IsSaved n.host (dir_in n id) d saved,
            no_append,
            usable_port-free (dir_in n id) d.ssh_port n free,
            known,
            restore_new,
            put_new,
            Cookie.read,
          )
          refl)
