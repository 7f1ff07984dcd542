-- ===== src/Vm/Controller/NewFiles.antt =====
-- The files that `instantiate` of src/Vm/Controller.hpp writes in the directory of a new instance.
use kvm_cloud.Base.{
  ◌≡◌, refl, ap, ◌∙◌, true, not, Option, none, some, List, [], ◌∷◌, ◌++◌, Bytes, All, Lacks, codes,
  ok, if◌then◌else◌, Bool-cases, inl, inr, arith,
}
use kvm_cloud.Std.Int.{ℤ, pos, IsInt}
use kvm_cloud.Std.Number.{to_string}
use kvm_cloud.Std.Text.{str_eq}
use kvm_cloud.Std.Map.Keys.{bytes_order, int_order}
use kvm_cloud.Sys.Host.{Host, FileLaws, IsName}
use kvm_cloud.Sys.Host.Files.{text_of, write_named, read_file-write_named}
use kvm_cloud.Util.Cookie
use kvm_cloud.Vm.Template.{Template}
use kvm_cloud.Vm.Controller.{Node, no_kernel}
use kvm_cloud.Vm.Controller.Methods.{write_files, copied, opens}
use kvm_cloud.Vm.Controller.Restoring.{Metadata, IsSaved}

module _ (h : Host) where
  -- the metadata of a new instance
  abbrev pub described : Template → ℤ → ℤ → ℤ → Metadata
  described t memory cpus port = record {
    name = t.name;
    memory = memory;
    cpus = cpus;
    ssh_port = port;
    pid = pos 0;
  }

  -- what `write_files` writes, behind the kernel
  abbrev pub cookies : Bytes → Metadata → List (Bytes × Bytes)
  cookies rootfs d =
      (codes "rootfs.img", rootfs)
      ∷ (codes ".template", d.name)
      ∷ (codes ".memory", to_string d.memory)
      ∷ (codes ".cpus", to_string d.cpus)
      ∷ (codes ".ssh", to_string d.ssh_port)
      ∷ (codes ".pid", to_string d.pid)
      ∷ []

  abbrev pub kernel_file : Template → h.State → List (Bytes × Bytes)
  kernel_file t s =
      if str_eq t.kernel_path no_kernel
      then []
      else (codes "kernel", copied (h.read_file s t.kernel_path)) ∷ []

  abbrev pub new_files : Template → Metadata → Bytes → h.State → List (Bytes × Bytes)
  new_files t d dir s =
      kernel_file t s
      ++ cookies (copied (h.read_file (write_named h (kernel_file t s) dir s) t.rootfs_path)) d

  -- the machine with the files of a new instance
  abbrev pub filled_by : Template → ℤ → ℤ → ℤ → Bytes → h.State → h.State
  filled_by t memory cpus port dir s =
      write_named h (new_files t (described t memory cpus port) dir s) dir s

  pub write_files_lem :
      (t : Template) (memory cpus port : ℤ) (dir : Bytes) (n : Node h)
      → write_files h t memory cpus port dir n
        ≡ (ok tt, record n { host = filled_by t memory cpus port dir n.host })
  unfolding write_files Cookie.write Cookie.write_int
  write_files_lem t memory cpus port dir n = elim (Bool-cases (str_eq t.kernel_path no_kernel)) [
    | inl e ↦ rw e
    | inr e ↦ rw e
  ]

  new_files-IsName :
      (t : Template) (d : Metadata) (dir : Bytes) (s : h.State)
      → All (λ w. IsName w.0) (new_files t d dir s)
  new_files-IsName t d dir s = elim (Bool-cases (str_eq t.kernel_path no_kernel)) [
    | inl e ↦ rw e (omega arith)
    | inr e ↦ rw e (omega arith)
  ]

  -- what each name holds
  text_of-kernel :
      (t : Template) (d : Metadata) (dir : Bytes) (s : h.State)
      → opens (text_of (new_files t d dir s) (codes "kernel") none)
        ≡ not (str_eq t.kernel_path no_kernel)
  unfolding str_eq
  text_of-kernel t d dir s = elim (Bool-cases (str_eq t.kernel_path no_kernel)) [
    | inl e ↦ rw e
    | inr e ↦ rw e
  ]

  text_of-append :
      (t : Template) (d : Metadata) (dir : Bytes) (s : h.State)
      → text_of (new_files t d dir s) (codes ".append") none ≡ none
  unfolding str_eq
  text_of-append t d dir s = elim (Bool-cases (str_eq t.kernel_path no_kernel)) [
    | inl e ↦ rw e
    | inr e ↦ rw e
  ]

  -- a cookie is written behind the kernel, whatever was there
  text_of-cookies :
      (t : Template) (d : Metadata) (dir name text : Bytes) (s : h.State) (old : Option Bytes)
      → ((rootfs : Bytes) (before : Option Bytes)
          → text_of (cookies rootfs d) name before ≡ some text)
      → text_of (new_files t d dir s) name old ≡ some text
  text_of-cookies t d dir name text s old e = elim (Bool-cases (str_eq t.kernel_path no_kernel)) [
    | inl k ↦ rw k (e _ _)
    | inr k ↦ rw k (e _ _)
  ]

  module _ (files : FileLaws h) where
    -- a directory that has just been made
    pub record IsNew (s : h.State) (dir : Bytes) : Type 0 where
      pub exists : h.dir_exists s dir ≡ true
      pub opened : files.IsOpen s dir
      pub empty : (a : Bytes) → IsName a → h.read_file s (dir ++ b'/' ∷ a) ≡ none

    module _ (t : Template) (d : Metadata) (dir : Bytes) (s : h.State) (fresh : IsNew s dir) where
      abbrev pub filled : h.State
      filled = write_named h (new_files t d dir s) dir s

      read_file-filled :
          (name : Bytes)
          → IsName name
          → h.read_file filled (dir ++ b'/' ∷ name) ≡ text_of (new_files t d dir s) name none
      read_file-filled name valid =
          read_file-write_named h files (new_files t d dir s) name dir s fresh.opened
            (new_files-IsName t d dir s) valid
          ∙ ap (text_of (new_files t d dir s) name) (fresh.empty name valid)

      cookie :
          (name text : Bytes)
          → IsName name
          → ((rootfs : Bytes) (before : Option Bytes)
              → text_of (cookies rootfs d) name before ≡ some text)
          → h.read_file filled (dir ++ b'/' ∷ name) ≡ some text
      cookie name text valid e =
          read_file-filled name valid ∙ text_of-cookies t d dir name text s none e

      pub filled-IsSaved :
          Lacks b'\n' d.name
          → IsInt d.memory × IsInt d.cpus × IsInt d.ssh_port × IsInt d.pid
          → IsSaved h filled dir d
      unfolding str_eq
      filled-IsSaved one_line ints = record {
        name = cookie (codes ".template") d.name (omega arith) (λ r b. refl);
        memory = cookie (codes ".memory") (to_string d.memory) (omega arith) (λ r b. refl);
        cpus = cookie (codes ".cpus") (to_string d.cpus) (omega arith) (λ r b. refl);
        ssh_port = cookie (codes ".ssh") (to_string d.ssh_port) (omega arith) (λ r b. refl);
        pid = cookie (codes ".pid") (to_string d.pid) (omega arith) (λ r b. refl);
        one_line = one_line;
        ints = ints;
      }

      pub filled-append : h.read_file filled (dir ++ codes "/.append") ≡ none
      filled-append = read_file-filled (codes ".append") (omega arith) ∙ text_of-append t d dir s

      pub filled-kernel :
          opens (h.read_file filled (dir ++ codes "/kernel")) ≡ not (str_eq t.kernel_path no_kernel)
      filled-kernel =
          ap opens (read_file-filled (codes "kernel") (omega arith)) ∙ text_of-kernel t d dir s
