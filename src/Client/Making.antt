-- ===== src/Client/Making.antt =====
-- The client's commands `instances` and `new` against a node.
use kvm_cloud.Base.{
  ◌≡◌, ◌≢◌, refl, ap, ◌∙◌, some, List, [], ◌∷◌, ◌++◌, append_assoc, Bytes, All, ok, codes,
}
use kvm_cloud.Std.Int.{ℤ}
use kvm_cloud.Std.Number.{stoi}
use kvm_cloud.Std.Number.Range.{stoi-IsInt}
use kvm_cloud.Std.Map.{StdMap, find}
use kvm_cloud.Std.Map.Laws.{All-find}
use kvm_cloud.Std.Map.Keys.{bytes_order}
use kvm_cloud.Std.Text.{str_eq}
use kvm_cloud.Sys.Host.{Host}
use kvm_cloud.Vm.Template
use kvm_cloud.Vm.Template.{Template}
use kvm_cloud.Vm.InstanceInfo.{InstanceInfo, HasInts}
use kvm_cloud.Vm.InstanceInfo.Lines.{IsPrintable}
use kvm_cloud.Vm.Controller.{Node}
use kvm_cloud.Vm.Controller.WellFormed.{IsWellFormed}
use kvm_cloud.Vm.Proxy
use kvm_cloud.Vm.Proxy.{Link, wanted}
use kvm_cloud.Vm.Proxy.Decode.{IsByName}
use kvm_cloud.Vm.Proxy.Filing.{IsListing}
use kvm_cloud.Controller.{answer}
use kvm_cloud.Controller.Remote.{IsQuiet, Returns, get_templates-Returns}
use kvm_cloud.Controller.Remote.Making.{made, instantiate-Returns}
use kvm_cloud.Controller.Remote.Listing.{get_instances-Returns}
use kvm_cloud.Client.{Session, obey, interpret, instances, create, created, instance_rows}
use kvm_cloud.Client.Calls.{Showed, obey-Showed}

abbrev pub table_head : Bytes
table_head = codes "   ID\t\ttemplate\tRAM\t\tCPUs\t\tSSH port\tstatus\n"

module _ (h : Host) where
  listed-Showed :
      (s : Session (answer h)) (found : StdMap Bytes InstanceInfo) (n : Node h)
      → Returns h (Proxy.get_instances (answer h)) s.link found n
      → Showed h (instances (answer h)) s (table_head ++ instance_rows found) n
  unfolding instances
  listed-Showed s found n r = record {
    after = record { link = r.after; printed = (s.printed ++ table_head) ++ instance_rows found };
    went_on = rw r.returned;
    printed = append_assoc s.printed table_head (instance_rows found);
    node = r.node;
    quiet = r.quiet;
  }

  -- On a quiet connection to a node whose controller is well-formed, the client's line "instances"
  -- prints the head of the table, a row for each instance of the node, in the order of the texts of
  -- their ids, and the prompt. The node is left unchanged and the connection quiet.
  pub instances-Showed :
      (more : List Bytes) (s : Session (answer h))
      → IsQuiet h s.link
      → IsWellFormed s.link.peer.node.controller
      → (found : StdMap Bytes InstanceInfo) × IsListing h s.link.peer.node.host
          s.link.peer.node.controller.instances found
        × Showed h
            (obey (answer h) (codes "instances" ∷ more))
            s
            ((table_head ++ instance_rows found) ++ codes "\n> ")
            s.link.peer.node
  unfolding interpret str_eq
  instances-Showed more s quiet w =
      let (found, listing, r) = get_instances-Returns h s.link quiet w in
      (
        found,
        listing,
        obey-Showed h (codes "instances") more s (table_head ++ instance_rows found)
            s.link.peer.node (listed-Showed s found s.link.peer.node r),
      )

  -- the two calls of `new`, and what is printed
  created-Showed :
      (name memory_text cpus_text : Bytes) (more : List Bytes) (memory cpus : ℤ) (t : Template)
      (s : Session (answer h)) (templates : StdMap Bytes Template) (info : InstanceInfo)
      (n n' : Node h)
      → (first : Returns h (Proxy.get_templates (answer h)) s.link templates n)
      → find name templates ≡ some t
      → stoi memory_text ≡ ok memory
      → stoi cpus_text ≡ ok cpus
      → Returns h (Proxy.instantiate (answer h) t memory cpus) first.after info n'
      → Showed h
          (create (answer h) (codes "new" ∷ name ∷ memory_text ∷ cpus_text ∷ more))
          s
          (created info)
          n'
  unfolding create
  created-Showed name memory_text cpus_text more memory cpus t s templates info n n' first known m c
        second =
      record {
        after = record { link = second.after; printed = s.printed ++ created info };
        went_on = rw (first.returned, known, m, c, second.returned);
        printed = refl;
        node = second.node;
        quiet = second.quiet;
      }

  -- On a quiet connection to a node that has templates, filed under their own names in the order of
  -- the names, with fields that are non-empty and free of CR and LF, the client's line "new" with
  -- the name of one of them and the texts of two `int`s prints the description that the request
  -- makes on the node, and the prompt. That is the description of the instance that the node's
  -- method returns, or of the request if an exception is thrown. The node is left in the state of
  -- that attempt, and the connection quiet. The description has to be made of texts that are
  -- non-empty and free of CR and LF, and of `int`s.
  pub create-Showed :
      (name memory_text cpus_text : Bytes) (more : List Bytes) (memory cpus : ℤ) (t : Template)
      (s : Session (answer h)) (info : InstanceInfo) (n : Node h)
      → IsQuiet h s.link
      → IsByName s.link.peer.node.controller.templates
      → All (λ e. Template.IsPrintable e.1) s.link.peer.node.controller.templates
      → s.link.peer.node.controller.templates ≢ []
      → find name s.link.peer.node.controller.templates ≡ some t
      → stoi memory_text ≡ ok memory
      → stoi cpus_text ≡ ok cpus
      → made h (wanted (answer h) t memory cpus) s.link.peer.node ≡ (ok info, n)
      → IsPrintable info
      → HasInts info
      → Showed h
          (obey (answer h) (codes "new" ∷ name ∷ memory_text ∷ cpus_text ∷ more))
          s
          (created info ++ codes "\n> ")
          n
  unfolding interpret str_eq Template.serialize
  create-Showed name memory_text cpus_text more memory cpus t s info n quiet by_name lines ne known
        m c e printable ints =
      let first = get_templates-Returns h s.link quiet by_name lines ne in
      let t_lines =
        All-find (λ p. Template.IsPrintable p.1) name t s.link.peer.node.controller.templates lines
          known in
      let second =
        instantiate-Returns h first.after t memory cpus info n first.quiet t_lines.0
          (stoi-IsInt memory_text memory m) (stoi-IsInt cpus_text cpus c)
          (ap (made h (wanted (answer h) t memory cpus)) first.node ∙ e) printable ints in
      obey-Showed h (codes "new") (name ∷ memory_text ∷ cpus_text ∷ more) s (created info) n (
        created-Showed name memory_text cpus_text more memory cpus t s
          s.link.peer.node.controller.templates info s.link.peer.node n first known m c second)
