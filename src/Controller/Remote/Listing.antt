-- ===== src/Controller/Remote/Listing.antt =====
-- The remote `getInstances`: a proxy of src/Vm/ControllerProxy.hpp that is connected to a handler of
-- src/controller.cpp.
use kvm_cloud.Base.{
  ◌≡◌, ◌≢◌, refl, some, List, [], ◌∷◌, ◌++◌, append-nil, append_assoc, Bytes, All, ok, codes, arith,
}
use mathlib.Core.List.{cons-ne-nil}
use kvm_cloud.Net.Stream
use kvm_cloud.Net.Stream.Frames.{IsLine, frame, read-frame}
use kvm_cloud.Net.Socket.{Socket, write}
use kvm_cloud.Net.Socket.Pending.{Pending, write-Pending, IsIdle-Pending, write_all-Pending}
use kvm_cloud.Std.Int.{ℤ, IsInt}
use kvm_cloud.Std.Map.{StdMap, find, insert}
use kvm_cloud.Std.Map.Laws.{All-find}
use kvm_cloud.Std.Map.Keys.{bytes_order, int_order, str_lt}
use kvm_cloud.Std.Text.{str_eq}
use kvm_cloud.Sys.Host.{Host}
use kvm_cloud.Vm.Template.{Template}
use kvm_cloud.Vm.Instance.{Instance, get_instance_info}
use kvm_cloud.Vm.InstanceInfo
use kvm_cloud.Vm.InstanceInfo.{InstanceInfo, HasInts}
use kvm_cloud.Vm.InstanceInfo.Lines.{IsPrintable, to_string-IsLine}
use kvm_cloud.Vm.Controller.{initial_templates}
use kvm_cloud.Vm.Controller.WellFormed.{IsEntry, IsWellFormed}
use kvm_cloud.Vm.Proxy
use kvm_cloud.Vm.Proxy.{Link, collect_instances}
use kvm_cloud.Vm.Proxy.Decode.{info_lines}
use kvm_cloud.Vm.Proxy.Filing.{
  filed, collect_instances-filed, info_lines-IsLine, infos, IsListing, filed-IsListing,
}
use kvm_cloud.Controller.{Handler, dispatch, answer, write_instances, write_found}
use kvm_cloud.Controller.Replies.{drained}
use kvm_cloud.Controller.Remote.{IsQuiet, Returns, call_read-Returns, drained-Pending}

names-IsLine : All (λ p. IsLine p.1.name) initial_templates
unfolding initial_templates insert str_lt
names-IsLine = (omega arith, (omega arith, tt))

offered-IsLine :
    (name : Bytes) (t : Template) → find name initial_templates ≡ some t → IsLine t.name
offered-IsLine name t e = All-find (λ p. IsLine p.1.name) name t initial_templates names-IsLine e

module _ (h : Host) (host : h.State) where
  pub info-HasInts :
      (id : ℤ) (i : Instance)
      → IsEntry initial_templates id i
      → HasInts (get_instance_info h host i)
  unfolding get_instance_info
  info-HasInts id i e = record { memory = e.ints.0; cpus = e.ints.1; ssh_port = e.ints.2 }

  pub info-IsPrintable :
      (id : ℤ) (i : Instance)
      → IsEntry initial_templates id i
      → IsPrintable (get_instance_info h host i)
  unfolding get_instance_info
  info-IsPrintable id i e = record {
    id = to_string-IsLine i.id;
    templ = offered-IsLine e.name i.templat e.offered;
  }

  -- what holds of the descriptions, from what holds of the entries
  infos-All :
      (P : InstanceInfo → Type 0) (m : StdMap ℤ Instance)
      → ((id : ℤ) (i : Instance) → IsEntry initial_templates id i → P (get_instance_info h host i))
      → All (λ e. IsEntry initial_templates e.0 e.1) m
      → All (λ e. P e.1) (infos h host m)
  infos-All P [] f a = tt
  infos-All P ((k, i) ∷ m) f a = (f k i a.0, infos-All P m f a.1)

  entries-named :
      (m : StdMap ℤ Instance)
      → All (λ e. IsEntry initial_templates e.0 e.1) m
      → All (λ e. IsInt e.0 × (e.1.id ≡ e.0)) m
  entries-named [] a = tt
  entries-named ((k, i) ∷ m) a = ((a.0.int, a.0.named), entries-named m a.1)

  write_instances-Pending :
      (m : StdMap ℤ Instance) {s : Socket} {ls : List Bytes}
      → Pending s ls
      → Pending (write_instances h host m s) (ls ++ info_lines (infos h host m))
  unfolding write_instances
  write_instances-Pending [] {s} {ls} p = rw append-nil p
  write_instances-Pending ((k, i) ∷ m) {s} {ls} p = rw append_assoc at (
      write_instances-Pending m
        (write_all-Pending (InstanceInfo.serialize (get_instance_info h host i)) p))

  -- the lines of the reply: an empty one if there is no instance
  abbrev reply_lines : StdMap ℤ Instance → List Bytes
  reply_lines [] = [] ∷ []
  reply_lines (e ∷ m) = info_lines (infos h host (e ∷ m))

  write_found-Pending :
      (m : StdMap ℤ Instance) {s : Socket}
      → Pending s []
      → Pending (write_found h host m s) (reply_lines m)
  write_found-Pending [] p = write-Pending p []
  write_found-Pending (e ∷ m) p = write_instances-Pending (e ∷ m) p

  reply_lines-ne-nil : (m : StdMap ℤ Instance) → reply_lines m ≢ []
  unfolding InstanceInfo.serialize
  reply_lines-ne-nil [] = cons-ne-nil [] []
  reply_lines-ne-nil ((k, i) ∷ m) = cons-ne-nil _ _

  -- with no instance no line is read
  read-reply_lines :
      (m : StdMap ℤ Instance)
      → All (λ e. IsEntry initial_templates e.0 e.1) m
      → Stream.read (frame (reply_lines m) []) ≡ ok (info_lines (infos h host m), [])
  unfolding Stream.read
  read-reply_lines [] a = refl
  read-reply_lines (e ∷ m) a =
      read-frame (reply_lines (e ∷ m)) [] (reply_lines-ne-nil (e ∷ m)) (
        info_lines-IsLine (infos h host (e ∷ m)) (infos-All IsPrintable (e ∷ m) info-IsPrintable a))

module _ (h : Host) where
  dispatch-get_instances :
      (p : Handler h)
      → dispatch h (codes "getInstances") (codes "getInstances" ∷ []) p ≡ (
        ok tt,
        record p { socket = write_found h p.node.host p.node.controller.instances p.socket },
      )
  unfolding dispatch str_eq
  dispatch-get_instances p = refl

  -- On a quiet connection to a node whose controller is well-formed, `getInstances` of the proxy
  -- returns a map in the order of its keys, which are the texts of ids; under the text of each `int`
  -- it has the description of the node's instance with that id, and nothing if there is none. An
  -- empty map of instances is no exception. The node is left unchanged and the connection quiet.
  pub get_instances-Returns :
      (l : Link (Handler h))
      → IsQuiet h l
      → IsWellFormed l.peer.node.controller
      → (found : StdMap Bytes InstanceInfo) × IsListing h l.peer.node.host
          l.peer.node.controller.instances found
        × Returns h (Proxy.get_instances (answer h)) l found l.peer.node
  unfolding Proxy.get_instances
  get_instances-Returns l quiet w =
      let host = l.peer.node.host in
      let m = l.peer.node.controller.instances in
      let entries = w.entries in
      (
        filed (infos h host m) [],
        filed-IsListing h host m w.sorted (entries-named h host m entries),
        call_read-Returns h (λ s. write s (codes "getInstances"))
            (λ fields. collect_instances fields []) l _ (codes "getInstances") []
            (reply_lines h host m) (info_lines (infos h host m)) (filed (infos h host m) []) quiet
            (write-Pending (IsIdle-Pending quiet.near) (codes "getInstances")) (omega arith)
            (dispatch-get_instances (drained h l.peer))
            (write_found-Pending h host m (drained-Pending h l.peer quiet.far))
            (reply_lines-ne-nil h host m) (read-reply_lines h host m entries)
            (collect_instances-filed (infos h host m) []
              (infos-All h host HasInts m (info-HasInts h host) entries)),
      )
