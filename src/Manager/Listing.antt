-- ===== src/Manager/Listing.antt =====
-- What src/manager.cpp writes for `getInstances`, and what holds of the descriptions in it.
use kvm_cloud.Base.{
  ◌≡◌, refl, sym, ap, ◌∙◌, List, [], ◌∷◌, ◌++◌, append-nil, append_assoc, Bytes, All,
}
use kvm_cloud.Net.Stream.Frames.{IsLine}
use kvm_cloud.Net.Socket.{Socket}
use kvm_cloud.Net.Socket.Pending.{Pending, write_all-Pending}
use kvm_cloud.Std.Map.{StdMap}
use kvm_cloud.Std.Map.Keys.{bytes_order, int_order}
use kvm_cloud.Vm.InstanceInfo
use kvm_cloud.Vm.InstanceInfo.{InstanceInfo, HasInts, set_id}
use kvm_cloud.Vm.InstanceInfo.Lines.{IsPrintable}
use kvm_cloud.Vm.Proxy.Decode.{info_lines}
use kvm_cloud.Manager.{write_infos}
use kvm_cloud.Manager.Relay.{make_full_id-IsLine}
use kvm_cloud.Manager.Labels.{Group, relabel, labelled, all_labelled}

info_lines-append :
    (l m : StdMap Bytes InstanceInfo) → info_lines (l ++ m) ≡ info_lines l ++ info_lines m
info_lines-append [] m = refl
info_lines-append ((k, i) ∷ l) m =
    ap (λ t. InstanceInfo.serialize i ++ t) (info_lines-append l m)
    ∙ sym (append_assoc (InstanceInfo.serialize i) (info_lines l) (info_lines m))

write_infos-Pending :
    (server : Bytes) (m : StdMap Bytes InstanceInfo) {s : Socket} {ls : List Bytes}
    → Pending s ls
    → Pending (write_infos server m s) (ls ++ info_lines (labelled server m))
unfolding write_infos
write_infos-Pending server [] {s} {ls} p = rw append-nil p
write_infos-Pending server ((k, i) ∷ m) {s} {ls} p =
    rw append_assoc at (
      write_infos-Pending server m
        (write_all-Pending (InstanceInfo.serialize (relabel server i)) p))

-- what is written for all controllers
abbrev pub write_groups : List Group → Socket → Socket
write_groups [] s = s
write_groups ((server, m) ∷ gs) s = write_groups gs (write_infos server m s)

pub write_groups-Pending :
    (gs : List Group) {s : Socket} {ls : List Bytes}
    → Pending s ls
    → Pending (write_groups gs s) (ls ++ info_lines (all_labelled gs))
write_groups-Pending [] {s} {ls} p = rw append-nil p
write_groups-Pending ((server, m) ∷ gs) {s} {ls} p =
    rw (info_lines-append (labelled server m) (all_labelled gs), ← append_assoc)
      (write_groups-Pending gs (write_infos-Pending server m p))

pub relabel-HasInts : (server : Bytes) (i : InstanceInfo) → HasInts i → HasInts (relabel server i)
unfolding set_id
relabel-HasInts server i p = record { memory = p.memory; cpus = p.cpus; ssh_port = p.ssh_port }

pub relabel-IsPrintable :
    (server : Bytes) (i : InstanceInfo)
    → IsLine server
    → IsPrintable i
    → IsPrintable (relabel server i)
unfolding set_id
relabel-IsPrintable server i line p = record {
  id = make_full_id-IsLine server i.id line p.id;
  templ = p.templ;
}

-- what holds of relabelled descriptions
pub labelled-All :
    (P Q : InstanceInfo → Type 0) (server : Bytes) (m : StdMap Bytes InstanceInfo)
    → ((i : InstanceInfo) → P i → Q (relabel server i))
    → All (λ e. P e.1) m
    → All (λ e. Q e.1) (labelled server m)
labelled-All P Q server [] f a = tt
labelled-All P Q server ((k, i) ∷ m) f a = (f i a.0, labelled-All P Q server m f a.1)
