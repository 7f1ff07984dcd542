-- ===== src/Manager/Gathering.antt =====
-- `getInstances` of the manager of src/manager.cpp, whose controllers are nodes.
use kvm_cloud.Base.{
  ◌≡◌, refl, ap, ◌∙◌, List, [], ◌∷◌, Bytes, All, All-append, Lacks, ok, Option, none, some, ◌≢◌,
  ◌>>=◌,
}
use mathlib.Core.Option
use kvm_cloud.Net.Stream.Frames.{IsLine}
use kvm_cloud.Net.Socket.{Socket}
use kvm_cloud.Std.Int.{ℤ, IsInt}
use kvm_cloud.Std.Number.{to_string}
use kvm_cloud.Std.Map.{StdMap, find}
use kvm_cloud.Std.Map.Laws.{All-find}
use kvm_cloud.Std.Map.Keys.{bytes_order, int_order}
use kvm_cloud.Sys.Host.{Host}
use kvm_cloud.Vm.Instance.{Instance, get_instance_info}
use kvm_cloud.Vm.InstanceInfo.{InstanceInfo, HasInts}
use kvm_cloud.Vm.InstanceInfo.Lines.{IsPrintable}
use kvm_cloud.Vm.Controller.{initial_templates}
use kvm_cloud.Vm.Controller.WellFormed.{IsEntry, IsWellFormed}
use kvm_cloud.Vm.Proxy
use kvm_cloud.Vm.Proxy.{Link}
use kvm_cloud.Vm.Proxy.Filing.{IsListing, listing-All, get_instance_info-id}
use kvm_cloud.Controller
use kvm_cloud.Controller.Remote.{IsQuiet, Returns}
use kvm_cloud.Controller.Remote.Listing.{get_instances-Returns, info-HasInts, info-IsPrintable}
use kvm_cloud.Manager.{ControllerRef, make_full_id, write_infos, on_proxy, get_instances}
use kvm_cloud.Manager.Labels.{Group, relabel, labelled, all_labelled, Distinct, IsGroup, Listed}
use kvm_cloud.Manager.Listing.{write_groups, relabel-HasInts, relabel-IsPrintable, labelled-All}

module _ (h : Host) where
  -- A controller that the manager can ask for its instances.
  pub record IsReady (c : ControllerRef (Controller.Handler h)) : Type 0 where
    pub quiet : IsQuiet h c.proxy
    pub well_formed : IsWellFormed c.proxy.peer.node.controller
    pub line : IsLine c.id
    pub plain : Lacks b'/' c.id

  -- A controller is left with its node as it was, and its connection quiet.
  pub record IsKept (c c' : ControllerRef (Controller.Handler h)) : Type 0 where
    pub same : c' ≡ record c { proxy = c'.proxy }
    pub node : c'.proxy.peer.node ≡ c.proxy.peer.node
    pub quiet : IsQuiet h c'.proxy

  abbrev pub AllKept :
      List (ControllerRef (Controller.Handler h))
      → List (ControllerRef (Controller.Handler h))
      → Type 0
  AllKept [] [] = Unit
  AllKept (c ∷ cs) [] = ⊥
  AllKept [] (c' ∷ cs') = ⊥
  AllKept (c ∷ cs) (c' ∷ cs') = IsKept c c' × AllKept cs cs'

  module _ (c : ControllerRef (Controller.Handler h)) (r : IsReady c) where
    -- what the call on the controller gives
    pub reply :
        (found : StdMap Bytes InstanceInfo) × IsListing h c.proxy.peer.node.host
          c.proxy.peer.node.controller.instances found
        × Returns h (Proxy.get_instances (Controller.answer h)) c.proxy found c.proxy.peer.node
    reply = get_instances-Returns h c.proxy r.quiet r.well_formed

    entry :
        (id : ℤ) (inst : Instance)
        → find id c.proxy.peer.node.controller.instances ≡ some inst
        → IsEntry initial_templates id inst
    entry id inst e =
        All-find (λ p. IsEntry initial_templates p.0 p.1) id inst
          c.proxy.peer.node.controller.instances r.well_formed.entries e

    -- what holds of the descriptions of entries holds of the reply
    pub reply-All :
        (P : Bytes → InstanceInfo → Type 0)
        → ((id : ℤ) (inst : Instance)
            → IsEntry initial_templates id inst
            → P (to_string id) (get_instance_info h c.proxy.peer.node.host inst))
        → All (λ e. P e.0 e.1) reply.0
    reply-All P f =
        listing-All h c.proxy.peer.node.host P c.proxy.peer.node.controller.instances reply.0
          reply.1 (λ id inst int e. f id inst (entry id inst e))

    pub info-id :
        (id : ℤ) (inst : Instance)
        → IsEntry initial_templates id inst
        → (get_instance_info h c.proxy.peer.node.host inst).id ≡ to_string id
    info-id id inst e = get_instance_info-id h c.proxy.peer.node.host inst ∙ ap to_string e.named

    abbrev group : Group
    group = (c.id, reply.0)

    group-IsGroup : IsGroup group
    group-IsGroup = (r.plain, reply.1.sorted, reply-All (λ k i. i.id ≡ k) info-id)

    labelled-HasInts : All (λ e. HasInts e.1) (labelled c.id reply.0)
    labelled-HasInts =
        labelled-All HasInts HasInts c.id reply.0 (relabel-HasInts c.id)
          (reply-All (λ _ i. HasInts i) (info-HasInts h c.proxy.peer.node.host))

    labelled-IsPrintable : All (λ e. IsPrintable e.1) (labelled c.id reply.0)
    labelled-IsPrintable =
        labelled-All IsPrintable IsPrintable c.id reply.0 (λ i. relabel-IsPrintable c.id i r.line)
          (reply-All (λ _ i. IsPrintable i) (info-IsPrintable h c.proxy.peer.node.host))

    on_proxy-reply :
        on_proxy (Controller.answer h) (Proxy.get_instances (Controller.answer h)) c
        ≡ ok (reply.0, record c { proxy = reply.2.after })
    unfolding on_proxy
    on_proxy-reply = ap (λ o. o.0 >>= λ a. ok (a, record c { proxy = o.1 })) reply.2.returned

  abbrev pub groups :
      (cs : List (ControllerRef (Controller.Handler h))) → All IsReady cs → List Group
  groups [] a = []
  groups (c ∷ cs) a = group c a.0 ∷ groups cs a.1

  abbrev pub left :
      (cs : List (ControllerRef (Controller.Handler h)))
      → All IsReady cs
      → List (ControllerRef (Controller.Handler h))
  left [] a = []
  left (c ∷ cs) a = record c { proxy = (reply c a.0).2.after } ∷ left cs a.1

  pub get_instances-left :
      (cs : List (ControllerRef (Controller.Handler h))) (a : All IsReady cs) (s : Socket)
      → get_instances (Controller.answer h) cs s ≡ ok (left cs a, write_groups (groups cs a) s)
  unfolding get_instances
  get_instances-left [] a s = refl
  get_instances-left (c ∷ cs) a s =
      rw (on_proxy-reply c a.0, get_instances-left cs a.1 (write_infos c.id (reply c a.0).0 s))

  pub left-AllKept :
      (cs : List (ControllerRef (Controller.Handler h))) (a : All IsReady cs)
      → AllKept cs (left cs a)
  left-AllKept [] a = tt
  left-AllKept (c ∷ cs) a = (
    record { same = refl; node = (reply c a.0).2.node; quiet = (reply c a.0).2.quiet },
    left-AllKept cs a.1,
  )

  pub groups-IsGroup :
      (cs : List (ControllerRef (Controller.Handler h))) (a : All IsReady cs)
      → All IsGroup (groups cs a)
  groups-IsGroup [] a = tt
  groups-IsGroup (c ∷ cs) a = (group-IsGroup c a.0, groups-IsGroup cs a.1)

  -- what holds of each controller's descriptions under full ids
  groups-All :
      (P : InstanceInfo → Type 0)
      → ((c : ControllerRef (Controller.Handler h)) (r : IsReady c)
          → All (λ e. P e.1) (labelled c.id (reply c r).0))
      → (cs : List (ControllerRef (Controller.Handler h))) (a : All IsReady cs)
      → All (λ e. P e.1) (all_labelled (groups cs a))
  groups-All P f [] a = tt
  groups-All P f (c ∷ cs) a =
      All-append (λ e. P e.1) (labelled c.id (reply c a.0).0) (all_labelled (groups cs a.1))
        (f c a.0) (groups-All P f cs a.1)

  pub groups-HasInts :
      (cs : List (ControllerRef (Controller.Handler h))) (a : All IsReady cs)
      → All (λ e. HasInts e.1) (all_labelled (groups cs a))
  groups-HasInts = groups-All HasInts labelled-HasInts

  pub groups-IsPrintable :
      (cs : List (ControllerRef (Controller.Handler h))) (a : All IsReady cs)
      → All (λ e. IsPrintable e.1) (all_labelled (groups cs a))
  groups-IsPrintable = groups-All IsPrintable labelled-IsPrintable

  -- no two controllers have the same name
  abbrev pub DistinctIds : List (ControllerRef (Controller.Handler h)) → Type 0
  DistinctIds [] = Unit
  DistinctIds (c ∷ cs) = All (λ d. d.id ≢ c.id) cs × DistinctIds cs

  groups-others :
      (name : Bytes) (cs : List (ControllerRef (Controller.Handler h))) (a : All IsReady cs)
      → All (λ d. d.id ≢ name) cs
      → All (λ d. d.0 ≢ name) (groups cs a)
  groups-others name [] a o = tt
  groups-others name (c ∷ cs) a o = (o.0, groups-others name cs a.1 o.1)

  pub groups-Distinct :
      (cs : List (ControllerRef (Controller.Handler h))) (a : All IsReady cs)
      → DistinctIds cs
      → Distinct (groups cs a)
  groups-Distinct [] a d = tt
  groups-Distinct (c ∷ cs) a d = (groups-others c.id cs a.1 d.0, groups-Distinct cs a.1 d.1)

  -- the description of a controller's instance, under its full id
  abbrev pub full_info : ControllerRef (Controller.Handler h) → Instance → InstanceInfo
  full_info c inst = relabel c.id (get_instance_info h c.proxy.peer.node.host inst)

  -- Under the full id of every `int` there is the description of the controller's instance.
  abbrev pub Shows : StdMap Bytes InstanceInfo → ControllerRef (Controller.Handler h) → Type 0
  Shows found c =
      (id : ℤ)
      → IsInt id
      → find (make_full_id c.id (to_string id)) found
        ≡ Option.map (full_info c) (find id c.proxy.peer.node.controller.instances)

  map-map :
      (c : ControllerRef (Controller.Handler h)) (o : Option Instance)
      → Option.map (relabel c.id) (Option.map (get_instance_info h c.proxy.peer.node.host) o)
        ≡ Option.map (full_info c) o
  map-map c none = refl
  map-map c (some inst) = refl

  pub groups-Shows :
      (found : StdMap Bytes InstanceInfo) (cs : List (ControllerRef (Controller.Handler h)))
      (a : All IsReady cs)
      → All (Listed found) (groups cs a)
      → All (Shows found) cs
  groups-Shows found [] a l = tt
  groups-Shows found (c ∷ cs) a l = (
    λ id int.
        l.0 (to_string id)
        ∙ ap (Option.map (relabel c.id)) ((reply c a.0).1.lookup id int)
        ∙ map-map c (find id c.proxy.peer.node.controller.instances),
    groups-Shows found cs a.1 l.1,
  )
