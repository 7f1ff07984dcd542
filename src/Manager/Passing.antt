-- ===== src/Manager/Passing.antt =====
-- A proxy of src/Vm/ControllerProxy.hpp that is connected to the manager of src/manager.cpp, whose
-- controllers are nodes: `getInstances` lists the instances of all nodes.
use kvm_cloud.Base.{
  ◌≡◌, ◌≢◌, refl, sym, ap, ◌∙◌, some, List, [], ◌∷◌, ◌++◌, Bytes, codes, All, All-append,
  All-middle, All-zip, ok, inl, inr, ◌⊎◌, ◌>>=◌, arith,
}
use mathlib.Core.List.{cons-ne-nil, append-eq-nil_iff}
use mathlib.Core.Option
use mathlib.Core.Option.{some-ne-none}
use mathlib.Core.Path.{subst}
use kvm_cloud.Net.Stream.Frames.{read-frame}
use kvm_cloud.Net.Socket.{write, send}
use kvm_cloud.Net.Socket.Pending.{IsIdle-Pending, write-Pending, send-Pending}
use kvm_cloud.Std.Int.{ℤ, IsInt}
use kvm_cloud.Std.Number.{to_string}
use kvm_cloud.Std.Text.{str_eq}
use kvm_cloud.Std.Map.{StdMap, find, IsSorted}
use kvm_cloud.Std.Map.Keys.{bytes_order, int_order}
use kvm_cloud.Sys.Host.{Host}
use kvm_cloud.Vm.Instance.{Instance}
use kvm_cloud.Vm.InstanceInfo.{InstanceInfo}
use kvm_cloud.Vm.InstanceInfo.Lines.{serialize-ne-nil}
use kvm_cloud.Vm.Proxy
use kvm_cloud.Vm.Proxy.{Link, collect_instances}
use kvm_cloud.Vm.Proxy.Calls.{call-answered, settled}
use kvm_cloud.Vm.Proxy.Decode.{info_lines}
use kvm_cloud.Vm.Proxy.Filing.{
  filed, collect_instances-filed, info_lines-IsLine, filed-IsSorted, filed-All,
}
use kvm_cloud.Controller
use kvm_cloud.Manager.{ControllerRef, Handler, make_full_id, dispatch}
use kvm_cloud.Manager.Answering.{answer_client, drained, replied, dispatch-Answers}
use kvm_cloud.Manager.Relay.{IsQuietClient}
use kvm_cloud.Manager.Labels.{labelled, relabel-id, all_labelled, filed-Listed}
use kvm_cloud.Manager.Listing.{labelled-All, write_groups, write_groups-Pending}
use kvm_cloud.Manager.Gathering.{
  IsReady, AllKept, DistinctIds, Shows, full_info, reply, reply-All, info-id, groups, left,
  get_instances-left, left-AllKept, groups-IsGroup, groups-HasInts, groups-IsPrintable,
  groups-Distinct, groups-Shows,
}

info_lines-nil : (l : StdMap Bytes InstanceInfo) → info_lines l ≡ [] → l ≡ []
info_lines-nil [] e = refl
info_lines-nil ((k, i) ∷ l) e = absurd (serialize-ne-nil i (append-eq-nil_iff.0 e).0)

module _ (h : Host) where
  -- some controller has an instance
  pub record IsOccupied (cs : List (ControllerRef (Controller.Handler h))) : Type 0 where
    pub before : List (ControllerRef (Controller.Handler h))
    pub chosen : ControllerRef (Controller.Handler h)
    pub behind : List (ControllerRef (Controller.Handler h))
    pub listed : cs ≡ before ++ chosen ∷ behind
    pub id : ℤ
    pub int : IsInt id
    pub instance_there : Instance
    pub there : find id chosen.proxy.peer.node.controller.instances ≡ some instance_there

  module _ (cs : List (ControllerRef (Controller.Handler h))) (a : All (IsReady h) cs) where
    abbrev pub infos : StdMap Bytes InstanceInfo
    infos = all_labelled (groups h cs a)

    pub infos-Shows : DistinctIds h cs → All (Shows h (filed infos [])) cs
    infos-Shows d =
        groups-Shows h (filed infos []) cs a
          (filed-Listed (groups h cs a) (groups-IsGroup h cs a) (groups-Distinct h cs a d))

    pub lines-ne-nil : DistinctIds h cs → IsOccupied cs → info_lines infos ≢ []
    unfolding find
    lines-ne-nil d o e =
        let shown =
          All-middle (Shows h (filed infos [])) o.before o.chosen o.behind
            (subst (All (Shows h (filed infos []))) o.listed (infos-Shows d)) o.id o.int in
        let empty : filed infos [] ≡ [] = ap (λ l. filed l []) (info_lines-nil infos e) in
        some-ne-none (full_info h o.chosen o.instance_there) (
          sym (ap (Option.map (full_info h o.chosen)) o.there)
          ∙ sym shown
          ∙ ap (find (make_full_id o.chosen.id (to_string o.id))) empty)

  -- The key is the full id of an `int` at one of the controllers.
  abbrev pub IsFullId : List (ControllerRef (Controller.Handler h)) → Bytes → Type 0
  IsFullId [] key = ⊥
  IsFullId (c ∷ cs) key =
      ((id : ℤ) × IsInt id × (key ≡ make_full_id c.id (to_string id))) ⊎ IsFullId cs key

  -- The id is the full id of an `int` at this controller.
  abbrev IsIdOf : ControllerRef (Controller.Handler h) → InstanceInfo → Type 0
  IsIdOf c i = (id : ℤ) × IsInt id × (i.id ≡ make_full_id c.id (to_string id))

  labelled-IsIdOf :
      (c : ControllerRef (Controller.Handler h)) (r : IsReady h c)
      → All (λ e. IsIdOf c e.1) (labelled c.id (reply h c r).0)
  labelled-IsIdOf c r =
      labelled-All (λ i. (id : ℤ) × IsInt id × (i.id ≡ to_string id)) (IsIdOf c) c.id
        (reply h c r).0 (λ i p. (p.0, p.1, relabel-id c.id i ∙ ap (make_full_id c.id) p.2))
        (reply-All h c r (λ _ i. (id : ℤ) × IsInt id × (i.id ≡ to_string id))
          (λ id inst e. (id, e.int, info-id h c r id inst e)))

  infos-IsFullId :
      (cs : List (ControllerRef (Controller.Handler h))) (a : All (IsReady h) cs)
      → All (λ e. IsFullId cs e.1.id) (infos cs a)
  infos-IsFullId [] a = tt
  infos-IsFullId (c ∷ cs) a =
      let here = labelled-IsIdOf c a.0 in
      let later = infos-IsFullId cs a.1 in
      All-append (λ e. IsFullId (c ∷ cs) e.1.id) (labelled c.id (reply h c a.0).0) (infos cs a.1)
        (All-zip (λ e. IsIdOf c e.1) (λ e. IsIdOf c e.1) (λ e. IsFullId (c ∷ cs) e.1.id) _ here here
          (λ e p _. inl p))
        (All-zip (λ e. IsFullId cs e.1.id) (λ e. IsFullId cs e.1.id) (λ e. IsFullId (c ∷ cs) e.1.id)
          _ later later (λ e p _. inr p))

  -- The remote call returned a map, and nothing else has changed.
  pub record Collected (l : Link (Handler (Controller.answer h)))
      (found : StdMap Bytes InstanceInfo) : Type 0 where
    pub after : Link (Handler (Controller.answer h))
    pub returned : Proxy.get_instances (answer_client (Controller.answer h)) l ≡ (ok found, after)
    pub controllers : AllKept h l.peer.manager.controllers after.peer.manager.controllers
    pub turn : after.peer.manager.next_controller ≡ l.peer.manager.next_controller
    pub quiet : IsQuietClient (Controller.answer h) after

  get_instances-Collected :
      (l : Link (Handler (Controller.answer h))) (a : All (IsReady h) l.peer.manager.controllers)
      → IsQuietClient (Controller.answer h) l
      → DistinctIds h l.peer.manager.controllers
      → IsOccupied l.peer.manager.controllers
      → Collected l (filed (infos l.peer.manager.controllers a) [])
  unfolding Proxy.get_instances dispatch str_eq
  get_instances-Collected l a quiet d o =
      let A = Controller.answer h in
      let cs = l.peer.manager.controllers in
      let p = drained A l.peer in
      let cmd = codes "getInstances" in
      let gs = groups h cs a in
      let lines = info_lines (infos cs a) in
      let q : Handler A = record {
        socket = write_groups gs p.socket;
        manager = record p.manager { controllers = left h cs a };
      } in
      let ne = lines-ne-nil cs a d o in
      let pending =
        write_groups-Pending gs
          (IsIdle-Pending (record { incoming = refl; outgoing = quiet.far.outgoing })) in
      record {
        after = settled (answer_client A) (send (write l.socket cmd)) (replied A q);
        returned =
            call-answered (answer_client A) (λ s. write s cmd)
              (λ fields. collect_instances fields []) l (cmd ∷ []) lines (replied A q)
              (filed (infos cs a) []) (write-Pending (IsIdle-Pending quiet.near) cmd)
              (cons-ne-nil cmd [])
              (dispatch-Answers A l.peer q cmd [] lines lines quiet.far.incoming (omega arith)
                (ap
                  (λ r. r >>= λ o.
                    ok (record { socket = o.1; manager = record p.manager { controllers = o.0 } }))
                  (get_instances-left h cs a p.socket))
                pending ne
                (read-frame lines [] ne
                  (info_lines-IsLine (infos cs a) (groups-IsPrintable h cs a))))
              (collect_instances-filed (infos cs a) [] (groups-HasInts h cs a));
        controllers = left-AllKept h cs a;
        turn = refl;
        quiet = record {
          near = record { incoming = refl; outgoing = refl };
          far = record { incoming = (send-Pending pending ne).0; outgoing = refl };
        };
      }

  pub get_instances-Passed :
      (l : Link (Handler (Controller.answer h)))
      → All (IsReady h) l.peer.manager.controllers
      → IsQuietClient (Controller.answer h) l
      → DistinctIds h l.peer.manager.controllers
      → IsOccupied l.peer.manager.controllers
      → (found : StdMap Bytes InstanceInfo) × IsSorted found
        × All (λ e. IsFullId l.peer.manager.controllers e.0) found
        × All (Shows h found) l.peer.manager.controllers
        × Collected l found
  get_instances-Passed l a quiet d o =
      let cs = l.peer.manager.controllers in
      (
        filed (infos cs a) [],
        filed-IsSorted (infos cs a) [] tt,
        filed-All (λ e. IsFullId cs e.0) (infos cs a) [] (infos-IsFullId cs a) tt,
        infos-Shows cs a d,
        get_instances-Collected l a quiet d o,
      )
