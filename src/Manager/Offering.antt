-- ===== src/Manager/Offering.antt =====
-- A proxy of src/Vm/ControllerProxy.hpp that is connected to the manager of src/manager.cpp, whose
-- controllers are nodes: `getTemplates`.
use kvm_cloud.Base.{
  ℕ, zero, suc, ◌<◌, ◌≡◌, ◌≢◌, refl, ap, ◌∙◌, some, List, [], ◌∷◌, ◌++◌, append-nil, append_assoc,
  Bytes, codes, All, All-append, ok, get_elem?, length, ◌>>=◌, arith,
}
use mathlib.Core.List.{cons-ne-nil, append-eq-nil_iff}
use mathlib.Core.Option
use kvm_cloud.Net.Stream.Frames.{read-frame}
use kvm_cloud.Net.Socket.{Socket, write, send}
use kvm_cloud.Net.Socket.Pending.{Pending, IsIdle-Pending, write-Pending, send-Pending}
use kvm_cloud.Std.Text.{str_eq}
use kvm_cloud.Sys.Host.{Host}
use kvm_cloud.Vm.Template
use kvm_cloud.Vm.Template.{Template}
use kvm_cloud.Vm.Controller.{Node}
use kvm_cloud.Vm.Proxy
use kvm_cloud.Vm.Proxy.{Link, collect_templates}
use kvm_cloud.Vm.Proxy.Calls.{call-answered, settled}
use kvm_cloud.Vm.Proxy.Decode.{template_lines}
use kvm_cloud.Controller
use kvm_cloud.Controller.{write_templates}
use kvm_cloud.Controller.Replies.{
  write_templates-Pending, template_lines-IsLine, template_lines-ne-nil,
}
use kvm_cloud.Controller.Serving.{ServesTemplates, fetched, node_service}
use kvm_cloud.Manager.{ControllerRef, Handler, dispatch, on_proxy, get_templates}
use kvm_cloud.Manager.Service.{Publishes, on_proxy_lem}
use kvm_cloud.Manager.Answering.{answer_client, drained, replied, dispatch-Answers}
use kvm_cloud.Manager.Relay.{IsQuietClient}
use kvm_cloud.Manager.Catalog.{
  catalog, collect_templates-catalog, template_lines-append, all_offers,
}

module _ (h : Host) where
  -- what is written for the first nodes
  abbrev written : ℕ → (ℕ → Node h) → Socket → Socket
  written zero nodes s = s
  written (suc n) nodes s =
      written n (λ i. nodes (suc i)) (write_templates (nodes 0).controller.templates s)

  written-Pending :
      (n : ℕ) (nodes : ℕ → Node h) {s : Socket} {ls : List Bytes}
      → Pending s ls
      → Pending (written n nodes s) (ls ++ template_lines (all_offers h n nodes))
  written-Pending zero nodes {s} {ls} p = rw append-nil p
  written-Pending (suc n) nodes {s} {ls} p =
      rw
        (
          template_lines-append (nodes 0).controller.templates
              (all_offers h n (λ i. nodes (suc i))),
          ← append_assoc,
        )
        (written-Pending n (λ i. nodes (suc i))
          (write_templates-Pending h (nodes 0).controller.templates p))

  abbrev Published :
      (ℕ → Bytes) → (ℕ → Node h) → List (ControllerRef (Controller.Handler h)) → Type 0
  Published names nodes cs = Publishes (node_service h) names nodes cs

  Publishes-behind :
      (names : ℕ → Bytes) (nodes : ℕ → Node h) (c : ControllerRef (Controller.Handler h))
      (cs : List (ControllerRef (Controller.Handler h)))
      → Published names nodes (c ∷ cs)
      → Published (λ i. names (suc i)) (λ i. nodes (suc i)) cs
  Publishes-behind names nodes c cs p = record {
    at_index = λ i f. p.at_index (suc i) (omega arith);
  }

  cons-Publishes :
      (names : ℕ → Bytes) (nodes : ℕ → Node h) (c : ControllerRef (Controller.Handler h))
      (cs : List (ControllerRef (Controller.Handler h)))
      → c.id ≡ names 0
      → ServesTemplates h c.proxy (nodes 0)
      → Published (λ i. names (suc i)) (λ i. nodes (suc i)) cs
      → Published names nodes (c ∷ cs)
  cons-Publishes names nodes c cs named serves p = record { at_index = at }
    where
      at :
          (i : ℕ)
          → i < length (c ∷ cs)
          → (d : ControllerRef (Controller.Handler h)) × (get_elem? (c ∷ cs) i ≡ some d)
            × (d.id ≡ names i)
            × ServesTemplates h d.proxy (nodes i)
      at zero f = (c, refl, named, serves)
      at (suc i) f = p.at_index i (omega arith)

  -- what the loop over the controllers leaves
  abbrev Asked :
      (ℕ → Bytes) → (ℕ → Node h) → List (ControllerRef (Controller.Handler h)) → Socket → Type 0
  Asked names nodes cs s =
      (cs' : List (ControllerRef (Controller.Handler h))) × (get_templates (Controller.answer h) cs
          s
        ≡ ok (cs', written (length cs) nodes s))
      × (length cs' ≡ length cs)
      × Published names nodes cs'

  get_templates-Asked :
      (names : ℕ → Bytes) (nodes : ℕ → Node h) (cs : List (ControllerRef (Controller.Handler h)))
      (s : Socket)
      → Published names nodes cs
      → Asked names nodes cs s
  unfolding get_templates
  get_templates-Asked names nodes [] s p = ([], refl, refl, p)
  get_templates-Asked names nodes (c ∷ cs) s p =
      let m = (nodes 0).controller.templates in
      let (d, here, named, serves) = p.at_index 0 (omega arith) in
      let same = Option.some-injective c d here in
      let (l, got, serves') = fetched h d.proxy (nodes 0) serves in
      let d' : ControllerRef (Controller.Handler h) = record d { proxy = l } in
      let asked : on_proxy (Controller.answer h) (Proxy.get_templates (Controller.answer h)) c
          ≡ ok (m, d') =
        ap (on_proxy (Controller.answer h) (Proxy.get_templates (Controller.answer h))) same
        ∙ on_proxy_lem (node_service h) names nodes d m got in
      let (cs', e, len, rest) =
        get_templates-Asked (λ i. names (suc i)) (λ i. nodes (suc i)) cs (write_templates m s)
          (Publishes-behind names nodes c cs p) in
      (d' ∷ cs', rw (asked, e), ap suc len, cons-Publishes names nodes d' cs' named serves' rest)

  offers-IsPrintable :
      (n : ℕ) (nodes : ℕ → Node h)
      → ((j : ℕ) → j < n → All (λ e. Template.IsPrintable e.1) (nodes j).controller.templates)
      → All (λ e. Template.IsPrintable e.1) (all_offers h n nodes)
  offers-IsPrintable zero nodes a = tt
  offers-IsPrintable (suc n) nodes a =
      All-append (λ e. Template.IsPrintable e.1) (nodes 0).controller.templates
        (all_offers h n (λ i. nodes (suc i))) (a 0 (omega arith))
        (offers-IsPrintable n (λ i. nodes (suc i)) (λ j f. a (suc j) (omega arith)))

  offers-ne-nil :
      (n : ℕ) (nodes : ℕ → Node h)
      → 0 < n
      → (nodes 0).controller.templates ≢ []
      → all_offers h n nodes ≢ []
  offers-ne-nil zero nodes pos ne e = elim pos [ ]
  offers-ne-nil (suc n) nodes pos ne e = ne (append-eq-nil_iff.0 e).0

module _ (h : Host) (names : ℕ → Bytes) (nodes : ℕ → Node h) where
  -- The remote call returned the catalog of all nodes, which are left as they were.
  pub record Cataloged (l : Link (Handler (Controller.answer h))) : Type 0 where
    pub after : Link (Handler (Controller.answer h))
    pub returned :
        Proxy.get_templates (answer_client (Controller.answer h)) l
        ≡ (ok (catalog (all_offers h (length l.peer.manager.controllers) nodes) []), after)
    pub complete : length after.peer.manager.controllers ≡ length l.peer.manager.controllers
    pub published : Publishes (node_service h) names nodes after.peer.manager.controllers
    pub turn : after.peer.manager.next_controller ≡ l.peer.manager.next_controller
    pub quiet : IsQuietClient (Controller.answer h) after

  -- what each controller serves
  pub served :
      (cs : List (ControllerRef (Controller.Handler h)))
      → Publishes (node_service h) names nodes cs
      → (j : ℕ) → j < length cs
      → (c : ControllerRef (Controller.Handler h)) × ServesTemplates h c.proxy (nodes j)
  served cs p j f = let (c, here, named, serves) = p.at_index j f in (c, serves)

  pub get_templates-Cataloged :
      (l : Link (Handler (Controller.answer h)))
      → IsQuietClient (Controller.answer h) l
      → Publishes (node_service h) names nodes l.peer.manager.controllers
      → 0 < length l.peer.manager.controllers
      → Cataloged l
  unfolding Proxy.get_templates dispatch str_eq
  get_templates-Cataloged l quiet p pos =
      let A = Controller.answer h in
      let cs = l.peer.manager.controllers in
      let d = drained A l.peer in
      let cmd = codes "getTemplates" in
      let all = all_offers h (length cs) nodes in
      let (cs', e, len, published) = get_templates-Asked h names nodes cs d.socket p in
      let q : Handler A = record {
        socket = written h (length cs) nodes d.socket;
        manager = record d.manager { controllers = cs' };
      } in
      let ne =
        template_lines-ne-nil h all
          (offers-ne-nil h (length cs) nodes pos (served cs p 0 pos).1.some_templates) in
      let lines =
        template_lines-IsLine h all
          (offers-IsPrintable h (length cs) nodes (λ j f. (served cs p j f).1.printable)) in
      let pending =
        written-Pending h (length cs) nodes
          (IsIdle-Pending (record { incoming = refl; outgoing = quiet.far.outgoing })) in
      record {
        after = settled (answer_client A) (send (write l.socket cmd)) (replied A q);
        returned =
            call-answered (answer_client A) (λ s. write s cmd)
              (λ fields. collect_templates fields []) l (cmd ∷ []) (template_lines all)
              (replied A q) (catalog all []) (write-Pending (IsIdle-Pending quiet.near) cmd)
              (cons-ne-nil cmd [])
              (dispatch-Answers A l.peer q cmd [] (template_lines all) (template_lines all)
                quiet.far.incoming (omega arith)
                (ap
                  (λ r. r >>= λ o.
                    ok (record { socket = o.1; manager = record d.manager { controllers = o.0 } }))
                  e)
                pending ne (read-frame (template_lines all) [] ne lines))
              (collect_templates-catalog all []);
        complete = len;
        published = published;
        turn = refl;
        quiet = record {
          near = record { incoming = refl; outgoing = refl };
          far = record { incoming = (send-Pending pending ne).0; outgoing = refl };
        };
      }
