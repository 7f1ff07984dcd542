-- ===== src/Client/Creating.antt =====
-- The client's commands `new` and `templates`, on a proxy that is connected to the manager.
use kvm_cloud.Base.{
  ℕ, ◌<◌, ◌≡◌, refl, sym, ap, ◌∙◌, some, List, [], ◌∷◌, ◌++◌, Bytes, codes, ok, length, Bool, arith,
}
use mathlib.Core.Path.{subst}
use kvm_cloud.Base.Exec.{Exec}
use kvm_cloud.Net.Stream.Frames.{IsLine}
use kvm_cloud.Std.Int.{ℤ, pos}
use kvm_cloud.Std.Number.{stoi}
use kvm_cloud.Std.Number.Range.{stoi-IsInt}
use kvm_cloud.Std.Map.{StdMap, find}
use kvm_cloud.Std.Map.Keys.{bytes_order}
use kvm_cloud.Std.Text.{str_eq}
use kvm_cloud.Sys.Host.{Host}
use kvm_cloud.Vm.Template.{Template}
use kvm_cloud.Vm.InstanceInfo.{InstanceInfo}
use kvm_cloud.Vm.Controller.{Node}
use kvm_cloud.Vm.Proxy
use kvm_cloud.Vm.Proxy.{Answer, Link}
use kvm_cloud.Controller
use kvm_cloud.Controller.Serving.{node_service}
use kvm_cloud.Manager.Turns.{turn, turn-lt}
use kvm_cloud.Manager.Service.{Publishes}
use kvm_cloud.Manager.Answering.{answer_client}
use kvm_cloud.Manager.Relay.{IsQuietClient}
use kvm_cloud.Manager.Labels.{relabel}
use kvm_cloud.Manager.Hiring.{IsServed, IsLeft}
use kvm_cloud.Manager.Creating.{Hired, instantiate-Hired}
use kvm_cloud.Manager.Catalog.{catalog, all_offers, catalog-find}
use kvm_cloud.Manager.Offering.{Cataloged, served, get_templates-Cataloged}
use kvm_cloud.Client.{Session, obey, interpret, create, created}
use kvm_cloud.Client.Orders.{obey-prompt}

-- the request that the client's words stand for
abbrev pub wish : Bytes → ℤ → ℤ → InstanceInfo
wish name memory cpus = record {
  id = codes "0";
  templ = name;
  memory = memory;
  cpus = cpus;
  ssh_port = pos 0;
  running = Bool.false;
}

module _ {P : Type 0} (answer : Answer P) where
  -- the two calls of `new`, and what is printed
  create_lem :
      (name memory_text cpus_text : Bytes) (more : List Bytes) (memory cpus : ℤ) (t : Template)
      (s : Session answer) (templates : StdMap Bytes Template) (info : InstanceInfo) (l l' : Link P)
      → Proxy.get_templates answer s.link ≡ (ok templates, l)
      → find name templates ≡ some t
      → stoi memory_text ≡ ok memory
      → stoi cpus_text ≡ ok cpus
      → Proxy.instantiate answer t memory cpus l ≡ (ok info, l')
      → interpret answer (codes "new") (codes "new" ∷ name ∷ memory_text ∷ cpus_text ∷ more) s
        ≡ (ok tt, record { link = l'; printed = s.printed ++ created info })
  unfolding interpret create str_eq
  create_lem name memory_text cpus_text more memory cpus t s templates info l l' first known m c
        second =
      rw (first, known, m, c, second)

module _ (h : Host) (names : ℕ → Bytes) (nodes : ℕ → Node h) where
  -- The session on the manager went on: this was printed, the controller at `i` is left with the
  -- node `n`, and the others with theirs.
  pub record Placed (m : Exec (Session (answer_client (Controller.answer h))) (Unit {0}))
      (s : Session (answer_client (Controller.answer h))) (text : Bytes) (i : ℕ) (n : Node h)
      : Type 0 where
    pub after : Session (answer_client (Controller.answer h))
    pub went_on : m s ≡ (ok tt, after)
    pub printed : after.printed ≡ s.printed ++ text
    pub left :
        IsLeft h names nodes
          (length s.link.peer.manager.controllers)
          i
          n
          after.link.peer.manager.controllers
    pub at_turn : after.link.peer.manager.next_controller ≡ i
    pub quiet : IsQuietClient (Controller.answer h) after.link

  module _ (name memory_text cpus_text : Bytes) (more : List Bytes) (memory cpus : ℤ)
      (s : Session (answer_client (Controller.answer h))) (k : ℕ) (u : Template)
      (info : InstanceInfo) (n : Node h) where
    abbrev size : ℕ
    size = length s.link.peer.manager.controllers

    abbrev base : ℕ
    base = s.link.peer.manager.next_controller

    -- the second call, behind the first
    second_call :
        (t : Template) (c : Cataloged h names nodes s.link)
        → t.name ≡ name
        → base < size
        → IsLine name
        → stoi memory_text ≡ ok memory
        → stoi cpus_text ≡ ok cpus
        → IsServed h names nodes (wish name memory cpus) size base k u info n
        → Hired h names nodes c.after t memory cpus (turn size base k) info n
    second_call t c named fits line m e served_here =
        let size' = length c.after.peer.manager.controllers in
        let base' = c.after.peer.manager.next_controller in
        let sized : IsServed h names nodes (wish name memory cpus) size' base k u info n =
          subst (λ z. IsServed h names nodes (wish name memory cpus) z base k u info n)
            (sym c.complete) served_here in
        let based : IsServed h names nodes (wish name memory cpus) size' base' k u info n =
          subst (λ z. IsServed h names nodes (wish name memory cpus) size' z k u info n)
            (sym c.turn) sized in
        let asked : IsServed h names nodes (wish t.name memory cpus) size' base' k u info n =
          subst (λ z. IsServed h names nodes (wish z memory cpus) size' base' k u info n)
            (sym named) based in
        subst (λ j. Hired h names nodes c.after t memory cpus j info n)
          (ap (λ z. turn z base' k) c.complete ∙ ap (λ z. turn size z k) c.turn)
          (instantiate-Hired h names nodes c.after t memory cpus k u info n c.quiet c.published
            (rw (c.turn, c.complete) fits) (rw named line) (stoi-IsInt memory_text memory m)
            (stoi-IsInt cpus_text cpus e) asked)

    -- A client is connected to a manager, the manager to nodes. The client's line "new" with a name
    -- and the texts of two `int`s makes the request on the node of the first controller behind
    -- `nextController`, going round, that offers a template of that name, and on no other. It prints
    -- the description that the request makes on that node, with its id as a full id, and the prompt.
    -- The chosen node is left in the state of that attempt, the nodes of the other controllers as
    -- they were, `nextController` is the chosen one, and the connections are quiet. The conditions:
    -- some controller offers the template, and the attempt on its node ends, without undefined
    -- behaviour; the connections are quiet; each node has templates, filed under their own names in
    -- the order of the names, with fields that are non-empty and free of CR and LF; `nextController`
    -- is an index of the list; the name and the chosen controller's name are non-empty and free of
    -- CR and LF, and so are the id and the template's name of the description, whose numbers are
    -- `int`s.
    pub create-Placed :
        IsQuietClient (Controller.answer h) s.link
        → Publishes (node_service h) names nodes s.link.peer.manager.controllers
        → base < size
        → IsLine name
        → stoi memory_text ≡ ok memory
        → stoi cpus_text ≡ ok cpus
        → IsServed h names nodes (wish name memory cpus) size base k u info n
        → Placed
            (obey
              (answer_client (Controller.answer h))
              (codes "new" ∷ name ∷ memory_text ∷ cpus_text ∷ more))
            s
            (created (relabel (names (turn size base k)) info) ++ codes "\n> ")
            (turn size base k)
            n
    create-Placed quiet published fits line m e served_here =
        let A = answer_client (Controller.answer h) in
        let cs = s.link.peer.manager.controllers in
        let i = turn size base k in
        let full = relabel (names i) info in
        let words = name ∷ memory_text ∷ cpus_text ∷ more in
        let there : i < size = turn-lt k size base (omega (arith, fits)) in
        let c =
          get_templates-Cataloged h names nodes s.link quiet published (omega (arith, fits)) in
        let (t, known, named) =
          catalog-find h size i nodes name u there
            (λ j f. (served h names nodes cs published j f).1.by_name.named) served_here.offers in
        let r = second_call t c named fits line m e served_here in
        record {
          after = record { link = r.after; printed = s.printed ++ (created full ++ codes "\n> ") };
          went_on = obey-prompt A (codes "new") words s (created full) r.after (
              create_lem A name memory_text cpus_text more memory cpus t s
                (catalog (all_offers h size nodes) []) full c.after r.after c.returned known m e
                r.returned);
          printed = refl;
          left =
              subst (λ z. IsLeft h names nodes z i n r.after.peer.manager.controllers) c.complete
                r.left;
          at_turn = r.at_turn;
          quiet = r.quiet;
        }
