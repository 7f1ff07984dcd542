-- ===== src/Manager/Hiring.antt =====
-- `instantiate` of the manager of src/manager.cpp, whose controllers are nodes.
use native.Mathlib.Decide.{dec_lt}
use kvm_cloud.Base.{
  ℕ, ◌<◌, ◌≡◌, ◌≢◌, sym, ap, ◌∙◌, none, some, List, [], ◌∷◌, Bytes, All, ok, get_elem?, length,
  length-set, get_elem?-set_self, get_elem?-set_ne, Bool-cases, inl, inr, arith,
}
use mathlib.Core.Option.{some-ne-none}
use mathlib.Core.Option
use kvm_cloud.Net.Stream.Frames.{IsLine}
use kvm_cloud.Std.Int.{IsInt}
use kvm_cloud.Std.Map.{StdMap}
use kvm_cloud.Std.Text.{str_eq}
use kvm_cloud.Sys.Host.{Host}
use kvm_cloud.Vm.Template
use kvm_cloud.Vm.Template.{Template}
use kvm_cloud.Vm.InstanceInfo.{InstanceInfo, HasInts}
use kvm_cloud.Vm.InstanceInfo.Lines.{IsPrintable}
use kvm_cloud.Vm.Controller.{Node}
use kvm_cloud.Vm.Proxy
use kvm_cloud.Vm.Proxy.{Link, wanted}
use kvm_cloud.Controller
use kvm_cloud.Controller.Remote.{IsQuiet, Returns}
use kvm_cloud.Controller.Remote.Making.{made, instantiate-Returns}
use kvm_cloud.Controller.Serving.{ServesTemplates, node_service}
use kvm_cloud.Manager.{
  ControllerRef, Manager, offered, on_proxy, put_controller, try_controller, find_controller,
}
use kvm_cloud.Manager.Turns.{turn, turn-lt}
use kvm_cloud.Manager.Rounds.{Handed}
use kvm_cloud.Manager.Search.{none-ne-some}
use kvm_cloud.Manager.Labels.{relabel}

All-offered :
    (Q : Template → Type 0) (name : Bytes) (t : Template) (m : StdMap Bytes Template)
    → All (λ e. Q e.1) m
    → offered name m ≡ some t
    → Q t
unfolding offered
All-offered Q name t [] a e = absurd (some-ne-none t (sym e))
All-offered Q name t ((k, u) ∷ m) a e = elim (Bool-cases (str_eq k name)) [
  | inl here ↦ let same : u ≡ t = Option.some-injective u t (rw (here) at e) in rw same at a.0
  | inr other ↦ All-offered Q name t m a.1 (rw (other) at e)
]

module _ (h : Host) (names : ℕ → Bytes) (nodes : ℕ → Node h) where
  -- The request at turn `k` is the one that the node there can answer: no controller asked before it
  -- offers the template, it does, and the request makes this on its node.
  pub record IsServed (request : InstanceInfo) (size base k : ℕ) (t : Template)
      (info : InstanceInfo) (n : Node h) : Type 0 where
    pub early : k < size
    pub before :
        (j : ℕ)
        → j < k
        → offered request.templ (nodes (turn size base j)).controller.templates ≡ none
    pub offers : offered request.templ (nodes (turn size base k)).controller.templates ≡ some t
    pub makes :
        made h
          (wanted (Controller.answer h) t request.memory request.cpus)
          (nodes (turn size base k))
        ≡ (ok info, n)
    pub line : IsLine (names (turn size base k))
    pub printable : IsPrintable info
    pub ints : HasInts info

  -- The controllers after the request: the one at `i` is left with the node `n`, the others with theirs.
  pub record IsLeft (size i : ℕ) (n : Node h) (cs : List (ControllerRef (Controller.Handler h)))
      : Type 0 where
    pub complete : length cs ≡ size
    pub chosen :
        (c : ControllerRef (Controller.Handler h)) × (get_elem? cs i ≡ some c)
        × (c.id ≡ names i)
        × IsQuiet h c.proxy
        × (c.proxy.peer.node ≡ n)
    pub others :
        (j : ℕ)
        → j < size
        → i ≢ j
        → (c : ControllerRef (Controller.Handler h)) × (get_elem? cs j ≡ some c)
          × (c.id ≡ names j)
          × ServesTemplates h c.proxy (nodes j)

  module _ (request : InstanceInfo) (m : Manager (Controller.Handler h)) where
    abbrev size : ℕ
    size = length m.controllers

    -- both are the first controller that offers the template
    pub same_turn :
        (k : ℕ) (t : Template) (info : InstanceInfo) (n : Node h)
        → IsServed request size m.next_controller k t info n
        → (r : Handed (node_service h) names nodes size size request m) → r.k ≡ k
    same_turn k t info n s r = elim (dec_lt r.k k) [
      | yes sooner ↦ absurd (none-ne-some (s.before r.k sooner) r.offers)
      | no a ↦ elim (dec_lt k r.k) [
        | yes later ↦ absurd (none-ne-some (r.before k later) s.offers)
        | no b ↦ omega arith
      ]
    ]

    module _ (r : Handed (node_service h) names nodes size size request m) (t : Template)
        (info : InstanceInfo) (n : Node h)
        (s : IsServed request size m.next_controller r.k t info n) (memory : IsInt request.memory)
        (cpus : IsInt request.cpus) where
      abbrev i : ℕ
      i = turn size m.next_controller r.k

      -- the call on the chosen controller
      pub called :
          Returns h
            (Proxy.instantiate (Controller.answer h) t request.memory request.cpus)
            r.chosen.proxy
            info
            n
      unfolding Template.serialize
      called =
          let wish = wanted (Controller.answer h) t request.memory request.cpus in
          let lines =
            All-offered Template.IsPrintable request.templ t (nodes i).controller.templates
              r.serves.printable s.offers in
          instantiate-Returns h r.chosen.proxy t request.memory request.cpus info n r.serves.quiet
            lines.0 memory cpus (ap (made h wish) r.serves.node ∙ s.makes) s.printable s.ints

      abbrev pub left_by : Manager (Controller.Handler h)
      left_by =
          put_controller (Controller.answer h) i (record r.chosen { proxy = called.after }) r.state

      try_chosen :
          try_controller (Controller.answer h) request i r.chosen (some t) r.state
          ≡ ok (some (relabel r.chosen.id info), left_by)
      unfolding try_controller on_proxy
      try_chosen = rw called.returned

      pub found :
          find_controller (Controller.answer h) size request m
          ≡ ok (some (relabel (names i) info), left_by)
      found =
          let same_templ = Option.some-injective r.templ t (sym r.offers ∙ s.offers) in
          r.handed
          ∙ ap (λ u. try_controller (Controller.answer h) request i r.chosen (some u) r.state)
              same_templ
          ∙ try_chosen
          ∙ ap (λ name. ok (some (relabel name info), left_by)) r.named

      there : i < size
      there = turn-lt r.k size m.next_controller (omega (arith, s.early))

      pub left_by-IsLeft : IsLeft size i n left_by.controllers
      left_by-IsLeft = record {
        complete = length-set r.state.controllers i _ ∙ r.complete;
        chosen = (
          record r.chosen { proxy = called.after },
          get_elem?-set_self r.state.controllers i _ (rw (r.complete) there),
          r.named,
          called.quiet,
          called.node,
        );
        others = λ j fits ne.
            let (c, here, named, serves) = r.published.at_index j (rw (r.complete) fits) in
            (c, get_elem?-set_ne r.state.controllers i j _ ne ∙ here, named, serves);
      }
