-- ===== src/Manager/Search.antt =====
-- The search of src/manager.cpp for a controller that offers a template, from its rounds.
use mathlib.Core.Path.{subst}
use kvm_cloud.Base.{
  ◌∙◌, ok, arith, ℕ, ◌<◌, ◌≡◌, refl, ◌⊎◌, inl, inr, Option, none, some, Bytes, length,
}
use native.Mathlib.Nat.{le_refl}
use kvm_cloud.Std.Map.{StdMap}
use kvm_cloud.Vm.Template.{Template}
use kvm_cloud.Vm.InstanceInfo.{InstanceInfo}
use kvm_cloud.Vm.Proxy.{Answer}
use kvm_cloud.Manager.Turns.{turn, turn-lt, turn_covers}
use kvm_cloud.Manager.Service.{Service, Publishes}
use kvm_cloud.Manager.{Manager, offered, find_controller}
use kvm_cloud.Manager.Rounds.{AskedAt, after_turns-round, Refused, Handed}
use kvm_cloud.Manager.Rounds.Steps.{round}

pub none-ne-some {ℓ} : {A : Type ℓ} {o : Option A} {a : A} → o ≡ none → o ≡ some a → ⊥
none-ne-some e f = cc

module _ {P : Type 0} {answer : Answer P} (service : Service answer) (names : ℕ → Bytes)
    (fars : ℕ → service.Far) where
  -- the templates of a controller
  abbrev maps : ℕ → StdMap Bytes Template
  maps i = service.templates (fars i)

  module _ (request : InstanceInfo) (m : Manager P)
      (p : Publishes service names fars m.controllers) where
    abbrev size : ℕ
    size = length m.controllers

    searched :
        Refused service names fars size size request m
        ⊎ Handed service names fars size size request m
    searched = round service names fars size size request m refl (le_refl size) p

    Refused-nobody :
        (i : ℕ)
        → m.next_controller < size
        → i < size
        → Refused service names fars size size request m
        → offered request.templ (maps i) ≡ none
    Refused-nobody i h fits r =
        let (k, early, e) = turn_covers size m.next_controller i h fits in
        rw e at (r.nobody k early)

    -- If every controller serves its templates, `nextController` is an index of the list, and some
    -- controller offers the template asked for, then the loop of `instantiate` hands the request to
    -- a controller that offers it: the first one behind the last chosen controller, going round. No
    -- controller asked before it offers the template.
    pub find_controller-Handed :
        (i : ℕ) {t : Template}
        → m.next_controller < size
        → i < size
        → offered request.templ (maps i) ≡ some t
        → Handed service names fars size size request m
    find_controller-Handed i h fits offer = elim searched [
      | inl r ↦ absurd (none-ne-some (Refused-nobody i h fits r) offer)
      | inr r ↦ r
    ]

    -- The search finds nobody: every controller was asked for its templates, once, and serves what it
    -- served; nothing else has changed, and `nextController` is again what it was.
    pub record Refusal : Type 0 where
      pub after : Manager P
      pub result : find_controller answer size request m ≡ ok (none, after)
      pub complete : length after.controllers ≡ size
      pub at_turn : after.next_controller ≡ m.next_controller
      pub asked_once :
          (i : ℕ) → i < size → AskedAt service names fars i m.controllers after.controllers
      pub published : Publishes service names fars after.controllers

    -- If every controller serves its templates, `nextController` is an index of the list, and no
    -- controller offers the template asked for, the loop of `instantiate` ends without an instance.
    -- Every controller has then been asked for its templates, each exactly once and nothing else;
    -- the list has the same controllers, of which only the connections differ; and `nextController`
    -- is what it was.
    pub find_controller-Refusal :
        m.next_controller < size
        → ((i : ℕ) → i < size → offered request.templ (maps i) ≡ none)
        → Refusal
    find_controller-Refusal h nobody = elim searched [
      | inl r ↦ record {
        after = r.after;
        result = r.result;
        complete = r.complete;
        at_turn = r.at_turn ∙ after_turns-round service names fars size m.next_controller h;
        asked_once = λ i fits.
            let (k, early, e) = turn_covers size m.next_controller i h fits in
            subst (λ j. AskedAt service names fars j m.controllers r.after.controllers) e
              (r.asked_once k early);
        published = r.published;
      }
      | inr r ↦ absurd (
          none-ne-some
            (nobody (turn size m.next_controller r.k)
              (turn-lt r.k size m.next_controller (omega (arith, r.early))))
            r.offers)
    ]
