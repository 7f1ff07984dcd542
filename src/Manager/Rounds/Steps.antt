-- ===== src/Manager/Rounds/Steps.antt =====
-- One round of the search of src/manager.cpp after another, until one finds a controller.
use kvm_cloud.Base.{
  ℕ, zero, suc, ◌<◌, ◌≤◌, ◌≡◌, ◌≢◌, refl, sym, List, get_elem?-set_self, get_elem?-set_ne, ap, ◌∙◌,
  ◌⊎◌, inl, inr, Option, none, some, Bytes, Result, ok, get_elem?, length, length-set, Option-cases,
  Result-cases, ◌>>=◌, arith,
}
use kvm_cloud.Std.Map.{StdMap}
use kvm_cloud.Vm.Template.{Template}
use kvm_cloud.Vm.InstanceInfo.{InstanceInfo}
use kvm_cloud.Vm.Proxy
use kvm_cloud.Vm.Proxy.{Answer, Link}
use kvm_cloud.Manager.Turns.{turn, turn-lt, turn-ne, below_suc}
use kvm_cloud.Manager.Service.{Service, Publishes, on_proxy_lem, put-Publishes}
use kvm_cloud.Manager.{
  ControllerRef, Manager, advance_modulo, offered, on_proxy, put_controller, try_controller,
  find_controller,
}
use kvm_cloud.Manager.Rounds.{maps, AskedAt, after_turns, Refused, Handed}

module _ {P : Type 0} {answer : Answer P} (service : Service answer) (names : ℕ → Bytes)
    (fars : ℕ → service.Far) where
  -- what follows a round of the search
  abbrev go_on :
      ℕ → InstanceInfo → Option InstanceInfo × Manager P → Result (Option InstanceInfo × Manager P)
  go_on tries request r = elim r.0 [
    | none ↦ find_controller answer tries request r.1
    | some inst ↦ ok (some inst, r.1)
  ]

  try_controller-none :
      (tries i : ℕ) (request : InstanceInfo) (c : ControllerRef P) (m : Manager P)
      → (try_controller answer request i c none m >>= go_on tries request)
        ≡ find_controller answer tries request (put_controller answer i c m)
  unfolding try_controller
  try_controller-none tries i request c m = refl

  try_controller-some :
      (tries i : ℕ) (request : InstanceInfo) (c : ControllerRef P) (t : Template) (m : Manager P)
      → (try_controller answer request i c (some t) m >>= go_on tries request)
        ≡ try_controller answer request i c (some t) m
  unfolding try_controller
  try_controller-some tries i request c t m =
      elim (Result-cases
        (on_proxy answer (Proxy.instantiate answer t request.memory request.cpus) c)) [
          | inl (r, e) ↦ rw e
          | inr (x, e) ↦ rw e
        ]

  -- one round of the search
  find_controller_step :
      (tries : ℕ) (request : InstanceInfo) (m : Manager P) (c c' : ControllerRef P)
      (ts : StdMap Bytes Template)
      → get_elem? m.controllers (advance_modulo m.next_controller (length m.controllers)) ≡ some c
      → on_proxy answer (Proxy.get_templates answer) c ≡ ok (ts, c')
      → find_controller answer (suc tries) request m ≡ (
          try_controller answer request
            (advance_modulo m.next_controller (length m.controllers))
            c'
            (offered request.templ ts)
            (record m { next_controller = advance_modulo m.next_controller (length m.controllers) })
          >>= go_on tries request)
  unfolding find_controller
  find_controller_step tries request m c c' ts e f = rw (e, f)

  module _ (request : InstanceInfo) (m : Manager P) where
    abbrev next : ℕ
    next = advance_modulo m.next_controller (length m.controllers)

    -- the manager once the next controller has been asked
    abbrev asked : ControllerRef P → Manager P
    asked c = put_controller answer next c (record m { next_controller = next })

    after_turns-next :
        (tries : ℕ)
        → after_turns service names fars (length m.controllers) next tries
          ≡ turn (length m.controllers) m.next_controller tries
    after_turns-next zero = refl
    after_turns-next (suc tries) = refl

    -- an entry of the list once `next` has been asked
    asked_once-later :
        (i : ℕ) (c : ControllerRef P) (cs : List (ControllerRef P))
        → next ≢ i
        → AskedAt service names fars i (asked c).controllers cs
        → AskedAt service names fars i m.controllers cs
    asked_once-later i c cs ne a = record {
      asked = a.asked;
      there = sym (get_elem?-set_ne m.controllers next i c ne) ∙ a.there;
      link = a.link;
      answered = a.answered;
      left = a.left;
    }

    Refused-later :
        (tries : ℕ) (b : ControllerRef P) (l : Link P)
        → suc tries ≤ length m.controllers
        → get_elem? m.controllers next ≡ some b
        → Proxy.get_templates answer b.proxy ≡ (ok (maps service names fars next), l)
        → find_controller answer (suc tries) request m
          ≡ find_controller answer tries request (asked (record b { proxy = l }))
        → offered request.templ (maps service names fars next) ≡ none
        → Refused service names fars tries
            (length m.controllers)
            request
            (asked (record b { proxy = l }))
        → Refused service names fars (suc tries) (length m.controllers) request m
    Refused-later tries b l fits here fetched e first r =
        let c : ControllerRef P = record b { proxy = l } in
        let inside = turn-lt 0 (length m.controllers) m.next_controller (omega arith) in
        let others : (j : ℕ) → j < tries → turn (length m.controllers) next j ≢ next =
          λ j f. turn-ne (length m.controllers) next j inside (omega arith) in
        record {
          nobody = below_suc _ tries first r.nobody;
          after = r.after;
          result = e ∙ r.result;
          published = r.published;
          complete = r.complete;
          at_turn = r.at_turn ∙ after_turns-next tries;
          asked_once =
              below_suc _ tries
                (record {
                  asked = b;
                  there = here;
                  link = l;
                  answered = fetched;
                  left = r.untouched next others ∙ get_elem?-set_self m.controllers next c inside;
                })
                (λ j f.
                  asked_once-later (turn (length m.controllers) next j) c r.after.controllers
                    (λ same. others j f (sym same)) (r.asked_once j f));
          untouched = λ i ne.
              r.untouched i (λ j f. ne (suc j) (omega arith))
              ∙ get_elem?-set_ne m.controllers next i c (ne 0 (omega arith));
        }

    Handed-later :
        (tries : ℕ) (c : ControllerRef P)
        → find_controller answer (suc tries) request m
          ≡ find_controller answer tries request (asked c)
        → offered request.templ (maps service names fars next) ≡ none
        → Handed service names fars tries (length m.controllers) request (asked c)
        → Handed service names fars (suc tries) (length m.controllers) request m
    Handed-later tries c e first r = record {
      k = suc r.k;
      early = omega (arith, r.early);
      before = below_suc _ r.k first r.before;
      templ = r.templ;
      offers = r.offers;
      chosen = r.chosen;
      named = r.named;
      serves = r.serves;
      state = r.state;
      at_turn = r.at_turn;
      published = r.published;
      complete = r.complete;
      handed = e ∙ r.handed;
    }

    round_step :
        (tries : ℕ)
        → suc tries ≤ length m.controllers
        → Publishes service names fars m.controllers
        → ((c : ControllerRef P)
            → Publishes service names fars (asked c).controllers
            → Refused service names fars tries (length m.controllers) request (asked c)
              ⊎ Handed service names fars tries (length m.controllers) request (asked c))
        → Refused service names fars (suc tries) (length m.controllers) request m
          ⊎ Handed service names fars (suc tries) (length m.controllers) request m
    round_step tries enough p later =
        let fits = turn-lt 0 (length m.controllers) m.next_controller (omega arith) in
        let (c, here, named, serves) = p.at_index next fits in
        let (l, fetched, serves') = service.fetch c.proxy (fars next) serves in
        let c' : ControllerRef P = record c { proxy = l } in
        let published =
          put-Publishes service names fars m.controllers next c' fits named serves' p in
        let turned = record m { next_controller = next } in
        let step =
          find_controller_step tries request m c c' (maps service names fars next) here
            (on_proxy_lem service names fars c (maps service names fars next) fetched) in
        elim (Option-cases (offered request.templ (maps service names fars next))) [
          | inl nothing ↦
              let e =
                step
                ∙ ap (λ o. try_controller answer request next c' o turned >>= go_on tries request)
                    nothing
                ∙ try_controller-none tries next request c' turned in
              elim (later c' published) [
                | inl r ↦ inl (Refused-later tries c l enough here fetched e nothing r)
                | inr r ↦ inr (Handed-later tries c' e nothing r)
              ]
          | inr (t, offer) ↦ inr (record {
            k = 0;
            early = omega arith;
            before = λ j h. elim h [ ];
            templ = t;
            offers = offer;
            chosen = c';
            named = named;
            serves = serves';
            state = turned;
            at_turn = refl;
            published = p;
            complete = refl;
            handed =
                step
                ∙ ap (λ o. try_controller answer request next c' o turned >>= go_on tries request)
                    offer
                ∙ try_controller-some tries next request c' t turned;
          })
        ]

  -- The rounds that are left find nobody, or hand the request over.
  pub round :
      (tries size : ℕ) (request : InstanceInfo) (m : Manager P)
      → length m.controllers ≡ size
      → tries ≤ size
      → Publishes service names fars m.controllers
      → Refused service names fars tries size request m
        ⊎ Handed service names fars tries size request m
  round zero size request m e h p = inl (record {
    nobody = λ j h. elim h [ ];
    after = m;
    result = unfold find_controller in refl;
    published = p;
    complete = e;
    at_turn = refl;
    asked_once = λ j h. elim h [ ];
    untouched = λ i h. refl;
  })
  round (suc tries) size request m e h p = rw (← e) (
      round_step request m tries (omega arith) p λ c q.
        round tries (length m.controllers) request (asked request m c)
          (length-set m.controllers (next request m) c) (omega arith) q)
