-- ===== src/Manager/Rounds.antt =====
-- The rounds of the search of src/manager.cpp for a controller that offers a template: the
-- controllers are asked in turn, from the one behind the last that was chosen.
pub mod Steps
use kvm_cloud.Base.{
  ℕ, zero, suc, ◌<◌, ◌≤◌, ◌≡◌, ◌≢◌, refl, sym, List, get_elem?-set_self, get_elem?-set_ne, ap, ◌∙◌,
  ◌⊎◌, inl, inr, Option, none, some, Bytes, Result, ok, get_elem?, length, length-set, Option-cases,
  Result-cases, ◌>>=◌, arith,
}
use kvm_cloud.Std.Map.{StdMap}
use kvm_cloud.Vm.Template.{Template}
use kvm_cloud.Vm.InstanceInfo.{InstanceInfo}
use kvm_cloud.Vm.Proxy
use kvm_cloud.Vm.Proxy.{Answer, Link}
use kvm_cloud.Manager.Turns.{turn, turn-lt, turn-ne, turn_round, below_suc}
use kvm_cloud.Manager.Service.{Service, Publishes, on_proxy_lem, put-Publishes}
use kvm_cloud.Manager.{
  ControllerRef, Manager, advance_modulo, offered, on_proxy, put_controller, try_controller,
  find_controller,
}

module _ {P : Type 0} {answer : Answer P} (service : Service answer) (names : ℕ → Bytes)
    (fars : ℕ → service.Far) where
  -- the templates of a controller
  abbrev pub maps : ℕ → StdMap Bytes Template
  maps i = service.templates (fars i)

  -- A controller before and after it was asked for its templates once.
  pub record AskedAt (i : ℕ) (cs cs' : List (ControllerRef P)) : Type 0 where
    pub asked : ControllerRef P
    pub there : get_elem? cs i ≡ some asked
    pub link : Link P
    pub answered : Proxy.get_templates answer asked.proxy ≡ (ok (maps i), link)
    pub left : get_elem? cs' i ≡ some (record asked { proxy = link })

  -- `nextController` after some turns
  abbrev pub after_turns : ℕ → ℕ → ℕ → ℕ
  after_turns size base zero = base
  after_turns size base (suc k) = turn size base k

  pub after_turns-round : (size base : ℕ) → base < size → after_turns size base size ≡ base
  after_turns-round zero base h = elim h [ ]
  after_turns-round (suc n) base h = turn_round n base h

  -- No controller asked offers the template: the search says so, each of these controllers was asked
  -- once, no other was, and they serve what they served.
  pub record Refused (tries size : ℕ) (request : InstanceInfo) (m : Manager P) : Type 0 where
    pub nobody :
        (j : ℕ) → j < tries → offered request.templ (maps (turn size m.next_controller j)) ≡ none
    pub after : Manager P
    pub result : find_controller answer tries request m ≡ ok (none, after)
    pub published : Publishes service names fars after.controllers
    pub complete : length after.controllers ≡ size
    pub at_turn : after.next_controller ≡ after_turns size m.next_controller tries
    pub asked_once :
        (j : ℕ)
        → j < tries
        → AskedAt (turn size m.next_controller j) m.controllers after.controllers
    pub untouched :
        (i : ℕ)
        → ((j : ℕ) → j < tries → turn size m.next_controller j ≢ i)
        → get_elem? after.controllers i ≡ get_elem? m.controllers i

  -- The request is handed to the controller behind `k` others, the first that offers the template,
  -- and to no other.
  pub record Handed (tries size : ℕ) (request : InstanceInfo) (m : Manager P) : Type 0 where
    pub k : ℕ
    pub early : k < tries
    pub before :
        (j : ℕ) → j < k → offered request.templ (maps (turn size m.next_controller j)) ≡ none
    pub templ : Template
    pub offers : offered request.templ (maps (turn size m.next_controller k)) ≡ some templ
    pub chosen : ControllerRef P
    pub named : chosen.id ≡ names (turn size m.next_controller k)
    pub serves : service.Serves chosen.proxy (fars (turn size m.next_controller k))
    pub state : Manager P
    pub at_turn : state.next_controller ≡ turn size m.next_controller k
    pub published : Publishes service names fars state.controllers
    pub complete : length state.controllers ≡ size
    pub handed :
        find_controller answer tries request m
        ≡ try_controller answer request (turn size m.next_controller k) chosen (some templ) state
