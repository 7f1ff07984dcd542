-- ===== src/Manager/Service.antt =====
-- What the manager of src/manager.cpp relies on in its controllers, as an interface, and the list of
-- controllers that meets it.
use native.Mathlib.Decide.{ℕ_discrete}
use kvm_cloud.Base.{
  ℕ, ◌<◌, ◌≡◌, ap, some, List, Bytes, ok, get_elem?, set, length, length-set, get_elem?-set_self,
  get_elem?-set_ne, ◌>>=◌, arith,
}
use kvm_cloud.Std.Map.{StdMap}
use kvm_cloud.Vm.Template.{Template}
use kvm_cloud.Vm.Proxy
use kvm_cloud.Vm.Proxy.{Answer, Link}
use kvm_cloud.Manager.{ControllerRef, on_proxy}

-- What the manager relies on: behind a link there is something that has a map of templates, and
-- serves this map as often as it is asked.
pub record Service {P : Type 0} (answer : Answer P) : Type 1 where
  pub Far : Type 0
  pub templates : Far → StdMap Bytes Template
  pub Serves : Link P → Far → Type 0
  pub fetch :
      (l : Link P) (n : Far)
      → Serves l n
      → (l' : Link P) × (Proxy.get_templates answer l ≡ (ok (templates n), l')) × Serves l' n

module _ {P : Type 0} {answer : Answer P} (service : Service answer) (names : ℕ → Bytes)
    (fars : ℕ → service.Far) where
  -- The controllers have these names, and these stand behind them.
  pub record Publishes (cs : List (ControllerRef P)) : Type 0 where
    pub at_index :
        (i : ℕ)
        → i < length cs
        → (c : ControllerRef P) × (get_elem? cs i ≡ some c)
          × (c.id ≡ names i)
          × service.Serves c.proxy (fars i)

  pub on_proxy_lem :
      (c : ControllerRef P) (m : StdMap Bytes Template) {l : Link P}
      → Proxy.get_templates answer c.proxy ≡ (ok m, l)
      → on_proxy answer (Proxy.get_templates answer) c ≡ ok (m, record c { proxy = l })
  unfolding on_proxy
  on_proxy_lem c m e = ap (λ r. r.0 >>= λ a. ok (a, record c { proxy = r.1 })) e

  pub put-Publishes :
      (cs : List (ControllerRef P)) (i : ℕ) (c : ControllerRef P)
      → i < length cs
      → c.id ≡ names i
      → service.Serves c.proxy (fars i)
      → Publishes cs
      → Publishes (set cs i c)
  put-Publishes cs i c fits named serves p = record {
    at_index = λ j h. elim (ℕ_discrete i j) [
      | yes e ↦ rw (← e) (c, get_elem?-set_self cs i c fits, named, serves)
      | no ne ↦ rw (get_elem?-set_ne cs i j c ne) (p.at_index j (omega (arith, length-set cs i c)))
    ];
  }
