-- ===== src/Manager/Named.antt =====
-- `run` and `kill` of src/manager.cpp: the full id names the controller that is asked.
use kvm_cloud.Base.{
  ◌≡◌, ◌≢◌, refl, ap, ◌∙◌, Bool, false, List, [], ◌∷◌, ◌++◌, Bytes, All, Lacks, ok, Bool-cases, inl,
  inr,
}
use kvm_cloud.Base.Exec.{Exec}
use kvm_cloud.Net.Socket.{write}
use kvm_cloud.Std.Int.{from_bool}
use kvm_cloud.Std.Number.{to_string}
use kvm_cloud.Std.Text.{str_eq, str_eq_iff, str_eq_refl}
use kvm_cloud.Vm.Proxy.{Answer, Link}
use kvm_cloud.Manager.{ControllerRef, Handler, make_full_id, on_proxy, control_named, control}
use kvm_cloud.Manager.Ids.{extract_id_parts-make_full_id}

pub other_name : (a b : Bytes) → a ≢ b → str_eq a b ≡ false
other_name a b ne = elim (Bool-cases (str_eq a b)) [
  | inl same ↦ absurd (ne ((str_eq_iff a b).0 same))
  | inr other ↦ other
]

module _ {P : Type 0} (answer : Answer P) (method : Bytes → Exec (Link P) Bool) where
  -- None of the controllers has this name.
  abbrev pub Unnamed : Bytes → List (ControllerRef P) → Type 0
  Unnamed name = All (λ c. c.id ≢ name)

  control_named-Unnamed :
      (name id : Bytes) (cs : List (ControllerRef P))
      → Unnamed name cs
      → control_named answer method (name, id) cs ≡ ok (false, cs)
  unfolding control_named
  control_named-Unnamed name id [] h = refl
  control_named-Unnamed name id (c ∷ cs) h =
      rw (other_name c.id name h.0, control_named-Unnamed name id cs h.1, control_named)

  control_named-append :
      (name id : Bytes) (before after : List (ControllerRef P)) (c : ControllerRef P) (b : Bool)
      (l : Link P)
      → Unnamed name before
      → c.id ≡ name
      → method id c.proxy ≡ (ok b, l)
      → control_named answer method (name, id) (before ++ c ∷ after)
        ≡ ok (b, before ++ record c { proxy = l } ∷ after)
  unfolding control_named on_proxy
  control_named-append name id [] after c b l h e called =
      rw (ap (λ i. str_eq i name) e ∙ str_eq_refl name, called, control_named, on_proxy)
  control_named-append name id (d ∷ before) after c b l h e called = rw (
    other_name d.id name h.0,
    control_named-append name id before after c b l h.1 e called,
    control_named,
  )

  -- For `run` and `kill` of the manager with a full id whose server name has no slash: if a
  -- controller has that name and none before it has, its proxy's method is called with the numeric
  -- id. If that call returns, its result is the reply, and no other controller is asked.
  pub control-make_full_id :
      (cmd name id : Bytes) (more : List Bytes) (p : Handler answer)
      (before after : List (ControllerRef P)) (c : ControllerRef P) (b : Bool) (l : Link P)
      → Lacks b'/' name
      → p.manager.controllers ≡ before ++ c ∷ after
      → Unnamed name before
      → c.id ≡ name
      → method id c.proxy ≡ (ok b, l)
      → control answer method (cmd ∷ make_full_id name id ∷ more) p
        ≡ ok (record {
          socket = write p.socket (to_string (from_bool b));
          manager = record p.manager { controllers = before ++ record c { proxy = l } ∷ after };
        })
  unfolding control
  control-make_full_id cmd name id more p before after c b l plain listed_as h e called = rw (
    extract_id_parts-make_full_id name id plain,
    listed_as,
    control_named-append name id before after c b l h e called,
  )

  -- For `run` and `kill` of the manager with a full id whose server name has no slash: if no
  -- controller has that name, the reply is 0 and no controller is asked, log lines left out.
  pub control-Unnamed :
      (cmd name id : Bytes) (more : List Bytes) (p : Handler answer)
      → Lacks b'/' name
      → Unnamed name p.manager.controllers
      → control answer method (cmd ∷ make_full_id name id ∷ more) p
        ≡ ok (record p { socket = write p.socket (to_string (from_bool false)) })
  unfolding control
  control-Unnamed cmd name id more p plain h = rw (
    extract_id_parts-make_full_id name id plain,
    control_named-Unnamed name id p.manager.controllers h,
  )
