-- ===== src/Manager.antt =====
-- src/manager.cpp: the command handler of the manager, and the list of controllers that it reads at
-- the start. No exception is caught in the handler, so an error ends the process and a state behind
-- an error does not matter. The log lines are left out.
pub mod Ids
pub mod Turns
pub mod Service
pub mod Rounds
pub mod Search
pub mod Named
pub mod Warnings
pub mod Answering
pub mod Relay
pub mod Labels
pub mod Listing
pub mod Gathering
pub mod Passing
pub mod Vacant
pub mod Hiring
pub mod Creating
pub mod Catalog
pub mod Offering
pub mod Blank
pub mod Startup
pub mod Reading
use kvm_cloud.Base.{
  ℕ, zero, suc, ◌+◌, ◌%◌, Bool, true, false, Option, none, some, List, [], ◌∷◌, ◌++◌, Bytes, codes,
  get_elem?, set, drop, length, if◌then◌else◌, Result, ok, err, index, at, ◌>>=◌,
}
use kvm_cloud.Base.Exec.{Exec}
use kvm_cloud.Net.Socket
use kvm_cloud.Net.Socket.{Socket, write, write_all, send}
use kvm_cloud.Std.Int.{ℤ, from_bool}
use kvm_cloud.Std.Number.{to_string}
use kvm_cloud.Std.Text.{str_eq, before_char, after_char}
use kvm_cloud.Std.Words.{words}
use kvm_cloud.Std.Map.{StdMap}
use kvm_cloud.Util.Helpers.{explode_address}
use kvm_cloud.Vm.Template
use kvm_cloud.Vm.Template.{Template}
use kvm_cloud.Vm.InstanceInfo
use kvm_cloud.Vm.InstanceInfo.{InstanceInfo, set_id}
use kvm_cloud.Vm.Proxy
use kvm_cloud.Vm.Proxy.{Answer, Link}
use kvm_cloud.Controller.{write_templates}

-- `ControllerRef`; the proxy is the link to the controller.
pub record ControllerRef (P : Type 0) : Type 0 where
  pub id : Bytes
  pub address : Bytes
  pub port : ℤ
  pub proxy : Link P

-- The globals of the manager.
pub record Manager (P : Type 0) : Type 0 where
  pub controllers : List (ControllerRef P)
  pub next_controller : ℕ

unfoldable pub make_full_id : Bytes → Bytes → Bytes
make_full_id server_name numeric_id = server_name ++ codes "/" ++ numeric_id

unfoldable pub extract_id_parts : Bytes → Bytes × Bytes
extract_id_parts full_id = (before_char b'/' full_id, after_char b'/' full_id)

unfoldable pub advance_modulo : ℕ → ℕ → ℕ
advance_modulo base size = (base + 1) % size

-- the first entry of this name in the loop over a controller's templates
unfoldable pub offered : Bytes → StdMap Bytes Template → Option Template
offered name [] = none
offered name ((k, t) ∷ m) = if str_eq k name then some t else offered name m

-- the loop of `getInstances` over one controller
unfoldable pub write_infos : Bytes → StdMap Bytes InstanceInfo → Socket → Socket
write_infos server [] s = s
write_infos server ((k, i) ∷ m) s =
    write_infos server m
      (write_all s (InstanceInfo.serialize (set_id i (make_full_id server i.id))))

module _ {P : Type 0} (answer : Answer P) where
  -- a call of `controller->proxy`
  unfoldable pub on_proxy :
      {A : Type 0} → Exec (Link P) A → ControllerRef P → Result (A × ControllerRef P)
  on_proxy m c = (m c.proxy).0 >>= λ a. ok (a, record c { proxy = (m c.proxy).1 })

  unfoldable pub get_templates :
      List (ControllerRef P) → Socket → Result (List (ControllerRef P) × Socket)
  get_templates [] s = ok ([], s)
  get_templates (c ∷ cs) s = do
    (templates, c') ← on_proxy (Proxy.get_templates answer) c
    (cs', s') ← get_templates cs (write_templates templates s)
    ok (c' ∷ cs', s')

  unfoldable pub get_instances :
      List (ControllerRef P) → Socket → Result (List (ControllerRef P) × Socket)
  get_instances [] s = ok ([], s)
  get_instances (c ∷ cs) s = do
    (instances, c') ← on_proxy (Proxy.get_instances answer) c
    (cs', s') ← get_instances cs (write_infos c.id instances s)
    ok (c' ∷ cs', s')

  abbrev pub put_controller : ℕ → ControllerRef P → Manager P → Manager P
  put_controller i c m = record m { controllers = set m.controllers i c }

  -- what the loop does with the template that the next controller offers, if it does
  unfoldable pub try_controller :
      InstanceInfo
      → ℕ
      → ControllerRef P
      → Option Template
      → Manager P
      → Result (Option InstanceInfo × Manager P)
  unfolding on_proxy
  try_controller request i c none m = ok (none, put_controller i c m)
  try_controller request i c (some t) m = do
    (inst, c') ← on_proxy (Proxy.instantiate answer t request.memory request.cpus) c
    ok (some (set_id inst (make_full_id c.id inst.id)), put_controller i c' m)

  -- The loop `while (tries --> 0)`; a found instance is `tries = -100`, which ends it.
  unfoldable pub find_controller :
      ℕ → InstanceInfo → Manager P → Result (Option InstanceInfo × Manager P)
  unfolding try_controller advance_modulo offered
  find_controller zero request m = ok (none, m)
  find_controller (suc tries) request m = do
    let next = advance_modulo m.next_controller (length m.controllers)
    controller ← index (get_elem? m.controllers next)
    (templates, c) ← on_proxy (Proxy.get_templates answer) controller
    (found, m') ←
        try_controller request next c (offered request.templ templates)
          (record m { next_controller = next })
    elim found [ none ↦ find_controller tries request m' | some inst ↦ ok (some inst, m') ]

  -- the controller that is named, and a method of its proxy
  unfoldable pub control_named :
      (Bytes → Exec (Link P) Bool)
      → Bytes × Bytes
      → List (ControllerRef P)
      → Result (Bool × List (ControllerRef P))
  unfolding on_proxy
  control_named method parts [] = ok (false, [])
  control_named method parts (c ∷ cs) = elim (str_eq c.id parts.0) [
    | true ↦ do (b, c') ← on_proxy (method parts.1) c; ok (b, c' ∷ cs)
    | false ↦ do (b, cs') ← control_named method parts cs; ok (b, c ∷ cs')
  ]

  -- A handler's connection, and the globals.
  pub record Handler : Type 0 where
    pub socket : Socket
    pub manager : Manager P

  abbrev listed : Handler → List (ControllerRef P) × Socket → Handler
  listed p (cs, s) = record { socket = s; manager = record p.manager { controllers = cs } }

  abbrev described : InstanceInfo → Option InstanceInfo → InstanceInfo
  described request none = request
  described request (some inst) = inst

  unfoldable pub instantiate : List Bytes → Handler → Result Handler
  unfolding find_controller
  instantiate commands p = do
    request ← InstanceInfo.deserialize (drop 1 commands)
    (found, m) ← find_controller (length p.manager.controllers) request p.manager
    ok (record {
      socket = write_all p.socket (InstanceInfo.serialize (described request found));
      manager = m;
    })

  abbrev reported : Handler → Bool × List (ControllerRef P) → Handler
  reported p (b, cs) = record {
    socket = write p.socket (to_string (from_bool b));
    manager = record p.manager { controllers = cs };
  }

  -- `run` and `kill`, which differ in the method alone
  unfoldable pub control : (Bytes → Exec (Link P) Bool) → List Bytes → Handler → Result Handler
  unfolding control_named extract_id_parts
  control method commands p = elim (get_elem? commands 1) [
    | none ↦ ok (reported p (false, p.manager.controllers))
    | some full_id ↦ control_named method (extract_id_parts full_id) p.manager.controllers >>= λ r.
        ok (reported p r)
  ]

  unfoldable pub dispatch : Bytes → List Bytes → Handler → Result Handler
  unfolding get_templates get_instances instantiate control
  dispatch cmd commands p =
      if str_eq cmd (codes "getTemplates")
      then (get_templates p.manager.controllers p.socket >>= λ r. ok (listed p r))
      else if str_eq cmd (codes "getInstances")
      then (get_instances p.manager.controllers p.socket >>= λ r. ok (listed p r))
      else if str_eq cmd (codes "instantiate")
      then instantiate commands p
      else if str_eq cmd (codes "run")
      then control (Proxy.run answer) commands p
      else if str_eq cmd (codes "kill")
      then control (Proxy.kill answer) commands p
      else ok (record p { socket = write p.socket (codes "unknown command") })

  -- one round of the loop of `CommandHandler::run`
  unfoldable pub serve : Handler → Result Handler
  unfolding dispatch
  serve p = do
    (commands, s) ← Socket.read p.socket
    cmd ← at (get_elem? commands 0)
    p' ← dispatch cmd commands (record p { socket = s })
    ok (record p' { socket = send p'.socket })

-- The loop of `main` over the words of the controllers file. `connect` is the connection to a
-- controller, or none if it fails; such a controller is left out.
unfoldable pub load_controllers :
    {P : Type 0} → (Bytes → ℤ → Option (Link P)) → List Bytes → Result (List (ControllerRef P))
load_controllers connect [] = ok []
load_controllers connect (s1 ∷ []) = ok []
load_controllers connect (s1 ∷ s2 ∷ rest) = explode_address s2 >>= λ addr.
    load_controllers connect rest >>= λ cs. ok (elim (connect addr.0 addr.1) [
      | none ↦ cs
      | some l ↦ (record { id = s1; address = addr.0; port = addr.1; proxy = l }) ∷ cs
    ])

-- The start of `main`, on the text of the controllers file.
unfoldable pub start : {P : Type 0} → (Bytes → ℤ → Option (Link P)) → Bytes → Result (Manager P)
unfolding load_controllers
start connect text = load_controllers connect (words text) >>= λ cs.
    ok (record { controllers = cs; next_controller = 0 })
