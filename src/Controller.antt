-- ===== src/Controller.antt =====
-- src/controller.cpp: the command handler of a controller node. One handler serves one connection;
-- the node is shared by all. An error that leaves the loop ends the process.
pub mod Replies
pub mod Remote
pub mod Serving
pub mod Startup
use kvm_cloud.Base.{
  ℕ, Bool, true, false, Option, none, some, List, [], ◌∷◌, ◌++◌, Bytes, codes, get_elem?, drop,
  if◌then◌else◌, Result, ok, err, index, at,
}
use kvm_cloud.Base
use kvm_cloud.Base.Exec.{Exec, pure, raise, lift, gets, modify, catch_all, ◌>>=◌, ◌>>◌}
use kvm_cloud.Net.Socket
use kvm_cloud.Net.Socket.{Socket, write, write_all, send}
use kvm_cloud.Std.Int.{ℤ, from_bool}
use kvm_cloud.Std.Number.{to_string, stoi}
use kvm_cloud.Std.Text.{str_eq}
use kvm_cloud.Std.Map.{StdMap, find}
use kvm_cloud.Std.Map.Keys.{bytes_order}
use kvm_cloud.Sys.Host.{Host}
use kvm_cloud.Vm.Template
use kvm_cloud.Vm.Template.{Template}
use kvm_cloud.Vm.InstanceInfo
use kvm_cloud.Vm.InstanceInfo.{InstanceInfo}
use kvm_cloud.Vm.Instance.{Instance, get_instance_info}
use kvm_cloud.Vm.Controller.{Node}
use kvm_cloud.Vm.Controller.Methods

-- `for (auto& kv : …) socket->write(kv.second->serialize())`
unfoldable pub write_templates {ℓ} : {K : Type ℓ} → StdMap K Template → Socket → Socket
write_templates [] s = s
write_templates ((k, t) ∷ m) s = write_templates m (write_all s (Template.serialize t))

module _ (h : Host) where
  -- A handler's connection, and the node behind it.
  pub record Handler : Type 0 where
    pub socket : Socket
    pub node : Node h

  unfoldable pub write_instances : h.State → StdMap ℤ Instance → Socket → Socket
  write_instances host [] s = s
  write_instances host ((k, i) ∷ m) s =
      write_instances host m (write_all s (InstanceInfo.serialize (get_instance_info h host i)))

  abbrev on_socket : (Socket → Socket) → Exec Handler (Unit {0})
  on_socket f = modify (λ p. record p { socket = f p.socket })

  abbrev pub on_node : {A : Type 0} → Exec (Node h) A → Exec Handler A
  on_node m p = let (r, n) = m p.node in (r, record p { node = n })

  -- `socket->read()`
  unfoldable pub read_commands : Exec Handler (List Bytes)
  read_commands p = elim (Socket.read p.socket) [
    | err e ↦ (err e, p)
    | ok (commands, s) ↦ (ok commands, record p { socket = s })
  ]

  unfoldable pub get_templates : Exec Handler (Unit {0})
  unfolding write_templates
  get_templates = do
    templates ← gets (λ p. p.node.controller.templates)
    on_socket (write_templates templates)

  abbrev pub write_found : h.State → StdMap ℤ Instance → Socket → Socket
  write_found host [] s = write s []
  write_found host (e ∷ m) s = write_instances host (e ∷ m) s

  -- with no instance an empty line is written
  unfoldable pub get_instances : Exec Handler (Unit {0})
  unfolding write_instances
  get_instances p = on_socket (write_found p.node.host p.node.controller.instances) p

  abbrev echo : InstanceInfo → Exec Handler (Unit {0})
  echo request = on_socket (λ s. write_all s (InstanceInfo.serialize request))

  abbrev make : InstanceInfo → Option Template → Exec Handler (Unit {0})
  make request none = echo request
  make request (some t) = do
    inst ← on_node (Methods.instantiate h t request.memory request.cpus)
    host ← gets (λ p. p.node.host)
    on_socket (λ s. write_all s (InstanceInfo.serialize (get_instance_info h host inst)))

  unfoldable pub instantiate : List Bytes → Exec Handler (Unit {0})
  instantiate commands = do
    request ← lift (InstanceInfo.deserialize (drop 1 commands))
    templates ← gets (λ p. p.node.controller.templates)
    catch_all (make request (find request.templ templates)) (echo request)

  -- `commands[1]` as a number
  abbrev numeric_id : List Bytes → Result ℤ
  numeric_id commands = Base.◌>>=◌ (index (get_elem? commands 1)) stoi

  -- `try { result = method(stoi(commands[1])); } catch (...) { }`, and the reply
  unfoldable pub control : (ℤ → Exec (Node h) Bool) → List Bytes → Exec Handler (Unit {0})
  control method commands = do
    result ← catch_all (do id ← lift (numeric_id commands); on_node (method id)) (pure false)
    on_socket (λ s. write s (to_string (from_bool result)))

  -- the branches on `cmd`
  unfoldable pub dispatch : Bytes → List Bytes → Exec Handler (Unit {0})
  unfolding get_templates get_instances instantiate control
  dispatch cmd commands =
      if str_eq cmd (codes "getTemplates")
      then get_templates
      else if str_eq cmd (codes "getInstances")
      then get_instances
      else if str_eq cmd (codes "instantiate")
      then instantiate commands
      else if str_eq cmd (codes "run")
      then control (Methods.run h) commands
      else if str_eq cmd (codes "kill")
      then control (Methods.kill h) commands
      else on_socket (λ s. write s (codes "unknown command"))

  -- one round of the loop of `CommandHandler::run`
  unfoldable pub serve : Exec Handler (Unit {0})
  unfolding read_commands dispatch
  serve = do
    commands ← read_commands
    cmd ← lift (at (get_elem? commands 0))
    dispatch cmd commands
    on_socket send

  abbrev pub arrive : Bytes → Handler → Handler
  arrive bytes p = record p { socket = record p.socket { incoming = p.socket.incoming ++ bytes } }

  -- what has been written leaves
  abbrev flush : Result (Unit {0}) × Handler → Result (Handler × Bytes)
  flush (err e, p) = err e
  flush (ok _, p) = ok (record p { socket = record p.socket { outgoing = [] } }, p.socket.outgoing)

  -- What a node does when a request reaches it.
  unfoldable pub answer : Handler → Bytes → Result (Handler × Bytes)
  unfolding serve
  answer p bytes = flush (serve (arrive bytes p))
