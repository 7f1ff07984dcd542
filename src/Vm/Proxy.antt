-- ===== src/Vm/Proxy.antt =====
-- src/Vm/ControllerProxy.hpp. The node behind the socket is a parameter: a state `P`, and what it
-- does when bytes reach it. Every request waits for its reply, so the node acts when the proxy reads.
pub mod Decode
pub mod Calls
pub mod Filing
use kvm_cloud.Base.{
  ℕ, Bool, List, [], ◌∷◌, ◌++◌, Bytes, codes, get_elem?, Result, ok, err, undefined, index,
}
use kvm_cloud.Base.Exec.{Exec, lift, modify, ◌>>=◌, ◌>>◌, pure}
use kvm_cloud.Net.Socket
use kvm_cloud.Net.Socket.{Socket, write, write_all, send}
use kvm_cloud.Std.Int.{ℤ, pos, to_bool}
use kvm_cloud.Std.Number.{stoi}
use kvm_cloud.Std.Map.{StdMap, insert}
use kvm_cloud.Std.Map.Keys.{bytes_order}
use kvm_cloud.Vm.Template
use kvm_cloud.Vm.Template.{Template}
use kvm_cloud.Vm.InstanceInfo
use kvm_cloud.Vm.InstanceInfo.{InstanceInfo}

-- What a node does with the bytes that reach it: its new state, and the bytes that it sends back.
abbrev pub Answer {ℓ} : Type ℓ → Type ℓ
Answer P = P → Bytes → Result (P × Bytes)

-- A proxy's socket, and the node at its other end.
pub record Link {ℓ} (P : Type ℓ) : Type ℓ where
  pub socket : Socket
  pub peer : P

-- The loop of `getTemplates` over the reply; a last group that is too short is read out of bounds.
unfoldable pub collect_templates :
    List Bytes → StdMap Bytes Template → Result (StdMap Bytes Template)
collect_templates [] result = ok result
collect_templates (a ∷ b ∷ c ∷ d ∷ fields) result =
    kvm_cloud.Base.◌>>=◌ (Template.deserialize (a ∷ b ∷ c ∷ d ∷ []))
      λ t. collect_templates fields (insert t.name t result)
collect_templates _ result = err undefined

-- The loop of `getInstances`.
unfoldable pub collect_instances :
    List Bytes → StdMap Bytes InstanceInfo → Result (StdMap Bytes InstanceInfo)
collect_instances [] result = ok result
collect_instances (a ∷ b ∷ c ∷ d ∷ e ∷ f ∷ fields) result =
    kvm_cloud.Base.◌>>=◌ (InstanceInfo.deserialize (a ∷ b ∷ c ∷ d ∷ e ∷ f ∷ []))
      λ i. collect_instances fields (insert i.id i result)
collect_instances _ result = err undefined

-- `(bool)stoi(socket->read()[0])`
abbrev pub verdict : List Bytes → Result Bool
verdict fields =
    kvm_cloud.Base.◌>>=◌ (index (get_elem? fields 0))
      λ d. kvm_cloud.Base.◌>>=◌ (stoi d) (λ z. ok (to_bool z))

module _ {P : Type 0} (answer : Answer P) where
  -- the bytes written go to the peer, and its reply arrives
  deliver : Exec (Link P) (Unit {0})
  deliver l = elim (answer l.peer l.socket.outgoing) [
    | err e ↦ (err e, l)
    | ok (p, reply) ↦ (
      ok tt,
      record {
        socket = record l.socket { outgoing = []; incoming = l.socket.incoming ++ reply };
        peer = p;
      },
    )
  ]

  take_message : Exec (Link P) (List Bytes)
  take_message l = elim (Socket.read l.socket) [
    | err e ↦ (err e, l)
    | ok (lines, s) ↦ (ok lines, record l { socket = s })
  ]

  -- `socket->read()`
  unfoldable pub receive : Exec (Link P) (List Bytes)
  unfolding deliver take_message
  receive = do deliver; take_message

  abbrev on_socket : (Socket → Socket) → Exec (Link P) (Unit {0})
  on_socket f = modify (λ l. record l { socket = f l.socket })

  unfoldable pub get_templates : Exec (Link P) (StdMap Bytes Template)
  unfolding receive collect_templates
  get_templates = do
    on_socket (λ s. send (write s (codes "getTemplates")))
    fields ← receive
    lift (collect_templates fields [])

  unfoldable pub get_instances : Exec (Link P) (StdMap Bytes InstanceInfo)
  unfolding receive collect_instances
  get_instances = do
    on_socket (λ s. send (write s (codes "getInstances")))
    fields ← receive
    lift (collect_instances fields [])

  -- the request of `instantiate`
  abbrev pub wanted : Template → ℤ → ℤ → InstanceInfo
  wanted t memory cpus = record {
    id = codes "0";
    templ = t.name;
    memory = memory;
    cpus = cpus;
    ssh_port = pos 0;
    running = Bool.false;
  }

  unfoldable pub instantiate : Template → ℤ → ℤ → Exec (Link P) InstanceInfo
  unfolding receive
  instantiate t memory cpus = do
    on_socket (λ s.
        send (
          write_all (write s (codes "instantiate"))
            (InstanceInfo.serialize (wanted t memory cpus))))
    fields ← receive
    lift (InstanceInfo.deserialize fields)

  unfoldable pub run : Bytes → Exec (Link P) Bool
  unfolding receive
  run full_id = do
    on_socket (λ s. send (write (write s (codes "run")) full_id))
    fields ← receive
    lift (verdict fields)

  unfoldable pub kill : Bytes → Exec (Link P) Bool
  unfolding receive
  kill full_id = do
    on_socket (λ s. send (write (write s (codes "kill")) full_id))
    fields ← receive
    lift (verdict fields)
