-- ===== src/Controller/Remote/Making.antt =====
-- The remote `instantiate`: a proxy of src/Vm/ControllerProxy.hpp that is connected to a handler of
-- src/controller.cpp.
use kvm_cloud.Base.{
  ◌≡◌, refl, ap, ◌∙◌, Option, none, some, ◌∷◌, Result, ok, err, codes, arith, Result-cases,
  is_exception, Bool-cases, inl, inr,
}
use kvm_cloud.Base.Exec.{Exec, >>=-ok, lift, gets, pure, catch_all, ◌>>=◌}
use kvm_cloud.Net.Stream.Frames.{IsLine}
use kvm_cloud.Net.Socket.{write, write_all}
use kvm_cloud.Net.Socket.Pending.{write-Pending, IsIdle-Pending, write_all-Pending}
use kvm_cloud.Std.Int.{ℤ, IsInt}
use kvm_cloud.Std.Map.{find}
use kvm_cloud.Std.Map.Keys.{bytes_order}
use kvm_cloud.Std.Text.{str_eq}
use kvm_cloud.Sys.Host.{Host}
use kvm_cloud.Vm.Template.{Template}
use kvm_cloud.Vm.Instance.{get_instance_info}
use kvm_cloud.Vm.InstanceInfo
use kvm_cloud.Vm.InstanceInfo.{InstanceInfo, HasInts}
use kvm_cloud.Vm.InstanceInfo.Lines.{
  IsPrintable, serialize-IsLine, serialize-ne-nil, deserialize-reply,
}
use kvm_cloud.Vm.Controller.{Node}
use kvm_cloud.Vm.Controller.Methods
use kvm_cloud.Vm.Proxy
use kvm_cloud.Vm.Proxy.{Link, wanted}
use kvm_cloud.Controller.{Handler, dispatch, answer, instantiate, make, echo}
use kvm_cloud.Controller.Replies.{drained}
use kvm_cloud.Controller.Remote.{IsQuiet, Returns, call-Returns, drained-Pending}

module _ (h : Host) where
  -- `instantiate` of the node and the description of its instance
  abbrev described : InstanceInfo → Template → Exec (Node h) InstanceInfo
  described request t = do
    inst ← Methods.instantiate h t request.memory request.cpus
    host ← gets (λ n. n.host)
    pure (get_instance_info h host inst)

  abbrev made_from : InstanceInfo → Option Template → Exec (Node h) InstanceInfo
  made_from request none = pure request
  made_from request (some t) = catch_all (described request t) (pure request)

  -- What a request makes on the node alone: the description of a new instance, or the request itself
  -- if its template is unknown or an exception is thrown.
  abbrev pub made : InstanceInfo → Exec (Node h) InstanceInfo
  made request n = made_from request (find request.templ n.controller.templates) n

  -- the handler behind a branch that ends so
  abbrev told : Result InstanceInfo × Node h → Handler h → Result (Unit {0}) × Handler h
  told (ok info, n) p =
      (ok tt, record p { node = n; socket = write_all p.socket (InstanceInfo.serialize info) })
  told (err e, n) p = (err e, record p { node = n })

  make-told :
      (request : InstanceInfo) (t : Template) (p : Handler h)
      → catch_all (make h request (some t)) (echo h request) p
        ≡ told (catch_all (described request t) (pure request) p.node) p
  make-told request t p =
      elim (Result-cases (Methods.instantiate h t request.memory request.cpus p.node).0) [
        | inl (inst, e) ↦ rw e
        | inr (x, e) ↦ elim (Bool-cases (is_exception x)) [
          | inl caught ↦ rw (e, caught)
          | inr fatal ↦ rw (e, fatal)
        ]
      ]

  made-told :
      (request : InstanceInfo) (o : Option Template) (p : Handler h)
      → catch_all (make h request o) (echo h request) p ≡ told (made_from request o p.node) p
  made-told request none p = refl
  made-told request (some t) p = make-told request t p

  instantiate-told :
      (request : InstanceInfo) (p : Handler h)
      → HasInts request
      → instantiate h (codes "instantiate" ∷ InstanceInfo.serialize request) p
        ≡ told (made request p.node) p
  unfolding instantiate
  instantiate-told request p ints =
      >>=-ok (lift (InstanceInfo.deserialize (InstanceInfo.serialize request))) _
        (ap (λ r. (r, p)) (deserialize-reply request ints))
      ∙ made-told request (find request.templ p.node.controller.templates) p

  dispatch-instantiate :
      (request info : InstanceInfo) (n : Node h) (p : Handler h)
      → HasInts request
      → made request p.node ≡ (ok info, n)
      → dispatch h (codes "instantiate") (codes "instantiate" ∷ InstanceInfo.serialize request) p
        ≡ (ok tt, record p { node = n; socket = write_all p.socket (InstanceInfo.serialize info) })
  unfolding dispatch str_eq
  dispatch-instantiate request info n p ints e =
      instantiate-told request p ints ∙ ap (λ r. told r p) e

  pub instantiate-Returns :
      (l : Link (Handler h)) (t : Template) (memory cpus : ℤ) (info : InstanceInfo) (n : Node h)
      → IsQuiet h l
      → IsLine t.name
      → IsInt memory
      → IsInt cpus
      → made (wanted (answer h) t memory cpus) l.peer.node ≡ (ok info, n)
      → IsPrintable info
      → HasInts info
      → Returns h (Proxy.instantiate (answer h) t memory cpus) l info n
  unfolding Proxy.instantiate
  instantiate-Returns l t memory cpus info n quiet name memory_int cpus_int e printable ints =
      let request = wanted (answer h) t memory cpus in
      call-Returns h
        (λ s. write_all (write s (codes "instantiate")) (InstanceInfo.serialize request))
        InstanceInfo.deserialize l _ (codes "instantiate") (InstanceInfo.serialize request)
        (InstanceInfo.serialize info) info quiet
        (write_all-Pending (InstanceInfo.serialize request)
          (write-Pending (IsIdle-Pending quiet.near) (codes "instantiate")))
        (omega arith, serialize-IsLine request (record { id = omega arith; templ = name }))
        (dispatch-instantiate request info n (drained h l.peer)
          (record { memory = memory_int; cpus = cpus_int; ssh_port = omega arith }) e)
        (write_all-Pending (InstanceInfo.serialize info) (drained-Pending h l.peer quiet.far))
        (serialize-ne-nil info) (serialize-IsLine info printable) (deserialize-reply info ints)
