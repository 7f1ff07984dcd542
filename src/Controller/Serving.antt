-- ===== src/Controller/Serving.antt =====
-- A proxy that is connected to a node of src/controller.cpp is a service for the manager.
use mathlib.Core.Path.{subst}
use kvm_cloud.Base.{◌≡◌, ◌≢◌, sym, ok, [], All}
use kvm_cloud.Sys.Host.{Host}
use kvm_cloud.Vm.Template.{IsPrintable}
use kvm_cloud.Vm.Controller.{Node}
use kvm_cloud.Vm.Proxy
use kvm_cloud.Vm.Proxy.{Link}
use kvm_cloud.Vm.Proxy.Decode.{IsByName}
use kvm_cloud.Controller.{Handler, answer}
use kvm_cloud.Controller.Remote.{IsQuiet, get_templates-Returns}
use kvm_cloud.Manager.Service.{Service}

module _ (h : Host) where
  -- The link is quiet, and this node behind it has templates that can be sent.
  pub record ServesTemplates (l : Link (Handler h)) (n : Node h) : Type 0 where
    pub quiet : IsQuiet h l
    pub node : l.peer.node ≡ n
    pub by_name : IsByName n.controller.templates
    pub printable : All (λ e. IsPrintable e.1) n.controller.templates
    pub some_templates : n.controller.templates ≢ []

  abbrev Fetched : Link (Handler h) → Node h → Type 0
  Fetched l n =
      (l' : Link (Handler h)) × (Proxy.get_templates (answer h) l ≡ (ok n.controller.templates, l'))
      × ServesTemplates l' n

  own_templates-Fetched :
      (l : Link (Handler h)) → ServesTemplates l l.peer.node → Fetched l l.peer.node
  own_templates-Fetched l s =
      let r = get_templates-Returns h l s.quiet s.by_name s.printable s.some_templates in
      (
        r.after,
        r.returned,
        record {
          quiet = r.quiet;
          node = r.node;
          by_name = s.by_name;
          printable = s.printable;
          some_templates = s.some_templates;
        },
      )

  pub fetched : (l : Link (Handler h)) (n : Node h) → ServesTemplates l n → Fetched l n
  fetched l n s =
      subst (Fetched l) s.node (own_templates-Fetched l (subst (ServesTemplates l) (sym s.node) s))

  -- The interface of the manager is met by the nodes.
  abbrev pub node_service : Service (answer h)
  node_service = record {
    Far = Node h;
    templates = λ n. n.controller.templates;
    Serves = ServesTemplates;
    fetch = fetched;
  }
