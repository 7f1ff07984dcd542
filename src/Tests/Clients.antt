-- ===== src/Tests/Clients.antt =====
-- A client's session on the node.
use kvm_cloud.Base.{[], ◌∷◌, ◌++◌, codes}
use mathlib.Core.List.{cons-ne-nil}
use kvm_cloud.Controller.{answer}
use kvm_cloud.Client.{Session, obey, template_rows}
use kvm_cloud.Client.Calls.{Showed, templates-Showed}
use kvm_cloud.Tests.Machine.{machine}
use kvm_cloud.Tests.Nodes.{link, link-IsQuiet, both, both-IsByName, both-IsPrintable}

abbrev fresh : Session (answer machine)
fresh = record { link = link; printed = codes "> " }

templates-Showed_example :
    Showed machine
      (obey (answer machine) (codes "templates" ∷ []))
      fresh
      (template_rows both ++ codes "\n> ")
      link.peer.node
templates-Showed_example =
    templates-Showed machine [] fresh link-IsQuiet both-IsByName both-IsPrintable (cons-ne-nil _ _)
