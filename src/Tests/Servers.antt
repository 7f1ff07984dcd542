-- ===== src/Tests/Servers.antt =====
-- A network that counts its descriptors, on which one port is in use.
use kvm_cloud.Base.{ℕ, suc, ◌≡◌, refl, ok, ◌==◌, if◌then◌else◌}
use kvm_cloud.Std.Int.{pos}
use kvm_cloud.Sys.Network.{Network}
use kvm_cloud.Base.{some, List, [], ◌∷◌, Bytes, codes}
use kvm_cloud.Std.Number.{stoi}
use kvm_cloud.Vm.Controller.Methods.{construct, load_all}
use kvm_cloud.Controller.Startup.{Running, launch, IsReady, launch-IsReady}
use kvm_cloud.Tests.Machine.{machine, busy_machine}
use kvm_cloud.Net.Server.{minus_one, check, open_server}
use kvm_cloud.Net.Server.Startup.{opened, reused, bound, listened, Succeeded, open_server-ok}

abbrev network : Network
network = record {
  State = ℕ;
  socket = λ n. (pos n, suc n);
  reuse_address = λ n fd. (pos 0, n);
  bind = λ n fd port. (if port == 80 then minus_one else pos 0, n);
  listen = λ n fd pending. (pos 0, n);
  accept = λ n fd. (pos n, suc n);
  connect = λ n fd address port. (pos 0, n);
  shutdown = λ n fd. n;
  close = λ n fd. n;
}

opens : open_server network (pos 8080) 3 ≡ (ok (pos 3), 4)
unfolding open_server check
opens = refl

open_server-ok_example :
    Succeeded network (pos 8080) 3 (opened network (pos 8080) 3)
    × Succeeded network (pos 8080) 3 (reused network (pos 8080) 3)
    × Succeeded network (pos 8080) 3 (bound network (pos 8080) 3)
    × Succeeded network (pos 8080) 3 (listened network (pos 8080) 3)
    × (pos 3 ≡ (opened network (pos 8080) 3).0)
    × (4 ≡ (listened network (pos 8080) 3).1)
open_server-ok_example = open_server-ok network (pos 8080) 3 (pos 3) 4 opens

abbrev argv : List Bytes
argv = codes "controller" ∷ codes "3001" ∷ codes "vms" ∷ codes "1000" ∷ codes "10000" ∷ []

abbrev ready : Running network machine
ready = record {
  server = pos 3;
  node = (construct machine (codes "vms") (pos 1000) (pos 10000) busy_machine).1;
  network = 4;
}

launched : launch network machine argv 3 busy_machine ≡ ok (some ready)
unfolding launch open_server check stoi construct load_all
launched = refl

launch-IsReady_example : IsReady network machine argv 3 busy_machine ready
launch-IsReady_example = launch-IsReady network machine argv 3 busy_machine ready launched
