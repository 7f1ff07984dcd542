-- ===== src/Tests/Listings.antt =====
-- A client of a manager that has a node without instances and one that has an instance.
use kvm_cloud.Base.{refl, sym, Bytes, [], ◌∷◌, ◌++◌, codes, All, arith}
use kvm_cloud.Net.Socket.{connected}
use kvm_cloud.Std.Int.{pos}
use kvm_cloud.Std.Map.{StdMap, find, insert, IsSorted}
use kvm_cloud.Std.Map.Keys.{str_lt, bytes_order, int_order}
use kvm_cloud.Vm.InstanceInfo.{InstanceInfo}
use kvm_cloud.Vm.Controller.{initial_templates}
use kvm_cloud.Vm.Controller.WellFormed.{IsWellFormed, start, Reach-IsWellFormed}
use kvm_cloud.Controller.{answer}
use kvm_cloud.Manager.Answering.{answer_client}
use kvm_cloud.Manager.Gathering.{IsReady, Shows}
use kvm_cloud.Manager.Passing.{IsOccupied, IsFullId}
use kvm_cloud.Client.{Session, obey, instance_rows}
use kvm_cloud.Client.Making.{table_head}
use kvm_cloud.Vm.Controller.Methods.{construct, load_all}
use kvm_cloud.Base.{◌≡◌, ◌==◌, if◌then◌else◌, ok, err, blocked}
use kvm_cloud.Manager.Vacant.{IsVacant}
use kvm_cloud.Client.Vacant.{instances-Vacant}
use kvm_cloud.Client.Listing.{Tabled, instances-Tabled}
use kvm_cloud.Tests.Machine.{machine, busy_machine}
use kvm_cloud.Tests.Making.{vm_1001}
use kvm_cloud.Tests.Managers.{named, alpha_is_not_beta}
use kvm_cloud.Tests.Remotes.{to, to-IsQuiet, first, behind, furnished}

behind-IsWellFormed : IsWellFormed (behind furnished).controller
unfolding insert initial_templates find str_lt
behind-IsWellFormed = record {
  templates = refl;
  sorted = (tt, tt);
  entries = (
    record {
      named = refl;
      int = omega arith;
      ints = (omega arith, omega arith, omega arith);
      name = codes "cirros";
      offered = refl;
    },
    tt,
  );
  next_id = omega arith;
  next_port = omega arith;
}

abbrev on_both : Session (answer_client (answer machine))
on_both = record {
  link = record {
    socket = connected;
    peer = record {
      socket = connected;
      manager = record {
        controllers = named 0 (to first) ∷ named 1 (to (behind furnished)) ∷ [];
        next_controller = 0;
      };
    };
  };
  printed = codes "> ";
}

both-IsReady : All (IsReady machine) on_both.link.peer.manager.controllers
both-IsReady = (
  record {
    quiet = to-IsQuiet first;
    well_formed = Reach-IsWellFormed machine (omega arith) (omega arith) (start busy_machine);
    line = omega arith;
    plain = omega arith;
  },
  (
    record {
      quiet = to-IsQuiet (behind furnished);
      well_formed = behind-IsWellFormed;
      line = omega arith;
      plain = omega arith;
    },
    tt,
  ),
)

beta_has_1001 : IsOccupied machine on_both.link.peer.manager.controllers
unfolding find insert
beta_has_1001 = record {
  before = named 0 (to first) ∷ [];
  chosen = named 1 (to (behind furnished));
  behind = [];
  listed = refl;
  id = pos 1001;
  int = omega arith;
  instance_there = vm_1001;
  there = refl;
}

instances-Tabled_example :
    (found : StdMap Bytes InstanceInfo) × IsSorted found
    × All (λ e. IsFullId machine on_both.link.peer.manager.controllers e.0) found
    × All (Shows machine found) on_both.link.peer.manager.controllers
    × Tabled machine
        (obey (answer_client (answer machine)) (codes "instances" ∷ []))
        on_both
        ((table_head ++ instance_rows found) ++ codes "\n> ")
instances-Tabled_example =
    instances-Tabled machine [] on_both both-IsReady
      (record {
        near = record { incoming = refl; outgoing = refl };
        far = record { incoming = refl; outgoing = refl };
      })
      ((λ e. alpha_is_not_beta (sym e), tt), (tt, tt)) beta_has_1001

-- a connection on which the manager has answered before
abbrev on_vacant : Session (answer_client (answer machine))
on_vacant = record {
  link = record {
    socket = connected;
    peer = record {
      socket = record connected { write_count = 4 };
      manager = record { controllers = named 0 (to first) ∷ []; next_controller = 0 };
    };
  };
  printed = codes "> ";
}

vacant : All (IsVacant machine) on_vacant.link.peer.manager.controllers
unfolding construct load_all
vacant = (refl, tt)

instances-Vacant_example :
    (obey (answer_client (answer machine)) (codes "instances" ∷ []) on_vacant).0
    ≡ (if on_vacant.link.peer.socket.write_count == 0 then ok tt else err blocked)
instances-Vacant_example =
    instances-Vacant machine [] on_vacant (both-IsReady.0, tt)
      (record {
        near = record { incoming = refl; outgoing = refl };
        far = record { incoming = refl; outgoing = refl };
      })
      vacant
