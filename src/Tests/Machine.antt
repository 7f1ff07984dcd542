-- ===== src/Tests/Machine.antt =====
-- A small machine: directories, files, ports and processes are lists, and no child of it ends by
-- itself.
use kvm_cloud.Base.{
  ℕ, zero, suc, Bool, true, false, some, List, [], ◌∷◌, Bytes, codes, ◌==◌, if◌then◌else◌, refl,
}
use kvm_cloud.Std.Int.{ℤ, pos, int_eq}
use kvm_cloud.Std.Text.{str_eq}
use kvm_cloud.Std.Map.{StdMap, find, insert}
use kvm_cloud.Std.Map.Keys.{bytes_order}
use kvm_cloud.Sys.Host.{Host, HostLaws}

pub record Machine : Type 0 where
  pub dirs : List Bytes
  pub files : StdMap Bytes Bytes
  pub ports : List ℕ
  pub pids : List ℤ

abbrev holds {ℓ} : {A : Type ℓ} → (A → A → Bool) → A → List A → Bool
holds eq a [] = false
holds eq a (b ∷ l) = if eq a b then true else holds eq a l

abbrev listens : Machine → ℕ → Bool
listens m zero = false
listens m (suc n) = holds (λ a b. a == b) (suc n) m.ports

-- `mkdir` of one directory; no other program changes the directories.
abbrev executed : Bytes → List Bytes → List Bytes → List Bytes
executed p (name ∷ d ∷ []) dirs = if str_eq p (codes "/bin/mkdir") then d ∷ dirs else dirs
executed p opts dirs = dirs

abbrev pub machine : Host
machine = record {
  State = Machine;
  dir_exists = λ m d. holds str_eq d m.dirs;
  read_file = λ m p. find p m.files;
  write_file = λ m p text. record m { files = insert p text m.files };
  entries = λ m d. some [];
  listening = listens;
  fork_exec =
      λ m p opts. (pos 41, record m { pids = pos 41 ∷ m.pids; dirs = executed p opts m.dirs });
  wait_pid = λ m pid. m;
  alive = λ m pid. holds int_eq pid m.pids;
  signal = λ m pid sig. record m { pids = [] };
}

abbrev pub machine_laws : HostLaws machine
machine_laws = record {
  port_zero = λ m. refl;
  dir_exists-write_file = λ m p d text. refl;
  listening-write_file = λ m p text n. refl;
  alive-write_file = λ m p text pid. refl;
}

-- Something listens on port 10001, and process 40 runs.
abbrev pub busy_machine : Machine
busy_machine = record {
  dirs = codes "vms/1000" ∷ [];
  files = [];
  ports = 10001 ∷ [];
  pids = pos 40 ∷ [];
}
