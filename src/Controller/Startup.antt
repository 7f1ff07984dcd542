-- ===== src/Controller/Startup.antt =====
-- `main` of src/controller.cpp up to its accept loop.
use mathlib.Core.Path.{subst}
use kvm_cloud.Base.{
  ℕ, ◌≡◌, Bool-cases, inl, inr, Option, none, some, List, Bytes, get_elem?, length, ltb,
  if◌then◌else◌, Result, ok, err, index, ◌>>=◌, returned_at,
}
use kvm_cloud.Std.Int.{ℤ, IsInt}
use kvm_cloud.Std.Number.{stoi}
use kvm_cloud.Std.Number.Range.{stoi-IsInt}
use kvm_cloud.Sys.Host.{Host}
use kvm_cloud.Sys.Network.{Network}
use kvm_cloud.Net.Server.{open_server, served}
use kvm_cloud.Vm.Controller.{Node}
use kvm_cloud.Vm.Controller.Methods.{construct}
use kvm_cloud.Vm.Controller.WellFormed.{IsWellFormed, Reach-IsWellFormed, start}

module _ (k : Network) (h : Host) where
  -- the globals, and the network
  pub record Running : Type 0 where
    pub server : ℤ
    pub node : Node h
    pub network : k.State

  -- `argv[i]` as a number
  abbrev number : List Bytes → ℕ → Result ℤ
  number argv i = index (get_elem? argv i) >>= stoi

  abbrev constructed : Result (Unit {0}) × Node h → Result (Node h)
  constructed (r, n) = r >>= λ _. ok n

  abbrev set_up : List Bytes → k.State → h.State → Result Running
  set_up argv s host = do
    port ← number argv 1
    opened ← served k (open_server k port s)
    working_dir ← index (get_elem? argv 2)
    initial_id ← number argv 3
    initial_port ← number argv 4
    node ← constructed (construct h working_dir initial_id initial_port host)
    ok (record { server = opened.0; node = node; network = opened.1 })

  -- A missing argument prints the usage. An exception ends the process.
  unfoldable pub launch : List Bytes → k.State → h.State → Result (Option Running)
  launch argv s host =
      if ltb (length argv) 5 then ok none else (set_up argv s host >>= λ r. ok (some r))

  number-IsInt : (argv : List Bytes) (i : ℕ) (z : ℤ) → number argv i ≡ ok z → IsInt z
  number-IsInt argv i z e =
      let (text, known, parsed) = returned_at (index (get_elem? argv i)) stoi e in
      stoi-IsInt text z parsed

  served_at : (x : Result ℤ × k.State) (o : ℤ × k.State) → served k x ≡ ok o → x ≡ (ok o.0, o.1)
  served_at (ok fd, s) o e = cc
  served_at (err x, s) o e = cc

  constructed_at :
      (x : Result (Unit {0}) × Node h) (n : Node h) → constructed x ≡ ok n → x ≡ (ok tt, n)
  constructed_at (ok u, n') n e = cc
  constructed_at (err x, n') n e = cc

  -- What holds where the accept loop begins: what each argument was used for.
  pub record IsReady (argv : List Bytes) (s : k.State) (host : h.State) (r : Running) : Type 0 where
    pub port : ℤ
    pub port_text : number argv 1 ≡ ok port
    pub listening : open_server k port s ≡ (ok r.server, r.network)
    pub working_dir : Bytes
    pub dir_text : get_elem? argv 2 ≡ some working_dir
    pub initial_id : ℤ
    pub id_text : number argv 3 ≡ ok initial_id
    pub initial_port : ℤ
    pub ssh_text : number argv 4 ≡ ok initial_port
    pub ints : IsInt port × IsInt initial_id × IsInt initial_port
    pub built : construct h working_dir initial_id initial_port host ≡ (ok tt, r.node)
    pub well_formed : IsWellFormed r.node.controller

  indexed_at : {A : Type 0} (o : Option A) (a : A) → index o ≡ ok a → o ≡ some a
  indexed_at none a e = cc
  indexed_at (some b) a e = cc

  set_up-IsReady :
      (argv : List Bytes) (s : k.State) (host : h.State) (r : Running)
      → set_up argv s host ≡ ok r
      → IsReady argv s host r
  set_up-IsReady argv s host r e =
      let (port, e1, f1) = returned_at (number argv 1) _ e in
      let (opened, e2, f2) = returned_at (served k (open_server k port s)) _ f1 in
      let (dir, e3, f3) = returned_at (index (get_elem? argv 2)) _ f2 in
      let (id, e4, f4) = returned_at (number argv 3) _ f3 in
      let (ssh, e5, f5) = returned_at (number argv 4) _ f4 in
      let (node, e6, f6) = returned_at (constructed (construct h dir id ssh host)) _ f5 in
      let whole : ◌≡◌ {A = Running} (record { server = opened.0; node = node; network = opened.1 })
          r =
        cc in
      let id_int = number-IsInt argv 3 id e4 in
      let ssh_int = number-IsInt argv 4 ssh e5 in
      let built = constructed_at _ node e6 in
      subst (IsReady argv s host) whole (record {
        port = port;
        port_text = e1;
        listening = served_at _ opened e2;
        working_dir = dir;
        dir_text = indexed_at _ dir e3;
        initial_id = id;
        id_text = e4;
        initial_port = ssh;
        ssh_text = e5;
        ints = (number-IsInt argv 1 port e1, id_int, ssh_int);
        built = built;
        well_formed =
            subst (λ x. IsWellFormed x.1.controller) built
              (Reach-IsWellFormed h id_int ssh_int (start host));
      })

  -- If the main program of the controller gets to its accept loop, it had at least four arguments.
  -- The first is the text of the `int` at whose port the constructor opened its server socket; the
  -- second is the working directory; the third and the fourth are the texts of the `int`s with which
  -- the constructor built its controller, as first id and first port. Whatever files it found, that
  -- controller is well-formed.
  pub launch-IsReady :
      (argv : List Bytes) (s : k.State) (host : h.State) (r : Running)
      → launch argv s host ≡ ok (some r)
      → IsReady argv s host r
  unfolding launch
  launch-IsReady argv s host r e = elim (Bool-cases (ltb (length argv) 5)) [
    | inl short ↦
        let none_here : ◌≡◌ {A = Result (Option Running)} (ok none) (ok (some r)) =
          rw (short, launch) at e in
        cc
    | inr long ↦
        let (r', done, same) = returned_at (set_up argv s host) _ (rw (long, launch) at e) in
        let whole : r' ≡ r = cc in
        subst (IsReady argv s host) whole (set_up-IsReady argv s host r' done)
  ]
