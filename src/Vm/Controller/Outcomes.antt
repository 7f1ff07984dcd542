-- ===== src/Vm/Controller/Outcomes.antt =====
-- What the searches and the cookies of src/Vm/Controller.hpp give when they return.
use kvm_cloud.Base.{
  List, ℕ, zero, suc, ◌≡◌, Bool, false, not, ◌||◌, Bytes, codes, ◌++◌, Result, ok, err, Bool-cases,
  inl, inr, returned_at, none, Option-cases, arith, ◌>>=◌,
}
use kvm_cloud.Std.Int.{ℤ, pos, negsuc, IsInt, int_incr}
use kvm_cloud.Std.Map.{find}
use kvm_cloud.Std.Map.Keys.{int_order}
use kvm_cloud.Sys.Host.{Host}
use kvm_cloud.Util.Cookie
use kvm_cloud.Util.Cookie.Range.{read_int-IsInt}
use kvm_cloud.Util.Helpers.{map_exists}
use kvm_cloud.Vm.Controller.{
  Node, skip_taken, int_values, is_port_free, id_taken, find_next_id, find_next_port, read_metadata,
}

int_incr-IsInt : (z r : ℤ) → IsInt z → int_incr z ≡ ok r → IsInt r
int_incr-IsInt (pos n) r h e = ground arith
int_incr-IsInt (negsuc n) r h e = ground arith

-- What the loop returns is not taken, and no overflow was needed to get there.
skip_taken-ok :
    (f : ℕ) (taken : ℤ → Bool) (z r : ℤ)
    → IsInt z
    → skip_taken f taken z ≡ ok r
    → IsInt r × (taken r ≡ false)
unfolding skip_taken
skip_taken-ok zero taken z r h e = cc
skip_taken-ok (suc f) taken z r h e = elim (Bool-cases (taken z)) [
  | inl busy ↦
      let (z', step, rest) =
        returned_at (int_incr z) (skip_taken f taken) (rw (busy, skip_taken) at e) in
      skip_taken-ok f taken z' r (int_incr-IsInt z z' h step) rest
  | inr free ↦ let here : z ≡ r = cc (rw (free, skip_taken) at e) in rw (← here) (h, free)
]

map_exists-false :
    {V : Type 0} (m : List (ℤ × V)) (id : ℤ) → map_exists m id ≡ false → find id m ≡ none
unfolding map_exists
map_exists-false m id e = elim (Option-cases (find id m)) [
  | inl nothing ↦ nothing
  | inr (v, there) ↦ ground arith
]

or-false : (a b : Bool) → (a || b) ≡ false → b ≡ false
or-false a b e = ground arith

abbrev chained :
    Result Bytes → Result ℤ → Result ℤ → Result ℤ → Result ℤ → Result (Bytes × ℤ × ℤ × ℤ)
chained a b c d e = a >>= λ x. b >>= λ y. c >>= λ z. d >>= λ w. e >>= λ v. ok (x, y, z, w)

-- the chain of the five cookies
chain-ok :
    (a : Result Bytes) (b c d e : Result ℤ) (name : Bytes) (memory cpus ssh_port : ℤ)
    → chained a b c d e ≡ ok (name, memory, cpus, ssh_port)
    → (b ≡ ok memory) × (c ≡ ok cpus) × (d ≡ ok ssh_port)
chain-ok (err x) b c d e name memory cpus ssh_port h = cc
chain-ok (ok a) (err x) c d e name memory cpus ssh_port h = cc
chain-ok (ok a) (ok b) (err x) d e name memory cpus ssh_port h = cc
chain-ok (ok a) (ok b) (ok c) (err x) e name memory cpus ssh_port h = cc
chain-ok (ok a) (ok b) (ok c) (ok d) (err x) name memory cpus ssh_port h = cc
chain-ok (ok a) (ok b) (ok c) (ok d) (ok e) name memory cpus ssh_port h = (cc, cc, cc)

module _ (h : Host) where
  pub find_next_id-ok :
      (n : Node h) (base id : ℤ)
      → IsInt base
      → find_next_id h n base ≡ ok id
      → IsInt id × (find id n.controller.instances ≡ none)
  unfolding find_next_id
  find_next_id-ok n base id fits e =
      let (int, free) = skip_taken-ok int_values (id_taken h n) base id fits e in
      (int, map_exists-false n.controller.instances id (or-false _ _ free))

  pub find_next_port-ok :
      (n : Node h) (base port : ℤ) → IsInt base → find_next_port h n base ≡ ok port → IsInt port
  unfolding find_next_port
  find_next_port-ok n base port fits e =
      let (z, step, rest) =
        returned_at (int_incr base) (skip_taken int_values (λ p. not (is_port_free h n.host p)))
          e in
      (skip_taken-ok int_values _ z port (int_incr-IsInt base z fits step) rest).0

  -- The numbers of an instance.
  abbrev pub AreInts : Bytes × ℤ × ℤ × ℤ → Type 0
  AreInts (name, memory, cpus, ssh_port) = IsInt memory × IsInt cpus × IsInt ssh_port

  pub read_metadata-AreInts :
      (s : h.State) (dir : Bytes) (d : Bytes × ℤ × ℤ × ℤ) → read_metadata h s dir ≡ ok d → AreInts d
  unfolding read_metadata
  read_metadata-AreInts s dir d e =
      let (memory, cpus, ssh_port) =
        chain-ok (Cookie.read h s (dir ++ codes "/.template"))
          (Cookie.read_int h s (dir ++ codes "/.memory"))
          (Cookie.read_int h s (dir ++ codes "/.cpus")) (Cookie.read_int h s (dir ++ codes "/.ssh"))
          (Cookie.read_int h s (dir ++ codes "/.pid")) d.0 d.1 d.2 d.3 e in
      (
        read_int-IsInt h s _ d.1 memory,
        read_int-IsInt h s _ d.2 cpus,
        read_int-IsInt h s _ d.3 ssh_port,
      )
