-- ===== src/Vm/InstanceInfo/Lines.antt =====
-- The serialized fields of src/Vm/InstanceInfo.hpp as the lines of a message.
use mathlib.Core.List.{cons-ne-nil}
use kvm_cloud.Base.{◌≡◌, ◌≢◌, ok, [], ◌∷◌, Bytes, All, arith}
use kvm_cloud.Std.Int.{ℤ, from_bool}
use kvm_cloud.Std.Number.{to_string, to_string-cons, IsNumeric, to_string-IsNumeric}
use kvm_cloud.Net.Stream.Frames.{IsPlain, IsLine}
use kvm_cloud.Vm.InstanceInfo.{InstanceInfo, HasInts, serialize, deserialize, deserialize-serialize}

numeric-IsPlain : (text : Bytes) → All IsNumeric text → All IsPlain text
numeric-IsPlain [] a = tt
numeric-IsPlain (c ∷ text) a = (ground arith, numeric-IsPlain text a.1)

pub to_string-IsLine : (z : ℤ) → IsLine (to_string z)
to_string-IsLine z =
    let (c, t, e) = to_string-cons z in
    rw e (numeric-IsPlain (c ∷ t) (rw e at (to_string-IsNumeric z)))

-- The texts among the fields can stand on a line of their own.
pub record IsPrintable (i : InstanceInfo) : Type 0 where
  pub id : IsLine i.id
  pub templ : IsLine i.templ

pub serialize-IsLine : (i : InstanceInfo) → IsPrintable i → All IsLine (serialize i)
unfolding serialize
serialize-IsLine i p = (
  p.id,
  (
    p.templ,
    (
      to_string-IsLine i.memory,
      (
        to_string-IsLine i.cpus,
        (to_string-IsLine i.ssh_port, (to_string-IsLine (from_bool i.running), tt)),
      ),
    ),
  ),
)

pub serialize-ne-nil : (i : InstanceInfo) → serialize i ≢ []
unfolding serialize
serialize-ne-nil i = cons-ne-nil i.id _

-- a description as the whole of a message
pub deserialize-reply : (i : InstanceInfo) → HasInts i → deserialize (serialize i) ≡ ok i
unfolding serialize
deserialize-reply i h = deserialize-serialize i [] h
