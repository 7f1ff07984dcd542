-- ===== src/Std/Number/Range.antt =====
-- What `std::stoi` returns is an `int`.
use kvm_cloud.Base.{◌≡◌, Bool, true, false, [], ◌∷◌, Bytes, ok, arith}
use kvm_cloud.Std.Int.{ℤ, IsInt}
use kvm_cloud.Std.Number.{stoi, signed, magnitude, skip_space}

magnitude-IsInt : (negative : Bool) (s : Bytes) (z : ℤ) → magnitude negative s ≡ ok z → IsInt z
unfolding magnitude
magnitude-IsInt true s z e = ground arith
magnitude-IsInt false s z e = ground arith

signed-IsInt : (s : Bytes) (z : ℤ) → signed s ≡ ok z → IsInt z
signed-IsInt [] z e = cc
signed-IsInt (c ∷ s) z e =
    ground
      (arith, magnitude-IsInt true s z, magnitude-IsInt false s z, magnitude-IsInt false (c ∷ s) z)

pub stoi-IsInt : (s : Bytes) (z : ℤ) → stoi s ≡ ok z → IsInt z
unfolding stoi
stoi-IsInt s z e = signed-IsInt (skip_space s) z e
