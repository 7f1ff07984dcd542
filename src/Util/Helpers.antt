-- ===== src/Util/Helpers.antt =====
-- src/Util/Helpers.hpp: the address of a controller, and lookups in maps.
use kvm_cloud.Base.{◌≡◌, Bool, true, false, none, some, ◌∷◌, ◌++◌, Bytes, Lacks, Result, ok, ◌>>=◌}
use kvm_cloud.Std.Int.{ℤ, IsInt}
use kvm_cloud.Std.Text.{before_char, after_char, before_char-append, after_char-append}
use kvm_cloud.Std.Number.{to_string, stoi, stoi-to_string}
use kvm_cloud.Std.Map.{Order, StdMap, find}

unfoldable pub explode_address : Bytes → Result (Bytes × ℤ)
explode_address addr = stoi (after_char b':' addr) >>= λ port. ok (before_char b':' addr, port)

module _ {ℓ κ} {K : Type ℓ} ⦃o : Order K⦄ {V : Type κ} where
  unfoldable pub map_exists : StdMap K V → K → Bool
  map_exists m key = elim (find key m) [ none ↦ false | some _ ↦ true ]

-- An address without a colon, followed by a colon and the decimal digits of an `int`, is taken apart
-- into the address and that `int`.
pub explode_address-append :
    (address : Bytes) (port : ℤ)
    → Lacks b':' address
    → IsInt port
    → explode_address (address ++ b':' ∷ to_string port) ≡ ok (address, port)
unfolding explode_address
explode_address-append address port h k = rw (
  after_char-append b':' address (to_string port) h,
  before_char-append b':' address (to_string port) h,
  stoi-to_string port k,
)
