-- ===== src/Base/Results.antt =====
-- Fallible code: C++ exceptions, undefined behaviour, and reads that never return.
use mathlib.Core.Path.{◌≡◌, refl}
use mathlib.Core.Logic.{◌⊎◌, inl, inr}
use mathlib.Core.Bool.{Bool, true, false}
use mathlib.Core.List.{List}
use mathlib.Core.Option.{Option, none, some}
use Prim.Native.Nat.{ℕ}

pub data Error : Type 0 where
  -- `std::invalid_argument`, `std::out_of_range`
  invalid_argument out_of_range : Error
  -- `Util::Exception` and its subclasses, with the text of `what()`
  exception : List ℕ → Error
  -- undefined behaviour: an index out of bounds, an overflow of `int`, an unset variable
  undefined : Error
  -- a read that waits for bytes that nobody sends
  blocked : Error
  -- a loop that has used up its fuel
  diverges : Error

-- What code returns, or the error that it meets.
pub data Result {ℓ} (A : Type ℓ) : Type ℓ where
  err : Error → Result A
  ok : A → Result A

-- What `catch (...)` catches.
abbrev pub is_exception : Error → Bool
is_exception undefined = false
is_exception blocked = false
is_exception diverges = false
is_exception _ = true

module _ {ℓ κ} {A : Type ℓ} {B : Type κ} where
  infixl 5 ◌>>=◌ ◌>>◌
  abbrev pub ◌>>=◌ : Result A → (A → Result B) → Result B
  ok value >>= rest = rest value
  err e >>= rest = err e

  -- the value is not used
  abbrev pub ◌>>◌ : Result A → Result B → Result B
  first >> second = first >>= λ _. second

-- An element of a vector by `[i]`: out of bounds it is undefined.
abbrev pub index {ℓ} : {A : Type ℓ} → Option A → Result A
index none = err undefined
index (some a) = ok a

-- An element of a container by `at(i)`: out of bounds it throws.
abbrev pub at {ℓ} : {A : Type ℓ} → Option A → Result A
at none = err out_of_range
at (some a) = ok a

pub Result-cases {ℓ} :
    {A : Type ℓ} (r : Result A) → ((a : A) × (r ≡ ok a)) ⊎ ((e : Error) × (r ≡ err e))
Result-cases (ok a) = inl (a, refl)
Result-cases (err e) = inr (e, refl)

-- A chain that returns has returned at each link.
pub returned_at {ℓ κ} :
    {A : Type ℓ} {B : Type κ} (first : Result A) (rest : A → Result B) {b : B}
    → (first >>= rest) ≡ ok b
    → (a : A) × (first ≡ ok a) × (rest a ≡ ok b)
returned_at (err e) rest chain = cc
returned_at (ok a) rest chain = (a, refl, chain)
