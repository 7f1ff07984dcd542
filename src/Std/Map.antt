-- ===== src/Std/Map.antt =====
-- `std::map`: its entries in the order of the keys, and the orders of the two key types.
pub mod Keys
pub mod Laws
use kvm_cloud.Base.{
  Bool, true, false, not, ◌||◌, ◌≡◌, Option, none, some, List, [], ◌∷◌, All, if◌then◌else◌,
}

-- A strict total order, which `std::less` is at `int` and `std::string`.
pub record Order {ℓ} (K : Type ℓ) : Type ℓ where
  pub lt : K → K → Bool
  pub lt_irrefl : (a : K) → lt a a ≡ false
  pub lt_trans : (a b c : K) → lt a b ≡ true → lt b c ≡ true → lt a c ≡ true
  pub lt_connex : (a b : K) → lt a b ≡ false → lt b a ≡ false → a ≡ b

abbrev pub StdMap {ℓ κ} : Type ℓ → Type κ → Type (ℓ ⊔ κ)
StdMap K V = List (K × V)

module _ {ℓ} {K : Type ℓ} ⦃o : Order K⦄ where
  -- neither key is less than the other
  abbrev pub same : K → K → Bool
  same a b = not (o.lt a b || o.lt b a)

module _ {ℓ κ} {K : Type ℓ} ⦃o : Order K⦄ {V : Type κ} where
  -- `m.find(k)`; `none` is `m.end()`
  unfoldable pub find : K → StdMap K V → Option V
  find k [] = none
  find k ((j, v) ∷ m) = if same j k then some v else find k m

  -- `m[k] = v`
  unfoldable pub insert : K → V → StdMap K V → StdMap K V
  insert k v [] = (k, v) ∷ []
  insert k v ((j, w) ∷ m) =
      if o.lt j k
      then (j, w) ∷ insert k v m
      else if o.lt k j
      then (k, v) ∷ (j, w) ∷ m
      else (k, v) ∷ m

  -- the order that iteration follows
  abbrev pub IsSorted : StdMap K V → Type 0
  IsSorted [] = Unit
  IsSorted ((k, v) ∷ m) = All (λ p. o.lt k p.0 ≡ true) m × IsSorted m
