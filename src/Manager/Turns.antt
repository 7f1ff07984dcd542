-- ===== src/Manager/Turns.antt =====
-- The order in which src/manager.cpp asks the controllers: from the one behind the last that was
-- chosen, and round.
use native.Mathlib.Nat.{add_assoc, mod-add-mod, mod-eq_of_lt, add-mod_right}
use native.Mathlib.Decide.{dec_lt}
use kvm_cloud.Base.{ℕ, zero, suc, ◌+◌, ◌-◌, ◌%◌, ◌<◌, ◌≡◌, ◌≢◌, ap, ◌∙◌, arith}
use kvm_cloud.Manager.{advance_modulo}

-- The controller that is asked behind `k` others.
abbrev pub turn : ℕ → ℕ → ℕ → ℕ
turn size base zero = advance_modulo base size
turn size base (suc k) = turn size (advance_modulo base size) k

pub below_suc :
    (Q : ℕ → Type 0) (n : ℕ) → Q 0 → ((j : ℕ) → j < n → Q (suc j)) → (j : ℕ) → j < suc n → Q j
below_suc Q n first later zero h = first
below_suc Q n first later (suc j) h = later j (omega arith)

pub turn-lt : (k size base : ℕ) → 0 < size → turn size base k < size
unfolding advance_modulo
turn-lt zero size base h = grind arith
turn-lt (suc k) size base h = turn-lt k size _ h

-- With at least one controller, the controller that is asked behind `k` others is the one `k + 1`
-- places behind the base, going round.
pub turn-lem : (k size base : ℕ) → 0 < size → turn size base k ≡ (base + k + 1) % size
unfolding advance_modulo
turn-lem zero size base h = ap (λ n. (n + 1) % size) (omega arith)
turn-lem (suc k) size base h =
    turn-lem k size _ h
    ∙ ap (λ n. n % size) (add_assoc ((base + 1) % size) k 1)
    ∙ mod-add-mod (base + 1) size (k + 1)
    ∙ ap (λ n. n % size) (omega arith)

mod-at : (i size base : ℕ) → i < size → base < i → (base + (i - base - 1) + 1) % size ≡ i
mod-at i size base fits ahead = ap (λ n. n % size) (omega arith) ∙ mod-eq_of_lt fits

mod-round :
    (i size base : ℕ)
    → i < size
    → base < size
    → ¬ (base < i)
    → (base + (i + size - base - 1) + 1) % size ≡ i
mod-round i size base fits h behind =
    ap (λ n. n % size) (omega arith) ∙ add-mod_right i size ∙ mod-eq_of_lt fits

-- Nobody has a second turn before all the others had one.
pub turn-ne : (size b j : ℕ) → b < size → suc j < size → turn size b j ≢ b
turn-ne size b j fits few same = elim (dec_lt (b + j + 1) size) [
  | yes ahead ↦
      let at : (b + j + 1) % size ≡ b + j + 1 = mod-eq_of_lt ahead in
      let lem = turn-lem j size b (omega arith) in omega (arith, at, lem, same)
  | no behind ↦
      let at : (b + j + 1) % size ≡ b + j + 1 - size =
        ap (λ n. n % size) (omega arith)
        ∙ add-mod_right (b + j + 1 - size) size
        ∙ mod-eq_of_lt (omega arith) in
      let lem = turn-lem j size b (omega arith) in omega (arith, at, lem, same)
]

-- Behind as many turns as there are places the first is next.
pub turn_round : (n base : ℕ) → base < suc n → turn (suc n) base n ≡ base
turn_round n base h =
    turn-lem n (suc n) base (omega arith)
    ∙ ap (λ i. i % suc n) (omega arith)
    ∙ add-mod_right base (suc n)
    ∙ mod-eq_of_lt h

-- Every place has its turn among as many as there are places.
pub turn_covers :
    (size base i : ℕ) → base < size → i < size → (k : ℕ) × (k < size) × (turn size base k ≡ i)
turn_covers size base i h fits = elim (dec_lt base i) [
  | yes ahead ↦ (
    i - base - 1,
    omega arith,
    turn-lem (i - base - 1) size base (omega arith) ∙ mod-at i size base fits ahead,
  )
  | no behind ↦ (
    i + size - base - 1,
    omega arith,
    turn-lem (i + size - base - 1) size base (omega arith) ∙ mod-round i size base fits h behind,
  )
]
