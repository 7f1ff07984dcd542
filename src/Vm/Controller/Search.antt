-- ===== src/Vm/Controller/Search.antt =====
-- The two searches of src/Vm/Controller.hpp, `findNextId` and `findNextPort`: they stop at the first
-- free number, and there is a free port within 65536 steps.
use kvm_cloud.Base.{
  ℕ, zero, suc, ◌+◌, ◌-◌, ◌%◌, ◌^◌, ◌<◌, ◌≡◌, refl, ap, ◌∙◌, Bool, true, false, not, ok, Bool-cases,
  inl, inr, arith,
}
use kvm_cloud.Std.Int.{ℤ, pos, negsuc, IsInt, succ, offset, int_incr, to_u16}
use kvm_cloud.Sys.Host.{Host, HostLaws}
use kvm_cloud.Vm.Controller.{
  Node, skip_taken, int_values, is_port_free, id_taken, find_next_id, find_next_port,
}

-- The place of an `int` among all of them, from the least.
abbrev pub rank : ℤ → ℕ
rank (pos n) = 2 ^ 31 + n
rank (negsuc n) = 2 ^ 31 - 1 - n

-- `z + n` is an `int` too.
abbrev pub Fits : ℤ → ℕ → Type 0
Fits z n = IsInt z × (rank z + n < int_values)

succ-IsInt : (z : ℤ) (n : ℕ) → Fits z (suc n) → Fits (succ z) n
succ-IsInt (pos k) n h = omega arith
succ-IsInt (negsuc zero) n h = omega arith
succ-IsInt (negsuc (suc k)) n h = omega arith

int_incr-succ : (z : ℤ) (n : ℕ) → Fits z (suc n) → int_incr z ≡ ok (succ z)
int_incr-succ (pos k) n h = ground arith
int_incr-succ (negsuc k) n h = refl

-- The first number from `z` on that is not taken.
pub record IsFirstFree (taken : ℤ → Bool) (z r : ℤ) : Type 0 where
  pub steps : ℕ
  pub place : r ≡ offset z steps
  pub free : taken r ≡ false
  pub passed : (j : ℕ) → j < steps → taken (offset z j) ≡ true

passed_suc :
    (taken : ℤ → Bool) (z : ℤ) (n : ℕ)
    → taken z ≡ true
    → ((j : ℕ) → j < n → taken (offset (succ z) j) ≡ true)
    → (j : ℕ) → j < suc n
    → taken (offset z j) ≡ true
unfolding offset
passed_suc taken z n first later zero h = first
passed_suc taken z n first later (suc j) h = later j (omega arith)

IsFirstFree-here : (taken : ℤ → Bool) (z : ℤ) → taken z ≡ false → IsFirstFree taken z z
unfolding offset
IsFirstFree-here taken z e = record {
  steps = 0;
  place = refl;
  free = e;
  passed = λ j h. elim h [ ];
}

IsFirstFree-later :
    (taken : ℤ → Bool) (z r : ℤ)
    → taken z ≡ true
    → IsFirstFree taken (succ z) r
    → IsFirstFree taken z r
unfolding offset
IsFirstFree-later taken z r e f = record {
  steps = suc f.steps;
  place = f.place;
  free = f.free;
  passed = passed_suc taken z f.steps e f.passed;
}

-- With a free number in reach and the fuel to get there, the loop returns the first free one.
skip_taken_lem :
    (n f : ℕ) (taken : ℤ → Bool) (z : ℤ)
    → n < f
    → Fits z n
    → taken (offset z n) ≡ false
    → (r : ℤ) × (skip_taken f taken z ≡ ok r) × IsFirstFree taken z r
unfolding skip_taken offset
skip_taken_lem n zero taken z lt fits e = absurd (omega arith)
skip_taken_lem zero (suc f) taken z lt fits e = (z, rw (e, skip_taken), IsFirstFree-here taken z e)
skip_taken_lem (suc n) (suc f) taken z lt fits e = elim (Bool-cases (taken z)) [
  | inl busy ↦
      let (r, found, first) =
        skip_taken_lem n f taken (succ z) (omega arith) (succ-IsInt z n fits) e in
      (
        r,
        rw (busy, int_incr-succ z n fits, skip_taken) found,
        IsFirstFree-later taken z r busy first,
      )
  | inr free ↦ (z, rw (free, skip_taken), IsFirstFree-here taken z free)
]

to_u16-succ : (z : ℤ) (n : ℕ) → Fits z (suc n) → to_u16 (succ z) ≡ (to_u16 z + 1) % 2 ^ 16
to_u16-succ (pos k) n h = omega arith
to_u16-succ (negsuc zero) n h = refl
to_u16-succ (negsuc (suc k)) n h = omega arith

to_u16-offset : (n : ℕ) (z : ℤ) → Fits z n → to_u16 (offset z n) ≡ (to_u16 z + n) % 2 ^ 16
unfolding offset
to_u16-offset zero (pos k) h = omega arith
to_u16-offset zero (negsuc k) h = omega arith
to_u16-offset (suc n) z h =
    omega (arith, to_u16-offset n (succ z) (succ-IsInt z n h), to_u16-succ z n h)

to_u16-lt : (z : ℤ) → to_u16 z < 2 ^ 16
to_u16-lt (pos k) = omega arith
to_u16-lt (negsuc k) = omega arith

module _ (h : Host) where
  -- If an id at `base` or at most `k` behind it is free and these are `int`s, `findNextId` returns
  -- the first free id from `base` on: it names no directory and no instance, and every id that it
  -- passed does.
  pub find_next_id_lem :
      (n : Node h) (base : ℤ) (k : ℕ)
      → Fits base k
      → id_taken h n (offset base k) ≡ false
      → (id : ℤ) × (find_next_id h n base ≡ ok id) × IsFirstFree (id_taken h n) base id
  unfolding find_next_id
  find_next_id_lem n base k fits free =
      skip_taken_lem k int_values (id_taken h n) base (omega arith) fits free

  not-not-false : {b : Bool} → not b ≡ false → b ≡ true
  not-not-false e = ground arith

  port_zero_free :
      (laws : HostLaws h) (s : h.State) (z : ℤ) → to_u16 z ≡ 0 → not (is_port_free h s z) ≡ false
  port_zero_free laws s z e =
      ap (λ p. not (not (h.listening s p))) e ∙ ap (λ b. not (not b)) (laws.port_zero s)

  port_search :
      (laws : HostLaws h) (s : h.State) (z : ℤ)
      → Fits z 65536
      → (port : ℤ) × (skip_taken int_values (λ p. not (is_port_free h s p)) z ≡ ok port)
        × IsFirstFree (λ p. not (is_port_free h s p)) z port
  port_search laws s z fits =
      let k = 2 ^ 16 - to_u16 z in
      let near : Fits z k = (fits.0, omega (arith, fits.1)) in
      let wraps : to_u16 (offset z k) ≡ 0 = omega (arith, to_u16-offset k z near, to_u16-lt z) in
      skip_taken_lem k int_values (λ p. not (is_port_free h s p)) z (omega arith) near
        (port_zero_free laws s (offset z k) wraps)

  -- Behind a `base` that is at least 65537 below the end of the `int`s, and if nothing listens on
  -- port 0, `findNextPort` ends and returns the first free port behind `base`.
  pub find_next_port_lem :
      (laws : HostLaws h) (n : Node h) (base : ℤ)
      → Fits base 65537
      → (port : ℤ) × (find_next_port h n base ≡ ok port)
        × IsFirstFree (λ z. not (is_port_free h n.host z)) (succ base) port
        × (is_port_free h n.host port ≡ true)
  unfolding find_next_port
  find_next_port_lem laws n base fits =
      let (port, found, first) = port_search laws n.host (succ base) (succ-IsInt base 65536 fits) in
      (port, rw (int_incr-succ base 65536 fits) found, first, not-not-false first.free)
