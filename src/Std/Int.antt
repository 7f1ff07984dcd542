-- ===== src/Std/Int.antt =====
-- `int`: 32 bits, two's complement. Overflow of `++` is undefined behaviour, as in C++.
use kvm_cloud.Base.{
  ℕ, zero, suc, ◌+◌, ◌-◌, ◌^◌, ◌%◌, ◌<◌, ◌≡◌, Bool, true, false, ltb, ◌==◌, if◌then◌else◌, Result,
  ok, err, undefined, arith,
}

-- `negsuc n` is -(n + 1).
pub data ℤ : Type 0 where
  pos : ℕ → ℤ
  negsuc : ℕ → ℤ

-- The values of an `int`.
abbrev pub IsInt : ℤ → Type 0
IsInt (pos n) = n < 2 ^ 31
IsInt (negsuc n) = n < 2 ^ 31

abbrev pub negate : ℕ → ℤ
negate zero = pos 0
negate (suc n) = negsuc n

abbrev pub int_eq : ℤ → ℤ → Bool
int_eq (pos a) (pos b) = a == b
int_eq (negsuc a) (negsuc b) = a == b
int_eq _ _ = false

abbrev pub int_lt : ℤ → ℤ → Bool
int_lt (pos a) (pos b) = ltb a b
int_lt (negsuc a) (pos b) = true
int_lt (pos a) (negsuc b) = false
int_lt (negsuc a) (negsuc b) = ltb b a

-- The integer behind `a`, with no bound.
abbrev pub succ : ℤ → ℤ
succ (pos n) = pos (n + 1)
succ (negsuc n) = negate n

-- `a + n`, with no bound: the integer `n` steps behind `a`.
unfoldable pub offset : ℤ → ℕ → ℤ
offset a zero = a
offset a (suc n) = offset (succ a) n

-- `++a`
abbrev pub int_incr : ℤ → Result ℤ
int_incr (pos n) = if ltb (n + 1) (2 ^ 31) then ok (pos (n + 1)) else err undefined
int_incr (negsuc n) = ok (negate n)

-- `(bool)a`
abbrev pub to_bool : ℤ → Bool
to_bool (pos n) = ltb 0 n
to_bool (negsuc n) = true

-- `(int)b`
abbrev pub from_bool : Bool → ℤ
from_bool true = pos 1
from_bool false = pos 0

-- The conversion of an `int` to `uint16_t`.
abbrev pub to_u16 : ℤ → ℕ
to_u16 (pos n) = n % 2 ^ 16
to_u16 (negsuc n) = 2 ^ 16 - 1 - n % 2 ^ 16

pub int_incr_lem : (a b : ℤ) → int_incr a ≡ ok b → b ≡ succ a
int_incr_lem a b h = ground arith

pub to_bool-from_bool : (b : Bool) → to_bool (from_bool b) ≡ b
to_bool-from_bool b = ground arith
