-- ===== src/Std/Map/Keys.antt =====
-- The orders of `int` and of `std::string`, which compares bytes.
use kvm_cloud.Base.{Bool, true, false, ◌≡◌, refl, [], ◌∷◌, ltb, if◌then◌else◌, Bytes, arith}
use kvm_cloud.Std.Int.{ℤ, int_lt}
use kvm_cloud.Std.Map.{Order}

pub int_lt_irrefl : (a : ℤ) → int_lt a a ≡ false
int_lt_irrefl a = ground arith

pub int_lt_trans : (a b c : ℤ) → int_lt a b ≡ true → int_lt b c ≡ true → int_lt a c ≡ true
int_lt_trans a b c h k = ground arith

pub int_lt_connex : (a b : ℤ) → int_lt a b ≡ false → int_lt b a ≡ false → a ≡ b
int_lt_connex a b h k = ground arith

instance abbrev pub int_order : Order ℤ
int_order = record {
  lt = int_lt;
  lt_irrefl = int_lt_irrefl;
  lt_trans = int_lt_trans;
  lt_connex = int_lt_connex;
}

unfoldable pub str_lt : Bytes → Bytes → Bool
str_lt [] [] = false
str_lt [] (y ∷ t) = true
str_lt (x ∷ s) [] = false
str_lt (x ∷ s) (y ∷ t) = if ltb x y then true else if ltb y x then false else str_lt s t

pub str_lt_irrefl : (s : Bytes) → str_lt s s ≡ false
unfolding str_lt
str_lt_irrefl [] = refl
str_lt_irrefl (x ∷ s) = ground (arith, str_lt_irrefl s)

pub str_lt_trans : (s t u : Bytes) → str_lt s t ≡ true → str_lt t u ≡ true → str_lt s u ≡ true
unfolding str_lt
str_lt_trans [] [] u h k = cc
str_lt_trans (x ∷ s) [] u h k = cc
str_lt_trans [] (y ∷ t) [] h k = cc
str_lt_trans (x ∷ s) (y ∷ t) [] h k = cc
str_lt_trans [] (y ∷ t) (z ∷ u) h k = refl
str_lt_trans (x ∷ s) (y ∷ t) (z ∷ u) h k = ground (arith, str_lt_trans s t u)

pub str_lt_connex : (s t : Bytes) → str_lt s t ≡ false → str_lt t s ≡ false → s ≡ t
unfolding str_lt
str_lt_connex [] [] h k = refl
str_lt_connex [] (y ∷ t) h k = cc
str_lt_connex (x ∷ s) [] h k = cc
str_lt_connex (x ∷ s) (y ∷ t) h k = ground (arith, str_lt_connex s t)

instance abbrev pub bytes_order : Order Bytes
bytes_order = record {
  lt = str_lt;
  lt_irrefl = str_lt_irrefl;
  lt_trans = str_lt_trans;
  lt_connex = str_lt_connex;
}
