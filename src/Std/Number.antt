-- ===== src/Std/Number.antt =====
-- `std::to_string` and `std::stoi` at `int`.
pub mod Range
use kvm_cloud.Base.{
  ℕ, zero, suc, ◌+◌, ◌-◌, ◌*◌, ◌/◌, ◌%◌, ◌^◌, ◌<◌, ◌≤◌, ◌≡◌, ◌≢◌, refl, ◌∙◌, Bool, true, false,
  ◌&&◌, ◌||◌, [], ◌∷◌, ◌==◌, leb, ltb, Bool-cases, inl, inr, if◌then◌else◌, Bytes, All, codes,
  Result, ok, err, invalid_argument, out_of_range, arith,
}
use kvm_cloud.Std.Int.{ℤ, pos, negsuc, IsInt, negate}

abbrev pub is_digit : ℕ → Bool
is_digit c = leb b'0' c && leb c b'9'

-- `isspace` of the C locale: the blank and the bytes 9 to 13
abbrev pub is_space : ℕ → Bool
is_space c = c == b' ' || (leb 9 c && leb c 13)

-- The digits of `n` in front of `out`; the fuel `n + 1` suffices.
digits : ℕ → ℕ → Bytes → Bytes
digits zero n out = out
digits (suc f) n out = elim (ltb n 10) [
  | true ↦ (b'0' + n) ∷ out
  | false ↦ digits f (n / 10) ((b'0' + n % 10) ∷ out)
]

unfoldable pub to_string : ℤ → Bytes
unfolding digits
to_string (pos n) = digits (n + 1) n []
to_string (negsuc n) = b'-' ∷ digits (n + 2) (n + 1) []

abbrev pub starts_digit : Bytes → Bool
starts_digit [] = false
starts_digit (c ∷ s) = is_digit c

-- The number that the digits in front of the text spell behind `n`.
pub spelled : ℕ → Bytes → ℕ
spelled n [] = n
spelled n (c ∷ s) = if is_digit c then spelled (n * 10 + (c - b'0')) s else n

unfoldable pub skip_space : Bytes → Bytes
skip_space [] = []
skip_space (c ∷ s) = if is_space c then skip_space s else c ∷ s

-- With no digit there is no number; what does not fit an `int` is out of range.
unfoldable pub magnitude : Bool → Bytes → Result ℤ
unfolding spelled
magnitude negative s =
    if starts_digit s
    then (let n = spelled 0 s in
        if negative
        then (if leb n (2 ^ 31) then ok (negate n) else err out_of_range)
        else if ltb n (2 ^ 31)
        then ok (pos n)
        else err out_of_range)
    else err invalid_argument

abbrev pub signed : Bytes → Result ℤ
signed [] = err invalid_argument
signed (c ∷ s) =
    if c == b'-'
    then magnitude true s
    else if c == b'+'
    then magnitude false s
    else magnitude false (c ∷ s)

-- Blanks, a sign, digits; what stands behind the digits is ignored.
unfoldable pub stoi : Bytes → Result ℤ
unfolding magnitude skip_space
stoi s = signed (skip_space s)

spelled-digits : (f n : ℕ) (out : Bytes) → n < f → spelled 0 (digits f n out) ≡ spelled n out
unfolding spelled digits
spelled-digits zero n out h = absurd (omega arith)
spelled-digits (suc f) n out h = ground (arith, spelled-digits f (n / 10) ((b'0' + n % 10) ∷ out))

starts_digit-digits : (f n : ℕ) (out : Bytes) → n < f → starts_digit (digits f n out) ≡ true
unfolding digits
starts_digit-digits zero n out h = absurd (omega arith)
starts_digit-digits (suc f) n out h =
    ground (arith, starts_digit-digits f (n / 10) ((b'0' + n % 10) ∷ out))

starts_digit-to_string : (n : ℕ) → starts_digit (to_string (pos n)) ≡ true
unfolding to_string
starts_digit-to_string n = starts_digit-digits (n + 1) n [] (omega arith)

skip_space-starts_digit : (s : Bytes) → starts_digit s ≡ true → skip_space s ≡ s
unfolding skip_space
skip_space-starts_digit [] h = refl
skip_space-starts_digit (c ∷ s) h = ground arith

signed-starts_digit : (s : Bytes) → starts_digit s ≡ true → signed s ≡ magnitude false s
signed-starts_digit [] h = cc
signed-starts_digit (c ∷ s) h = ground arith

stoi-digits : (s : Bytes) → starts_digit s ≡ true → stoi s ≡ magnitude false s
unfolding stoi
stoi-digits s h = rw (skip_space-starts_digit s h) (signed-starts_digit s h)

stoi-minus : (s : Bytes) → stoi (b'-' ∷ s) ≡ magnitude true s
unfolding stoi
stoi-minus s = refl

-- Every `int` is read back from its text.
pub stoi-to_string : (z : ℤ) → IsInt z → stoi (to_string z) ≡ ok z
unfolding to_string magnitude
stoi-to_string (pos n) h =
    stoi-digits _ (starts_digit-to_string n)
    ∙ ground (
      arith,
      starts_digit-digits (n + 1) n [] (omega arith),
      spelled-digits (n + 1) n [] (omega arith),
    )
stoi-to_string (negsuc n) h =
    stoi-minus (digits (n + 2) (n + 1) [])
    ∙ ground (
      arith,
      starts_digit-digits (n + 2) (n + 1) [] (omega arith),
      spelled-digits (n + 2) (n + 1) [] (omega arith),
    )

pub skip_space-to_string : (z : ℤ) → skip_space (to_string z) ≡ to_string z
unfolding to_string skip_space
skip_space-to_string (pos n) = skip_space-starts_digit _ (starts_digit-to_string n)
skip_space-to_string (negsuc n) = refl

starts_digit-cons : (s : Bytes) → starts_digit s ≡ true → (c : ℕ) × (t : Bytes) × (s ≡ c ∷ t)
starts_digit-cons [] h = cc
starts_digit-cons (c ∷ t) h = (c, t, refl)

-- The text of a number is not empty.
pub to_string-cons : (z : ℤ) → (c : ℕ) × (t : Bytes) × (to_string z ≡ c ∷ t)
unfolding to_string
to_string-cons (pos n) = starts_digit-cons _ (starts_digit-to_string n)
to_string-cons (negsuc n) = (b'-', digits (n + 2) (n + 1) [], refl)

-- The bytes of a number's text: digits and the minus sign.
abbrev pub IsNumeric : ℕ → Type 0
IsNumeric c = (b'-' ≤ c) × (c ≤ b'9') × (c ≢ b'/')

digits-IsNumeric : (f n : ℕ) (out : Bytes) → All IsNumeric out → All IsNumeric (digits f n out)
unfolding digits
digits-IsNumeric zero n out h = h
digits-IsNumeric (suc f) n out h = elim (Bool-cases (ltb n 10)) [
  | inl small ↦ rw (small, digits) (ground arith, h)
  | inr more ↦
      rw (more, digits) (digits-IsNumeric f (n / 10) ((b'0' + n % 10) ∷ out) (omega arith, h))
]

pub to_string-IsNumeric : (z : ℤ) → All IsNumeric (to_string z)
unfolding to_string
to_string-IsNumeric (pos n) = digits-IsNumeric (n + 1) n [] tt
to_string-IsNumeric (negsuc n) = (omega arith, digits-IsNumeric (n + 2) (n + 1) [] tt)

stoi_tests :
    (stoi (codes " \t-42x") ≡ ok (negsuc 41))
    × (stoi (codes "2147483648") ≡ err out_of_range)
    × (stoi (codes "-2147483648") ≡ ok (negsuc 2147483647))
    × (stoi (codes "..") ≡ err invalid_argument)
    × (to_string (negsuc 1023) ≡ codes "-1024")
    × (to_string (pos 0) ≡ codes "0")
unfolding stoi to_string
stoi_tests = (refl, refl, refl, refl, refl, refl)
