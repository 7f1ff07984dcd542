-- ===== src/Std/Text.antt =====
-- `std::string`: comparison, `find` of one character, `substr`.
use kvm_cloud.Base.{
  ℕ, suc, ◌≡◌, ◌↔◌, refl, Bool, true, false, ◌&&◌, Option, none, some, [], ◌∷◌, ◌++◌, ◌==◌,
  if◌then◌else◌, Bytes, Lacks, length, take, drop, arith,
}

-- `s == t`
unfoldable pub str_eq : Bytes → Bytes → Bool
str_eq [] [] = true
str_eq (x ∷ xs) (y ∷ ys) = x == y && str_eq xs ys
str_eq _ _ = false

-- `s.find(c)` for one character; `none` is `npos`
unfoldable pub find_char : ℕ → Bytes → Option ℕ
find_char c [] = none
find_char c (x ∷ s) =
    if x == c then some 0 else elim (find_char c s) [ none ↦ none | some i ↦ some (suc i) ]

-- `s.substr(0, s.find(c))`: the count `npos` takes all
unfoldable pub before_char : ℕ → Bytes → Bytes
unfolding find_char
before_char c s = elim (find_char c s) [ none ↦ s | some i ↦ take i s ]

-- `s.substr(s.find(c) + 1)`: `npos + 1` is 0
unfoldable pub after_char : ℕ → Bytes → Bytes
unfolding find_char
after_char c s = elim (find_char c s) [ none ↦ s | some i ↦ drop (suc i) s ]

str_eq→≡ : (s t : Bytes) → str_eq s t ≡ true → s ≡ t
unfolding str_eq
str_eq→≡ [] [] h = refl
str_eq→≡ [] (y ∷ t) h = cc
str_eq→≡ (x ∷ s) [] h = cc
str_eq→≡ (x ∷ s) (y ∷ t) h = ground (arith, str_eq→≡ s t)

pub str_eq_refl : (s : Bytes) → str_eq s s ≡ true
unfolding str_eq
str_eq_refl [] = refl
str_eq_refl (x ∷ s) = ground (arith, str_eq_refl s)

pub str_eq_iff : (s t : Bytes) → (str_eq s t ≡ true) ↔ (s ≡ t)
str_eq_iff s t = (str_eq→≡ s t, λ e. rw e (str_eq_refl t))

find_char-append : (c : ℕ) (s t : Bytes) → Lacks c s → find_char c (s ++ c ∷ t) ≡ some (length s)
unfolding find_char
find_char-append c [] t h = ground arith
find_char-append c (x ∷ s) t h = ground (arith, find_char-append c s t h.1)

find_char-Lacks : (c : ℕ) (s : Bytes) → Lacks c s → find_char c s ≡ none
unfolding find_char
find_char-Lacks c [] h = refl
find_char-Lacks c (x ∷ s) h = ground (arith, find_char-Lacks c s h.1)

take-length : (s t : Bytes) → take (length s) (s ++ t) ≡ s
take-length [] t = refl
take-length (x ∷ s) t = rw (take-length s t)

drop-length : (c : ℕ) (s t : Bytes) → drop (suc (length s)) (s ++ c ∷ t) ≡ t
drop-length c [] t = refl
drop-length c (x ∷ s) t = drop-length c s t

-- A text is cut at the first `c` that it holds.
pub before_char-append : (c : ℕ) (s t : Bytes) → Lacks c s → before_char c (s ++ c ∷ t) ≡ s
unfolding before_char
before_char-append c s t h = rw (find_char-append c s t h, before_char) (take-length s (c ∷ t))

pub after_char-append : (c : ℕ) (s t : Bytes) → Lacks c s → after_char c (s ++ c ∷ t) ≡ t
unfolding after_char
after_char-append c s t h = rw (find_char-append c s t h, after_char) (drop-length c s t)

-- Without a `c` both parts are the whole text.
pub before_char-Lacks : (c : ℕ) (s : Bytes) → Lacks c s → before_char c s ≡ s
unfolding before_char
before_char-Lacks c s h = rw (find_char-Lacks c s h, before_char)

pub after_char-Lacks : (c : ℕ) (s : Bytes) → Lacks c s → after_char c s ≡ s
unfolding after_char
after_char-Lacks c s h = rw (find_char-Lacks c s h, after_char)
