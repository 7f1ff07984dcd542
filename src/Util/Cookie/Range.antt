-- ===== src/Util/Cookie/Range.antt =====
-- What is read from a cookie as a number is an `int`, whatever the file holds.
use kvm_cloud.Base.{
  ◌≡◌, Bool, [], ◌∷◌, Bytes, ok, err, Error, out_of_range, returned_at, Result-cases, inl, inr,
  ◌==◌, arith,
}
use kvm_cloud.Std.Int.{ℤ, IsInt}
use kvm_cloud.Std.Number.{stoi, skip_space}
use kvm_cloud.Std.Number.Range.{stoi-IsInt}
use kvm_cloud.Sys.Host.{Host}
use kvm_cloud.Util.Cookie.{stored, extracted, extract_int, open_cookie, read_int}

stored-err : (negative : Bool) (x : Error) → IsInt (stored negative (err x))
stored-err negative out_of_range = ground arith
stored-err negative _ = omega arith

stored-IsInt : (negative : Bool) (s : Bytes) → IsInt (stored negative (stoi s))
stored-IsInt negative s = elim (Result-cases (stoi s)) [
  | inl (z, e) ↦ rw e (stoi-IsInt s z e)
  | inr (x, e) ↦ rw e (stored-err negative x)
]

extracted-IsInt : (s : Bytes) (z : ℤ) → extracted s ≡ ok z → IsInt z
extracted-IsInt [] z e = cc
extracted-IsInt (c ∷ s) z e =
    let same : stored (c == b'-') (stoi (c ∷ s)) ≡ z = cc in
    rw (← same) (stored-IsInt (c == b'-') (c ∷ s))

extract_int-IsInt : (text : Bytes) (z : ℤ) → extract_int text ≡ ok z → IsInt z
unfolding extract_int
extract_int-IsInt text z e = extracted-IsInt (skip_space text) z e

module _ (h : Host) where
  pub read_int-IsInt : (s : h.State) (cookie : Bytes) (z : ℤ) → read_int h s cookie ≡ ok z → IsInt z
  unfolding read_int
  read_int-IsInt s cookie z e =
      let (text, _, read) = returned_at (open_cookie h s cookie) extract_int e in
      extract_int-IsInt text z read
