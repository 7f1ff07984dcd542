-- ===== src/Util/Cookie/Saved.antt =====
-- Cookies of src/Util/Cookie.hpp that were written: what is read from them.
use kvm_cloud.Base.{◌≡◌, refl, sym, ap, ◌∙◌, some, [], ◌∷◌, Bytes, Lacks, ok, ◌>>=◌, arith}
use kvm_cloud.Std.Int.{ℤ, IsInt}
use kvm_cloud.Std.Number.{to_string, stoi, stoi-to_string, skip_space-to_string, to_string-cons}
use kvm_cloud.Sys.Host.{Host}
use kvm_cloud.Util.Cookie.{opened, first_line, extract_int, read, read_int}

first_line-Lacks : (text : Bytes) → Lacks b'\n' text → first_line text ≡ text
unfolding first_line
first_line-Lacks [] h = refl
first_line-Lacks (c ∷ text) h = ground (arith, first_line-Lacks text h.1)

extract_int-to_string : (z : ℤ) → IsInt z → extract_int (to_string z) ≡ ok z
unfolding extract_int
extract_int-to_string z h =
    let (c, t, e) = to_string-cons z in
    let again : stoi (c ∷ t) ≡ ok z = sym (ap stoi e) ∙ stoi-to_string z h in
    rw (skip_space-to_string z ∙ e, again, extract_int)

module _ (h : Host) where
  -- A file that holds a text of one line is read as that text.
  pub read-Lacks :
      (s : h.State) (cookie text : Bytes)
      → h.read_file s cookie ≡ some text
      → Lacks b'\n' text
      → read h s cookie ≡ ok text
  unfolding read
  read-Lacks s cookie text e plain =
      ap (λ o. opened o >>= λ t. ok (first_line t)) e ∙ ap ok (first_line-Lacks text plain)

  -- A file that holds the digits of an `int` is read as that `int`.
  pub read_int-to_string :
      (s : h.State) (cookie : Bytes) (z : ℤ)
      → h.read_file s cookie ≡ some (to_string z)
      → IsInt z
      → read_int h s cookie ≡ ok z
  unfolding read_int
  read_int-to_string s cookie z e fits =
      ap (λ o. opened o >>= extract_int) e ∙ extract_int-to_string z fits
