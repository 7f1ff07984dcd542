-- ===== src/Base/Exec.antt =====
-- Code that changes a state and may fail. What was changed before a failure stays changed, so the
-- state comes back beside the error too.
use mathlib.Core.Path.{◌≡◌, ap}
use kvm_cloud.Base.Results.{Error, Result, ok, err, is_exception}
use kvm_cloud.Base.Tests.{if◌then◌else◌}

abbrev pub Exec {ℓ} : Type ℓ → Type ℓ → Type ℓ
Exec S A = S → Result A × S

module _ {ℓ} {S A : Type ℓ} where
  abbrev pub pure : A → Exec S A
  pure a s = (ok a, s)

  abbrev pub raise : Error → Exec S A
  raise e s = (err e, s)

  abbrev pub lift : Result A → Exec S A
  lift r s = (r, s)

  abbrev pub gets : (S → A) → Exec S A
  gets f s = (ok (f s), s)

  -- a step that always returns
  abbrev pub steps : (S → A × S) → Exec S A
  steps f s = let (a, s') = f s in (ok a, s')

  abbrev pub handled : Result A → Exec S A → Exec S A
  handled (ok a) h s = (ok a, s)
  handled (err e) h s = if is_exception e then h s else (err e, s)

  -- `try { m } catch (...) { h }`; undefined behaviour and waiting are no exceptions
  abbrev pub catch_all : Exec S A → Exec S A → Exec S A
  catch_all m h s = handled (m s).0 h (m s).1

module _ {ℓ} {S : Type ℓ} where
  abbrev pub modify : (S → S) → S → Result (Unit {ℓ}) × S
  modify f s = (ok tt, f s)

module _ {ℓ} {S A B : Type ℓ} where
  abbrev continue : Result A → (A → Exec S B) → Exec S B
  continue (ok a) f s = f a s
  continue (err e) f s = (err e, s)

  infixl 5 ◌>>=◌ ◌>>◌
  abbrev pub ◌>>=◌ : Exec S A → (A → Exec S B) → Exec S B
  ◌>>=◌ m f s = continue (m s).0 f (m s).1

  abbrev pub ◌>>◌ : Exec S A → Exec S B → Exec S B
  m >> n = m >>= λ _. n

  -- A step that returns is followed by the rest, one that fails by nothing.
  pub >>=-ok :
      (m : Exec S A) (f : A → Exec S B) {a : A} {s s' : S} → m s ≡ (ok a, s') → (m >>= f) s ≡ f a s'
  >>=-ok m f e = ap (λ r. continue r.0 f r.1) e

  pub >>=-err :
      (m : Exec S A) (f : A → Exec S B) {e : Error} {s s' : S}
      → m s ≡ (err e, s')
      → (m >>= f) s ≡ (err e, s')
  >>=-err m f e = ap (λ r. continue r.0 f r.1) e

-- What has thrown has not returned.
pub err-ne-ok {ℓ κ} :
    {A : Type ℓ} {S : Type κ} {x : Error} {a : A} {s t : S}
    → ◌≡◌ {A = Result A × S} (err x, s) (ok a, t)
    → ⊥
err-ne-ok e = cc
