-- ===== src/Net/Stream/Ends.antt =====
-- Every read of src/Net ends: it returns, or it waits for bytes. And a read returns only behind an
-- empty line.
use kvm_cloud.Base.{ℕ, ◌≡◌, length, Result, ok, err, blocked}
use kvm_cloud.Net.Stream.{Buffer}

-- The result is a value that satisfies `P`, or the read waits.
abbrev pub Ends {ℓ} : {A : Type ℓ} → (A → Type 0) → Result A → Type 0
Ends P (ok a) = P a
Ends P (err e) = e ≡ blocked

-- the number of bytes still to come
abbrev left : Buffer → ℕ
left b = length b.stream
