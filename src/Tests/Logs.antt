-- ===== src/Tests/Logs.antt =====
-- Log lines at a fixed time.
use kvm_cloud.Base.{
  ℕ, suc, zero, ◌≤◌, ◌≡◌, ◌↔◌, refl, [], ◌∷◌, Bytes, codes, Lacks, length, err, undefined, arith,
}
use kvm_cloud.Util.Logger.{log_request}
use kvm_cloud.Util.Logger.Overflow.{log_request_overflow}

abbrev noon : Bytes
noon = codes "12:00:00"

abbrev repeated : ℕ → Bytes
repeated zero = []
repeated (suc n) = b'a' ∷ repeated n

repeated-Lacks : (n : ℕ) → Lacks 0 (repeated n)
repeated-Lacks zero = tt
repeated-Lacks (suc n) = (omega arith, repeated-Lacks n)

log_request_overflow_example :
    (log_request noon (repeated 1000) ≡ err undefined) ↔ (986 ≤ length (repeated 1000))
log_request_overflow_example =
    log_request_overflow noon (repeated 1000) refl (omega arith) (repeated-Lacks 1000)
