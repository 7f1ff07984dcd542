-- ===== src/Manager/Warnings.antt =====
-- `run` and `kill` of src/manager.cpp with the log lines of their branches: the full id of a
-- controller that is not in the list.
use kvm_cloud.Base.{
  ℕ, ◌+◌, ◌≡◌, ◌≢◌, refl, ap, ◌∙◌, Bool, true, false, none, some, List, [], ◌∷◌, ◌++◌, Bytes, codes,
  All, All-append, Lacks, get_elem?, length, length-append, ltb, if◌then◌else◌, Bool-cases, inl,
  inr, Result, ok, err, undefined, ◌>>=◌, arith,
}
use kvm_cloud.Base.Exec.{Exec}
use kvm_cloud.Net.Socket.{write}
use kvm_cloud.Std.Int.{from_bool}
use kvm_cloud.Std.Number.{to_string}
use kvm_cloud.Std.Text.{str_eq}
use kvm_cloud.Util.Logger.{Level, output, buffer_size}
use kvm_cloud.Util.Logger.Overflow.{line, output_lem}
use kvm_cloud.Vm.Proxy.{Answer, Link}
use kvm_cloud.Manager.{ControllerRef, Handler, make_full_id, extract_id_parts, control}
use kvm_cloud.Manager.Ids.{extract_id_parts-make_full_id}
use kvm_cloud.Manager.Named.{Unnamed, other_name, control-Unnamed}

-- `logger->warn("controller with id " + idParts.first + " not found")`
unfoldable pub log_unknown : Bytes → Bytes → Result Bytes
unfolding output
log_unknown time name =
    output Level.info time Level.warn (codes "controller with id " ++ (name ++ codes " not found"))

-- the flag `found`
unfoldable pub is_listed : {P : Type 0} → Bytes → List (ControllerRef P) → Bool
is_listed name [] = false
is_listed name (c ∷ cs) = if str_eq c.id name then true else is_listed name cs

-- The log line of the branch, and the branch. The time is a parameter.
unfoldable pub control_logged :
    {P : Type 0} (answer : Answer P)
    → Bytes
    → (Bytes → Exec (Link P) Bool)
    → List Bytes
    → Handler answer
    → Result (Handler answer)
unfolding log_unknown is_listed
control_logged answer time method commands p = elim (get_elem? commands 1) [
  | none ↦ output Level.info time Level.error (codes "id not provided") >>= λ _.
      control answer method commands p
  | some full_id ↦
      if is_listed (extract_id_parts full_id).0 p.manager.controllers
      then control answer method commands p
      else (log_unknown time (extract_id_parts full_id).0 >>= λ _. control answer method commands p)
]

Unnamed-is_listed :
    {P : Type 0} (name : Bytes) (cs : List (ControllerRef P))
    → All (λ c. c.id ≢ name) cs
    → is_listed name cs ≡ false
unfolding is_listed
Unnamed-is_listed name [] a = refl
Unnamed-is_listed name (c ∷ cs) a = rw (other_name c.id name a.0) (Unnamed-is_listed name cs a.1)

not_found-Lacks :
    (name : Bytes)
    → Lacks 0 name
    → Lacks 0 (codes "controller with id " ++ (name ++ codes " not found"))
not_found-Lacks name h =
    All-append (λ c. c ≢ 0) (codes "controller with id ") (name ++ codes " not found") (omega arith)
      (All-append (λ c. c ≢ 0) name (codes " not found") h (omega arith))

fits : (n k : ℕ) → k ≡ 47 + n → ltb k buffer_size ≡ ltb n 977
fits n k e = ground arith

-- the warning is printed, or overruns the buffer
log_unknown_lem :
    (time name : Bytes)
    → length time ≡ 8
    → Lacks 0 time
    → Lacks 0 name
    → log_unknown time name ≡ (
        if ltb (length name) 977
        then ok (
            line Level.warn time (codes "controller with id " ++ (name ++ codes " not found"))
            ++ codes "\n")
        else err undefined)
unfolding log_unknown
log_unknown_lem time name clock t m =
    let message = codes "controller with id " ++ (name ++ codes " not found") in
    let size : 6 + 4 + length time + length message ≡ 47 + length name = omega (
      arith,
      length-append (codes "controller with id ") (name ++ codes " not found"),
      length-append name (codes " not found"),
    ) in
    output_lem Level.info Level.warn time message t (not_found-Lacks name m)
    ∙ ap (λ b. if b then ok (line Level.warn time message ++ codes "\n") else err undefined)
        (fits (length name) (6 + 4 + length time + length message) size)

module _ {P : Type 0} (answer : Answer P) (method : Bytes → Exec (Link P) Bool) where
  -- For `run` and `kill` of the manager, with the warning that they log, and with a full id whose
  -- server name has no slash and no NUL and is the name of no controller: if the name has at most
  -- 976 bytes, the reply is 0 and no controller is asked; a longer name overruns the buffer of the
  -- log line, which is undefined behaviour. The time in the log line has 8 bytes and no NUL.
  pub control_logged-Unnamed :
      (time cmd name id : Bytes) (more : List Bytes) (p : Handler answer)
      → length time ≡ 8
      → Lacks 0 time
      → Lacks 0 name
      → Lacks b'/' name
      → Unnamed answer method name p.manager.controllers
      → control_logged answer time method (cmd ∷ make_full_id name id ∷ more) p ≡ (
          if ltb (length name) 977
          then ok (record p { socket = write p.socket (to_string (from_bool false)) })
          else err undefined)
  unfolding control_logged
  control_logged-Unnamed time cmd name id more p clock t m plain nobody =
      let cs = p.manager.controllers in
      let parts = extract_id_parts-make_full_id name id plain in
      let unlisted : is_listed (extract_id_parts (make_full_id name id)).0 cs ≡ false =
        ap (λ q. is_listed q.0 cs) parts ∙ Unnamed-is_listed name cs nobody in
      let logged = ap (λ q. log_unknown time q.0) parts ∙ log_unknown_lem time name clock t m in
      let branch = control-Unnamed answer method cmd name id more p plain nobody in
      elim (Bool-cases (ltb (length name) 977)) [
        | inl short ↦ rw (unlisted, logged, short, branch)
        | inr long ↦ rw (unlisted, logged, long)
      ]
