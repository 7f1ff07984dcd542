-- ===== src/Thread/Progress.antt =====
-- How a thread that waits for the mutex of src/Thread/ScopedLock.hpp comes to enter its section.
use kvm_cloud.Base.{ℕ, ◌≡◌, ◌≢◌, refl, sym, ap, ◌∙◌, List, [], ◌∷◌, ◌++◌, append-nil}
use kvm_cloud.Thread.Mutex.{unlocked, unlock}
use kvm_cloud.Thread.Sections.{
  Access, Pc, System, update, Step, enter, act, leave, entered, Reach, next,
}
use kvm_cloud.Thread.Serial.{
  owned, left, free, held, lock-unlocked, unlock-owned, update_self, update_ne, not_outside,
  Reach-Tidy,
}

-- Every access returns.
abbrev pub Returning : {S : Type 0} → List (Access S) → Type 0
Returning [] = Unit
Returning (Access.does access ∷ work) = Returning work
Returning (Access.waits ∷ work) = ⊥

module _ {S : Type 0} (initial : S) (i : ℕ) (work : List (Access S)) where
  -- a state in which thread `i` waits and the mutex is free
  record Ready (log : List (List (Access S))) : Type 0 where
    state : System S
    reached : Reach initial state log
    mutex_free : state.mutex ≡ unlocked
    waits : state.pc i ≡ Pc.wants work

  -- the step of another thread, which enters no section
  quiet_step :
      {s t : System S} {log : List (List (Access S))} (k : ℕ) (step : Step s k t)
      → entered step ≡ []
      → Reach initial s log
      → Reach initial t log
  quiet_step {s} {t} {log} k step none_entered r = rw (none_entered, append-nil) at (next k r step)

  owner_first :
      (pc : ℕ → Pc S) (k : ℕ) (rest : List (Access S))
      → pc k ≡ Pc.inside rest
      → pc i ≡ Pc.wants work
      → k ≢ i
  owner_first pc k rest here waits same = not_outside (ap pc (sym same) ∙ here) (ap left waits)

  finish :
      (rest : List (Access S)) (k : ℕ) {s : System S} {log : List (List (Access S))}
      → Returning rest
      → s.mutex ≡ owned k
      → s.pc k ≡ Pc.inside rest
      → s.pc i ≡ Pc.wants work
      → Reach initial s log
      → Ready log
  finish [] k {s} returning m here waits r = record {
    state = record s { mutex = unlock k s.mutex; pc = update s.pc k Pc.idle };
    reached = quiet_step k (leave here) refl r;
    mutex_free = unlock-owned k s.mutex m;
    waits = update_ne s.pc k i Pc.idle (owner_first s.pc k [] here waits) ∙ waits;
  }
  finish (Access.does access ∷ rest) k {s} returning m here waits r =
      let whole = Access.does access ∷ rest in
      finish rest k {s = record s { shared = access s.shared; pc = update s.pc k (Pc.inside rest) }}
        returning m (update_self s.pc k (Pc.inside rest))
        (update_ne s.pc k i (Pc.inside rest) (owner_first s.pc k whole here waits) ∙ waits)
        (quiet_step k (act access rest here) refl r)
  finish (Access.waits ∷ rest) k returning m here waits r = absurd returning

  ready :
      {s : System S} {log : List (List (Access S))}
      → ((k : ℕ) (rest : List (Access S)) → s.pc k ≡ Pc.inside rest → Returning rest)
      → s.pc i ≡ Pc.wants work
      → Reach initial s log
      → Ready log
  ready {s} {log} returning waits r = elim (Reach-Tidy r) [
    | free m out shared ↦ record { state = s; reached = r; mutex_free = m; waits = waits }
    | held k rest m here out shared ↦ finish rest k (returning k rest here) m here waits r
  ]

  -- From every state that is reached, a thread that waits for the mutex can enter its section next:
  -- there are steps that enter no section before it, and put it inside. The condition: whatever
  -- accesses a thread in a section still has to make, each of them returns.
  pub waiting_enters :
      {s : System S} {log : List (List (Access S))}
      → Reach initial s log
      → s.pc i ≡ Pc.wants work
      → ((k : ℕ) (rest : List (Access S)) → s.pc k ≡ Pc.inside rest → Returning rest)
      → (t : System S) × Reach initial t (log ++ work ∷ []) × (t.pc i ≡ Pc.inside work)
  waiting_enters {log = log} r waits returning =
      let x = ready returning waits r in
      (
        record x.state { mutex = owned i; pc = update x.state.pc i (Pc.inside work) },
        next i x.reached
            (enter work (owned i) x.waits (lock-unlocked i x.state.mutex x.mutex_free)),
        update_self x.state.pc i (Pc.inside work),
      )
