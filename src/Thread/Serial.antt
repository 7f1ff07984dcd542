-- ===== src/Thread/Serial.antt =====
-- Mutual exclusion, and that the sections of a mutex act one after the other.
use native.Mathlib.Decide.{ℕ_discrete}
use kvm_cloud.Base.{
  ℕ, ◌≡◌, ◌≢◌, refl, sym, ap, ◌∙◌, inl, inr, Option, none, some, List, [], ◌∷◌, ◌++◌, append-nil,
  ◌==◌, Bool-cases, arith,
}
use kvm_cloud.Thread.Mutex.{Mutex, unlocked, lock, unlock}
use kvm_cloud.Thread.Sections.{
  Access, Pc, System, update, Step, ask, enter, act, leave, entered, Reach, begin, next,
}

-- What an access does to the shared state; a read that does not return has no part in that.
abbrev pub run_access : {S : Type 0} → Access S → S → S
run_access (Access.does access) s = access s
run_access Access.waits s = s

-- one access after the other
abbrev pub run_section : {S : Type 0} → List (Access S) → S → S
run_section [] s = s
run_section (access ∷ work) s = run_section work (run_access access s)

-- one section after the other
abbrev pub run_sections : {S : Type 0} → List (List (Access S)) → S → S
run_sections [] s = s
run_sections (work ∷ log) s = run_sections log (run_section work s)

run_sections-append :
    {S : Type 0} (log : List (List (Access S))) (work : List (Access S)) (s : S)
    → run_sections (log ++ work ∷ []) s ≡ run_section work (run_sections log s)
run_sections-append [] work s = refl
run_sections-append (first ∷ log) work s = run_sections-append log work (run_section first s)

-- thread `i` owns the mutex
abbrev pub owned : ℕ → Mutex
owned i = record { owner = some i; depth = 1 }

lock_free : (i : ℕ) (m m' : Mutex) → m ≡ unlocked → lock i m ≡ some m' → m' ≡ owned i
unfolding lock
lock_free i m m' e l = ground arith

pub lock-unlocked : (i : ℕ) (m : Mutex) → m ≡ unlocked → lock i m ≡ some (owned i)
unfolding lock
lock-unlocked i m e = ground arith

lock-owned : (i j : ℕ) (m m' : Mutex) → m ≡ owned i → i ≢ j → lock j m ≡ some m' → ⊥
unfolding lock
lock-owned i j m m' e ne l = ground arith

pub unlock-owned : (i : ℕ) (m : Mutex) → m ≡ owned i → unlock i m ≡ unlocked
unfolding unlock
unlock-owned i m e = ground arith

module _ {S : Type 0} where
  -- the accesses that a thread in a section has left
  abbrev pub left : Pc S → Option (List (Access S))
  left Pc.idle = none
  left (Pc.wants work) = none
  left (Pc.inside work) = some work

  -- Nobody is in a section, or the owner of the mutex alone is; and what it has left leads to the
  -- state that the sections give one after the other.
  pub data Tidy (initial : S) (s : System S) (log : List (List (Access S))) : Type 0 where
    free :
        s.mutex ≡ unlocked
        → ((i : ℕ) → left (s.pc i) ≡ none)
        → s.shared ≡ run_sections log initial
        → Tidy initial s log
    held :
        (i : ℕ) (work : List (Access S))
        → s.mutex ≡ owned i
        → s.pc i ≡ Pc.inside work
        → ((j : ℕ) → i ≢ j → left (s.pc j) ≡ none)
        → run_section work s.shared ≡ run_sections log initial
        → Tidy initial s log

  pub update_self : (pc : ℕ → Pc S) (i : ℕ) (p : Pc S) → update pc i p i ≡ p
  update_self pc i p = ground arith

  pub update_ne : (pc : ℕ → Pc S) (i j : ℕ) (p : Pc S) → i ≢ j → update pc i p j ≡ pc j
  update_ne pc i j p ne = elim (Bool-cases (i == j)) [
    | inl same ↦ absurd (ne (ground arith))
    | inr other ↦ rw other
  ]

  -- a thread that stays outside
  left_outside :
      (pc : ℕ → Pc S) (i j : ℕ) (p : Pc S)
      → left p ≡ none
      → (i ≢ j → left (pc j) ≡ none)
      → left (update pc i p j) ≡ none
  left_outside pc i j p here there = elim (ℕ_discrete i j) [
    | yes same ↦ rw (← same) (ap left (update_self pc i p) ∙ here)
    | no ne ↦ ap left (update_ne pc i j p ne) ∙ there ne
  ]

  pub not_outside : {p : Pc S} {work : List (Access S)} → p ≡ Pc.inside work → left p ≡ none → ⊥
  not_outside e out = cc

  -- the thread that is inside is the owner
  insider :
      (s : System S) (i j : ℕ) (work : List (Access S))
      → ((k : ℕ) → i ≢ k → left (s.pc k) ≡ none)
      → s.pc j ≡ Pc.inside work
      → i ≡ j
  insider s i j work others e = elim (ℕ_discrete i j) [
    | yes same ↦ same
    | no ne ↦ absurd (not_outside e (others j ne))
  ]

  Step-Tidy :
      (initial : S) {s : System S} (log : List (List (Access S))) {i : ℕ} {t : System S}
      (step : Step s i t)
      → Tidy initial s log
      → Tidy initial t (log ++ entered step)
  Step-Tidy initial {s} log {i} (ask work e) (free m out shared) =
      free m (λ j. left_outside s.pc i j (Pc.wants work) refl (λ _. out j))
        (shared ∙ ap (λ l. run_sections l initial) (sym (append-nil log)))
  Step-Tidy initial {s} log {i} (enter work m e l) (free u out shared) =
      held i work (lock_free i s.mutex m u l) (update_self s.pc i (Pc.inside work))
        (λ j ne. ap left (update_ne s.pc i j (Pc.inside work) ne) ∙ out j)
        (ap (run_section work) shared ∙ sym (run_sections-append log work initial))
  Step-Tidy initial {s} log {i} (act access work e) (free u out shared) =
      absurd (not_outside e (out i))
  Step-Tidy initial {s} log {i} (leave e) (free u out shared) = absurd (not_outside e (out i))
  Step-Tidy initial {s} log {i} (ask work e) (held k rest m here out shared) =
      let ne : i ≢ k = λ same. not_outside (ap s.pc same ∙ here) (ap left e) in
      held k rest m (update_ne s.pc i k (Pc.wants work) ne ∙ here)
        (λ j kj. left_outside s.pc i j (Pc.wants work) refl (λ _. out j kj))
        (shared ∙ ap (λ l. run_sections l initial) (sym (append-nil log)))
  Step-Tidy initial {s} log {i} (enter work m e l) (held k rest u here out shared) =
      absurd
        (lock-owned k i s.mutex m u (λ same. not_outside (ap s.pc (sym same) ∙ here) (ap left e)) l)
  Step-Tidy initial {s} log {i} (act access work e) (held k rest m here out shared) =
      let same = insider s k i (Access.does access ∷ work) out e in
      let again : Pc.inside (Access.does access ∷ work) ≡ Pc.inside rest =
        sym e ∙ ap s.pc (sym same) ∙ here in
      let whole : (Access.does access ∷ work) ≡ rest = cc in
      held i work (m ∙ ap owned same) (update_self s.pc i (Pc.inside work))
        (λ j ne.
          ap left (update_ne s.pc i j (Pc.inside work) ne) ∙ out j (λ kj. ne (sym same ∙ kj)))
        (ap (λ w. run_section w s.shared) whole
          ∙ shared
          ∙ ap (λ l. run_sections l initial) (sym (append-nil log)))
  Step-Tidy initial {s} log {i} (leave e) (held k rest m here out shared) =
      let same = insider s k i [] out e in
      let again : Pc.inside [] ≡ Pc.inside rest = sym e ∙ ap s.pc (sym same) ∙ here in
      let whole : [] ≡ rest = cc in
      free (unlock-owned i s.mutex (m ∙ ap owned same))
        (λ j. left_outside s.pc i j Pc.idle refl (λ ne. out j (λ kj. ne (sym same ∙ kj))))
        (ap (λ w. run_section w s.shared) whole
          ∙ shared
          ∙ ap (λ l. run_sections l initial) (sym (append-nil log)))

  pub Reach-Tidy :
      {initial : S} {s : System S} {log : List (List (Access S))}
      → Reach initial s log
      → Tidy initial s log
  Reach-Tidy begin = free refl (λ i. refl) refl
  Reach-Tidy {initial} (next {log = log} i r step) = Step-Tidy initial log step (Reach-Tidy r)

  -- the mutex is that of the thread that is inside
  pub inside-owned :
      {initial : S} {s : System S} {log : List (List (Access S))} (i : ℕ) (work : List (Access S))
      → Reach initial s log
      → s.pc i ≡ Pc.inside work
      → s.mutex ≡ owned i
  inside-owned {s = s} i work r in_i = elim (Reach-Tidy r) [
    | free m out shared ↦ absurd (not_outside in_i (out i))
    | held k left_k m here out shared ↦ m ∙ ap owned (insider s k i work out in_i)
  ]

  -- In every interleaving of threads whose accesses to a shared state stand in the scope of a lock
  -- of one mutex: while one thread is in a section, no other thread is.
  pub mutual_exclusion :
      {initial : S} {s : System S} {log : List (List (Access S))} (i j : ℕ) (work : List (Access S))
      → Reach initial s log
      → s.pc i ≡ Pc.inside work
      → i ≢ j
      → left (s.pc j) ≡ none
  mutual_exclusion {s = s} i j work r in_i ne = elim (Reach-Tidy r) [
    | free m out shared ↦ out j
    | held k left_k m here out shared ↦ out j (λ e. ne (sym (insider s k i work out in_i) ∙ e))
  ]

  -- In every interleaving of threads whose accesses to a shared state stand in the scope of a lock
  -- of one mutex: while no thread is in a section, the shared state is what the sections entered so
  -- far give when they run one after the other, in the order in which they were entered.
  pub sections_serial :
      {initial : S} {s : System S} {log : List (List (Access S))}
      → Reach initial s log
      → ((i : ℕ) → left (s.pc i) ≡ none)
      → s.shared ≡ run_sections log initial
  sections_serial r quiet = elim (Reach-Tidy r) [
    | free m out shared ↦ shared
    | held k work m here out shared ↦ absurd (not_outside here (quiet k))
  ]
