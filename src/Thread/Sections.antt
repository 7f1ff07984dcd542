-- ===== src/Thread/Sections.antt =====
-- Threads whose accesses to a shared state stand in the scope of a `ScopedLock`
-- (src/Thread/ScopedLock.hpp) of one mutex, as in the handlers of src/manager.cpp, and every
-- interleaving of them. A section is the list of its accesses; other threads may run between them. An
-- access may be a read of a message that does not come, and then the thread goes no further.
use kvm_cloud.Base.{ℕ, ◌≡◌, some, List, [], ◌∷◌, ◌++◌, ◌==◌, if◌then◌else◌}
use kvm_cloud.Thread.Mutex.{Mutex, unlocked, lock, unlock}

pub data Access (S : Type 0) : Type 0 where
  does : (S → S) → Access S
  -- a read of the socket that does not return
  waits : Access S

-- what a thread is about to do
pub data Pc (S : Type 0) : Type 0 where
  -- outside of every section
  idle : Pc S
  -- in the constructor of the lock, before these accesses
  wants : List (Access S) → Pc S
  -- behind the constructor, with these accesses left
  inside : List (Access S) → Pc S

pub record System (S : Type 0) : Type 0 where
  pub mutex : Mutex
  pub shared : S
  pub pc : ℕ → Pc S

abbrev pub update {ℓ} : {A : Type ℓ} → (ℕ → A) → ℕ → A → ℕ → A
update f i a j = if i == j then a else f j

module _ {S : Type 0} where
  -- One step of thread `i`.
  pub data Step (s : System S) (i : ℕ) : System S → Type 0 where
    ask :
        (work : List (Access S))
        → s.pc i ≡ Pc.idle
        → Step s i (record s { pc = update s.pc i (Pc.wants work) })
    -- `ScopedLock(mutex)`
    enter :
        (work : List (Access S)) (m : Mutex)
        → s.pc i ≡ Pc.wants work
        → lock i s.mutex ≡ some m
        → Step s i (record s { mutex = m; pc = update s.pc i (Pc.inside work) })
    act :
        (access : S → S) (work : List (Access S))
        → s.pc i ≡ Pc.inside (Access.does access ∷ work)
        → Step s i (record s { shared = access s.shared; pc = update s.pc i (Pc.inside work) })
    -- `~ScopedLock()`
    leave :
        s.pc i ≡ Pc.inside []
        → Step s i (record s { mutex = unlock i s.mutex; pc = update s.pc i Pc.idle })

  -- The sections that a step enters.
  abbrev pub entered : {s : System S} {i : ℕ} {t : System S} → Step s i t → List (List (Access S))
  entered (ask work e) = []
  entered (enter work m e l) = work ∷ []
  entered (act access work e) = []
  entered (leave e) = []

  abbrev pub start : S → System S
  start shared = record { mutex = unlocked; shared = shared; pc = λ i. Pc.idle }

  -- The states that are reached, with the sections in the order in which they were entered.
  pub data Reach (initial : S) : System S → List (List (Access S)) → Type 0 where
    begin : Reach initial (start initial) []
    next :
        {s t : System S} {log : List (List (Access S))} (i : ℕ)
        → Reach initial s log
        → (step : Step s i t) → Reach initial t (log ++ entered step)
