-- ===== src/Thread/Stuck.antt =====
-- What becomes of the other threads when one waits for a message that does not come while it holds
-- the mutex of src/Thread/ScopedLock.hpp.
use kvm_cloud.Base.{ℕ}
use kvm_cloud.Thread.Sections.{System, Step}

module _ {S : Type 0} where
  -- the states behind a state
  pub data Later (s : System S) : System S → Type 0 where
    now : Later s s
    then : {t u : System S} (j : ℕ) → Later s t → Step t j u → Later s u
