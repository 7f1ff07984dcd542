-- ===== src/Thread/Mutex.antt =====
-- src/Thread/Mutex.hpp: a recursive mutex of pthreads, with the thread that owns it and how often
-- it has locked it. The results of the calls are ignored by the code.
use kvm_cloud.Base.{ℕ, zero, suc, Option, none, some, ◌==◌, if◌then◌else◌}

pub record Mutex : Type 0 where
  pub owner : Option ℕ
  pub depth : ℕ

-- `PTHREAD_RECURSIVE_MUTEX_INITIALIZER_NP`
abbrev pub unlocked : Mutex
unlocked = record { owner = none; depth = 0 }

abbrev locked_by : Option ℕ → ℕ → ℕ → Option Mutex
locked_by none depth t = some (record { owner = some t; depth = 1 })
locked_by (some o) depth t =
    if o == t then some (record { owner = some t; depth = suc depth }) else none

-- `pthread_mutex_lock` by thread `t`; `none` while it waits
unfoldable pub lock : ℕ → Mutex → Option Mutex
lock t m = locked_by m.owner m.depth t

abbrev released : ℕ → ℕ → Mutex
released zero t = unlocked
released (suc zero) t = unlocked
released (suc (suc depth)) t = record { owner = some t; depth = suc depth }

abbrev unlocked_by : Option ℕ → ℕ → Mutex → Mutex
unlocked_by none t m = m
unlocked_by (some o) t m = if o == t then released m.depth t else m

-- `pthread_mutex_unlock` by thread `t`; it fails for a thread that is not the owner
unfoldable pub unlock : ℕ → Mutex → Mutex
unlock t m = unlocked_by m.owner t m
