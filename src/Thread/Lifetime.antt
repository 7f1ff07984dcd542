-- ===== src/Thread/Lifetime.antt =====
-- src/Thread/Thread.hpp: the calls of pthreads that start and end a thread, in their order. A thread
-- ends when its `run` returns, or when it is cancelled within it; pthreads then runs the cleanup.
use kvm_cloud.Base.{◌≡◌, refl, List, [], ◌∷◌, ◌++◌}

pub data DetachState : Type 0 where
  detached joinable : DetachState

pub data CancelType : Type 0 where
  async deferred : CancelType

pub data Call : Type 0 where
  attr_init : Call
  attr_setdetachstate : DetachState → Call
  create : Call
  enable_cancel : Call
  setcanceltype : CancelType → Call
  cleanup_push : Call
  run : Call
  -- `delete p`
  delete : Call
  cleanup_pop : Call

unfoldable pub start : DetachState → List Call
start d = attr_init ∷ attr_setdetachstate d ∷ create ∷ []

unfoldable pub thread_cleanup : DetachState → List Call
thread_cleanup detached = delete ∷ []
thread_cleanup joinable = []

-- before `run`
abbrev prepare : CancelType → List Call
prepare c = enable_cancel ∷ setcanceltype c ∷ cleanup_push ∷ []

-- `run` returns
unfoldable pub thread_starter : DetachState → CancelType → List Call
unfolding thread_cleanup
thread_starter d c = prepare c ++ run ∷ cleanup_pop ∷ thread_cleanup d

-- `run` is cancelled
unfoldable pub cancelled : DetachState → CancelType → List Call
unfolding thread_cleanup
cancelled d c = prepare c ++ run ∷ thread_cleanup d

handler_ends :
    thread_starter detached deferred
    ≡ enable_cancel ∷ setcanceltype deferred ∷ cleanup_push ∷ run ∷ cleanup_pop ∷ delete ∷ []
unfolding thread_starter
handler_ends = refl
