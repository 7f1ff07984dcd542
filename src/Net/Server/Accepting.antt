-- ===== src/Net/Server/Accepting.antt =====
-- The accept loop of src/controller.cpp and src/manager.cpp: a connection gets a handler with a
-- thread of its own, and a failed `accept` is logged.
use kvm_cloud.Base.{ℕ, zero, suc, List, [], ◌∷◌, Result, ok, err}
use kvm_cloud.Std.Int.{ℤ}
use kvm_cloud.Sys.Network.{Network}
use kvm_cloud.Net.Server.{accept}

module _ (k : Network) where
  -- the connections that got a handler; `catch(Util::Exception& ex)` goes on
  abbrev handled : Result ℤ → List ℤ → List ℤ
  handled (ok conn) conns = conn ∷ conns
  handled (err e) conns = conns

  -- so many rounds of the loop
  unfoldable pub accept_rounds : ℕ → ℤ → k.State → List ℤ × k.State
  unfolding accept
  accept_rounds zero fd s = ([], s)
  accept_rounds (suc n) fd s =
      let (r, s') = accept k fd s in
      let (conns, s'') = accept_rounds n fd s' in (handled r conns, s'')
