-- ===== src/Net/Server/Startup.antt =====
-- When the constructor of src/Net/ServerSocket.hpp returns.
use kvm_cloud.Base.{◌≡◌, false, Result, ok, Bool-cases, inl, inr}
use kvm_cloud.Base.Exec.{err-ne-ok}
use kvm_cloud.Std.Int.{ℤ, int_eq, to_u16}
use kvm_cloud.Sys.Network.{Network}
use kvm_cloud.Net.Server.{minus_one, check, open_server}

module _ (k : Network) (port : ℤ) (s : k.State) where
  -- the four calls, each behind the one before
  abbrev pub opened : ℤ × k.State
  opened = k.socket s

  abbrev pub reused : ℤ × k.State
  reused = k.reuse_address opened.1 opened.0

  abbrev pub bound : ℤ × k.State
  bound = k.bind reused.1 opened.0 (to_u16 port)

  abbrev pub listened : ℤ × k.State
  listened = k.listen bound.1 opened.0 10

  abbrev pub Succeeded : ℤ × k.State → Type 0
  Succeeded r = int_eq r.0 minus_one ≡ false

  -- If the constructor of a server socket returns, none of its four calls returned -1, each was made
  -- in the state that the one before left, for the descriptor of the first, and the descriptor and
  -- the state behind the last are the result.
  pub open_server-ok :
      (fd : ℤ) (s' : k.State)
      → open_server k port s ≡ (ok fd, s')
      → Succeeded opened
        × Succeeded reused
        × Succeeded bound
        × Succeeded listened
        × (fd ≡ opened.0)
        × (s' ≡ listened.1)
  unfolding open_server
  open_server-ok fd s' e = elim (Bool-cases (int_eq opened.0 minus_one)) [
    | inl no_socket ↦ absurd (err-ne-ok (rw (no_socket, open_server, check) at e))
    | inr a ↦ elim (Bool-cases (int_eq reused.0 minus_one)) [
      | inl no_option ↦ absurd (err-ne-ok (rw (a, no_option, open_server, check) at e))
      | inr b ↦ elim (Bool-cases (int_eq bound.0 minus_one)) [
        | inl no_bind ↦ absurd (err-ne-ok (rw (a, b, no_bind, open_server, check) at e))
        | inr c ↦ elim (Bool-cases (int_eq listened.0 minus_one)) [
          | inl no_listen ↦ absurd (err-ne-ok (rw (a, b, c, no_listen, open_server, check) at e))
          | inr d ↦
              let done : ◌≡◌ {A = Result ℤ × k.State} (ok opened.0, listened.1) (ok fd, s') =
                rw (a, b, c, d, open_server, check) at e in
              (a, b, c, d, cc, cc)
        ]
      ]
    ]
  ]
