-- ===== src/Net/Stream/Tests.antt =====
-- Reads of short connections, against src/Net/SocketIstream.hpp.
use kvm_cloud.Base.{◌≡◌, refl, [], ◌∷◌, codes, ok, err, blocked}
use kvm_cloud.Net.Stream.{read}

read_tests :
    (read (codes "run\r\ns1/1000\r\n\r\nkill")
      ≡ ok (codes "run" ∷ codes "s1/1000" ∷ [], codes "kill"))
    × (read (codes "\r\n\r\nx") ≡ ok ([], codes "x"))
    × (read (codes "a\r\n\r\n\r\n") ≡ ok (codes "a" ∷ [], codes "\r\n"))
    × (read (codes "\r\nx\r\n\r\n") ≡ ok ([] ∷ codes "x" ∷ [], []))
    × (read (codes "a\r\n") ≡ err blocked)
    × (read (codes "\r\n") ≡ err blocked)
unfolding read
read_tests = (refl, refl, refl, refl, refl, refl)
