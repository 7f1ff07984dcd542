-- ===== src/Tests/Connections.antt =====
-- Messages on connections.
use kvm_cloud.Base.{◌≡◌, List, [], ◌∷◌, ◌++◌, Bytes, codes, All, ok, arith}
use mathlib.Core.List.{cons-ne-nil}
use kvm_cloud.Net.Stream
use kvm_cloud.Net.Stream.Frames.{IsLine, frame, read-frame}
use kvm_cloud.Net.Socket.{connected, write_all, send}
use kvm_cloud.Net.Socket.Delivery.{read-send-write_all}

abbrev two_lines : List Bytes
two_lines = codes "run" ∷ codes "7" ∷ []

two_lines-IsLine : All IsLine two_lines
two_lines-IsLine = (omega arith, (omega arith, tt))

read-frame_example : Stream.read (frame two_lines (codes "kill")) ≡ ok (two_lines, codes "kill")
read-frame_example = read-frame two_lines (codes "kill") (cons-ne-nil _ _) two_lines-IsLine

read-send-write_all_example :
    (m : Bytes) × ((send (write_all connected two_lines)).outgoing ≡ connected.outgoing ++ m)
    × ((rest : Bytes) → Stream.read (m ++ rest) ≡ ok (two_lines, rest))
read-send-write_all_example =
    read-send-write_all connected two_lines (cons-ne-nil _ _) two_lines-IsLine
