-- ===== src/Vm/Template.antt =====
-- src/Vm/Template.hpp.
use kvm_cloud.Base.{ℕ, ◌≡◌, refl, List, [], ◌∷◌, Bytes, All, get_elem?, Result, ok, ◌>>=◌, index}
use kvm_cloud.Net.Stream.Frames.{IsLine}

pub record Template : Type 0 where
  pub name : Bytes
  pub description : Bytes
  pub kernel_path : Bytes
  pub rootfs_path : Bytes

abbrev pub serial_size : ℕ
serial_size = 4

unfoldable pub serialize : Template → List Bytes
serialize t = t.name ∷ t.description ∷ t.kernel_path ∷ t.rootfs_path ∷ []

-- a shorter vector is read out of bounds
unfoldable pub deserialize : List Bytes → Result Template
deserialize fields = do
  name ← index (get_elem? fields 0)
  description ← index (get_elem? fields 1)
  kernel_path ← index (get_elem? fields 2)
  rootfs_path ← index (get_elem? fields 3)
  ok (record {
    name = name;
    description = description;
    kernel_path = kernel_path;
    rootfs_path = rootfs_path;
  })

pub deserialize-serialize : (t : Template) → deserialize (serialize t) ≡ ok t
unfolding deserialize serialize
deserialize-serialize t = refl

-- Each field can stand on a line of its own.
abbrev pub IsPrintable : Template → Type 0
IsPrintable t = All IsLine (serialize t)
