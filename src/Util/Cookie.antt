-- ===== src/Util/Cookie.antt =====
-- src/Util/Cookie.hpp: a value in a file of its own.
pub mod Range
pub mod Saved
use kvm_cloud.Base.{
  Bool, Option, none, some, [], ◌∷◌, ◌==◌, ◌^◌, ◌-◌, Bytes, codes, if◌then◌else◌, Result, ok, err,
  out_of_range, undefined, ◌>>=◌,
}
use kvm_cloud.Std.Int.{ℤ, pos, negsuc}
use kvm_cloud.Std.Number.{to_string, stoi, skip_space}
use kvm_cloud.Sys.Host.{Host}
use kvm_cloud.Sys.Process.{failure}

-- `std::getline(fin, data)`
unfoldable pub first_line : Bytes → Bytes
first_line [] = []
first_line (c ∷ s) = if c == b'\n' then [] else c ∷ first_line s

-- A failed conversion stores 0, one that does not fit the nearest `int`.
abbrev stored : Bool → Result ℤ → ℤ
stored negative (ok z) = z
stored negative (err out_of_range) = if negative then negsuc (2 ^ 31 - 1) else pos (2 ^ 31 - 1)
stored negative (err _) = pos 0

-- with the blanks skipped
abbrev extracted : Bytes → Result ℤ
extracted [] = err undefined
extracted (c ∷ s) = ok (stored (c == b'-') (stoi (c ∷ s)))

-- `fin >> data` at `int`: with no character but blanks `data` is not set.
unfoldable pub extract_int : Bytes → Result ℤ
unfolding skip_space
extract_int text = extracted (skip_space text)

-- a file that cannot be opened is an error
abbrev pub opened : Option Bytes → Result Bytes
opened none = err (failure (codes "Cookie::read(string)") (codes "file does not exist"))
opened (some text) = ok text

module _ (h : Host) where
  unfoldable pub write : h.State → Bytes → Bytes → h.State
  write s cookie text = h.write_file s cookie text

  unfoldable pub write_int : h.State → Bytes → ℤ → h.State
  write_int s cookie z = h.write_file s cookie (to_string z)

  abbrev open_cookie : h.State → Bytes → Result Bytes
  open_cookie s cookie = opened (h.read_file s cookie)

  unfoldable pub read : h.State → Bytes → Result Bytes
  unfolding first_line
  read s cookie = open_cookie s cookie >>= λ text. ok (first_line text)

  unfoldable pub read_int : h.State → Bytes → Result ℤ
  unfolding extract_int
  read_int s cookie = open_cookie s cookie >>= extract_int
