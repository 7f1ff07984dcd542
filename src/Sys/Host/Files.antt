-- ===== src/Sys/Host/Files.antt =====
-- Several files that are written in one directory, one after the other.
use kvm_cloud.Base.{
  ℕ, ◌≡◌, refl, sym, ap, ◌∙◌, Option, some, List, [], ◌∷◌, ◌++◌, Bytes, All, if◌then◌else◌,
  Bool-cases, inl, inr,
}
use kvm_cloud.Std.Text.{str_eq, str_eq_iff}
use kvm_cloud.Sys.Host.{Host, HostLaws, FileLaws, IsName}

-- the last text that was written under a name, or what was there before
abbrev pub text_of : List (Bytes × Bytes) → Bytes → Option Bytes → Option Bytes
text_of [] b old = old
text_of ((a, text) ∷ ws) b old = text_of ws b (if str_eq a b then some text else old)

module _ (h : Host) where
  abbrev pub write_named : List (Bytes × Bytes) → Bytes → h.State → h.State
  write_named [] d s = s
  write_named ((a, text) ∷ ws) d s = write_named ws d (h.write_file s (d ++ b'/' ∷ a) text)

  module _ (laws : HostLaws h) where
    pub dir_exists-write_named :
        (ws : List (Bytes × Bytes)) (d dir : Bytes) (s : h.State)
        → h.dir_exists (write_named ws d s) dir ≡ h.dir_exists s dir
    dir_exists-write_named [] d dir s = refl
    dir_exists-write_named ((a, text) ∷ ws) d dir s =
        dir_exists-write_named ws d dir (h.write_file s (d ++ b'/' ∷ a) text)
        ∙ laws.dir_exists-write_file s (d ++ b'/' ∷ a) dir text

    pub listening-write_named :
        (ws : List (Bytes × Bytes)) (d : Bytes) (s : h.State) (n : ℕ)
        → h.listening (write_named ws d s) n ≡ h.listening s n
    listening-write_named [] d s n = refl
    listening-write_named ((a, text) ∷ ws) d s n =
        listening-write_named ws d (h.write_file s (d ++ b'/' ∷ a) text) n
        ∙ laws.listening-write_file s (d ++ b'/' ∷ a) text n

  module _ (files : FileLaws h) where
    read_file-written :
        (a b d text : Bytes) (s : h.State)
        → files.IsOpen s d
        → IsName a
        → IsName b
        → h.read_file (h.write_file s (d ++ b'/' ∷ a) text) (d ++ b'/' ∷ b)
          ≡ (if str_eq a b then some text else h.read_file s (d ++ b'/' ∷ b))
    read_file-written a b d text s open_dir name_a name_b = elim (Bool-cases (str_eq a b)) [
      | inl e ↦ rw e (
          ap (λ c. h.read_file (h.write_file s (d ++ b'/' ∷ a) text) (d ++ b'/' ∷ c))
            (sym ((str_eq_iff a b).0 e))
          ∙ files.read_file-write_file s d a text open_dir name_a)
      | inr e ↦ rw e (
          files.read_file-write_file_ne s d a b text open_dir name_a name_b
            (λ k. let same = (str_eq_iff a b).1 k in cc))
    ]

    pub read_file-write_named :
        (ws : List (Bytes × Bytes)) (b d : Bytes) (s : h.State)
        → files.IsOpen s d
        → All (λ w. IsName w.0) ws
        → IsName b
        → h.read_file (write_named ws d s) (d ++ b'/' ∷ b)
          ≡ text_of ws b (h.read_file s (d ++ b'/' ∷ b))
    read_file-write_named [] b d s open_dir names name = refl
    read_file-write_named ((a, text) ∷ ws) b d s open_dir names name =
        read_file-write_named ws b d (h.write_file s (d ++ b'/' ∷ a) text)
          (files.IsOpen-write_file s d (d ++ b'/' ∷ a) text open_dir) names.1 name
        ∙ ap (text_of ws b) (read_file-written a b d text s open_dir names.0 name)
