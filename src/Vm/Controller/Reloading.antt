-- ===== src/Vm/Controller/Reloading.antt =====
-- The constructor of src/Vm/Controller.hpp over a working directory that holds instances.
use kvm_cloud.Base.{
  ◌≡◌, refl, ap, ◌∙◌, true, Option, none, some, List, [], ◌∷◌, Bytes, All, ok, err,
  invalid_argument, if◌then◌else◌, map, Bool-cases, Option-cases, inl, inr,
}
use mathlib.Core.Option
use kvm_cloud.Base.Exec.{>>=-ok}
use kvm_cloud.Std.Int.{ℤ}
use kvm_cloud.Std.Number.{stoi}
use kvm_cloud.Std.Map.{StdMap, find, insert, same}
use kvm_cloud.Std.Map.Laws.{find-insert, same_iff}
use kvm_cloud.Std.Map.Keys.{bytes_order, int_order}
use kvm_cloud.Sys.Host.{Host}
use kvm_cloud.Vm.Template.{Template}
use kvm_cloud.Vm.Instance.{Instance}
use kvm_cloud.Vm.Controller.{Node, inst_dir, initial_templates}
use kvm_cloud.Vm.Controller.Methods.{restore, load_entry, load_all, construct, fresh}
use kvm_cloud.Vm.Controller.Instantiating.{IsKept, new_instance, restore-IsKept}

-- An instance that is saved under an id.
pub record Saved : Type 0 where
  pub id : ℤ
  pub templ : Template
  pub memory : ℤ
  pub cpus : ℤ
  pub ssh_port : ℤ
  -- the process id in the cookie, which is not used
  pub pid : ℤ

-- A name in the working directory, and the instance that is saved under it, if there is one.
abbrev pub Entry : Type 0
Entry = Bytes × Option Saved

-- the first instance with this id
abbrev pub saved_at : ℤ → List Entry → Option Saved
saved_at id [] = none
saved_at id ((name, none) ∷ es) = saved_at id es
saved_at id ((name, some v) ∷ es) = if same v.id id then some v else saved_at id es

module _ (h : Host) (working_dir : Bytes) (s : h.State) where
  -- the instance that was made
  abbrev pub instance_of : Saved → Instance
  instance_of v = new_instance h v.templ v.memory v.cpus v.ssh_port v.id (inst_dir working_dir v.id)

  -- Either the name is no number, or the directory holds all of a known template's instance.
  abbrev pub IsOnDisk : Entry → Type 0
  IsOnDisk (name, none) = stoi name ≡ err invalid_argument
  IsOnDisk (name, some v) =
      (stoi name ≡ ok v.id)
      × IsKept h s (inst_dir working_dir v.id) v.templ v.memory v.cpus v.ssh_port v.pid
      × (find v.templ.name initial_templates ≡ some v.templ)

  -- the map behind an entry
  abbrev loaded_one : Option Instance → Saved → StdMap ℤ Instance → StdMap ℤ Instance
  loaded_one none v m = insert v.id (instance_of v) m
  loaded_one (some _) v m = m

  abbrev loaded : List Entry → StdMap ℤ Instance → StdMap ℤ Instance
  loaded [] m = m
  loaded ((name, none) ∷ es) m = loaded es m
  loaded ((name, some v) ∷ es) m = loaded es (loaded_one (find v.id m) v m)

  module _ (initial_id initial_port : ℤ) where
    abbrev pub holding : StdMap ℤ Instance → Node h
    holding m = record {
      controller = record (fresh h working_dir initial_id initial_port) { instances = m };
      host = s;
    }

    load_entry-none :
        (name : Bytes) (m : StdMap ℤ Instance)
        → stoi name ≡ err invalid_argument
        → load_entry h name (holding m) ≡ (ok tt, holding m)
    unfolding load_entry
    load_entry-none name m e = rw (e, load_entry)

    restore-known :
        (id : ℤ) (inst : Instance) (n : Node h)
        → h.dir_exists n.host (inst_dir n.controller.working_dir id) ≡ true
        → find id n.controller.instances ≡ some inst
        → restore h id n ≡ (ok inst, n)
    unfolding restore
    restore-known id inst n exists known = rw (exists, known, restore)

    load_entry-some :
        (name : Bytes) (v : Saved) (m : StdMap ℤ Instance)
        → IsOnDisk (name, some v)
        → load_entry h name (holding m) ≡ (ok tt, holding (loaded_one (find v.id m) v m))
    unfolding load_entry
    load_entry-some name v m d =
        let (named, kept, known) = d in
        elim (Option-cases (find v.id m)) [
          | inl e ↦
              let r =
                restore-IsKept h v.templ v.memory v.cpus v.ssh_port v.pid v.id (holding m) kept e
                  known in
              rw (named, e, r, load_entry)
          | inr (inst, e) ↦
              let r = restore-known v.id inst (holding m) kept.exists e in
              rw (named, e, r, load_entry)
        ]

    load_all-loaded :
        (es : List Entry) (m : StdMap ℤ Instance)
        → All IsOnDisk es
        → load_all h (map (λ e. e.0) es) (holding m) ≡ (ok tt, holding (loaded es m))
    unfolding load_all
    load_all-loaded [] m d = refl
    load_all-loaded ((name, none) ∷ es) m d =
        >>=-ok (load_entry h name) _ (load_entry-none name m d.0) ∙ load_all-loaded es m d.1
    load_all-loaded ((name, some v) ∷ es) m d =
        >>=-ok (load_entry h name) _ (load_entry-some name v m d.0) ∙ load_all-loaded es _ d.1

  -- what was there, or what is saved
  abbrev or_saved : Option Instance → Option Saved → Option Instance
  or_saved none o = Option.map instance_of o
  or_saved (some inst) o = some inst

  find-loaded_one :
      (id : ℤ) (v : Saved) (m : StdMap ℤ Instance) (later : Option Saved)
      → or_saved (find id (loaded_one (find v.id m) v m)) later
        ≡ or_saved (find id m) (if same v.id id then some v else later)
  find-loaded_one id v m later = elim (Bool-cases (same v.id id)) [
    | inl here ↦
        let key : v.id ≡ id = (same_iff v.id id).0 here in
        elim (Option-cases (find v.id m)) [
          | inl e ↦
              let e' : find id m ≡ none = rw key at e in
              rw (
                e,
                here,
                e',
                find-insert v.id id (instance_of v) m
                    ∙ ap (λ b. if b then some (instance_of v) else find id m) here,
              )
          | inr (inst, e) ↦ let e' : find id m ≡ some inst = rw key at e in rw (e, here, e')
        ]
    | inr other ↦ elim (Option-cases (find v.id m)) [
      | inl e ↦ rw (
        e,
        other,
        find-insert v.id id (instance_of v) m
            ∙ ap (λ b. if b then some (instance_of v) else find id m) other,
      )
      | inr (inst, e) ↦ rw (e, other)
    ]
  ]

  or_saved-none : (o : Option Instance) → o ≡ or_saved o none
  or_saved-none none = refl
  or_saved-none (some inst) = refl

  find-loaded :
      (id : ℤ) (es : List Entry) (m : StdMap ℤ Instance)
      → find id (loaded es m) ≡ or_saved (find id m) (saved_at id es)
  find-loaded id [] m = or_saved-none (find id m)
  find-loaded id ((name, none) ∷ es) m = find-loaded id es m
  find-loaded id ((name, some v) ∷ es) m =
      find-loaded id es (loaded_one (find v.id m) v m) ∙ find-loaded_one id v m (saved_at id es)

  -- The conditions: the working directory can be read; and each of its entries is either not a
  -- number, or the number of a directory whose cookies hold the name of a known template on one line
  -- and the digits of `int`s, where the saved port is free, there is no `.append` cookie, there is a
  -- `kernel` file exactly if the template has a kernel, and the template is filed under its name.
  -- Then the constructor leaves the machine as it is and restores, under each id, the instance saved
  -- in the first entry for that id, not started whatever process id the `.pid` cookie has, and
  -- nothing under an id that no entry names. It has the given working directory, first id and first
  -- port, and the initial templates.
  pub construct-IsOnDisk :
      (initial_id initial_port : ℤ) (es : List Entry)
      → h.entries s working_dir ≡ some (map (λ e. e.0) es)
      → All IsOnDisk es
      → (m : StdMap ℤ Instance) × (construct h working_dir initial_id initial_port s
          ≡ (ok tt, holding initial_id initial_port m))
        × ((id : ℤ) → find id m ≡ Option.map instance_of (saved_at id es))
  unfolding construct find
  construct-IsOnDisk initial_id initial_port es listed d = (
    loaded es [],
    rw (listed, construct) (load_all-loaded initial_id initial_port es [] d),
    λ id. find-loaded id es [],
  )
