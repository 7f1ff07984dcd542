-- ===== src/Vm/Proxy/Decode.antt =====
-- The replies that src/Vm/ControllerProxy.hpp reads are the maps that were written.
use kvm_cloud.Base.{
  Bool, true, false, arith, ◌≡◌, refl, ◌∙◌, ap, List, [], ◌∷◌, ◌++◌, append-nil, append_assoc,
  Bytes, All, ok, ◌>>=◌,
}
use kvm_cloud.Std.Map.{StdMap, insert, IsSorted}
use kvm_cloud.Std.Map.Laws.{insert_next}
use kvm_cloud.Std.Map.Keys.{bytes_order}
use kvm_cloud.Vm.Template
use kvm_cloud.Vm.Template.{Template}
use kvm_cloud.Vm.InstanceInfo
use kvm_cloud.Vm.InstanceInfo.{InstanceInfo, HasInts, deserialize-serialize}
use kvm_cloud.Std.Int.{from_bool}
use kvm_cloud.Std.Number.{to_string, stoi-to_string}
use kvm_cloud.Net.Stream.Frames.{IsLine}
use kvm_cloud.Vm.Proxy.{collect_templates, collect_instances, verdict}

-- The lines of a reply: what the loops over the map write, one value after the other.
abbrev pub template_lines {ℓ} : {K : Type ℓ} → StdMap K Template → List Bytes
template_lines [] = []
template_lines ((k, t) ∷ m) = Template.serialize t ++ template_lines m

abbrev pub info_lines {ℓ} : {K : Type ℓ} → StdMap K InstanceInfo → List Bytes
info_lines [] = []
info_lines ((k, i) ∷ m) = InstanceInfo.serialize i ++ info_lines m

-- The values are filed under their own names, in the order of the names.
pub record IsByName (m : StdMap Bytes Template) : Type 0 where
  pub sorted : IsSorted m
  pub named : All (λ p. p.1.name ≡ p.0) m

pub record IsById (m : StdMap Bytes InstanceInfo) : Type 0 where
  pub sorted : IsSorted m
  pub named : All (λ p. p.1.id ≡ p.0) m
  pub ints : All (λ p. HasInts p.1) m

pub collect_templates_step :
    (t : Template) (fields : List Bytes) (m : StdMap Bytes Template)
    → collect_templates (Template.serialize t ++ fields) m
      ≡ collect_templates fields (insert t.name t m)
unfolding collect_templates Template.serialize Template.deserialize
collect_templates_step t fields m = refl

pub collect_instances_step :
    (i : InstanceInfo) (fields : List Bytes) (m : StdMap Bytes InstanceInfo)
    → HasInts i
    → collect_instances (InstanceInfo.serialize i ++ fields) m
      ≡ collect_instances fields (insert i.id i m)
unfolding collect_instances InstanceInfo.serialize
collect_instances_step i fields m h =
    ap (λ r. r >>= λ j. collect_instances fields (insert j.id j m)) (deserialize-serialize i [] h)

collect_templates-append :
    (m n : StdMap Bytes Template)
    → IsSorted (m ++ n)
    → All (λ p. p.1.name ≡ p.0) n
    → collect_templates (template_lines n) m ≡ ok (m ++ n)
collect_templates-append m [] h e = unfold collect_templates in rw append-nil
collect_templates-append m ((k, t) ∷ n) h e =
    collect_templates_step t (template_lines n) m
    ∙ ap (λ s. collect_templates (template_lines n) (insert s t m)) e.0
    ∙ ap (collect_templates (template_lines n)) (insert_next m k t n h)
    ∙ collect_templates-append (m ++ (k, t) ∷ []) n (rw append_assoc h) e.1
    ∙ ap ok (append_assoc m ((k, t) ∷ []) n)

collect_instances-append :
    (m n : StdMap Bytes InstanceInfo)
    → IsSorted (m ++ n)
    → All (λ p. p.1.id ≡ p.0) n
    → All (λ p. HasInts p.1) n
    → collect_instances (info_lines n) m ≡ ok (m ++ n)
collect_instances-append m [] h e ints = unfold collect_instances in rw append-nil
collect_instances-append m ((k, i) ∷ n) h e ints =
    collect_instances_step i (info_lines n) m ints.0
    ∙ ap (λ s. collect_instances (info_lines n) (insert s i m)) e.0
    ∙ ap (collect_instances (info_lines n)) (insert_next m k i n h)
    ∙ collect_instances-append (m ++ (k, i) ∷ []) n (rw append_assoc h) e.1 ints.1
    ∙ ap ok (append_assoc m ((k, i) ∷ []) n)

-- A map of templates that are filed under their own names, in the order of the names, is read back
-- from the lines of its values by the loop of the proxy's `getTemplates`.
pub collect_templates-lines :
    (m : StdMap Bytes Template) → IsByName m → collect_templates (template_lines m) [] ≡ ok m
collect_templates-lines m h = collect_templates-append [] m h.sorted h.named

-- A map of descriptions with `int`s as numbers that are filed under their own ids, in the order of
-- the ids, is read back from the lines of its values by the loop of the proxy's `getInstances`.
pub collect_instances-lines :
    (m : StdMap Bytes InstanceInfo) → IsById m → collect_instances (info_lines m) [] ≡ ok m
collect_instances-lines m h = collect_instances-append [] m h.sorted h.named h.ints

-- the reply of `run` and `kill`
pub verdict-from_bool : (b : Bool) → verdict (to_string (from_bool b) ∷ []) ≡ ok b
verdict-from_bool true = rw (stoi-to_string (from_bool true) (omega arith))
verdict-from_bool false = rw (stoi-to_string (from_bool false) (omega arith))

pub flag-IsLine : (b : Bool) → IsLine (to_string (from_bool b))
unfolding to_string
flag-IsLine true = omega arith
flag-IsLine false = omega arith
