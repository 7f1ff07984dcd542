-- ===== src/Vm/Proxy/Filing.antt =====
-- The map that `getInstances` of src/Vm/ControllerProxy.hpp builds from the instances of a controller:
-- the node has them in the order of their ids, the proxy in the order of the ids' texts.
use kvm_cloud.Base.{
  ◌≡◌, refl, sym, ap, ◌∙◌, Option, none, some, [], ◌∷◌, Bytes, All, All-append, All-zip,
  Option-cases, ok, Bool-cases, inl, inr, if◌then◌else◌,
}
use mathlib.Core.Option
use mathlib.Core.Option.{some-ne-none}
use kvm_cloud.Std.Int.{ℤ, IsInt}
use kvm_cloud.Std.Number.{to_string, stoi, stoi-to_string}
use kvm_cloud.Std.Map.{StdMap, find, insert, same, IsSorted}
use kvm_cloud.Std.Map.Laws.{
  find-insert, All-insert, insert-IsSorted, same_iff, find_below, find-entries,
}
use kvm_cloud.Std.Map.Keys.{bytes_order, int_order}
use kvm_cloud.Net.Stream.Frames.{IsLine}
use kvm_cloud.Sys.Host.{Host}
use kvm_cloud.Vm.Instance.{Instance, get_instance_info}
use kvm_cloud.Vm.InstanceInfo
use kvm_cloud.Vm.InstanceInfo.{InstanceInfo, HasInts}
use kvm_cloud.Vm.InstanceInfo.Lines.{IsPrintable, serialize-IsLine}
use kvm_cloud.Vm.Proxy.{collect_instances}
use kvm_cloud.Vm.Proxy.Decode.{info_lines, collect_instances_step}

-- Each description is filed under its id.
abbrev pub filed : StdMap Bytes InstanceInfo → StdMap Bytes InstanceInfo → StdMap Bytes InstanceInfo
filed [] acc = acc
filed ((k, i) ∷ l) acc = filed l (insert i.id i acc)

pub collect_instances-filed :
    (l acc : StdMap Bytes InstanceInfo)
    → All (λ e. HasInts e.1) l
    → collect_instances (info_lines l) acc ≡ ok (filed l acc)
collect_instances-filed [] acc h = unfold collect_instances in refl
collect_instances-filed ((k, i) ∷ l) acc h =
    collect_instances_step i (info_lines l) acc h.0
    ∙ collect_instances-filed l (insert i.id i acc) h.1

pub filed-IsSorted : (l acc : StdMap Bytes InstanceInfo) → IsSorted acc → IsSorted (filed l acc)
filed-IsSorted [] acc h = h
filed-IsSorted ((k, i) ∷ l) acc h =
    filed-IsSorted l (insert i.id i acc) (insert-IsSorted i.id i acc h)

pub filed-All :
    (P : Bytes × InstanceInfo → Type 0) (l acc : StdMap Bytes InstanceInfo)
    → All (λ e. P (e.1.id, e.1)) l
    → All P acc
    → All P (filed l acc)
filed-All P [] acc h a = a
filed-All P ((k, i) ∷ l) acc h a =
    filed-All P l (insert i.id i acc) h.1 (All-insert P i.id i acc h.0 a)

pub info_lines-IsLine :
    (l : StdMap Bytes InstanceInfo) → All (λ e. IsPrintable e.1) l → All IsLine (info_lines l)
info_lines-IsLine [] h = tt
info_lines-IsLine ((k, i) ∷ l) h =
    All-append IsLine (InstanceInfo.serialize i) (info_lines l) (serialize-IsLine i h.0)
      (info_lines-IsLine l h.1)

pub to_string-inj : (a b : ℤ) → IsInt a → IsInt b → to_string a ≡ to_string b → a ≡ b
to_string-inj a b int_a int_b e =
    let both = sym (stoi-to_string a int_a) ∙ ap stoi e ∙ stoi-to_string b int_b in cc

module _ (h : Host) (host : h.State) where
  -- the descriptions that the node writes, in its order
  abbrev pub infos : StdMap ℤ Instance → StdMap Bytes InstanceInfo
  infos [] = []
  infos ((k, i) ∷ m) = (to_string k, get_instance_info h host i) ∷ infos m

  -- A description for every instance under the text of its id, in the order of the texts.
  pub record IsListing (m : StdMap ℤ Instance) (found : StdMap Bytes InstanceInfo) : Type 0 where
    pub sorted : IsSorted found
    pub keys : All (λ e. (id : ℤ) × IsInt id × (e.0 ≡ to_string id)) found
    pub lookup :
        (id : ℤ)
        → IsInt id
        → find (to_string id) found ≡ Option.map (get_instance_info h host) (find id m)

  abbrev or_info : Option Instance → Option InstanceInfo → Option InstanceInfo
  or_info none o = o
  or_info (some i) o = some (get_instance_info h host i)

  pub get_instance_info-id : (i : Instance) → (get_instance_info h host i).id ≡ to_string i.id
  unfolding get_instance_info
  get_instance_info-id i = refl

  -- the entry of one instance
  find-filed_step :
      (id k : ℤ) (i : Instance) (m : StdMap ℤ Instance) (old : Option InstanceInfo)
      → IsInt id
      → IsInt k
      → IsSorted ((k, i) ∷ m)
      → or_info
          (find id m)
          (if same (to_string k) (to_string id) then some (get_instance_info h host i) else old)
        ≡ or_info (find id ((k, i) ∷ m)) old
  unfolding find
  find-filed_step id k i m old int_id int_k s = elim (Bool-cases (same k id)) [
    | inl e ↦
        let key = (same_iff k id).0 e in
        let absent : find id m ≡ none = rw key at (find_below k m s.0) in
        let text = (same_iff (to_string k) (to_string id)).1 (ap to_string key) in
        rw (e, absent, text)
    | inr e ↦ elim (Bool-cases (same (to_string k) (to_string id))) [
      | inl f ↦
          let key = to_string-inj k id int_k int_id ((same_iff (to_string k) (to_string id)).0 f) in
          let found = (same_iff k id).1 key in cc
      | inr f ↦ rw (e, f)
    ]
  ]

  find-filed :
      (id : ℤ) (m : StdMap ℤ Instance) (acc : StdMap Bytes InstanceInfo)
      → IsInt id
      → IsSorted m
      → All (λ e. IsInt e.0 × (e.1.id ≡ e.0)) m
      → find (to_string id) (filed (infos m) acc) ≡ or_info (find id m) (find (to_string id) acc)
  find-filed id [] acc int s a = unfold find in refl
  find-filed id ((k, i) ∷ m) acc int s a =
      find-filed id m (insert (get_instance_info h host i).id (get_instance_info h host i) acc) int
        s.1 a.1
      ∙ ap (or_info (find id m)) (
          ap (λ b. find (to_string id) (insert b (get_instance_info h host i) acc))
            (get_instance_info-id i ∙ ap to_string a.0.1)
          ∙ find-insert (to_string k) (to_string id) (get_instance_info h host i) acc)
      ∙ find-filed_step id k i m (find (to_string id) acc) int a.0.0 s

  or_info-none : (o : Option Instance) → or_info o none ≡ Option.map (get_instance_info h host) o
  or_info-none none = refl
  or_info-none (some i) = refl

  infos-keys :
      (m : StdMap ℤ Instance)
      → All (λ e. IsInt e.0 × (e.1.id ≡ e.0)) m
      → All (λ e. (id : ℤ) × IsInt id × (e.1.id ≡ to_string id)) (infos m)
  infos-keys [] a = tt
  infos-keys ((k, i) ∷ m) a =
      ((k, a.0.0, get_instance_info-id i ∙ ap to_string a.0.1), infos-keys m a.1)

  pub filed-IsListing :
      (m : StdMap ℤ Instance)
      → IsSorted m
      → All (λ e. IsInt e.0 × (e.1.id ≡ e.0)) m
      → IsListing m (filed (infos m) [])
  unfolding find
  filed-IsListing m s a = record {
    sorted = filed-IsSorted (infos m) [] tt;
    keys =
        filed-All (λ e. (id : ℤ) × IsInt id × (e.0 ≡ to_string id)) (infos m) [] (infos-keys m a)
          tt;
    lookup = λ id int. find-filed id m [] int s a ∙ or_info-none (find id m);
  }

  listing_step :
      (P : Bytes → InstanceInfo → Type 0) (m : StdMap ℤ Instance)
      (found : StdMap Bytes InstanceInfo) (key : Bytes) (i : InstanceInfo) (id : ℤ)
      → IsListing m found
      → ((id : ℤ) (inst : Instance)
          → IsInt id
          → find id m ≡ some inst
          → P (to_string id) (get_instance_info h host inst))
      → IsInt id
      → key ≡ to_string id
      → find key found ≡ some i
      → P key i
  listing_step P m found key i id l f int named here =
      let there : some i ≡ Option.map (get_instance_info h host) (find id m) =
        sym here ∙ ap (λ t. find t found) named ∙ l.lookup id int in
      elim (Option-cases (find id m)) [
        | inl absent ↦
            absurd (some-ne-none i (there ∙ ap (Option.map (get_instance_info h host)) absent))
        | inr (inst, known) ↦
            let same_info : i ≡ get_instance_info h host inst =
              Option.some-injective i (get_instance_info h host inst)
                (there ∙ ap (Option.map (get_instance_info h host)) known) in
            rw (named, same_info) (f id inst int known)
      ]

  -- What holds of the descriptions of all instances holds of all entries of the listing.
  pub listing-All :
      (P : Bytes → InstanceInfo → Type 0) (m : StdMap ℤ Instance)
      (found : StdMap Bytes InstanceInfo)
      → IsListing m found
      → ((id : ℤ) (inst : Instance)
          → IsInt id
          → find id m ≡ some inst
          → P (to_string id) (get_instance_info h host inst))
      → All (λ e. P e.0 e.1) found
  listing-All P m found l f =
      All-zip (λ e. (id : ℤ) × IsInt id × (e.0 ≡ to_string id)) (λ e. find e.0 found ≡ some e.1)
        (λ e. P e.0 e.1) found l.keys (find-entries found l.sorted)
        (λ e key here. listing_step P m found e.0 e.1 key.0 l f key.1 key.2 here)
