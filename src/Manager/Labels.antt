-- ===== src/Manager/Labels.antt =====
-- The descriptions that src/manager.cpp passes on: those of each controller, under full ids.
use kvm_cloud.Base.{
  ◌≡◌, ◌≢◌, refl, sym, ap, ◌∙◌, Option, none, some, List, [], ◌∷◌, ◌++◌, Bytes, All, All-append,
  Lacks, if◌then◌else◌, Bool-cases, inl, inr,
}
use mathlib.Core.Option
use mathlib.Core.Path.{subst}
use kvm_cloud.Std.Map.{StdMap, find, insert, same, IsSorted}
use kvm_cloud.Std.Map.Laws.{find-insert, same_iff, find_below}
use kvm_cloud.Std.Map.Keys.{bytes_order}
use kvm_cloud.Vm.InstanceInfo.{InstanceInfo, set_id}
use kvm_cloud.Vm.Proxy.Filing.{filed}
use kvm_cloud.Manager.{make_full_id, extract_id_parts}
use kvm_cloud.Manager.Ids.{extract_id_parts-make_full_id}

-- a controller's name, and the descriptions that it has given
abbrev pub Group : Type 0
Group = Bytes × StdMap Bytes InstanceInfo

abbrev pub relabel : Bytes → InstanceInfo → InstanceInfo
relabel server i = set_id i (make_full_id server i.id)

abbrev pub labelled : Bytes → StdMap Bytes InstanceInfo → StdMap Bytes InstanceInfo
labelled server [] = []
labelled server ((k, i) ∷ m) = (make_full_id server i.id, relabel server i) ∷ labelled server m

abbrev pub all_labelled : List Group → StdMap Bytes InstanceInfo
all_labelled [] = []
all_labelled ((server, m) ∷ gs) = labelled server m ++ all_labelled gs

make_full_id-inj :
    (a x b y : Bytes)
    → Lacks b'/' a
    → Lacks b'/' b
    → make_full_id a x ≡ make_full_id b y
    → (a ≡ b) × (x ≡ y)
make_full_id-inj a x b y plain_a plain_b e =
    let parts =
      sym (extract_id_parts-make_full_id a x plain_a)
      ∙ ap extract_id_parts e
      ∙ extract_id_parts-make_full_id b y plain_b in
    (ap (λ p. p.0) parts, ap (λ p. p.1) parts)

filed-append : (l k acc : StdMap Bytes InstanceInfo) → filed (l ++ k) acc ≡ filed k (filed l acc)
filed-append [] k acc = refl
filed-append ((key, i) ∷ l) k acc = filed-append l k (insert i.id i acc)

filed-absent :
    (b : Bytes) (l acc : StdMap Bytes InstanceInfo)
    → All (λ e. e.1.id ≢ b) l
    → find b (filed l acc) ≡ find b acc
filed-absent b [] acc h = refl
filed-absent b ((k, i) ∷ l) acc h =
    filed-absent b l (insert i.id i acc) h.1
    ∙ find-insert i.id b i acc
    ∙ elim (Bool-cases (same i.id b)) [
      | inl here ↦ absurd (h.0 ((same_iff i.id b).0 here))
      | inr other ↦ ap (λ c. if c then some i else find b acc) other
    ]

pub relabel-id :
    (server : Bytes) (i : InstanceInfo) → (relabel server i).id ≡ make_full_id server i.id
unfolding set_id
relabel-id server i = refl

labelled-others :
    (a server x : Bytes) (m : StdMap Bytes InstanceInfo)
    → Lacks b'/' a
    → Lacks b'/' server
    → server ≢ a
    → All (λ e. e.1.id ≢ make_full_id a x) (labelled server m)
labelled-others a server x [] plain_a plain ne = tt
labelled-others a server x ((k, i) ∷ m) plain_a plain ne = (
  λ e. ne (make_full_id-inj server i.id a x plain plain_a (sym (relabel-id server i) ∙ e)).0,
  labelled-others a server x m plain_a plain ne,
)

abbrev pub Distinct : List Group → Type 0
Distinct [] = Unit
Distinct (g ∷ gs) = All (λ d. d.0 ≢ g.0) gs × Distinct gs

-- the descriptions of a controller, in the order of their ids
abbrev pub IsGroup : Group → Type 0
IsGroup g = Lacks b'/' g.0 × IsSorted g.1 × All (λ e. e.1.id ≡ e.0) g.1

all_labelled-others :
    (a x : Bytes) (gs : List Group)
    → Lacks b'/' a
    → All IsGroup gs
    → All (λ d. d.0 ≢ a) gs
    → All (λ e. e.1.id ≢ make_full_id a x) (all_labelled gs)
all_labelled-others a x [] plain_a plain ne = tt
all_labelled-others a x ((server, m) ∷ gs) plain_a plain ne =
    All-append _ (labelled server m) (all_labelled gs)
      (labelled-others a server x m plain_a plain.0.0 ne.0)
      (all_labelled-others a x gs plain_a plain.1 ne.1)

abbrev or_old : Bytes → Option InstanceInfo → Option InstanceInfo → Option InstanceInfo
or_old server none old = old
or_old server (some i) old = some (relabel server i)

find-labelled_step :
    (server x k : Bytes) (i : InstanceInfo) (m : StdMap Bytes InstanceInfo)
    (old : Option InstanceInfo)
    → Lacks b'/' server
    → IsSorted ((k, i) ∷ m)
    → or_old server (find x m) (
        if same (make_full_id server k) (make_full_id server x)
        then some (relabel server i)
        else old)
      ≡ or_old server (find x ((k, i) ∷ m)) old
unfolding find
find-labelled_step server x k i m old plain s = elim (Bool-cases (same k x)) [
  | inl e ↦
      let key = (same_iff k x).0 e in
      let absent : find x m ≡ none = rw key at (find_below k m s.0) in
      let text =
        (same_iff (make_full_id server k) (make_full_id server x)).1
          (ap (make_full_id server) key) in
      rw (e, absent, text)
  | inr e ↦ elim (Bool-cases (same (make_full_id server k) (make_full_id server x))) [
    | inl f ↦
        let parts =
          make_full_id-inj server k server x plain plain
            ((same_iff (make_full_id server k) (make_full_id server x)).0 f) in
        let found = (same_iff k x).1 parts.1 in cc
    | inr f ↦ rw (e, f)
  ]
]

find-labelled :
    (server x : Bytes) (m acc : StdMap Bytes InstanceInfo)
    → Lacks b'/' server
    → IsSorted m
    → All (λ e. e.1.id ≡ e.0) m
    → find (make_full_id server x) (filed (labelled server m) acc)
      ≡ or_old server (find x m) (find (make_full_id server x) acc)
find-labelled server x [] acc plain s n = unfold find in refl
find-labelled server x ((k, i) ∷ m) acc plain s n =
    find-labelled server x m (insert (relabel server i).id (relabel server i) acc) plain s.1 n.1
    ∙ ap (or_old server (find x m)) (
        ap (λ b. find (make_full_id server x) (insert b (relabel server i) acc))
          (relabel-id server i ∙ ap (make_full_id server) n.0)
        ∙ find-insert (make_full_id server k) (make_full_id server x) (relabel server i) acc)
    ∙ find-labelled_step server x k i m (find (make_full_id server x) acc) plain s

or_old-none :
    (server : Bytes) (o : Option InstanceInfo)
    → or_old server o none ≡ Option.map (relabel server) o
or_old-none server none = refl
or_old-none server (some i) = refl

-- nothing is filed under the full ids of a controller
abbrev Absent : StdMap Bytes InstanceInfo → Group → Type 0
Absent acc g = (x : Bytes) → find (make_full_id g.0 x) acc ≡ none

-- under a controller's full ids there are its descriptions
abbrev pub Listed : StdMap Bytes InstanceInfo → Group → Type 0
Listed found g =
    (x : Bytes) → find (make_full_id g.0 x) found ≡ Option.map (relabel g.0) (find x g.1)

labelled-Absent :
    (server : Bytes) (m acc : StdMap Bytes InstanceInfo) (gs : List Group)
    → Lacks b'/' server
    → All IsGroup gs
    → All (λ d. d.0 ≢ server) gs
    → All (Absent acc) gs
    → All (Absent (filed (labelled server m) acc)) gs
labelled-Absent server m acc [] plain a ne old = tt
labelled-Absent server m acc (g ∷ gs) plain a ne old = (
  λ x.
      filed-absent (make_full_id g.0 x) (labelled server m) acc
        (labelled-others g.0 server x m a.0.0 plain (λ e. ne.0 (sym e)))
      ∙ old.0 x,
  labelled-Absent server m acc gs plain a.1 ne.1 old.1,
)

find-all_labelled :
    (gs : List Group) (acc : StdMap Bytes InstanceInfo)
    → All IsGroup gs
    → Distinct gs
    → All (Absent acc) gs
    → All (Listed (filed (all_labelled gs) acc)) gs
find-all_labelled [] acc a distinct old = tt
find-all_labelled ((server, m) ∷ gs) acc a distinct old =
    let later = filed-append (labelled server m) (all_labelled gs) acc in
    (
      λ x.
          ap (find (make_full_id server x)) later
          ∙ filed-absent (make_full_id server x) (all_labelled gs) (filed (labelled server m) acc)
              (all_labelled-others server x gs a.0.0 a.1 distinct.0)
          ∙ find-labelled server x m acc a.0.0 a.0.1 a.0.2
          ∙ ap (or_old server (find x m)) (old.0 x)
          ∙ or_old-none server (find x m),
      subst (λ found. All (Listed found) gs) (sym later)
          (find-all_labelled gs (filed (labelled server m) acc) a.1 distinct.1
            (labelled-Absent server m acc gs a.0.0 a.1 distinct.0 old.1)),
    )

nothing-Absent : (gs : List Group) → All (Absent []) gs
unfolding find
nothing-Absent [] = tt
nothing-Absent (g ∷ gs) = (λ x. refl, nothing-Absent gs)

-- Filed under their full ids, the descriptions of every controller are found.
pub filed-Listed :
    (gs : List Group) → All IsGroup gs → Distinct gs → All (Listed (filed (all_labelled gs) [])) gs
filed-Listed gs a distinct = find-all_labelled gs [] a distinct (nothing-Absent gs)
