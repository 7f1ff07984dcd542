-- ===== src/Manager/Catalog.antt =====
-- `getTemplates` of the manager of src/manager.cpp, whose controllers are nodes.
use kvm_cloud.Base.{
  ℕ, zero, suc, ◌<◌, ◌≡◌, refl, sym, ap, ◌∙◌, some, [], ◌∷◌, ◌++◌, append_assoc, Bytes, All, ok,
  if◌then◌else◌, Bool-cases, inl, inr, arith,
}
use mathlib.Core.Option
use mathlib.Core.Option.{some-ne-none}
use kvm_cloud.Std.Map.{StdMap, find, insert, same}
use kvm_cloud.Std.Map.Laws.{find-insert, same_iff}
use kvm_cloud.Std.Map.Keys.{bytes_order}
use kvm_cloud.Std.Text.{str_eq, str_eq_iff}
use kvm_cloud.Sys.Host.{Host}
use kvm_cloud.Vm.Template
use kvm_cloud.Vm.Template.{Template}
use kvm_cloud.Vm.Controller.{Node}
use kvm_cloud.Vm.Proxy.{collect_templates}
use kvm_cloud.Vm.Proxy.Decode.{template_lines, collect_templates_step}
use kvm_cloud.Manager.{offered}

-- Each template is filed under its name, a later one in place of an earlier one.
abbrev pub catalog : StdMap Bytes Template → StdMap Bytes Template → StdMap Bytes Template
catalog [] acc = acc
catalog ((k, t) ∷ l) acc = catalog l (insert t.name t acc)

pub collect_templates-catalog :
    (l acc : StdMap Bytes Template) → collect_templates (template_lines l) acc ≡ ok (catalog l acc)
collect_templates-catalog [] acc = unfold collect_templates in refl
collect_templates-catalog ((k, t) ∷ l) acc =
    collect_templates_step t (template_lines l) acc
    ∙ collect_templates-catalog l (insert t.name t acc)

-- a template is found under its own name
abbrev Named : StdMap Bytes Template → Type 0
Named m = (name : Bytes) (t : Template) → find name m ≡ some t → t.name ≡ name

insert-Named : (t : Template) (m : StdMap Bytes Template) → Named m → Named (insert t.name t m)
insert-Named t m h name u e =
    let there : (if same t.name name then some t else find name m) ≡ some u =
      sym (find-insert t.name name t m) ∙ e in
    elim (Bool-cases (same t.name name)) [
      | inl here ↦
          let same_templ =
            Option.some-injective t u
              (sym (ap (λ b. if b then some t else find name m) here) ∙ there) in
          sym (ap (λ v. v.name) same_templ) ∙ (same_iff t.name name).0 here
      | inr other ↦ h name u (sym (ap (λ b. if b then some t else find name m) other) ∙ there)
    ]

catalog-Named : (l acc : StdMap Bytes Template) → Named acc → Named (catalog l acc)
catalog-Named [] acc h = h
catalog-Named ((k, t) ∷ l) acc h = catalog-Named l (insert t.name t acc) (insert-Named t acc h)

abbrev IsListed : Bytes → StdMap Bytes Template → Type 0
IsListed name m = (t : Template) × (find name m ≡ some t)

catalog_keeps :
    (name : Bytes) (l acc : StdMap Bytes Template)
    → IsListed name acc
    → IsListed name (catalog l acc)
catalog_keeps name [] acc old = old
catalog_keeps name ((k, t) ∷ l) acc (u, e) =
    catalog_keeps name l (insert t.name t acc) (elim (Bool-cases (same t.name name)) [
      | inl here ↦
          (t, find-insert t.name name t acc ∙ ap (λ b. if b then some t else find name acc) here)
      | inr other ↦ (
        u,
        find-insert t.name name t acc ∙ ap (λ b. if b then some t else find name acc) other ∙ e,
      )
    ])

offered-IsListed :
    (name : Bytes) (u : Template) (m acc : StdMap Bytes Template)
    → All (λ p. p.1.name ≡ p.0) m
    → offered name m ≡ some u
    → IsListed name (catalog m acc)
unfolding offered
offered-IsListed name u [] acc a e = absurd (some-ne-none u (sym e))
offered-IsListed name u ((k, t) ∷ m) acc a e = elim (Bool-cases (str_eq k name)) [
  | inl here ↦
      let key = a.0 ∙ (str_eq_iff k name).0 here in
      let equal = (same_iff t.name name).1 key in
      catalog_keeps name m (insert t.name t acc)
        (t, find-insert t.name name t acc ∙ ap (λ b. if b then some t else find name acc) equal)
  | inr other ↦ offered-IsListed name u m (insert t.name t acc) a.1 (rw (other) at e)
]

catalog-append :
    (l k acc : StdMap Bytes Template) → catalog (l ++ k) acc ≡ catalog k (catalog l acc)
catalog-append [] k acc = refl
catalog-append ((name, t) ∷ l) k acc = catalog-append l k (insert t.name t acc)

pub template_lines-append :
    (l m : StdMap Bytes Template) → template_lines (l ++ m) ≡ template_lines l ++ template_lines m
template_lines-append [] m = refl
template_lines-append ((k, t) ∷ l) m =
    ap (λ s. Template.serialize t ++ s) (template_lines-append l m)
    ∙ sym (append_assoc (Template.serialize t) (template_lines l) (template_lines m))

module _ (h : Host) where
  -- the templates of the first nodes, one node after the other
  abbrev pub all_offers : ℕ → (ℕ → Node h) → StdMap Bytes Template
  all_offers zero nodes = []
  all_offers (suc n) nodes = (nodes 0).controller.templates ++ all_offers n (λ i. nodes (suc i))

  -- What one node offers is found under its name.
  all_offers-IsListed :
      (n i : ℕ) (nodes : ℕ → Node h) (name : Bytes) (u : Template) (acc : StdMap Bytes Template)
      → i < n
      → ((j : ℕ) → j < n → All (λ p. p.1.name ≡ p.0) (nodes j).controller.templates)
      → offered name (nodes i).controller.templates ≡ some u
      → IsListed name (catalog (all_offers n nodes) acc)
  all_offers-IsListed zero i nodes name u acc fits named e = elim fits [ ]
  all_offers-IsListed (suc n) zero nodes name u acc fits named e =
      let first = (nodes 0).controller.templates in
      let (t, here) =
        catalog_keeps name (all_offers n (λ i. nodes (suc i))) (catalog first acc)
          (offered-IsListed name u first acc (named 0 (omega arith)) e) in
      (t, ap (find name) (catalog-append first _ acc) ∙ here)
  all_offers-IsListed (suc n) (suc i) nodes name u acc fits named e =
      let first = (nodes 0).controller.templates in
      let (t, here) =
        all_offers-IsListed n i (λ i. nodes (suc i)) name u (catalog first acc) (omega arith)
          (λ j f. named (suc j) (omega arith)) e in
      (t, ap (find name) (catalog-append first _ acc) ∙ here)

  -- In the catalog of all nodes there is, under a name that one of them offers, a template of that name.
  pub catalog-find :
      (n i : ℕ) (nodes : ℕ → Node h) (name : Bytes) (u : Template)
      → i < n
      → ((j : ℕ) → j < n → All (λ p. p.1.name ≡ p.0) (nodes j).controller.templates)
      → offered name (nodes i).controller.templates ≡ some u
      → (t : Template) × (find name (catalog (all_offers n nodes) []) ≡ some t) × (t.name ≡ name)
  unfolding find
  catalog-find n i nodes name u fits named e =
      let (t, here) = all_offers-IsListed n i nodes name u [] fits named e in
      (
        t,
        here,
        catalog-Named (all_offers n nodes) []
            (λ name t none_there. absurd (some-ne-none t (sym none_there))) name t here,
      )
