-- ===== src/Std/Map/Laws.antt =====
-- The laws of `std::map`: lookup behind insertion, and the order of iteration.
use kvm_cloud.Base.{
  true, ◌≡◌, refl, ◌↔◌, none, some, ap, [], ◌∷◌, ◌++◌, All, All-middle, All-zip, if◌then◌else◌,
  arith, Bool-cases, inl, inr,
}
use kvm_cloud.Std.Map.{Order, StdMap, same, find, insert, IsSorted}

module _ {ℓ} {K : Type ℓ} ⦃o : Order K⦄ where
  pub same_refl : (a : K) → same a a ≡ true
  same_refl a = ground (arith, o.lt_irrefl a)

  pub same_iff : (a b : K) → (same a b ≡ true) ↔ (a ≡ b)
  same_iff a b = (λ h. ground (arith, o.lt_connex a b), λ e. rw e (same_refl b))

module _ {ℓ κ} {K : Type ℓ} ⦃o : Order K⦄ {V : Type κ} where
  -- What an insertion does to a lookup.
  pub find-insert :
      (k j : K) (v : V) (m : StdMap K V)
      → find j (insert k v m) ≡ (if same k j then some v else find j m)
  unfolding find insert
  find-insert k j v [] = refl
  find-insert k j v ((i, w) ∷ m) = ground (
    arith,
    find-insert k j v m,
    o.lt_connex k i,
    o.lt_connex i j,
    same_iff k j,
    same_iff i j,
    same_iff i k,
  )

  pub All-insert :
      (P : K × V → Type 0) (k : K) (v : V) (m : StdMap K V)
      → P (k, v)
      → All P m
      → All P (insert k v m)
  unfolding insert
  All-insert P k v [] p h = (p, tt)
  All-insert P k v ((i, w) ∷ m) p h = ground (arith, All-insert P k v m p h.1)

  -- What holds of all entries holds of the one that is found.
  pub All-find :
      (P : K × V → Type 0) (k : K) (v : V) (m : StdMap K V) → All P m → find k m ≡ some v → P (k, v)
  unfolding find
  All-find P k v [] h e = cc
  All-find P k v ((j, w) ∷ m) h e = elim (Bool-cases (same j k)) [
    | inl here ↦
        let key : j ≡ k = (same_iff j k).0 here in
        let value : w ≡ v = cc (rw (here, find) at e) in rw (← key, ← value) h.0
    | inr later ↦ All-find P k v m h.1 (rw (later, find) at e)
  ]

  -- a key below all of the entries is not among them
  pub find_below : (k : K) (m : StdMap K V) → All (λ p. o.lt k p.0 ≡ true) m → find k m ≡ none
  unfolding find
  find_below k [] h = refl
  find_below k ((j, w) ∷ m) h = ground (arith, find_below k m h.1)

  -- Every entry of sorted entries is found.
  pub find-entries : (m : StdMap K V) → IsSorted m → All (λ p. find p.0 m ≡ some p.1) m
  unfolding find
  find-entries [] h = tt
  find-entries ((k, v) ∷ m) h = (
    ap (λ b. if b then some v else find k m) (same_refl k),
    All-zip (λ p. o.lt k p.0 ≡ true) (λ p. find p.0 m ≡ some p.1) _ m h.0 (find-entries m h.1)
        (λ p below here. later k v p m below here),
  )
    where
      later :
          (k : K) (v : V) (p : K × V) (m : StdMap K V)
          → o.lt k p.0 ≡ true
          → find p.0 m ≡ some p.1
          → (if same k p.0 then some v else find p.0 m) ≡ some p.1
      later k v p m below here = rw (below, here)

  All-below :
      (i k : K) (m : StdMap K V)
      → o.lt k i ≡ true
      → All (λ p. o.lt i p.0 ≡ true) m
      → All (λ p. o.lt k p.0 ≡ true) m
  All-below i k [] h b = tt
  All-below i k ((j, w) ∷ m) h b = (o.lt_trans k i j h b.0, All-below i k m h b.1)

  -- Insertion keeps the entries in the order of their keys.
  pub insert-IsSorted : (k : K) (v : V) (m : StdMap K V) → IsSorted m → IsSorted (insert k v m)
  unfolding insert
  insert-IsSorted k v [] h = (tt, tt)
  insert-IsSorted k v ((i, w) ∷ m) h = elim (Bool-cases (o.lt i k)) [
    | inl behind ↦
        rw (behind, insert)
          (All-insert (λ p. o.lt i p.0 ≡ true) k v m behind h.0, insert-IsSorted k v m h.1)
    | inr not_behind ↦ elim (Bool-cases (o.lt k i)) [
      | inl before ↦ rw (not_behind, before, insert) ((before, All-below i k m before h.0), h)
      | inr here ↦
          let e = o.lt_connex i k not_behind here in rw (not_behind, here, insert) (rw e at h)
    ]
  ]

  -- A key above all others goes to the end.
  pub insert_last :
      (k : K) (v : V) (m : StdMap K V)
      → All (λ p. o.lt p.0 k ≡ true) m
      → insert k v m ≡ m ++ (k, v) ∷ []
  unfolding insert
  insert_last k v [] h = refl
  insert_last k v ((i, w) ∷ m) h = ground (arith, insert_last k v m h.1)

  -- In sorted entries all that stands before a key is less.
  pub below_middle :
      (m : StdMap K V) (k : K) (v : V) (n : StdMap K V)
      → IsSorted (m ++ (k, v) ∷ n)
      → All (λ p. o.lt p.0 k ≡ true) m
  below_middle [] k v n h = tt
  below_middle ((j, w) ∷ m) k v n h =
      (All-middle (λ p. o.lt j p.0 ≡ true) m (k, v) n h.0, below_middle m k v n h.1)

  -- Entries that come in the order of their keys are appended one by one.
  pub insert_next :
      (m : StdMap K V) (k : K) (v : V) (n : StdMap K V)
      → IsSorted (m ++ (k, v) ∷ n)
      → insert k v m ≡ m ++ (k, v) ∷ []
  insert_next m k v n h = insert_last k v m (below_middle m k v n h)
