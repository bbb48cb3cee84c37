-- ===== src/Dict.antt =====
-- Python's `dict`: an association list in insertion order, with at most one entry for a key.
use fenix_spoon.Prelude.{
  ◌≡◌, refl, ◌↔◌, true, false, List, [], ◌∷◌, map, Option, none, some, Eq, ◌==◌, if◌then◌else◌,
  contains, AllDistinct, arith, ◌++◌, All, Bool-cases, inl, inr,
}

abbrev pub Dict {ℓ κ} : Type ℓ → Type κ → Type (ℓ ⊔ κ)
Dict K V = List (K × V)

abbrev pub keys {ℓ κ} : {K : Type ℓ} {V : Type κ} → Dict K V → List K
keys = map (λ e. e.0)

abbrev pub values {ℓ κ} : {K : Type ℓ} {V : Type κ} → Dict K V → List V
values = map (λ e. e.1)

module _ {ℓ κ} {K : Type ℓ} {V : Type κ} ⦃e : Eq K⦄ where
  -- `d.get(k)`
  unfoldable pub lookup : K → Dict K V → Option V
  lookup k [] = none
  lookup k ((j, v) ∷ d) = if j == k then some v else lookup k d

  -- `d[k] = v`: in place, or at the end
  unfoldable pub insert : K → V → Dict K V → Dict K V
  insert k v [] = (k, v) ∷ []
  insert k v ((j, w) ∷ d) = if j == k then (j, v) ∷ d else (j, w) ∷ insert k v d

  -- `d.pop(k, None)`
  unfoldable pub delete : K → Dict K V → Dict K V
  delete k [] = []
  delete k ((j, w) ∷ d) = let rest = delete k d in if j == k then rest else (j, w) ∷ rest

  pub lookup-insert :
      (k j : K) (v : V) (d : Dict K V)
      → lookup j (insert k v d) ≡ (if k == j then some v else lookup j d)
  unfolding lookup insert
  lookup-insert k j v [] = refl
  lookup-insert k j v ((i, w) ∷ d) =
      ground (arith, e.beq_iff k j, e.beq_iff i k, e.beq_iff i j, lookup-insert k j v d)

  pub lookup-delete :
      (k j : K) (d : Dict K V) → lookup j (delete k d) ≡ (if k == j then none else lookup j d)
  unfolding lookup delete
  lookup-delete k j [] = ground arith
  lookup-delete k j ((i, w) ∷ d) =
      ground (arith, lookup-delete k j d, e.beq_iff i k, e.beq_iff i j, e.beq_iff k j)

  pub lookup-insert_self : (k : K) (v : V) (d : Dict K V) → lookup k (insert k v d) ≡ some v
  lookup-insert_self k v d = ground (arith, lookup-insert k k v d, e.beq_iff k k)

  pub lookup-delete_self : (k : K) (d : Dict K V) → lookup k (delete k d) ≡ none
  lookup-delete_self k d = ground (arith, lookup-delete k k d, e.beq_iff k k)

  -- a key is among the keys exactly when it is found
  pub contains-keys_iff :
      (k : K) (d : Dict K V) → (contains k (keys d) ≡ false) ↔ (lookup k d ≡ none)
  unfolding lookup contains
  contains-keys_iff k [] = ground arith
  contains-keys_iff k ((j, w) ∷ d) =
      ground (arith, contains-keys_iff k d, e.beq_iff j k, e.beq_iff k j)

  contains-keys-insert :
      (k j : K) (v : V) (d : Dict K V)
      → contains j (keys (insert k v d)) ≡ (if k == j then true else contains j (keys d))
  unfolding insert contains
  contains-keys-insert k j v [] = ground (arith, e.beq_iff k j, e.beq_iff j k)
  contains-keys-insert k j v ((i, w) ∷ d) =
      ground (arith, contains-keys-insert k j v d, e.beq_iff k j, e.beq_iff i k, e.beq_iff j i)

  pub insert-AllDistinct :
      (k : K) (v : V) (d : Dict K V) → AllDistinct (keys d) → AllDistinct (keys (insert k v d))
  unfolding insert contains
  insert-AllDistinct k v [] h = ground arith
  insert-AllDistinct k v ((j, w) ∷ d) h = ground (
    arith,
    insert-AllDistinct k v d h.1,
    contains-keys-insert k j v d,
    e.beq_iff j k,
    e.beq_iff k j,
  )

  pub keys-insert :
      (k : K) (v : V) (d : Dict K V)
      → keys (insert k v d) ≡ (if contains k (keys d) then keys d else keys d ++ k ∷ [])
  unfolding insert contains
  keys-insert k v [] = refl
  keys-insert k v ((j, w) ∷ d) = elim (Bool-cases (j == k)) [
    | inl same ↦ rw same (ground (arith, same, e.beq_iff j k, e.beq_iff k j))
    | inr other ↦ rw other (ground (arith, keys-insert k v d, other, e.beq_iff j k, e.beq_iff k j))
  ]

  -- What holds of all entries, whatever their keys, holds still where it holds of the new value.
  pub All-insert :
      (P : V → Type 0) (k : K) (v : V) (d : Dict K V)
      → P v
      → All (λ c. P c.1) d
      → All (λ c. P c.1) (insert k v d)
  unfolding insert
  All-insert P k v [] new h = (new, tt)
  All-insert P k v ((j, w) ∷ d) new h = elim (Bool-cases (j == k)) [
    | inl same ↦ rw same (new, h.1)
    | inr other ↦ rw other (h.0, All-insert P k v d new h.1)
  ]
