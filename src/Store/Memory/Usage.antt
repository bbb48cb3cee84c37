-- ===== src/Store/Memory/Usage.antt =====
-- What a write does to a principal's usage (`usage` of server/fenixspoon/store.py).
use fenix_spoon.Prelude.{
  ℕ, suc, ◌+◌, ◌≤◌, ◌≡◌, refl, sym, subst, ap, ◌∙◌, String, Bool, List, [], ◌∷◌, ◌++◌, none, some,
  string_eq, ◌==◌, leb, keep, length, length-append, length-map, sum_by, map, arith, Bool-cases,
  inl, inr,
}
use fenix_spoon.Dict.{values, lookup, insert}
use fenix_spoon.Store.{JobRecord, is_active, artifact_bytes}
use fenix_spoon.Store.Memory.{Memory, ListRef, mark_reused}
use fenix_spoon.Store.Memory.Queries.{usage}
use fenix_spoon.Store.Memory.Lookups.{Keyed}
use fenix_spoon.Store.Memory.Reuse.{
  bump_at, values-insert_new, values-insert-bump, mark_reused_stored,
}

module _ {A : Type 0} where
  keep-append : (p : A → Bool) (xs ys : List A) → keep p (xs ++ ys) ≡ keep p xs ++ keep p ys
  keep-append p [] ys = refl
  keep-append p (x ∷ xs) ys = ground (arith, keep-append p xs ys)

  keep-map :
      (p : A → Bool) (f : A → A) (same : (x : A) → p (f x) ≡ p x) (xs : List A)
      → keep p (map f xs) ≡ map f (keep p xs)
  keep-map p f same [] = refl
  keep-map p f same (x ∷ xs) = ground (arith, same x, keep-map p f same xs)

  sum_by-map :
      (g : A → ℕ) (f : A → A) (same : (x : A) → g (f x) ≡ g x) (xs : List A)
      → sum_by g (map f xs) ≡ sum_by g xs
  sum_by-map g f same [] = refl
  sum_by-map g f same (x ∷ xs) = omega (arith, same x, sum_by-map g f same xs)

  sum_by-append : (g : A → ℕ) (xs ys : List A) → sum_by g (xs ++ ys) ≡ sum_by g xs + sum_by g ys
  sum_by-append g [] ys = omega arith
  sum_by-append g (x ∷ xs) ys = omega (arith, sum_by-append g xs ys)

  keep_one : (p : A → Bool) (x : A) → length (keep p (x ∷ [])) ≤ 1
  keep_one p x = ground arith

  -- how many of a list pass two tests
  abbrev both : (A → Bool) → (A → Bool) → List A → ℕ
  both p q xs = length (keep q (keep p xs))

  both-last : (p q : A → Bool) (xs : List A) (x : A) → both p q (xs ++ x ∷ []) ≤ suc (both p q xs)
  both-last p q xs x =
      let first = ap (keep q) (keep-append p xs (x ∷ [])) in
      let second = keep-append q (keep p xs) (keep p (x ∷ [])) in
      let total = length-append (keep q (keep p xs)) (keep q (keep p (x ∷ []))) in
      ground (arith, ap length first, ap length second, total)

  both-map :
      (p q : A → Bool) (f : A → A) (same_p : (x : A) → p (f x) ≡ p x)
      (same_q : (x : A) → q (f x) ≡ q x) (xs : List A)
      → both p q (map f xs) ≡ both p q xs
  both-map p q f same_p same_q xs =
      ap length (ap (keep q) (keep-map p f same_p xs) ∙ keep-map q f same_q (keep p xs))
      ∙ length-map f (keep q (keep p xs))

triple :
    {a a' b b' c c' : ℕ} → a ≡ a' → b ≡ b' → c ≡ c' → ◌≡◌ {A = ℕ × ℕ × ℕ} (a, b, c) (a', b', c')
triple p q r = cc (p, q, r)

module _ {F D : Type 0} where
  no_bytes :
      (p : JobRecord F D ListRef → Bool) (r : JobRecord F D ListRef)
      → r.artifacts ≡ []
      → sum_by artifact_bytes (keep p (r ∷ [])) ≡ 0
  unfolding artifact_bytes
  no_bytes p r bare = elim (Bool-cases (p r)) [
    | inl kept ↦ ground (arith, kept, bare)
    | inr dropped ↦ ground (arith, dropped)
  ]

  active-bump :
      (k : String) (r : JobRecord F D ListRef) → is_active (bump_at k r).status ≡ is_active r.status
  unfolding bump_at
  active-bump k r = ground arith

  owner-bump :
      (o k : String) (r : JobRecord F D ListRef) → ((bump_at k r).owner == o) ≡ (r.owner == o)
  unfolding bump_at
  owner-bump o k r = ground arith

  recent-bump :
      (since : ℕ) (k : String) (r : JobRecord F D ListRef)
      → leb since (bump_at k r).created_at ≡ leb since r.created_at
  unfolding bump_at
  recent-bump since k r = ground arith

  bytes-bump :
      (k : String) (r : JobRecord F D ListRef) → artifact_bytes (bump_at k r) ≡ artifact_bytes r
  unfolding bump_at artifact_bytes
  bytes-bump k r = ground arith

  -- A new record adds at most one job to a usage, and its artifacts' bytes.
  pub usage-insert :
      (owner k : String) (since : ℕ) (m : Memory F D) (r : JobRecord F D ListRef)
      → lookup k m.records ≡ none
      → r.artifacts ≡ []
      → let after = usage owner since (record m { records = insert k r m.records }) in
        (after.0 ≤ suc (usage owner since m).0)
        × (after.1 ≤ suc (usage owner since m).1)
        × (after.2 ≡ (usage owner since m).2)
  unfolding usage
  usage-insert owner k since m r new bare =
      let rows = values-insert_new k r m.records new in
      let mine = λ (x : JobRecord F D ListRef). x.owner == owner in
      (
        subst (λ xs. both mine (λ x. is_active x.status) xs ≤ suc (usage owner since m).0)
            (sym rows) (both-last mine (λ x. is_active x.status) (values m.records) r),
        subst (λ xs. both mine (λ x. leb since x.created_at) xs ≤ suc (usage owner since m).1)
            (sym rows) (both-last mine (λ x. leb since x.created_at) (values m.records) r),
        ap (λ xs. sum_by artifact_bytes (keep mine xs)) rows
            ∙ ap (sum_by artifact_bytes) (keep-append mine (values m.records) (r ∷ []))
            ∙ sum_by-append artifact_bytes (keep mine (values m.records)) (keep mine (r ∷ []))
            ∙ omega (arith, no_bytes mine r bare),
      )

  -- Counting a use changes no usage.
  pub usage-mark_reused :
      (owner : String) (since : ℕ) (m : Memory F D) (r : JobRecord F D ListRef)
      → Keyed m
      → lookup r.id m.records ≡ some r
      → usage owner since (mark_reused r.id m) ≡ usage owner since m
  unfolding usage
  usage-mark_reused owner since m r filed stored =
      let k = r.id in
      let mine = λ (x : JobRecord F D ListRef). x.owner == owner in
      let xs = values m.records in
      let rows : values (mark_reused k m).records ≡ map (bump_at k) xs =
        ap (λ s. values s.records) (mark_reused_stored r m stored)
        ∙ values-insert-bump k r m.records filed.0 filed.1 stored in
      let active =
        both-map mine (λ x. is_active x.status) (bump_at k) (owner-bump owner k) (active-bump k)
          xs in
      let recent =
        both-map mine (λ x. leb since x.created_at) (bump_at k) (owner-bump owner k)
          (recent-bump since k) xs in
      let bytes =
        ap (sum_by artifact_bytes) (keep-map mine (bump_at k) (owner-bump owner k) xs)
        ∙ sum_by-map artifact_bytes (bump_at k) (bytes-bump k) (keep mine xs) in
      let after =
        ap
          (λ ys. (
            both mine (λ x. is_active x.status) ys,
            both mine (λ x. leb since x.created_at) ys,
            sum_by artifact_bytes (keep mine ys),
          ))
          rows in
      after ∙ triple active recent bytes
