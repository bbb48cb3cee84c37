-- ===== src/Store/Memory/Reuse.antt =====
-- What the cache lookup of the memory store finds after a write (server/fenixspoon/store.py).
use fenix_spoon.Prelude.{
  ◌+◌, ◌≡◌, refl, sym, subst, ap, ◌∙◌, inl, inr, String, Bool, true, false, List, [], ◌∷◌, ◌++◌,
  Option, none, some, string_eq, nat_eq, ◌==◌, if◌then◌else◌, leb, keep, All, AllDistinct, map,
  arith, Bool-cases,
}
use fenix_spoon.Dict.{Dict, keys, values, lookup, insert, contains-keys_iff, lookup-insert_self}
use fenix_spoon.Store.{JobRecord}
use fenix_spoon.Store.Memory.{Memory, ListRef, mark_reused}
use fenix_spoon.Store.Memory.Queries.{newest, serves, pick_newest, cached_record}
use fenix_spoon.Store.Memory.Lookups.{IsIn, Keyed, cached_record_cases}

abbrev Rows : Type 0 → Type 0 → Type 0
Rows F D = Dict String (JobRecord F D ListRef)

some-injective : {A : Type 0} {a b : A} → ◌≡◌ {A = Option A} (some a) (some b) → a ≡ b
some-injective h = cc

if_apply :
    {A B : Type 0} (f : A → B) (c : Bool) (x y : A)
    → (if c then f x else f y) ≡ f (if c then x else y)
if_apply f true x y = refl
if_apply f false x y = refl

module _ {F D : Type 0} where
  pub values-insert_new :
      (k : String) (r : JobRecord F D ListRef) (d : Rows F D)
      → lookup k d ≡ none
      → values (insert k r d) ≡ values d ++ r ∷ []
  unfolding lookup insert
  values-insert_new k r [] h = refl
  values-insert_new k r ((j, w) ∷ d) h =
      ground (arith, h, values-insert_new k r d, string_eq.beq_iff j k)

  keep_last :
      (p : JobRecord F D ListRef → Bool) (xs : List (JobRecord F D ListRef))
      (r : JobRecord F D ListRef)
      → All (λ x. p x ≡ false) xs
      → p r ≡ true
      → keep p (xs ++ r ∷ []) ≡ r ∷ []
  keep_last p [] r none_passes passes = ground (arith, passes)
  keep_last p (x ∷ xs) r none_passes passes =
      ground (arith, none_passes.0, keep_last p xs r none_passes.1 passes)

  abbrev pub bump : JobRecord F D ListRef → JobRecord F D ListRef
  bump r = record r { reused = r.reused + 1 }

  unfoldable pub bump_at : String → JobRecord F D ListRef → JobRecord F D ListRef
  bump_at k r = if r.id == k then bump r else r

  map-bump_other :
      (k : String) (d : Rows F D)
      → All (λ e. e.0 ≡ e.1.id) d
      → lookup k d ≡ none
      → map (bump_at k) (values d) ≡ values d
  unfolding lookup bump_at
  map-bump_other k [] keyed h = refl
  map-bump_other k ((j, w) ∷ d) keyed h = ground (
    arith,
    h,
    keyed.0,
    map-bump_other k d keyed.1,
    string_eq.beq_iff j k,
    string_eq.beq_iff w.id k,
  )

  pub values-insert-bump :
      (k : String) (r : JobRecord F D ListRef) (d : Rows F D)
      → All (λ e. e.0 ≡ e.1.id) d
      → AllDistinct (keys d)
      → lookup k d ≡ some r
      → values (insert k (bump r) d) ≡ map (bump_at k) (values d)
  unfolding lookup insert bump_at
  values-insert-bump k r [] keyed distinct h = cc
  values-insert-bump k r ((j, w) ∷ d) keyed distinct h = elim (Bool-cases (j == k)) [
    | inl here ↦
        let same : j ≡ k = (string_eq.beq_iff j k).0 here in
        let absent : lookup k d ≡ none =
          subst (λ i. lookup i d ≡ none) same ((contains-keys_iff j d).0 distinct.0) in
        ground
          (arith, here, h, keyed.0, map-bump_other k d keyed.1 absent, string_eq.beq_iff w.id k)
    | inr later ↦ ground (
      arith,
      later,
      h,
      keyed.0,
      values-insert-bump k r d keyed.1 distinct.1,
      string_eq.beq_iff j k,
      string_eq.beq_iff w.id k,
    )
  ]

  serves-bump_at :
      (key owner k : String) (r : JobRecord F D ListRef)
      → serves key owner (bump_at k r) ≡ serves key owner r
  unfolding serves bump_at bump
  serves-bump_at key owner k r = ground arith

  keep-bump :
      (key owner k : String) (xs : List (JobRecord F D ListRef))
      → keep (serves key owner) (map (bump_at k) xs) ≡ map (bump_at k) (keep (serves key owner) xs)
  keep-bump key owner k [] = refl
  keep-bump key owner k (x ∷ xs) =
      ground (arith, serves-bump_at key owner k x, keep-bump key owner k xs)

  created-bump_at :
      (k : String) (r : JobRecord F D ListRef) → (bump_at k r).created_at ≡ r.created_at
  unfolding bump_at bump
  created-bump_at k r = ground arith

  newest-bump :
      (k : String) (best : JobRecord F D ListRef) (xs : List (JobRecord F D ListRef))
      → newest (bump_at k best) (map (bump_at k) xs) ≡ bump_at k (newest best xs)
  unfolding newest
  newest-bump k best [] = refl
  newest-bump k best (x ∷ xs) =
      let older : leb (bump_at k x).created_at (bump_at k best).created_at
          ≡ leb x.created_at best.created_at =
        ap (λ c. leb c (bump_at k best).created_at) (created-bump_at k x)
        ∙ ap (λ c. leb x.created_at c) (created-bump_at k best) in
      let chosen =
        ap (λ c. if c then bump_at k best else bump_at k x) older
        ∙ if_apply (bump_at k) (leb x.created_at best.created_at) best x in
      ap (λ b. newest b (map (bump_at k) xs)) chosen
      ∙ newest-bump k (if leb x.created_at best.created_at then best else x) xs

  pick_newest-bump :
      (k : String) (xs : List (JobRecord F D ListRef)) (r : JobRecord F D ListRef)
      → pick_newest xs ≡ some r
      → pick_newest (map (bump_at k) xs) ≡ some (bump_at k r)
  unfolding pick_newest
  pick_newest-bump k [] r h = cc
  pick_newest-bump k (x ∷ xs) r h = ap some (newest-bump k x xs ∙ ap (bump_at k) (some-injective h))

  IsIn-lookup :
      (r : JobRecord F D ListRef) (d : Rows F D)
      → All (λ e. e.0 ≡ e.1.id) d
      → AllDistinct (keys d)
      → IsIn r (values d)
      → lookup r.id d ≡ some r
  unfolding lookup
  IsIn-lookup r [] keyed distinct h = absurd h
  IsIn-lookup r ((j, w) ∷ d) keyed distinct (inl same) = ground (
    arith,
    same,
    keyed.0,
    string_eq.beq_iff j r.id,
    ap (λ (x : JobRecord F D ListRef). x.id) same,
  )
  IsIn-lookup r ((j, w) ∷ d) keyed distinct (inr later) =
      let found = IsIn-lookup r d keyed.1 distinct.1 later in
      elim (Bool-cases (j == r.id)) [
        | inl here ↦
            let absent = (contains-keys_iff j d).0 distinct.0 in
            absurd (
              cc (subst (λ i. lookup i d ≡ none) ((string_eq.beq_iff j r.id).0 here) absent, found))
        | inr other ↦ ground (arith, other, found)
      ]

  -- The record that serves a key is in the store under its id.
  pub cached_record_stored :
      (key owner : String) (m : Memory F D) (r : JobRecord F D ListRef)
      → Keyed m
      → cached_record key owner m ≡ some r
      → (lookup r.id m.records ≡ some r) × (serves key owner r ≡ true)
  cached_record_stored key owner m r keyed found = elim (cached_record_cases key owner m) [
    | inl (nothing, _) ↦ absurd (cc (nothing, found))
    | inr (s, picked, there, serving, _) ↦
        let same : s ≡ r = some-injective (sym picked ∙ found) in
        (
          IsIn-lookup r m.records keyed.0 keyed.1
              (subst (λ x. IsIn x (values m.records)) same there),
          subst (λ x. serves key owner x ≡ true) same serving,
        )
  ]

  bump_at_self : (r : JobRecord F D ListRef) → bump_at r.id r ≡ bump r
  unfolding bump_at
  bump_at_self r = ap (λ c. if c then bump r else r) ((string_eq.beq_iff r.id r.id).1 refl)

  pub mark_reused_stored :
      (r : JobRecord F D ListRef) (m : Memory F D)
      → lookup r.id m.records ≡ some r
      → mark_reused r.id m ≡ record m { records = insert r.id (bump r) m.records }
  unfolding mark_reused
  mark_reused_stored r m stored = rw (mark_reused, stored) refl

  -- A hit that is counted is the next lookup's hit.
  pub cached_record-mark_reused :
      (key owner : String) (m : Memory F D) (r : JobRecord F D ListRef)
      → Keyed m
      → cached_record key owner m ≡ some r
      → (cached_record key owner (mark_reused r.id m) ≡ some (bump r))
        × (lookup r.id (mark_reused r.id m).records ≡ some (bump r))
  unfolding cached_record
  cached_record-mark_reused key owner m r keyed found =
      let (stored, _) = cached_record_stored key owner m r keyed found in
      let rows = values-insert-bump r.id r m.records keyed.0 keyed.1 stored in
      let kept = keep-bump key owner r.id (values m.records) in
      let picked = pick_newest-bump r.id (keep (serves key owner) (values m.records)) r found in
      let marked = mark_reused_stored r m stored in
      (
        ap (cached_record key owner) marked
            ∙ ap pick_newest (ap (keep (serves key owner)) rows ∙ kept)
            ∙ picked
            ∙ ap some (bump_at_self r),
        ap (λ s. lookup r.id s.records) marked ∙ lookup-insert_self r.id (bump r) m.records,
      )

  -- A new record that serves a key which none served is the next lookup's hit.
  pub cached_record-insert :
      (key owner k : String) (m : Memory F D) (r : JobRecord F D ListRef)
      → cached_record key owner m ≡ none
      → lookup k m.records ≡ none
      → serves key owner r ≡ true
      → cached_record key owner (record m { records = insert k r m.records }) ≡ some r
  unfolding cached_record pick_newest newest
  cached_record-insert key owner k m r nothing new serving =
      elim (cached_record_cases key owner m) [
        | inr (s, picked, _, _, _) ↦ absurd (cc (nothing, picked))
        | inl (_, none_serve) ↦
            let rows = values-insert_new k r m.records new in
            let kept = keep_last (serves key owner) (values m.records) r none_serve serving in
            ap pick_newest (ap (keep (serves key owner)) rows ∙ kept)
      ]
