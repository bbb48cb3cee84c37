-- ===== src/Store/Memory/Lookups.antt =====
-- What the cache lookup and the purge of the memory store find (server/fenixspoon/store.py).
use text.Mathlib.TextEquality.{eq_iff}
use fenix_spoon.Prelude.{
  ℕ, ◌≤◌, ◌≡◌, refl, sym, subst, ap, ◌∙◌, ◌⊎◌, inl, inr, String, Bool, true, false, List, [], ◌∷◌,
  none, some, string_eq, if◌then◌else◌, leb, ltb, keep, All, AllDistinct, contains, map, arith,
  Bool-cases, Option-cases, ◌↔◌,
}
use fenix_spoon.Dict.{Dict, keys, values, lookup, delete, lookup-delete, contains-keys_iff}
use fenix_spoon.Store.{JobRecord, Status, done, running, queued, is_reusable, is_active}
use fenix_spoon.Store.Memory.{Memory, ListRef, doomed_ids, delete_all, purge_before}
use fenix_spoon.Store.Memory.Queries.{
  newest, records_of, serves, has_key, pick_newest, cached_record,
}

abbrev pub IsIn : {A : Type 0} → A → List A → Type 0
IsIn a [] = ⊥
IsIn a (x ∷ xs) = (x ≡ a) ⊎ IsIn a xs

module _ {A : Type 0} where
  IsIn-keep : (p : A → Bool) (xs : List A) (a : A) → IsIn a (keep p xs) → IsIn a xs × (p a ≡ true)
  IsIn-keep p [] a h = absurd h
  IsIn-keep p (x ∷ xs) a h = elim (Bool-cases (p x)) [
    | inr dropped ↦ let (there, passed) = IsIn-keep p xs a (rw dropped at h) in (inr there, passed)
    | inl kept ↦ elim (rw kept at h) [
      | inl same ↦ (inl same, ap p (sym same) ∙ kept)
      | inr later ↦ let (there, passed) = IsIn-keep p xs a later in (inr there, passed)
    ]
  ]

  All-keep :
      (Q : A → Type 0) (p : A → Bool) (xs : List A)
      → All Q (keep p xs)
      → All (λ x. (p x ≡ false) ⊎ Q x) xs
  All-keep Q p [] h = tt
  All-keep Q p (x ∷ xs) h = elim (Bool-cases (p x)) [
    | inr dropped ↦ (inl dropped, All-keep Q p xs (rw dropped at h))
    | inl kept ↦ let (now, later) = rw kept at h in (inr now, All-keep Q p xs later)
  ]

  keep_nothing : (p : A → Bool) (xs : List A) → keep p xs ≡ [] → All (λ x. p x ≡ false) xs
  keep_nothing p [] h = tt
  keep_nothing p (x ∷ xs) h = elim (Bool-cases (p x)) [
    | inr dropped ↦ (dropped, keep_nothing p xs (rw dropped at h))
    | inl kept ↦ ground (arith, kept, h)
  ]

is_reusable_cases :
    (s : Status) → (is_reusable s ≡ true) ↔ ((s ≡ done) ⊎ ((s ≡ running) ⊎ (s ≡ queued)))
unfolding is_reusable is_active
is_reusable_cases s = ground arith

module _ {F D : Type 0} where
  newest_is :
      (best : JobRecord F D ListRef) (xs : List (JobRecord F D ListRef))
      → IsIn (newest best xs) (best ∷ xs)
  unfolding newest
  newest_is best [] = inl refl
  newest_is best (x ∷ xs) = ground (arith, newest_is best xs, newest_is x xs)

  newest_max :
      (best : JobRecord F D ListRef) (xs : List (JobRecord F D ListRef))
      → All (λ x. x.created_at ≤ (newest best xs).created_at) (best ∷ xs)
  unfolding newest
  newest_max best [] = (omega arith, tt)
  newest_max best (x ∷ xs) = elim (Bool-cases (leb x.created_at best.created_at)) [
    | inl older ↦
        let (top, rest) = newest_max best xs in
        let same : newest best (x ∷ xs) ≡ newest best xs = rw (newest, older) refl in
        subst (λ y. All (λ z. z.created_at ≤ y.created_at) (best ∷ x ∷ xs)) (sym same)
          (top, (ground (arith, older, top), rest))
    | inr newer ↦
        let (top, rest) = newest_max x xs in
        let same : newest best (x ∷ xs) ≡ newest x xs = rw (newest, newer) refl in
        subst (λ y. All (λ z. z.created_at ≤ y.created_at) (best ∷ x ∷ xs)) (sym same)
          (ground (arith, newer, top), (top, rest))
  ]

  pick_newest_cases :
      (xs : List (JobRecord F D ListRef))
      → ((pick_newest xs ≡ none) × (xs ≡ []))
        ⊎ ((r : JobRecord F D ListRef) × (pick_newest xs ≡ some r)
            × IsIn r xs
            × All (λ x. x.created_at ≤ r.created_at) xs)
  unfolding pick_newest
  pick_newest_cases [] = inl (refl, refl)
  pick_newest_cases (x ∷ xs) = inr (newest x xs, refl, newest_is x xs, newest_max x xs)

  -- A job of the owner, of the key, that is done, running or queued.
  abbrev pub Serves : String → String → JobRecord F D ListRef → Type 0
  Serves key owner r =
      (r.owner ≡ owner)
      × (r.cache_key ≡ some key)
      × ((r.status ≡ done) ⊎ ((r.status ≡ running) ⊎ (r.status ≡ queued)))

  serves_iff :
      (key owner : String) (r : JobRecord F D ListRef)
      → (serves key owner r ≡ true) ↔ Serves key owner r
  unfolding serves has_key
  serves_iff key owner r = elim (Option-cases r.cache_key) [
    | inl bare ↦ ground (arith, bare, is_reusable_cases r.status, string_eq.beq_iff r.owner owner)
    | inr (k, keyed) ↦ ground (
      arith,
      keyed,
      is_reusable_cases r.status,
      string_eq.beq_iff r.owner owner,
      string_eq.beq_iff k key,
    )
  ]

  All-not_serves :
      (key owner : String) (xs : List (JobRecord F D ListRef))
      → All (λ x. serves key owner x ≡ false) xs
      → All (λ x. ¬ Serves key owner x) xs
  All-not_serves key owner [] h = tt
  All-not_serves key owner (x ∷ xs) h =
      (λ good. absurd (cc (h.0, (serves_iff key owner x).1 good)), All-not_serves key owner xs h.1)

  All-serves_or :
      (key owner : String) (latest : ℕ) (xs : List (JobRecord F D ListRef))
      → All (λ x. (serves key owner x ≡ false) ⊎ (x.created_at ≤ latest)) xs
      → All (λ x. (¬ Serves key owner x) ⊎ (x.created_at ≤ latest)) xs
  All-serves_or key owner latest [] h = tt
  All-serves_or key owner latest (x ∷ xs) h = (
    elim (h.0) [
      | inl not_served ↦ inl (λ good. absurd (cc (not_served, (serves_iff key owner x).1 good)))
      | inr older ↦ inr older
    ],
    All-serves_or key owner latest xs h.1,
  )

  -- The cache lookup, by its own filter.
  pub cached_record_cases :
      (key owner : String) (m : Memory F D)
      → ((cached_record key owner m ≡ none) × All (λ x. serves key owner x ≡ false) (records_of m))
        ⊎ ((r : JobRecord F D ListRef) × (cached_record key owner m ≡ some r)
            × IsIn r (records_of m)
            × (serves key owner r ≡ true)
            × All
                (λ x. (serves key owner x ≡ false) ⊎ (x.created_at ≤ r.created_at))
                (records_of m))
  unfolding cached_record
  cached_record_cases key owner m =
      elim (pick_newest_cases (keep (serves key owner) (records_of m))) [
        | inl (nothing, empty) ↦ inl (nothing, keep_nothing (serves key owner) (records_of m) empty)
        | inr (r, found, there, top) ↦
            let (stored, serving) = IsIn-keep (serves key owner) (records_of m) r there in
            inr (
              r,
              found,
              stored,
              serving,
              All-keep (λ x. x.created_at ≤ r.created_at) (serves key owner) (records_of m) top,
            )
      ]

  -- The cache lookup finds no job exactly when no job of the owner with the key is done, running or
  -- queued; the one that it finds is such a job of the store, and none of them is newer.
  pub cached_record_newest :
      (key owner : String) (m : Memory F D)
      → ((cached_record key owner m ≡ none) × All (λ x. ¬ Serves key owner x) (records_of m))
        ⊎ ((r : JobRecord F D ListRef) × (cached_record key owner m ≡ some r)
            × IsIn r (records_of m)
            × Serves key owner r
            × All (λ x. (¬ Serves key owner x) ⊎ (x.created_at ≤ r.created_at)) (records_of m))
  cached_record_newest key owner m = elim (cached_record_cases key owner m) [
    | inl (nothing, unserved) ↦ inl (nothing, All-not_serves key owner (records_of m) unserved)
    | inr (r, found, stored, serving, top) ↦ inr (
      r,
      found,
      stored,
      (serves_iff key owner r).0 serving,
      All-serves_or key owner r.created_at (records_of m) top,
    )
  ]

  -- A record stands under its own id, and under no other.
  abbrev pub Keyed : Memory F D → Type 0
  Keyed m = All (λ e. e.0 ≡ e.1.id) m.records × AllDistinct (keys m.records)

  lookup-delete_all :
      (js : List String) (j : String) (d : Dict String (JobRecord F D ListRef))
      → lookup j (delete_all js d) ≡ (if contains j js then none else lookup j d)
  unfolding delete_all contains
  lookup-delete_all [] j d = refl
  lookup-delete_all (i ∷ is) j d =
      ground
        (arith, lookup-delete_all is j (delete i d), lookup-delete i j d, eq_iff i j, eq_iff j i)

  contains-doomed :
      (cutoff : ℕ) (j : String) (d : Dict String (JobRecord F D ListRef))
      → All (λ e. e.0 ≡ e.1.id) d
      → AllDistinct (keys d)
      → contains j (map (λ r. r.id) (keep (λ r. ltb r.created_at cutoff) (values d)))
        ≡ elim (lookup j d) [ none ↦ false | some r ↦ ltb r.created_at cutoff ]
  unfolding contains lookup
  contains-doomed cutoff j [] keyed distinct = refl
  contains-doomed cutoff j ((i, r) ∷ d) keyed distinct =
      let later = contains-doomed cutoff j d keyed.1 distinct.1 in
      let absent = (contains-keys_iff i d).0 distinct.0 in
      ground (arith, later, absent, keyed.0, eq_iff i j, eq_iff j i, eq_iff j r.id)

  -- The purge drops the jobs created before the cutoff and no other, and answers with their ids.
  pub purge_before_exact :
      (cutoff : ℕ) (m : Memory F D) (j : String)
      → Keyed m
      → let (purged, ids) = purge_before cutoff m in
        (lookup j purged.records ≡ (elim (lookup j m.records) [
          | none ↦ none
          | some r ↦ if ltb r.created_at cutoff then none else some r
        ]))
        × (contains j ids
            ≡ (elim (lookup j m.records) [ none ↦ false | some r ↦ ltb r.created_at cutoff ]))
  unfolding purge_before doomed_ids
  purge_before_exact cutoff m j keyed =
      let doomed = contains-doomed cutoff j m.records keyed.0 keyed.1 in
      (ground (arith, doomed, lookup-delete_all (doomed_ids cutoff m) j m.records), doomed)
