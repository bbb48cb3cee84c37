-- ===== src/Conditions/Merge.antt =====
-- What `merge_load_cases` of server/fenixspoon/core/conditions.py merges, and what it refuses,
-- against the load cases read as one list of settings.
use fenix_spoon.Prelude.{
  ◌≡◌, refl, ◌⊎◌, sym, ap, subst, inl, inr, String, List, [], ◌∷◌, ◌++◌, ◌↔◌, string_eq, Result, ok,
  err, ◌>>=◌, arith, Option-cases, AllDistinct, append_assoc, append-nil,
}
use fenix_spoon.Dict.{Dict, keys, lookup, insert, lookup-insert}
use fenix_spoon.Objects.{Reference}
use fenix_spoon.Conditions.{
  pair_beq_iff, pair_eq, ConditionError, conflicting_conditions, Conditions, LoadCaseBody, Merging,
  assign, merge_key, merge_values, merge_boundaries, merge_cases, merge_load_cases,
}
use fenix_spoon.Conditions.Settings.{
  Settings, settings_on, settings_in, settings, setting, setting-assign, Merged, lookup-append,
  AllDistinct-prefix, AllDistinct-snoc,
}

module _ {V : Type 0} where
  -- What a loop over the settings `new` gives, where `done` are merged.
  abbrev Merges : Settings V → Settings V → Result ConditionError (Merging V) → Type 0
  Merges done new result =
      ((st : Merging V) × (result ≡ ok st) × Merged (done ++ new) st)
      ⊎ ((e : ConditionError) × (result ≡ err e) × (¬ AllDistinct (keys (done ++ new))))

  merge_key-Merges :
      (ref : Reference) (boundary key : String) (value : V) (done : Settings V) (st : Merging V)
      → Merged done st
      → Merges done (((boundary, key), value) ∷ []) (merge_key ref boundary key value st)
  unfolding merge_key lookup
  merge_key-Merges ref boundary key value done st merged =
      let p : String × String = (boundary, key) in
      elim (Option-cases (lookup p st.source)) [
        | inl fresh ↦ inl (
          record { merged = assign boundary key value st.merged; source = insert p ref st.source },
          ground (arith, fresh),
          record {
            in_force = λ b k. ground (
              arith,
              setting-assign boundary key b k value st.merged,
              merged.in_force b k,
              merged.sourced boundary key,
              fresh,
              lookup-append (b, k) done ((p, value) ∷ []),
              pair_beq_iff p (b, k),
            );
            sourced = λ b k. ground (
              arith,
              lookup-insert p (b, k) ref st.source,
              merged.sourced b k,
              lookup-append (b, k) done ((p, value) ∷ []),
            );
            distinct =
                (AllDistinct-snoc done p value).1
                  (merged.distinct, (merged.sourced boundary key).0 fresh);
          },
        )
        | inr (previous, taken) ↦ inr (
          conflicting_conditions boundary key (previous ∷ ref ∷ []),
          ground (arith, taken),
          λ distinct. ground (
            arith,
            merged.sourced boundary key,
            (AllDistinct-snoc done p value).0 distinct,
            taken,
          ),
        )
      ]

  -- One loop after another merges the settings of both.
  Merges->>= :
      (done xs ys : Settings V) (first : Result ConditionError (Merging V))
      (next : Merging V → Result ConditionError (Merging V))
      → Merges done xs first
      → ((st : Merging V) → Merged (done ++ xs) st → Merges (done ++ xs) ys (next st))
      → Merges done (xs ++ ys) (first >>= next)
  Merges->>= done xs ys first next one two = elim one [
    | inl (st, gives, merged) ↦
        subst
          (λ zs.
            ((st' : Merging V) × ((first >>= next) ≡ ok st') × Merged zs st')
            ⊎ ((e : ConditionError) × ((first >>= next) ≡ err e) × ¬ AllDistinct (keys zs)))
          (append_assoc done xs ys)
          (subst (λ r. Merges (done ++ xs) ys (r >>= next)) (sym gives) (two st merged))
    | inr (e, gives, repeated) ↦ inr (
      e,
      ap (λ r. r >>= next) gives,
      λ distinct. repeated (
          AllDistinct-prefix (done ++ xs) ys
            (subst (λ zs. AllDistinct (keys zs)) (sym (append_assoc done xs ys)) distinct)),
    )
  ]

  Merges-ok : (done : Settings V) (st : Merging V) → Merged done st → Merges done [] (ok st)
  Merges-ok done st merged =
      inl (st, refl, subst (λ zs. Merged zs st) (sym (append-nil done)) merged)

  merge_values-Merges :
      (ref : Reference) (boundary : String) (values : Dict String V) (done : Settings V)
      (st : Merging V)
      → Merged done st
      → Merges done (settings_on boundary values) (merge_values ref boundary values st)
  unfolding merge_values
  merge_values-Merges ref boundary [] done st merged = Merges-ok done st merged
  merge_values-Merges ref boundary ((key, value) ∷ values) done st merged =
      Merges->>= done (((boundary, key), value) ∷ []) (settings_on boundary values)
        (merge_key ref boundary key value st) (merge_values ref boundary values)
        (merge_key-Merges ref boundary key value done st merged)
        (merge_values-Merges ref boundary values (done ++ ((boundary, key), value) ∷ []))

  merge_boundaries-Merges :
      (ref : Reference) (conditions : Conditions V) (done : Settings V) (st : Merging V)
      → Merged done st
      → Merges done (settings_in conditions) (merge_boundaries ref conditions st)
  unfolding merge_boundaries
  merge_boundaries-Merges ref [] done st merged = Merges-ok done st merged
  merge_boundaries-Merges ref ((boundary, values) ∷ rest) done st merged =
      Merges->>= done (settings_on boundary values) (settings_in rest)
        (merge_values ref boundary values st) (merge_boundaries ref rest)
        (merge_values-Merges ref boundary values done st merged)
        (merge_boundaries-Merges ref rest (done ++ settings_on boundary values))

  merge_cases-Merges :
      (cases : List (Reference × LoadCaseBody V)) (done : Settings V) (st : Merging V)
      → Merged done st
      → Merges done (settings cases) (merge_cases cases st)
  unfolding merge_cases
  merge_cases-Merges [] done st merged = Merges-ok done st merged
  merge_cases-Merges ((ref, body) ∷ cases) done st merged =
      Merges->>= done (settings_in body.conditions) (settings cases)
        (merge_boundaries ref body.conditions st) (merge_cases cases)
        (merge_boundaries-Merges ref body.conditions done st merged)
        (merge_cases-Merges cases (done ++ settings_in body.conditions))

  -- Merging load cases succeeds exactly when no two settings are for one key on one boundary;
  -- what it gives has each setting in force, and no other.
  pub merge_load_cases_iff :
      (cases : List (Reference × LoadCaseBody V))
      → ((merged : Conditions V) × (merge_load_cases cases ≡ ok merged)
          × ((b k : String) → setting b k merged ≡ lookup (b, k) (settings cases)))
        ↔ AllDistinct (keys (settings cases))
  unfolding merge_load_cases lookup
  merge_load_cases_iff cases =
      let start : Merged [] (record { merged = []; source = [] }) = record {
        in_force = λ b k. refl;
        sourced = λ b k. ground arith;
        distinct = tt;
      } in
      elim (merge_cases-Merges cases [] (record { merged = []; source = [] }) start) [
        | inl (st, gives, merged) ↦ (
          (λ _. merged.distinct),
          (λ _. (st.merged, ap (λ r. r >>= λ st. ok st.merged) gives, merged.in_force)),
        )
        | inr (e, gives, repeated) ↦ (
          (λ (m, good, _). ground (arith, gives, good)),
          (λ distinct. absurd (repeated distinct)),
        )
      ]
