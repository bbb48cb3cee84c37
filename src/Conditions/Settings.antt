-- ===== src/Conditions/Settings.antt =====
-- Load cases (server/fenixspoon/core/conditions.py) as one list of settings, and the state of
-- the merge against it.
use fenix_spoon.Prelude.{
  ◌≡◌, refl, ap, inl, inr, String, true, false, List, [], ◌∷◌, ◌++◌, Option, none, some, ◌↔◌,
  string_eq, if◌then◌else◌, contains, arith, Option-cases, AllDistinct,
}
use fenix_spoon.Dict.{Dict, keys, lookup, insert, lookup-insert}
use fenix_spoon.Objects.{Reference}
use fenix_spoon.Conditions.{
  pair_beq, pair_beq_iff, pair_eq, Conditions, LoadCaseBody, Merging, or_empty, assign,
}

-- a setting: the boundary and the key, and the value
abbrev pub Settings : Type 0 → Type 0
Settings V = Dict (String × String) V

module _ {V : Type 0} where
  abbrev pub settings_on : String → Dict String V → Settings V
  settings_on boundary [] = []
  settings_on boundary ((key, value) ∷ values) =
      ((boundary, key), value) ∷ settings_on boundary values

  abbrev pub settings_in : Conditions V → Settings V
  settings_in [] = []
  settings_in ((boundary, values) ∷ rest) = settings_on boundary values ++ settings_in rest

  -- the settings of all the load cases, in order
  abbrev pub settings : List (Reference × LoadCaseBody V) → Settings V
  settings [] = []
  settings ((ref, body) ∷ cases) = settings_in body.conditions ++ settings cases

  -- the value in force for a key on a boundary
  abbrev pub setting : String → String → Conditions V → Option V
  setting boundary key conditions = elim (lookup boundary conditions) [
    | none ↦ none
    | some values ↦ lookup key values
  ]

  pub setting-assign :
      (boundary key b k : String) (value : V) (merged : Conditions V)
      → setting b k (assign boundary key value merged)
        ≡ (if pair_beq (boundary, key) (b, k) then some value else setting b k merged)
  unfolding assign lookup
  setting-assign boundary key b k value merged = elim (Option-cases (lookup boundary merged)) [
    | inl missing ↦ ground (
      arith,
      missing,
      lookup-insert boundary b (insert key value (or_empty (lookup boundary merged))) merged,
      lookup-insert key k value [],
      string_eq.beq_iff boundary b,
      string_eq.beq_iff key k,
    )
    | inr (values, there) ↦ ground (
      arith,
      there,
      lookup-insert boundary b (insert key value (or_empty (lookup boundary merged))) merged,
      lookup-insert key k value values,
      string_eq.beq_iff boundary b,
      string_eq.beq_iff key k,
    )
  ]

  -- The settings that a state has merged: they are in force, and each has a source.
  pub record Merged (done : Settings V) (st : Merging V) : Type 0 where
    pub in_force : (b k : String) → setting b k st.merged ≡ lookup (b, k) done
    pub sourced : (b k : String) → (lookup (b, k) st.source ≡ none) ↔ (lookup (b, k) done ≡ none)
    pub distinct : AllDistinct (keys done)

  pub lookup-append :
      (p : String × String) (xs ys : Settings V)
      → lookup p (xs ++ ys) ≡ elim (lookup p xs) [ none ↦ lookup p ys | some v ↦ some v ]
  unfolding lookup
  lookup-append p [] ys = refl
  lookup-append p ((q, v) ∷ xs) ys = ground (arith, lookup-append p xs ys)

  keys-append : (xs ys : Settings V) → keys (xs ++ ys) ≡ keys xs ++ keys ys
  keys-append [] ys = refl
  keys-append (x ∷ xs) ys = ap (λ zs. x.0 ∷ zs) (keys-append xs ys)

  contains-keys :
      (p : String × String) (xs : Settings V)
      → contains p (keys xs) ≡ elim (lookup p xs) [ none ↦ false | some v ↦ true ]
  unfolding contains lookup
  contains-keys p [] = refl
  contains-keys p ((q, v) ∷ xs) =
      ground (arith, contains-keys p xs, pair_beq_iff p q, pair_beq_iff q p)

  pub AllDistinct-prefix :
      (xs ys : Settings V) → AllDistinct (keys (xs ++ ys)) → AllDistinct (keys xs)
  AllDistinct-prefix [] ys h = tt
  AllDistinct-prefix ((p, v) ∷ xs) ys h = (
    ground (arith, h.0, contains-keys p xs, contains-keys p (xs ++ ys), lookup-append p xs ys),
    AllDistinct-prefix xs ys h.1,
  )

  pub AllDistinct-snoc :
      (xs : Settings V) (p : String × String) (v : V)
      → AllDistinct (keys (xs ++ (p, v) ∷ [])) ↔ (AllDistinct (keys xs) × (lookup p xs ≡ none))
  unfolding lookup contains
  AllDistinct-snoc [] p v = ground arith
  AllDistinct-snoc ((q, w) ∷ xs) p v = ground (
    arith,
    AllDistinct-snoc xs p v,
    contains-keys q xs,
    contains-keys q (xs ++ (p, v) ∷ []),
    lookup-append q xs ((p, v) ∷ []),
    pair_beq_iff p q,
    pair_beq_iff q p,
  )
