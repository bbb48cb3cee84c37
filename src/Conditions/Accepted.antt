-- ===== src/Conditions/Accepted.antt =====
-- What `check_conditions` of server/fenixspoon/core/conditions.py lets through.
use fenix_spoon.Prelude.{
  ◌≡◌, inl, inr, String, Bool, true, false, List, [], ◌∷◌, Option, some, ◌↔◌, ok, contains, arith,
  Option-cases, All, string_eq,
}
use fenix_spoon.Dict.{Dict, keys}
use fenix_spoon.Conditions.{
  Conditions, check_boundaries, check_keys, check_all_keys, check_conditions,
}

module _ {V : Type 0} where
  -- Every boundary is declared, and every key on it accepted.
  abbrev pub Honoured : List String → List String → Conditions V → Type 0
  Honoured accepted declared conditions =
      All (λ b. contains b declared ≡ true) (keys conditions)
      × All (λ e. All (λ k. contains k accepted ≡ true) (keys e.1)) conditions

  check_boundaries_iff :
      (declared : List String) (conditions : Conditions V)
      → (check_boundaries declared conditions ≡ ok tt)
        ↔ All (λ b. contains b declared ≡ true) (keys conditions)
  unfolding check_boundaries
  check_boundaries_iff declared [] = ground arith
  check_boundaries_iff declared ((b, values) ∷ rest) =
      ground (arith, check_boundaries_iff declared rest)

  check_keys_iff :
      (solver boundary : String) (accepted : List String) (values : Dict String V)
      → (check_keys solver boundary accepted values ≡ ok tt)
        ↔ All (λ k. contains k accepted ≡ true) (keys values)
  unfolding check_keys
  check_keys_iff solver boundary accepted [] = ground arith
  check_keys_iff solver boundary accepted ((k, v) ∷ rest) =
      ground (arith, check_keys_iff solver boundary accepted rest)

  check_all_keys_iff :
      (solver : String) (accepted : List String) (conditions : Conditions V)
      → (check_all_keys solver accepted conditions ≡ ok tt)
        ↔ All (λ e. All (λ k. contains k accepted ≡ true) (keys e.1)) conditions
  unfolding check_all_keys
  check_all_keys_iff solver accepted [] = ground arith
  check_all_keys_iff solver accepted ((b, values) ∷ rest) =
      ground
        (arith, check_keys_iff solver b accepted values, check_all_keys_iff solver accepted rest)

  -- A load case that is not empty is let through, unchanged, exactly when it is one, the geometry
  -- declares each of its boundaries and the capability accepts each of its keys.
  pub check_conditions_iff :
      {P : Type 0} (is_empty : P → Bool) (validate_python : P → Option (Conditions V))
      (solver : String) (accepted declared : List String) (payload : P) (c : Conditions V)
      → is_empty payload ≡ false
      → (check_conditions is_empty validate_python solver accepted declared payload ≡ ok c)
        ↔ ((validate_python payload ≡ some c) × Honoured accepted declared c)
  unfolding check_conditions
  check_conditions_iff is_empty validate_python solver accepted declared payload c some_there =
      elim (Option-cases (validate_python payload)) [
        | inl invalid ↦ ground (arith, some_there, invalid)
        | inr (d, valid) ↦ ground (
          arith,
          some_there,
          valid,
          check_boundaries_iff declared d,
          check_all_keys_iff solver accepted d,
          check_boundaries_iff declared c,
          check_all_keys_iff solver accepted c,
        )
      ]
