-- ===== src/Conditions.antt =====
-- Load cases (server/fenixspoon/core/conditions.py): what happens on each named boundary.
-- A condition's scalars are values of `V`; pydantic's reading of an untyped payload is a parameter.
pub mod Settings
pub mod Merge
pub mod Accepted
use fenix_spoon.Prelude.{
  ◌≡◌, String, Bool, true, false, List, [], ◌∷◌, ◌++◌, map, Option, none, some, Eq, ◌==◌, ◌&&◌, ◌↔◌,
  string_eq, if◌then◌else◌, Result, ok, err, guard, ◌>>=◌, ◌>>◌, contains, arith,
}
use fenix_spoon.Dict.{Dict, keys, lookup, insert}
use fenix_spoon.Objects.{Reference}

module _ {A : Type 0} {B : Type 0} ⦃ea : Eq A⦄ ⦃eb : Eq B⦄ where
  abbrev pub pair_beq : A × B → A × B → Bool
  pair_beq p q = (p.0 == q.0) && (p.1 == q.1)

  pub pair_beq_iff : (p q : A × B) → (pair_beq p q ≡ true) ↔ (p ≡ q)
  pair_beq_iff p q = ground (arith, ea.beq_iff p.0 q.0, eb.beq_iff p.1 q.1)

  instance abbrev pub pair_eq : Eq (A × B)
  pair_eq = record { beq = pair_beq; beq_iff = pair_beq_iff }

pub data ConditionError : Type 0 where
  -- boundary, key and the two load cases
  conflicting_conditions : String → String → List Reference → ConditionError
  invalid_object : String → ConditionError
  unknown_boundary : String → List String → ConditionError
  -- capability, boundary, key and what it accepts
  unknown_condition_key : String → String → String → List String → ConditionError

abbrev pub Conditions : Type 0 → Type 0
Conditions V = Dict String (Dict String V)

pub record LoadCaseBody (V : Type 0) : Type 0 where
  pub conditions : Conditions V

-- the two dictionaries of `merge_load_cases`
pub record Merging (V : Type 0) : Type 0 where
  pub merged : Conditions V
  pub source : Dict (String × String) Reference

module _ {V : Type 0} where
  abbrev pub or_empty : Option (Dict String V) → Dict String V
  or_empty none = []
  or_empty (some d) = d

  -- `merged.setdefault(boundary, {})[key] = value`
  unfoldable pub assign : String → String → V → Conditions V → Conditions V
  assign boundary key value merged =
      insert boundary (insert key value (or_empty (lookup boundary merged))) merged

  -- the body of the three loops
  unfoldable pub merge_key :
      Reference → String → String → V → Merging V → Result ConditionError (Merging V)
  merge_key ref boundary key value st = elim (lookup (boundary, key) st.source) [
    | some previous ↦ err (conflicting_conditions boundary key (previous ∷ ref ∷ []))
    | none ↦ ok (record {
      merged = assign boundary key value st.merged;
      source = insert (boundary, key) ref st.source;
    })
  ]

  unfoldable pub merge_values :
      Reference → String → Dict String V → Merging V → Result ConditionError (Merging V)
  merge_values ref boundary [] st = ok st
  merge_values ref boundary ((key, value) ∷ values) st =
      merge_key ref boundary key value st >>= merge_values ref boundary values

  unfoldable pub merge_boundaries :
      Reference → Conditions V → Merging V → Result ConditionError (Merging V)
  merge_boundaries ref [] st = ok st
  merge_boundaries ref ((boundary, values) ∷ rest) st =
      merge_values ref boundary values st >>= merge_boundaries ref rest

  unfoldable pub merge_cases :
      List (Reference × LoadCaseBody V) → Merging V → Result ConditionError (Merging V)
  merge_cases [] st = ok st
  merge_cases ((ref, body) ∷ cases) st =
      merge_boundaries ref body.conditions st >>= merge_cases cases

  unfoldable pub merge_load_cases :
      List (Reference × LoadCaseBody V) → Result ConditionError (Conditions V)
  merge_load_cases cases =
      merge_cases cases (record { merged = []; source = [] }) >>= λ st. ok st.merged

  unfoldable pub check_boundaries : List String → Conditions V → Result ConditionError (Unit {0})
  check_boundaries declared [] = ok tt
  check_boundaries declared ((boundary, values) ∷ rest) =
      guard (contains boundary declared) (unknown_boundary boundary declared)
      >> check_boundaries declared rest

  unfoldable pub check_keys :
      String → String → List String → Dict String V → Result ConditionError (Unit {0})
  check_keys solver boundary accepted [] = ok tt
  check_keys solver boundary accepted ((key, value) ∷ rest) =
      guard (contains key accepted) (unknown_condition_key solver boundary key accepted)
      >> check_keys solver boundary accepted rest

  unfoldable pub check_all_keys :
      String → List String → Conditions V → Result ConditionError (Unit {0})
  check_all_keys solver accepted [] = ok tt
  check_all_keys solver accepted ((boundary, values) ∷ rest) =
      check_keys solver boundary accepted values >> check_all_keys solver accepted rest

  -- `is_empty` is `not conditions` and `validate_python` pydantic's adapter, on a payload in `P`;
  -- `solver` and `accepted` are the capability's name and the keys it declares.
  unfoldable pub check_conditions :
      {P : Type 0} (is_empty : P → Bool) (validate_python : P → Option (Conditions V))
      (solver : String) (accepted declared : List String)
      → P
      → Result ConditionError (Conditions V)
  check_conditions is_empty validate_python solver accepted declared payload =
      if is_empty payload then ok [] else elim (validate_python payload) [
        | none ↦ err (invalid_object "load_case")
        | some conditions ↦
            check_boundaries declared conditions
            >> check_all_keys solver accepted conditions
            >> ok conditions
      ]
