-- ===== src/Tests/Curves.antt =====
-- Curves, their limits, and load cases that are merged and checked.
use fenix_spoon.Prelude.{
  ◌≡◌, refl, ℕ, ◌≤◌, String, false, List, [], ◌∷◌, Option, none, some, ok, ◌↔◌, string_eq, nat_eq,
  AllDistinct, length,
}
use fenix_spoon.Dict.{lookup, keys}
use fenix_spoon.Series.{Series1DData, check_one, check_series, total_points, series_names}
use fenix_spoon.Series.Limits.{IsCurve, check_one_iff, check_series_iff}
use fenix_spoon.Objects.{load_case, Reference, reference}
use fenix_spoon.Conditions.{Conditions, LoadCaseBody, pair_eq, merge_load_cases, check_conditions}
use fenix_spoon.Conditions.Settings.{settings, setting}
use fenix_spoon.Conditions.Merge.{merge_load_cases_iff}
use fenix_spoon.Conditions.Accepted.{Honoured, check_conditions_iff}

abbrev curve : Series1DData ℕ
curve = record {
  name = "cp";
  description = "pressure coefficient";
  x = some (record { name = "x"; unit = "m"; values = 0 ∷ 1 ∷ [] });
  traces =
      record { name = "upper"; unit = ""; values = 5 ∷ 6 ∷ []; x = none }
      ∷ record { name = "lower"; unit = ""; values = 7 ∷ 8 ∷ []; x = none }
      ∷ [];
}

check_one_iff_example : (check_one curve ≡ ok tt) ↔ IsCurve curve
check_one_iff_example = check_one_iff curve

check_series_iff_example : (check_series (curve ∷ curve ∷ []) ≡ ok tt) ↔ (
    AllDistinct (series_names (curve ∷ curve ∷ []))
    × (length (curve ∷ curve ∷ []) ≤ 32)
    × (total_points (curve ∷ curve ∷ []) ≤ 8192))
check_series_iff_example = check_series_iff (curve ∷ curve ∷ [])

abbrev restraints : LoadCaseBody ℕ
restraints = record { conditions = ("root", ("fixed", 1) ∷ []) ∷ [] }

abbrev loads : LoadCaseBody ℕ
loads = record { conditions = ("tip", ("traction_y", 6) ∷ []) ∷ ("root", ("t", 3) ∷ []) ∷ [] }

abbrev cases : List (Reference × LoadCaseBody ℕ)
cases =
    (reference (record { object_type = load_case; number = 1 }) (some 1), restraints)
    ∷ (reference (record { object_type = load_case; number = 2 }) (some 4), loads)
    ∷ []

merge_load_cases_iff_example :
    ((merged : Conditions ℕ) × (merge_load_cases cases ≡ ok merged)
      × ((b k : String) → setting b k merged ≡ lookup (b, k) (settings cases)))
    ↔ AllDistinct (keys (settings cases))
merge_load_cases_iff_example = merge_load_cases_iff cases

abbrev payload_of : ℕ → Option (Conditions ℕ)
payload_of payload = some loads.conditions

check_conditions_iff_example :
    (check_conditions
        (λ payload. false)
        payload_of
        "elasticity"
        ("fixed" ∷ "t" ∷ [])
        ("root" ∷ "tip" ∷ [])
        0
      ≡ ok loads.conditions)
    ↔ ((payload_of 0 ≡ some loads.conditions)
        × Honoured ("fixed" ∷ "t" ∷ []) ("root" ∷ "tip" ∷ []) loads.conditions)
check_conditions_iff_example =
    check_conditions_iff (λ payload. false) payload_of "elasticity" ("fixed" ∷ "t" ∷ [])
      ("root" ∷ "tip" ∷ []) 0 loads.conditions refl
