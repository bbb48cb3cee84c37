-- ===== src/Tests/Studied.antt =====
-- A ladder and a sweep over natural numbers, and what the theorems on studies say of them.
use fenix_spoon.Prelude.{
  set_of, ◌≡◌, refl, ◌⊎◌, ◌↔◌, ◌≤◌, ℕ, zero, suc, ◌==◌, if◌then◌else◌, ◌+◌, ◌*◌, ◌-◌, ◌/◌, String,
  false, List, [], ◌∷◌, map, Option, none, some, ok, length, nat_eq, string_eq, All, AllDistinct,
  contains,
}
use fenix_spoon.Numbers.{list_beq, Arithmetic, nat_order, Ascending, sorted, insert_sorted}
use fenix_spoon.Objects.{reference, design}
use fenix_spoon.Series.Limits.{IsCurve}
use fenix_spoon.Store.{done}
use fenix_spoon.Jobs.{Job}
use fenix_spoon.Studies.{
  check_grid, check_sweep_axis, check_sweep_axes, MeshConvergenceBody, SweepBody, Variation,
  StudySpec, check_ladder, check_sweep, sweep_variations, total_points, has_repeat, product,
  with_each, zip, prod,
}
use fenix_spoon.Studies.Ladder.{check_ladder_iff}
use fenix_spoon.Studies.Grid.{length-sweep_variations}
use fenix_spoon.Studies.Points.{sweep_variations_distinct}
use fenix_spoon.Studies.Convergence.{
  settle_from, is_small, change, settled_value, settled_value_cases, relative_changes, Settles,
  tails, all_small,
}
use fenix_spoon.Studies.Curves.{SweepPoint}
use fenix_spoon.Studies.Curves.Legal.{line_names}
use fenix_spoon.Service.Study.{SweepReport, sweep_report, sweep_report_total}

-- natural numbers for floats, with a metric in thousandths
abbrev pub whole : Arithmetic ℕ
whole = record {
  nought = 0;
  minus = λ a b. a - b;
  plus = λ a b. a + b;
  times = λ a b. a * b;
  divide = λ a b. (1000 * a) / b;
  magnitude = λ a. a;
  negate = λ a. 1000 - a;
}

abbrev of_wing : StudySpec
of_wing = record {
  design = reference (record { object_type = design; number = 1 }) none;
  metrics = none;
}

abbrev ladder : MeshConvergenceBody ℕ
ladder = record {
  spec = of_wing;
  parameter = "resolution";
  values = 10 ∷ 20 ∷ 40 ∷ [];
  tolerance = 50;
}

abbrev sweep : SweepBody ℕ
sweep = record {
  spec = of_wing;
  axes =
      record { parameter = "alpha"; values = 1 ∷ 2 ∷ [] }
      ∷ record { parameter = "mesh"; values = 10 ∷ 20 ∷ [] }
      ∷ [];
  points = [];
}

check_ladder_iff_example :
    (check_ladder ladder ≡ ok tt) ↔ ((2 ≤ 3) × Ascending {F = ℕ} (10 ∷ 20 ∷ 40 ∷ []))
check_ladder_iff_example = check_ladder_iff ladder

pub sweep_accepted : check_sweep sweep ≡ ok tt
unfolding check_sweep check_sweep_axes check_sweep_axis check_grid set_of sorted insert_sorted
    total_points prod contains list_beq
sweep_accepted = refl

length-sweep_variations_example :
    (length (sweep_variations sweep) ≡ total_points sweep.axes sweep.points)
    × (2 ≤ length (sweep_variations sweep))
    × (length (sweep_variations sweep) ≤ 64)
length-sweep_variations_example = length-sweep_variations sweep sweep_accepted

sweep_variations_distinct_example : has_repeat (sweep_variations sweep) ≡ false
sweep_variations_distinct_example = sweep_variations_distinct sweep sweep_accepted

abbrev rung_values : List (Option ℕ)
rung_values = some 100 ∷ some 110 ∷ some 111 ∷ []

settled_value_cases_example :
    ((settled_value whole (10 ∷ 20 ∷ 40 ∷ []) rung_values 50 ≡ ok none)
      × All (λ t. all_small whole 50 t ≡ false) (tails whole (relative_changes whole rung_values)))
    ⊎ ((rung : ℕ) × (settled_value whole (10 ∷ 20 ∷ 40 ∷ []) rung_values 50 ≡ ok (some rung))
        × Settles whole 50 (20 ∷ 40 ∷ []) (relative_changes whole rung_values) rung)
settled_value_cases_example = settled_value_cases whole (10 ∷ 20 ∷ 40 ∷ []) rung_values 50 refl

-- It settles at the last rung: the change of a tenth is above a twentieth, the next is not.
settles_at_forty : settled_value whole (10 ∷ 20 ∷ 40 ∷ []) rung_values 50 ≡ ok (some 40)
unfolding settled_value settle_from relative_changes change all_small is_small
settles_at_forty = refl

abbrev pub one_answer : Job ℕ ℕ
one_answer = record {
  id = "j-7";
  solver_name = "mock.panel";
  status = done;
  owner = "ada";
  error = none;
  created_at = 5;
  finished_at = some 6;
  result = none;
  artifacts = [];
  events = [];
  inputs = [];
  cache_key = none;
  reused = 0;
  provenance = none;
  summary = some (record {
    kind = "scalar";
    stats = [];
    metrics = ("c_l", 7) ∷ ("c_d", 2) ∷ [];
    converged = none;
    residual = none;
    iterations = none;
    warnings = [];
    series = [];
  });
}

-- the first variation has been solved, and no other
abbrev first_only : ℕ → Variation ℕ → Option (Job ℕ ℕ)
first_only zero v = some one_answer
first_only (suc index) v = none

abbrev line_name : String → Variation ℕ → String
line_name metric [] = metric
line_name metric ((name, value) ∷ v) = if value == 10 then "coarse" else "fine"

lines_apart : (metric : String) → AllDistinct (line_names line_name metric sweep.axes)
unfolding product with_each zip contains
lines_apart metric = (refl, (refl, tt))

sweep_report_total_example :
    (r : SweepReport ℕ) × (sweep_report line_name first_only sweep ("c_l" ∷ []) (("c_l", "1") ∷ [])
      ≡ ok r)
    × (map (λ (q : SweepPoint ℕ). q.values) r.points ≡ sweep_variations sweep)
    × All IsCurve r.curves
sweep_report_total_example =
    sweep_report_total line_name first_only sweep ("c_l" ∷ []) (("c_l", "1") ∷ []) sweep_accepted
      lines_apart
