-- ===== src/Tests/Searched.antt =====
-- A search over natural numbers whose second submission is refused, and what the theorems on
-- optimisations say of it.
use fenix_spoon.Prelude.{
  ◌≡◌, ◌≢◌, refl, ◌⊎◌, inl, inr, ℕ, zero, suc, ◌+◌, ◌*◌, ◌-◌, ◌/◌, String, List, [], ◌∷◌, Option,
  none, some, ok, err, Result, arith, nat_eq, string_eq, All,
}
use fenix_spoon.Dict.{lookup}
use fenix_spoon.Numbers.{Arithmetic, nat_order}
use fenix_spoon.Objects.{reference, design}
use fenix_spoon.Series.{Series1DData, SeriesError}
use fenix_spoon.Series.Limits.{IsCurve}
use fenix_spoon.Jobs.{Job}
use fenix_spoon.Optimize.{
  OptimizationBody, Objective, Evaluation, minimum, next_point, replay, as_minimum, message_or,
}
use fenix_spoon.Optimize.Search.{
  Searched, stalled, search, report, remembered, evaluation, refused_row, loop, search_turn,
  submitted, answered_by, grade, with_row, blank, objective_of, reported, silence,
}
use fenix_spoon.Optimize.Search.Bounds.{Ends, search_total}
use fenix_spoon.Optimize.Replay.{Recorded, report-search}
use fenix_spoon.Optimize.History.Best.{Best, best_of_cases}
use fenix_spoon.Optimize.History.{
  best_of, graded, with_objective, metrics_of, invalid_history, history_curve, history_curve_cases,
}
use fenix_spoon.Tests.Studied.{one_answer}

-- products by thousandths
abbrev thousandths : Arithmetic ℕ
thousandths = record {
  nought = 0;
  minus = λ a b. a - b;
  plus = λ a b. a + b;
  times = λ a b. (a * b) / 1000;
  divide = λ a b. (1000 * a) / b;
  magnitude = λ a. a;
  negate = λ a. 1000 - a;
}

abbrev drag : Objective ℕ
drag = record { metric = "c_d"; goal = minimum }

abbrev body : OptimizationBody ℕ
body = record {
  design = reference (record { object_type = design; number = 1 }) none;
  parameter = "alpha";
  lower = 0;
  upper = 100;
  objective = drag;
  max_evaluations = 4;
  tolerance = 100;
}

abbrev squared : ℕ → ℕ
squared n = n * n

abbrev quiet : String → String
quiet name = "no answer"

-- the first submission is solved, and the server has room for no other
abbrev one_job_only : ℕ → ℕ → ℕ → Result String (Job ℕ ℕ) × ℕ
one_job_only spent zero point = (ok one_answer, suc spent)
one_job_only spent (suc index) point = (err "quota", spent)

abbrev first_row : Evaluation ℕ
first_row = evaluation thousandths squared quiet drag 0 39 one_answer

abbrev last_row : Evaluation ℕ
last_row = refused_row 1 61 "quota"

abbrev outcome : Searched ℕ
outcome = record {
  progress = record { evaluations = first_row ∷ last_row ∷ []; answered = 2 ∷ [] };
  stopped = stalled;
  refusal = some last_row;
}

search_total_example :
    (r : Searched ℕ) × (t : ℕ) × (search thousandths 618 body squared quiet one_job_only 5 0
      ≡ some (r, t))
    × Ends thousandths 618 body r
search_total_example = search_total thousandths 618 body squared quiet one_job_only 0

searched : search thousandths 618 body squared quiet one_job_only 5 0 ≡ some (outcome, 1)
unfolding search loop search_turn submitted answered_by evaluation grade with_row blank next_point
    replay objective_of reported silence refused_row as_minimum message_or lookup
searched = refl

abbrev first_found : ℕ → ℕ → Option (Job ℕ ℕ)
first_found zero point = some one_answer
first_found (suc index) point = none

recorded :
    All (Recorded thousandths 618 body squared quiet first_found) outcome.progress.evaluations
unfolding evaluation refused_row
recorded = (inr (one_answer, refl, refl), (inl (refl, refl), tt))

report-search_example :
    report thousandths 618 body squared quiet (some (remembered outcome)) first_found 5
    ≡ some (outcome, tt)
report-search_example =
    report-search thousandths 618 body squared quiet one_job_only first_found 5 0 1 outcome searched
      recorded

-- a row without an objective, and then the least twice
abbrev four_rows : List (Evaluation ℕ)
four_rows =
    last_row
    ∷ first_row
    ∷ record first_row { iteration = 2; objective = some 1 }
    ∷ record first_row { iteration = 3; objective = some 1 }
    ∷ []

best_of_cases_example :
    ((best_of four_rows ≡ none) × All (λ (e : Evaluation ℕ). e.objective ≡ none) four_rows)
    ⊎ ((best : Evaluation ℕ) × (best_of four_rows ≡ some best) × Best four_rows best)
best_of_cases_example = best_of_cases four_rows

abbrev plain : Objective ℕ → ℕ → String
plain o n = "history"

history_curve_cases_example :
    ((drag.metric ≢ "objective")
      × ((c : Series1DData ℕ) × (history_curve (λ n. n) plain drag outcome.progress.evaluations "1"
            ≡ ok (some c))
          × IsCurve c))
    ⊎ ((drag.metric ≡ "objective")
        × ((e : SeriesError) × (history_curve (λ n. n) plain drag outcome.progress.evaluations "1"
              ≡ err (invalid_history e))))
unfolding graded with_objective metrics_of evaluation objective_of reported lookup refused_row
    as_minimum
history_curve_cases_example =
    history_curve_cases (λ n. n) plain drag outcome.progress.evaluations "1" (2 ∷ []) refl
      (omega arith) (omega arith)
