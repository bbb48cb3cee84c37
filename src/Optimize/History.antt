-- ===== src/Optimize/History.antt =====
-- The report of a search: its best row, and its rows as a curve (`_optimization_report` of
-- server/fenixspoon/core/service.py, `history_curve` of server/fenixspoon/core/optimize.py). `nth` is
-- a number of the sequence as a float, `described` the description that is printed.
pub mod Best
use fenix_spoon.Prelude.{
  ◌≡◌, refl, ◌∙◌, ◌≤◌, ◌<◌, ◌≢◌, ◌⊎◌, ◌↔◌, inl, inr, ℕ, zero, suc, String, true, false, List, [],
  ◌∷◌, map, Option, none, some, ◌==◌, nat_eq, string_eq, if◌then◌else◌, length, contains,
  length-map, get_elem?, take, Result, ok, err, arith, Option-cases, Bool-cases, Result-cases,
  ne_of_==, All,
}
use fenix_spoon.Numbers.{Order}
use fenix_spoon.Series.{SeriesAxis, Series1DData, SeriesError, check_one}
use fenix_spoon.Series.Limits.{IsCurve, check_one_iff}
use fenix_spoon.Optimize.{Objective, Evaluation, unit_of}
use fenix_spoon.Optimize.Search.{Stop, not_run, Searched}

-- a row that has an objective, with its metric and objective as they are read for a curve
pub record Graded (F : Type 0) : Type 0 where
  pub row : Evaluation F
  pub objective : F

unfoldable pub with_objective :
    {F : Type 0} → Evaluation F → Option F → List (Graded F) → List (Graded F)
with_objective e none rest = rest
with_objective e (some v) rest = record { row = e; objective = v } ∷ rest

-- `[e for e in evaluations if e.objective is not None]`
unfoldable pub graded : {F : Type 0} → List (Evaluation F) → List (Graded F)
unfolding with_objective
graded [] = []
graded (e ∷ es) = with_objective e e.objective (graded es)

module _ {F : Type 0} ⦃o : Order F⦄ where
  -- `min(rows, key=lambda e: e.objective)`, by the least so far: the first of the least
  unfoldable pub least : Graded F → List (Graded F) → Graded F
  least best [] = best
  least best (g ∷ gs) = least (if o.below g.objective best.objective then g else best) gs

  unfoldable pub best_graded : List (Graded F) → Option (Evaluation F)
  unfolding least
  best_graded [] = none
  best_graded (g ∷ gs) = some (least g gs).row

  -- `best` of the report
  unfoldable pub best_of : List (Evaluation F) → Option (Evaluation F)
  unfolding graded best_graded
  best_of evaluations = best_graded (graded evaluations)

  -- `stopped` of the report
  unfoldable pub stopped_of : Searched F → Stop
  stopped_of r = elim r.progress.evaluations [ [] ↦ not_run | e ∷ es ↦ r.stopped ]

-- `float(e.metric)` of rows with an objective; `float(None)` raises.
unfoldable pub metrics_of : {F : Type 0} → List (Graded F) → Option (List F)
metrics_of [] = some []
metrics_of (g ∷ gs) = elim g.row.metric [
  | none ↦ none
  | some m ↦ elim (metrics_of gs) [ none ↦ none | some ms ↦ some (m ∷ ms) ]
]

pub data HistoryError : Type 0 where
  type_error : HistoryError
  invalid_history : SeriesError → HistoryError

module _ {F : Type 0} (nth : ℕ → F) (described : Objective F → ℕ → String) where
  unfoldable pub index_axis : List (Graded F) → SeriesAxis F
  index_axis rows = record {
    name = "evaluation";
    unit = "";
    values = map (λ g. nth g.row.iteration) rows;
  }

  unfoldable pub history_of : Objective F → String → List (Graded F) → List F → Series1DData F
  unfolding index_axis unit_of
  history_of o unit rows metrics = record {
    name = "convergence";
    description = described o (length rows);
    x = none;
    traces =
        record {
          name = "objective";
          unit = unit_of o.goal unit;
          values = map (λ g. g.objective) rows;
          x = some (index_axis rows);
        }
        ∷ record { name = o.metric; unit = unit; values = metrics; x = some (index_axis rows) }
        ∷ [];
  }

  unfoldable pub checked_history : Series1DData F → Result HistoryError (Option (Series1DData F))
  checked_history curve = elim (check_one curve) [
    | ok _ ↦ ok (some curve)
    | err e ↦ err (invalid_history e)
  ]

  unfoldable pub rows_curve :
      Objective F → String → List (Graded F) → Result HistoryError (Option (Series1DData F))
  unfolding history_of checked_history metrics_of
  rows_curve o unit [] = ok none
  rows_curve o unit (g ∷ gs) = elim (metrics_of (g ∷ gs)) [
    | none ↦ err type_error
    | some metrics ↦ checked_history (history_of o unit (g ∷ gs) metrics)
  ]

  -- `history_curve`
  unfoldable pub history_curve :
      Objective F → List (Evaluation F) → String → Result HistoryError (Option (Series1DData F))
  unfolding graded rows_curve
  history_curve o evaluations unit = rows_curve o unit (graded evaluations)

module _ {F : Type 0} (nth : ℕ → F) (described : Objective F → ℕ → String) where
  length-metrics_of :
      (rows : List (Graded F)) (ms : List F) → metrics_of rows ≡ some ms → length ms ≡ length rows
  unfolding metrics_of
  length-metrics_of [] ms h = ground (arith, h)
  length-metrics_of (g ∷ gs) ms h = elim (Option-cases g.row.metric) [
    | inl missing ↦ ground (arith, h, missing)
    | inr (m, there) ↦ elim (Option-cases (metrics_of gs)) [
      | inl stuck ↦ ground (arith, h, there, stuck)
      | inr (rest, more) ↦ ground (arith, h, there, more, length-metrics_of gs rest more)
    ]
  ]

  history_of-IsCurve :
      (goal : Objective F) (unit : String) (rows : List (Graded F)) (ms : List F)
      → length ms ≡ length rows
      → 0 < length rows
      → length rows ≤ 4096
      → IsCurve (history_of nth described goal unit rows ms) ↔ (goal.metric ≢ "objective")
  unfolding history_of index_axis contains
  history_of-IsCurve goal unit rows ms same some_rows few =
      let ys = length-map (λ (g : Graded F). g.objective) rows in
      let xs = length-map (λ (g : Graded F). nth g.row.iteration) rows in
      (
        (λ c. ground (arith, c.names, string_eq.beq_iff "objective" goal.metric)),
        (λ differ. record {
          shared = tt;
          within = ground (arith, xs, ys, same, some_rows, few);
          some_traces = omega arith;
          few_traces = omega arith;
          names = ground (arith, differ, string_eq.beq_iff "objective" goal.metric);
          drawable = ground (arith, xs, ys, same);
        }),
      )

  checked_history_cases :
      (curve : Series1DData F)
      → ((check_one curve ≡ ok tt) × (checked_history nth described curve ≡ ok (some curve)))
        ⊎ ((e : SeriesError) × (check_one curve ≡ err e)
            × (checked_history nth described curve ≡ err (invalid_history e)))
  unfolding checked_history
  checked_history_cases curve = elim (Result-cases (check_one curve)) [
    | inl (e, refused) ↦ inr (e, refused, ground (arith, refused))
    | inr (v, passed) ↦ inl (passed, ground (arith, passed))
  ]

  rows_curve_checked :
      (goal : Objective F) (unit : String) (rows : List (Graded F)) (ms : List F)
      → metrics_of rows ≡ some ms
      → 0 < length rows
      → rows_curve nth described goal unit rows
        ≡ checked_history nth described (history_of nth described goal unit rows ms)
  unfolding rows_curve
  rows_curve_checked goal unit [] ms read some_rows = absurd (omega (arith, some_rows))
  rows_curve_checked goal unit (g ∷ gs) ms read some_rows = ground (arith, read)

  -- A search with graded rows, each with its metric and no more than an axis may have, is drawn
  -- as a lawful curve set unless the metric it optimises is named `objective`: then the two traces
  -- have one name, and drawing them raises.
  pub history_curve_cases :
      (goal : Objective F) (evaluations : List (Evaluation F)) (unit : String) (ms : List F)
      → metrics_of (graded evaluations) ≡ some ms
      → 0 < length (graded evaluations)
      → length (graded evaluations) ≤ 4096
      → ((goal.metric ≢ "objective")
          × ((c : Series1DData F) × (history_curve nth described goal evaluations unit
                ≡ ok (some c))
              × IsCurve c))
        ⊎ ((goal.metric ≡ "objective")
            × ((e : SeriesError) × (history_curve nth described goal evaluations unit
                  ≡ err (invalid_history e))))
  unfolding history_curve
  history_curve_cases goal evaluations unit ms read some_rows few =
      let rows = graded evaluations in
      let curve = history_of nth described goal unit rows ms in
      let legal =
        history_of-IsCurve goal unit rows ms (length-metrics_of rows ms read) some_rows few in
      let accepted = check_one_iff curve in
      let shape = rows_curve_checked goal unit rows ms read some_rows in
      elim (checked_history_cases curve) [
        | inl (passed, made) ↦
            inl (legal.0 (accepted.0 passed), (curve, shape ∙ made, accepted.0 passed))
        | inr (e, refused, raised) ↦ elim (Bool-cases (goal.metric == "objective")) [
          | inl same ↦ inr ((string_eq.beq_iff goal.metric "objective").0 same, (e, shape ∙ raised))
          | inr differ ↦
              absurd (cc (accepted.1 (legal.1 (ne_of_== goal.metric "objective" differ)), refused))
        ]
      ]
