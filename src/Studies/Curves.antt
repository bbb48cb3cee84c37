-- ===== src/Studies/Curves.antt =====
-- The rows of a study's report, and a sweep's answer as curves (`response_curves` of
-- server/fenixspoon/core/studies.py). `trace_name` is how a metric and the values that a line of
-- the grid holds are printed, which Python's formatting decides.
pub mod Legal
use fenix_spoon.Prelude.{
  ◌≡◌, ℕ, String, Bool, true, false, ◌&&◌, List, [], ◌∷◌, ◌++◌, map, Option, none, some, Eq, ◌==◌,
  ok, err, Result, ◌>>=◌, ◌>>◌, if◌then◌else◌, string_eq,
}
use Prim.Native.String.{◌++◌ as str_append}
use fenix_spoon.Dict.{Dict, lookup}
use fenix_spoon.Series.{SeriesAxis, SeriesTrace, Series1DData, SeriesError, check_one}
use fenix_spoon.Store.{Status}
use fenix_spoon.Studies.{
  SweepAxis, Variation, product, zip, axis_parameters, axis_values, all, sets,
}

-- a job's status, or none for want of a job
pub data RowStatus : Type 0 where
  of_job : Status → RowStatus
  refused : RowStatus

pub record VariationResult (F : Type 0) : Type 0 where
  pub job_id : Option String
  pub status : RowStatus
  pub cached : Bool
  pub metrics : Dict String F
  pub error : Option String

pub record StudyRung (F : Type 0) : Type 0 where
  pub answer : VariationResult F
  pub value : F

pub record SweepPoint (F : Type 0) : Type 0 where
  pub answer : VariationResult F
  pub values : Variation F

pub data CurveError : Type 0 where
  key_error : String → CurveError
  invalid_series : SeriesError → CurveError

abbrev pub or_blank : Option String → String
or_blank none = ""
or_blank (some unit) = unit

module _ {F : Type 0} ⦃e : Eq F⦄ (trace_name : String → Variation F → String) where
  -- the points of one line of the grid that have the metric, each with its place on the abscissa
  unfoldable pub drawn :
      String → String → Variation F → List (SweepPoint F) → Result CurveError (List (F × F))
  drawn abscissa metric held [] = ok []
  drawn abscissa metric held (p ∷ ps) =
      let rest = drawn abscissa metric held ps in
      elim (lookup metric p.answer.metrics) [
        | none ↦ rest
        | some value ↦
            if all (sets p.values) held
            then (elim (lookup abscissa p.values) [
              | none ↦ err (key_error abscissa)
              | some at ↦ rest >>= λ more. ok ((at, value) ∷ more)
            ])
            else rest
      ]

  unfoldable pub trace_of : String → String → String → Variation F → List (F × F) → SeriesTrace F
  trace_of abscissa metric unit held line = record {
    name = trace_name metric held;
    unit = unit;
    values = map (λ d. d.1) line;
    x = some (record { name = abscissa; unit = ""; values = map (λ d. d.0) line });
  }

  -- A line of the grid that nothing has answered is left out.
  unfoldable pub traces_of :
      String
      → String
      → String
      → List String
      → List (List F)
      → List (SweepPoint F)
      → Result CurveError (List (SeriesTrace F))
  traces_of abscissa metric unit names [] points = ok []
  traces_of abscissa metric unit names (c ∷ combinations) points =
      drawn abscissa metric (zip names c) points >>= λ line.
      traces_of abscissa metric unit names combinations points >>= λ rest. ok (elim line [
        | [] ↦ rest
        | d ∷ ds ↦ trace_of abscissa metric unit (zip names c) (d ∷ ds) ∷ rest
      ])

  unfoldable pub curve_of : String → String → List (SeriesTrace F) → Series1DData F
  curve_of abscissa metric traces = record {
    name = metric;
    description = str_append metric (str_append " against " abscissa);
    x = none;
    traces = traces;
  }

  -- A curve set is made, and so checked, where it has a trace.
  unfoldable pub made :
      String → String → List (SeriesTrace F) → Result CurveError (List (Series1DData F))
  made abscissa metric [] = ok []
  made abscissa metric (t ∷ ts) = elim (check_one (curve_of abscissa metric (t ∷ ts))) [
    | ok _ ↦ ok (curve_of abscissa metric (t ∷ ts) ∷ [])
    | err e ↦ err (invalid_series e)
  ]

  unfoldable pub metric_curves :
      SweepAxis F
      → List (SweepAxis F)
      → List (SweepPoint F)
      → List String
      → Dict String String
      → Result CurveError (List (Series1DData F))
  metric_curves a rest points [] units = ok []
  metric_curves a rest points (metric ∷ metrics) units =
      traces_of a.parameter metric (or_blank (lookup metric units)) (axis_parameters rest)
        (product (axis_values rest)) points
      >>= λ traces. made a.parameter metric traces >>= λ curve.
          metric_curves a rest points metrics units >>= λ curves. ok (curve ++ curves)

  unfoldable pub response_curves :
      List (SweepAxis F)
      → List (SweepPoint F)
      → List String
      → Dict String String
      → Result CurveError (List (Series1DData F))
  response_curves [] points metrics units = ok []
  response_curves (a ∷ rest) points metrics units = metric_curves a rest points metrics units
