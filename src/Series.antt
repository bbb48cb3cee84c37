-- ===== src/Series.antt =====
-- server/fenixspoon/series.py: curves, their validators, and the limits on a result's curves.
-- The numbers are an abstract type `F`: a curve's limits read lengths and names only.
pub mod Limits
use fenix_spoon.Prelude.{
  ℕ, ◌+◌, String, Bool, true, false, not, List, [], ◌∷◌, map, Option, none, some, Result, ok, err,
  ◌>>=◌, ◌>>◌, guard, leb, if◌then◌else◌, ◌==◌, nat_eq, string_eq, length, sum_by, set_of,
}

-- Hard ceiling on the number of points in one trace, and on one axis.
abbrev pub max_series_points : ℕ
max_series_points = 4096

abbrev pub max_series_traces : ℕ
max_series_traces = 32

abbrev pub max_series_per_result : ℕ
max_series_per_result = 32

abbrev pub max_series_total_points : ℕ
max_series_total_points = 8192

-- The `ValueError`s of the validators, one for each `raise`.
pub data SeriesError : Type 0 where
  axis_empty axis_too_long trace_too_long trace_unaligned : String → SeriesError
  no_traces too_many_traces trace_named_twice : String → SeriesError
  no_abscissa shared_unaligned : String → String → SeriesError
  series_named_twice too_many_series too_many_points : SeriesError
  not_a_series : SeriesError

pub record SeriesAxis (F : Type 0) : Type 0 where
  pub name : String
  pub unit : String
  pub values : List F

pub record SeriesTrace (F : Type 0) : Type 0 where
  pub name : String
  pub unit : String
  pub values : List F
  pub x : Option (SeriesAxis F)

pub record Series1DData (F : Type 0) : Type 0 where
  pub name : String
  pub description : String
  pub x : Option (SeriesAxis F)
  pub traces : List (SeriesTrace F)

module _ {F : Type 0} where
  -- `SeriesAxis._check`
  unfoldable pub check_axis : SeriesAxis F → Result SeriesError (Unit {0})
  check_axis a = do
    guard (not (length a.values == 0)) (axis_empty a.name)
    guard (leb (length a.values) max_series_points) (axis_too_long a.name)

  -- `len(x.values) == len(values)`, where there is an `x`
  unfoldable pub aligned : Option (SeriesAxis F) → List F → Bool
  aligned none values = true
  aligned (some a) values = length a.values == length values

  unfoldable pub check_axis? : Option (SeriesAxis F) → Result SeriesError (Unit {0})
  check_axis? none = ok tt
  check_axis? (some a) = check_axis a

  -- `SeriesTrace._check`, after the axis that the trace brings
  unfoldable pub check_trace : SeriesTrace F → Result SeriesError (Unit {0})
  check_trace t = do
    check_axis? t.x
    guard (leb (length t.values) max_series_points) (trace_too_long t.name)
    guard (aligned t.x t.values) (trace_unaligned t.name)

  unfoldable pub check_traces : List (SeriesTrace F) → Result SeriesError (Unit {0})
  check_traces [] = ok tt
  check_traces (t ∷ ts) = check_trace t >> check_traces ts

  -- the loop of `Series1DData._check`: a trace with no `x` of its own uses the shared one
  unfoldable pub shared_abscissa :
      String
      → Option (SeriesAxis F)
      → SeriesTrace F
      → Option (SeriesAxis F)
      → Result SeriesError (Unit {0})
  shared_abscissa name shared t (some own) = ok tt
  shared_abscissa name none t none = err (no_abscissa name t.name)
  shared_abscissa name (some a) t none =
      guard (length t.values == length a.values) (shared_unaligned name t.name)

  unfoldable pub check_abscissae :
      String → Option (SeriesAxis F) → List (SeriesTrace F) → Result SeriesError (Unit {0})
  check_abscissae name shared [] = ok tt
  check_abscissae name shared (t ∷ ts) =
      shared_abscissa name shared t t.x >> check_abscissae name shared ts

  abbrev pub trace_names : List (SeriesTrace F) → List String
  trace_names = map (λ t. t.name)

  abbrev pub series_names : List (Series1DData F) → List String
  series_names = map (λ s. s.name)

  -- `Series1DData._check`, after its parts
  unfoldable pub check_one : Series1DData F → Result SeriesError (Unit {0})
  check_one s = do
    check_axis? s.x
    check_traces s.traces
    guard (not (length s.traces == 0)) (no_traces s.name)
    guard (leb (length s.traces) max_series_traces) (too_many_traces s.name)
    guard (length (trace_names s.traces) == length (set_of (trace_names s.traces)))
        (trace_named_twice s.name)
    check_abscissae s.name s.x s.traces

  -- `sum(len(trace.values) for entry in series for trace in entry.traces)`
  unfoldable pub total_points : List (Series1DData F) → ℕ
  total_points = sum_by (λ s. sum_by (λ t. length t.values) s.traces)

  unfoldable pub check_series : List (Series1DData F) → Result SeriesError (Unit {0})
  check_series series = do
    guard (length (series_names series) == length (set_of (series_names series))) series_named_twice
    guard (leb (length series) max_series_per_result) too_many_series
    guard (leb (total_points series) max_series_total_points) too_many_points

  -- `Series1DData.model_validate(data)` is pydantic's parse, a parameter, and the checks above.
  unfoldable pub model_validate :
      {D : Type 0} → (D → Option (Series1DData F)) → D → Result SeriesError (Series1DData F)
  model_validate parse raw = elim (parse raw) [
    | none ↦ err not_a_series
    | some s ↦ do check_one s; ok s
  ]

  unfoldable pub curves_of :
      {D : Type 0}
      → (D → Option (Series1DData F))
      → String
      → D
      → List (Series1DData F)
      → Result SeriesError (List (Series1DData F))
  unfolding model_validate
  curves_of parse kind raw series =
      if kind == "series1d" then (do s ← model_validate parse raw; ok (s ∷ [])) else ok series
