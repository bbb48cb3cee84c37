-- ===== src/Store.antt =====
-- server/fenixspoon/store.py: the records that outlive the process.
-- Times are numbers of microseconds; `F` stands for floats and `D` for the JSON of a result's data.
-- `E` is what the `events` field holds: the address of a Python list in a record that a caller
-- owns, and the events themselves in a record that was read.
pub mod Memory
pub mod Sqlite
use fenix_spoon.Prelude.{
  ℕ, ◌+◌, String, Bool, true, false, not, ◌&&◌, ◌||◌, List, [], ◌∷◌, ◌++◌, map, Option, none, some,
  Result, ok, err, ◌>>=◌, ◌==◌, string_eq, if◌then◌else◌, sum_by,
}
use Prim.Native.String.{◌++◌ as str_append}
use text.Mathlib.Text.{find?, starts_with}
use fenix_spoon.Dict.{Dict}
use fenix_spoon.Series.{Series1DData, SeriesError, curves_of}

pub data Status : Type 0 where
  queued running done failed cancelled : Status

-- `solvers/base.py`
pub record ProgressEvent (F : Type 0) : Type 0 where
  pub iteration : ℕ
  pub total : Option ℕ
  pub residual : Option F
  pub message : Option String

-- One entry of a job's log: a change of state, with its `error` key or without, or a tick.
pub data Event (F : Type 0) : Type 0 where
  status : Status → Event F
  status_error : Status → Option String → Event F
  progress : ProgressEvent F → Event F

pub record Artifact : Type 0 where
  pub name : String
  pub content_type : String
  pub size : Option ℕ

-- A value of `inputs`: a reference, a list whose items may be references, or anything else.
pub data InputValue : Type 0 where
  ref : String → InputValue
  refs : List (Option String) → InputValue
  other : InputValue

pub record Provenance : Type 0 where
  pub solver_version : String
  pub environment : Dict String String

pub record SolverResult (F D : Type 0) : Type 0 where
  pub kind : String
  pub payload : D
  pub stats : Dict String F
  pub metrics : Dict String F
  pub converged : Option Bool
  pub residual : Option F
  pub iterations : Option ℕ
  pub warnings : List String
  pub series : List (Series1DData F)

pub record ResultSummary (F : Type 0) : Type 0 where
  pub kind : String
  pub stats : Dict String F
  pub metrics : Dict String F
  pub converged : Option Bool
  pub residual : Option F
  pub iterations : Option ℕ
  pub warnings : List String
  pub series : List (Series1DData F)

pub record JobRecord (F D E : Type 0) : Type 0 where
  pub id : String
  pub solver : String
  pub status : Status
  pub owner : String
  pub error : Option String
  pub created_at : ℕ
  pub finished_at : Option ℕ
  pub result : Option (SolverResult F D)
  pub artifacts : List Artifact
  pub events : E
  pub summary : Option (ResultSummary F)
  pub reused : ℕ
  pub cache_key : Option String
  pub inputs : Dict String InputValue
  pub provenance : Option Provenance

abbrev pub size_or_zero : Option ℕ → ℕ
size_or_zero none = 0
size_or_zero (some n) = n

unfoldable pub artifact_bytes : {F D E : Type 0} → JobRecord F D E → ℕ
artifact_bytes r = sum_by (λ a. size_or_zero a.size) r.artifacts

module _ {F D : Type 0} where
  -- The summary of a loaded result; `parse` is pydantic's reading of a `series1d` payload.
  unfoldable pub summary_of :
      (D → Option (Series1DData F)) → SolverResult F D → Result SeriesError (ResultSummary F)
  summary_of parse res = do
    series ← curves_of parse res.kind res.payload res.series
    ok (record {
      kind = res.kind;
      stats = res.stats;
      metrics = res.metrics;
      converged = res.converged;
      residual = res.residual;
      iterations = res.iterations;
      warnings = res.warnings;
      series = series;
    })

  -- A loaded result is preferred over the stored summary.
  unfoldable pub summarize :
      {E : Type 0}
      → (D → Option (Series1DData F))
      → JobRecord F D E
      → Result SeriesError (Option (ResultSummary F))
  summarize parse r = elim r.result [
    | none ↦ ok r.summary
    | some res ↦ do s ← summary_of parse res; ok (some s)
  ]

unfoldable pub without_series : {F : Type 0} → Option (ResultSummary F) → Option (ResultSummary F)
without_series none = none
without_series (some s) = some (record s { series = [] })

unfoldable pub is_active : Status → Bool
is_active queued = true
is_active running = true
is_active s = false

-- `done`, `running` and `queued` jobs may serve a later submission.
unfoldable pub is_reusable : Status → Bool
is_reusable done = true
is_reusable s = is_active s

-- `TERMINAL` of jobs.py
unfoldable pub is_terminal_status : Status → Bool
is_terminal_status done = true
is_terminal_status failed = true
is_terminal_status cancelled = true
is_terminal_status s = false

-- `f"{reference}@"`
abbrev at_suffix : String → String
at_suffix reference = str_append reference "@"

string_candidates : List (Option String) → List String
string_candidates [] = []
string_candidates (none ∷ l) = string_candidates l
string_candidates (some s ∷ l) = s ∷ string_candidates l

unfoldable pub candidates : Dict String InputValue → List String
unfolding string_candidates
candidates [] = []
candidates ((k, ref s) ∷ d) = s ∷ candidates d
candidates ((k, refs l) ∷ d) = string_candidates l ++ candidates d
candidates ((k, other) ∷ d) = candidates d

abbrev is_found : Option ℕ → Bool
is_found none = false
is_found (some i) = true

-- An unpinned reference matches every revision of its object.
unfoldable pub names_reference : String → String → Bool
names_reference reference candidate =
    candidate == reference
    || (not (is_found (find? reference "@")) && starts_with candidate (at_suffix reference))

any_names : String → List String → Bool
any_names reference [] = false
any_names reference (c ∷ cs) = names_reference reference c || any_names reference cs

-- `_references`
unfoldable pub references : Dict String InputValue → String → Bool
unfolding candidates names_reference any_names
references inputs reference = any_names reference (candidates inputs)
