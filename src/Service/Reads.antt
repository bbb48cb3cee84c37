-- ===== src/Service/Reads.antt =====
-- What the service says of a job (server/fenixspoon/core/service.py, with the levels of
-- server/fenixspoon/core/results.py). `path_of` is the path of a job's file, `is_file` whether it is
-- there. The frames and modes of the artifacts are not modelled.
pub mod Levels
use fenix_spoon.Prelude.{
  ◌≡◌, ℕ, ◌+◌, String, Bool, true, false, not, ◌&&◌, ◌||◌, List, [], ◌∷◌, ◌++◌, map, Option, none,
  some, Eq, ◌==◌, nat_eq, string_eq, if◌then◌else◌, ltb, leb, length, contains, keep, Result, ok,
  err, guard, ◌>>=◌, ◌>>◌,
}
use fenix_spoon.Dict.{Dict, lookup}
use fenix_spoon.Series.{Series1DData, SeriesError}
use fenix_spoon.Store.{
  Status, queued, running, done, failed, cancelled, Artifact, SolverResult, ResultSummary,
  InputValue, Provenance, size_or_zero,
}
use fenix_spoon.Jobs.{Job, Manager}
use fenix_spoon.Jobs

-- `CoreError`s of the reads
pub data ReadError : Type 0 where
  job_not_found : ReadError
  job_already_finished job_not_finished : Status → ReadError
  job_did_not_succeed : Status → Option String → ReadError
  result_payload_missing : String → ReadError
  unknown_level : List String → ReadError
  artifact_not_found artifact_file_missing : ReadError
  -- the `ValidationError` of a curve in the store
  invalid_curve : SeriesError → ReadError

abbrev pub as_read : {A : Type 0} → Result SeriesError A → Result ReadError A
as_read (err e) = err (invalid_curve e)
as_read (ok a) = ok a

pub record ArtifactHandle : Type 0 where
  pub name : String
  pub content_type : String
  pub size : ℕ
  pub path : String

pub record ResultView (F D : Type 0) : Type 0 where
  pub job_id : String
  pub kind : String
  pub payload : D
  pub stats : Dict String F
  pub artifacts : List ArtifactHandle

-- `results.Provenance`
pub record ProvenanceView (F : Type 0) : Type 0 where
  pub job_id : String
  pub cached : Bool
  pub solver : String
  pub solver_version : String
  pub cache_key : Option String
  pub computed_at : Option ℕ
  pub seconds : Option F
  pub environment : Dict String String
  pub inputs : Dict String InputValue

pub record StatusView (F : Type 0) : Type 0 where
  pub status : Status
  pub error : Option String
  pub created_at : ℕ
  pub finished_at : Option ℕ
  pub seconds : Option F

pub record DiagnosticsView (F : Type 0) : Type 0 where
  pub stats : Dict String F
  pub converged : Option Bool
  pub residual : Option F
  pub iterations : Option ℕ
  pub warnings : List String

pub record FieldsView (D : Type 0) : Type 0 where
  pub kind : String
  pub payload : D

pub record LeveledResult (F D : Type 0) : Type 0 where
  pub job_id : String
  pub solver : String
  pub status : Option (StatusView F)
  pub metrics : Option (Dict String F)
  pub diagnostics : Option (DiagnosticsView F)
  pub provenance : Option (ProvenanceView F)
  pub series : Option (List (Series1DData F))
  pub fields : Option (FieldsView D)
  pub artifacts : Option (List ArtifactHandle)

abbrev pub levels_known : List String
levels_known =
    "status" ∷ "metrics" ∷ "diagnostics" ∷ "provenance" ∷ "series" ∷ "fields" ∷ "artifacts" ∷ []

abbrev pub default_levels : List String
default_levels = "status" ∷ "metrics" ∷ "diagnostics" ∷ "provenance" ∷ "artifacts" ∷ []

unfoldable pub check_levels : Option (List String) → Result ReadError (List String)
check_levels none = ok default_levels
check_levels (some levels) =
    let unknown = keep (λ level. not (contains level levels_known)) levels in
    guard (length unknown == 0) (unknown_level unknown) >> ok levels

-- a job that is done, or why there is no result
unfoldable pub succeeded : Status → Option String → Result ReadError (Unit {0})
succeeded failed error = err (job_did_not_succeed failed error)
succeeded cancelled error = err (job_did_not_succeed cancelled error)
succeeded done error = ok tt
succeeded queued error = err (job_not_finished queued)
succeeded running error = err (job_not_finished running)

-- `str(recorded.get("solver_version") or "unknown")`, and the recorded environment
unfoldable pub version_of : Option Provenance → String
version_of none = "unknown"
version_of (some p) = if p.solver_version == "" then "unknown" else p.solver_version

unfoldable pub environment_of : Option Provenance → Dict String String
environment_of none = []
environment_of (some p) = p.environment

module _ {F D : Type 0} (path_of : String → String → String) where
  -- `_handle`
  unfoldable pub handle : Job F D → Artifact → ArtifactHandle
  handle j a = record {
    name = a.name;
    content_type = a.content_type;
    size = size_or_zero a.size;
    path = path_of j.id a.name;
  }

  abbrev pub handles : Job F D → List ArtifactHandle
  handles j = map (handle j) j.artifacts

-- the first artifact of the name
unfoldable pub entry_named : String → List Artifact → Option Artifact
entry_named name [] = none
entry_named name (a ∷ rest) = if a.name == name then some a else entry_named name rest

abbrev pub when : {A : Type 0} → Bool → A → Option A
when true a = some a
when false a = none

abbrev pub only_if : {A : Type 0} → Bool → Option A → Option A
only_if true a = a
only_if false a = none

module _ {F : Type 0} where
  -- `summary.stats.get("seconds") if summary else None`
  unfoldable pub seconds_of : Option (ResultSummary F) → Option F
  seconds_of none = none
  seconds_of (some s) = lookup "seconds" s.stats

  abbrev pub metrics_of : Option (ResultSummary F) → Dict String F
  metrics_of none = []
  metrics_of (some s) = s.metrics

  abbrev pub series_of : Option (ResultSummary F) → List (Series1DData F)
  series_of none = []
  series_of (some s) = s.series

  unfoldable pub diagnostics_of : Option (ResultSummary F) → Option (DiagnosticsView F)
  diagnostics_of none = none
  diagnostics_of (some s) = some (record {
    stats = s.stats;
    converged = s.converged;
    residual = s.residual;
    iterations = s.iterations;
    warnings = s.warnings;
  })

module _ {F D : Type 0} where
  -- `_provenance`
  unfoldable pub provenance_of : Job F D → ProvenanceView F
  unfolding version_of environment_of seconds_of
  provenance_of j = record {
    job_id = j.id;
    cached = ltb 0 j.reused;
    solver = j.solver_name;
    solver_version = version_of j.provenance;
    cache_key = j.cache_key;
    computed_at = j.finished_at;
    seconds = seconds_of j.summary;
    environment = environment_of j.provenance;
    inputs = j.inputs;
  }

  unfoldable pub fields_of :
      Option (ResultSummary F) → Option (SolverResult F D) → Option (FieldsView D)
  fields_of none result = none
  fields_of (some s) none = none
  fields_of (some s) (some r) = some (record { kind = s.kind; payload = r.payload })

  unfoldable pub status_of : Job F D → StatusView F
  unfolding seconds_of
  status_of j = record {
    status = j.status;
    error = j.error;
    created_at = j.created_at;
    finished_at = j.finished_at;
    seconds = seconds_of j.summary;
  }

  unfoldable pub payload_of : Job F D → Result ReadError (SolverResult F D)
  payload_of j = elim j.result [ none ↦ err (result_payload_missing j.id) | some r ↦ ok r ]

  -- the payload, where the level that needs it is asked for
  unfoldable pub payload_for : List String → Job F D → Result ReadError (Unit {0})
  unfolding payload_of
  payload_for levels j = if contains "fields" levels then (payload_of j >>= λ r. ok tt) else ok tt

module _ {F D : Type 0} (parse : D → Option (Series1DData F)) where
  -- `job`
  unfoldable pub job_of : String → String → Bool → Manager F D → Result ReadError (Job F D)
  job_of job_id caller with_result m = do
    found ← as_read (Jobs.get parse job_id (some caller) with_result m)
    elim found [ none ↦ err job_not_found | some j ↦ ok j ]

  -- `cancel`
  unfoldable pub cancel : String → String → Manager F D → Result ReadError (Manager F D × Job F D)
  unfolding job_of
  cancel job_id caller m = do
    j ← job_of job_id caller false m
    let (cancelling, accepted) = Jobs.cancel j m
    if accepted then ok (cancelling, j) else err (job_already_finished j.status)

module _ {F D : Type 0} (path_of : String → String → String) where
  -- `results.build`
  unfoldable pub build : Job F D → List String → LeveledResult F D
  unfolding status_of provenance_of diagnostics_of fields_of handle
  build j levels = record {
    job_id = j.id;
    solver = j.solver_name;
    status = when (contains "status" levels) (status_of j);
    metrics = when (contains "metrics" levels) (metrics_of j.summary);
    diagnostics = only_if (contains "diagnostics" levels) (diagnostics_of j.summary);
    provenance = when (contains "provenance" levels) (provenance_of j);
    series = when (contains "series" levels) (series_of j.summary);
    fields = only_if (contains "fields" levels) (fields_of j.summary j.result);
    artifacts = when (contains "artifacts" levels) (handles path_of j);
  }

  module _ (parse : D → Option (Series1DData F)) where
    unfoldable pub result : String → String → Manager F D → Result ReadError (ResultView F D)
    unfolding job_of succeeded payload_of handle
    result job_id caller m = do
      j ← job_of parse job_id caller true m
      succeeded j.status j.error
      r ← payload_of j
      ok (record {
        job_id = j.id;
        kind = r.kind;
        payload = r.payload;
        stats = r.stats;
        artifacts = handles path_of j;
      })

    unfoldable pub result_levels :
        String → String → Option (List String) → Manager F D → Result ReadError (LeveledResult F D)
    unfolding check_levels job_of succeeded payload_for build
    result_levels job_id caller levels m = do
      wanted ← check_levels levels
      j ← job_of parse job_id caller (contains "fields" wanted) m
      succeeded j.status j.error
      payload_for wanted j
      ok (build j wanted)

    unfoldable pub artifact :
        (String → Bool) → String → String → String → Manager F D → Result ReadError ArtifactHandle
    unfolding job_of entry_named handle
    artifact is_file job_id name caller m = do
      j ← job_of parse job_id caller false m
      elim (entry_named name j.artifacts) [
        | none ↦ err artifact_not_found
        | some a ↦
            guard (is_file (path_of j.id a.name)) artifact_file_missing >> ok (handle path_of j a)
      ]
