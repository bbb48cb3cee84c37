-- ===== src/Store/Sqlite.antt =====
-- `SqliteJobStore` of server/fenixspoon/store.py: its two tables, and the files of payloads. A column
-- of JSON holds what was written to it. The columns of a result (its kind, `stats`, `metrics`,
-- `diagnostics` and `series`) are one summary, or none where the kind is null or empty.
pub mod Refines
pub mod Appends
pub mod Writes
pub mod Calls
use fenix_spoon.Prelude.{
  ℕ, suc, ◌+◌, String, Bool, true, false, List, [], ◌∷◌, ◌++◌, map, Option, none, some, max, Result,
  ok, err, ◌>>=◌, ◌==◌, nat_eq, string_eq, if◌then◌else◌, ltb, keep, contains, not,
}
use fenix_spoon.Dict.{Dict, lookup, insert, delete, values}
use fenix_spoon.Series.{Series1DData, SeriesError}
use fenix_spoon.Store.{
  Status, Event, Artifact, InputValue, Provenance, JobRecord, SolverResult, ResultSummary,
  summary_of, artifact_bytes, is_active,
}

pub record Row (F : Type 0) : Type 0 where
  pub id : String
  pub solver : String
  pub status : Status
  pub error : Option String
  pub created_at : ℕ
  pub finished_at : Option ℕ
  pub summary : Option (ResultSummary F)
  pub artifacts : List Artifact
  pub owner : String
  pub artifact_size : ℕ
  pub inputs : Dict String InputValue
  pub cache_key : Option String
  pub reused : ℕ
  pub provenance : Option Provenance

pub record EventRow (F : Type 0) : Type 0 where
  pub job_id : String
  pub seq : ℕ
  pub payload : Event F

-- the table of events in the order of their `seq` within a job, which is that of insertion
pub record Sqlite (F D : Type 0) : Type 0 where
  pub jobs : Dict String (Row F)
  pub events : List (EventRow F)
  pub files : Dict String D

module _ {F : Type 0} where
  -- `if row["result_kind"]`
  unfoldable pub shown_summary : Option (ResultSummary F) → Option (ResultSummary F)
  shown_summary none = none
  shown_summary (some s) = if s.kind == "" then none else some s

  unfoldable pub events_of : String → List (EventRow F) → List (Event F)
  events_of job_id [] = []
  events_of job_id (e ∷ es) =
      let rest = events_of job_id es in if e.job_id == job_id then e.payload ∷ rest else rest

  -- `COALESCE(MAX(seq), 0)` of a job
  unfoldable pub last_seq : String → List (EventRow F) → ℕ
  last_seq job_id [] = 0
  last_seq job_id (e ∷ es) =
      let rest = last_seq job_id es in if e.job_id == job_id then max e.seq rest else rest

  -- `ON CONFLICT(id) DO UPDATE SET`
  unfoldable pub updated : Option (Row F) → Row F → Row F
  updated none new = new
  updated (some old) new = record old {
    status = new.status;
    error = new.error;
    finished_at = new.finished_at;
    summary = new.summary;
    artifacts = new.artifacts;
    artifact_size = new.artifact_size;
  }

module _ {F D : Type 0} where
  -- the columns that a record is inserted with
  unfoldable pub inserted_row : {E : Type 0} → Option (ResultSummary F) → JobRecord F D E → Row F
  inserted_row summary r = record {
    id = r.id;
    solver = r.solver;
    status = r.status;
    error = r.error;
    created_at = r.created_at;
    finished_at = r.finished_at;
    summary = summary;
    artifacts = r.artifacts;
    owner = r.owner;
    artifact_size = artifact_bytes r;
    inputs = r.inputs;
    cache_key = r.cache_key;
    reused = 0;
    provenance = r.provenance;
  }

  unfoldable pub columns_of :
      (D → Option (Series1DData F))
      → Option (SolverResult F D)
      → Result SeriesError (Option (ResultSummary F))
  columns_of parse none = ok none
  columns_of parse (some res) = summary_of parse res >>= λ s. ok (some s)

  unfoldable pub with_file : String → Option (SolverResult F D) → Dict String D → Dict String D
  with_file job_id none files = files
  with_file job_id (some res) files = insert job_id res.payload files

  -- Where a curve of the result cannot be read, the tables are as they were.
  unfoldable pub put :
      {E : Type 0}
      → (D → Option (Series1DData F))
      → JobRecord F D E
      → Sqlite F D
      → Result SeriesError (Sqlite F D)
  unfolding inserted_row updated columns_of with_file
  put parse r s = do
    summary ← columns_of parse r.result
    ok (record s {
      jobs = insert r.id (updated (lookup r.id s.jobs) (inserted_row summary r)) s.jobs;
      files = with_file r.id r.result s.files;
    })

  unfoldable pub add_event : String → Event F → Sqlite F D → Sqlite F D × ℕ
  unfolding last_seq
  add_event job_id e s =
      let seq = last_seq job_id s.events + 1 in
      (
        record s { events = s.events ++ record { job_id = job_id; seq = seq; payload = e } ∷ [] },
        seq,
      )

  -- the payload that was stored beside the columns, where its file is there
  unfoldable pub result_from : Option (ResultSummary F) → Option D → Option (SolverResult F D)
  result_from none payload = none
  result_from (some s) none = none
  result_from (some s) (some payload) = some (record {
    kind = s.kind;
    payload = payload;
    stats = s.stats;
    metrics = s.metrics;
    converged = s.converged;
    residual = s.residual;
    iterations = s.iterations;
    warnings = s.warnings;
    series = s.series;
  })

  -- `_record`
  unfoldable pub record_from :
      Sqlite F D → Row F → List (Event F) → Bool → JobRecord F D (List (Event F))
  unfolding shown_summary result_from
  record_from s row events with_result = record {
    id = row.id;
    solver = row.solver;
    status = row.status;
    owner = row.owner;
    error = row.error;
    created_at = row.created_at;
    finished_at = row.finished_at;
    result =
        if with_result
        then result_from (shown_summary row.summary) (lookup row.id s.files)
        else none;
    artifacts = row.artifacts;
    events = events;
    summary = shown_summary row.summary;
    reused = row.reused;
    cache_key = row.cache_key;
    inputs = row.inputs;
    provenance = row.provenance;
  }

  unfoldable pub get : String → Bool → Bool → Sqlite F D → Option (JobRecord F D (List (Event F)))
  unfolding record_from events_of
  get job_id with_result with_events s = elim (lookup job_id s.jobs) [
    | none ↦ none
    | some row ↦
        some (record_from s row (if with_events then events_of job_id s.events else []) with_result)
  ]

  unfoldable pub mark_reused : String → Sqlite F D → Sqlite F D
  mark_reused job_id s = elim (lookup job_id s.jobs) [
    | none ↦ s
    | some row ↦ record s { jobs = insert job_id (record row { reused = row.reused + 1 }) s.jobs }
  ]
