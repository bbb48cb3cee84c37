-- ===== src/Jobs.antt =====
-- `JobManager` of server/fenixspoon/jobs.py over the memory store, with `InProcessBackend` of
-- server/fenixspoon/backends.py. Directories on disk are not modelled; a new job's id and the times
-- are arguments, and so is the address of the list object that a new record is made with.
pub mod Subscribe
pub mod Access
pub mod Lifecycle
pub mod Sweeps
use fenix_spoon.Prelude.{
  ◌++◌, ℕ, ◌+◌, ◌-◌, String, Bool, true, false, not, ◌&&◌, List, [], ◌∷◌, map, Option, none, some,
  Result, ok, err, ◌>>=◌, ◌==◌, string_eq, nat_eq, if◌then◌else◌, contains,
}
use fenix_spoon.Dict.{Dict, lookup, insert, delete, keys}
use fenix_spoon.Series.{Series1DData, SeriesError}
use fenix_spoon.Store.{
  Status, queued, running, done, failed, cancelled, Event, Artifact, SolverResult, ResultSummary,
  InputValue, Provenance, JobRecord, summarize, is_terminal_status,
}
use fenix_spoon.Store.Memory.{Memory, ListRef, put, add_event, purge_before}
use fenix_spoon.Store.Memory
use fenix_spoon.Store.Memory.Queries.{page, rows, count, unfinished_ids}
use fenix_spoon.Execution.{World, Run, run_solve, raised_in}

pub record Job (F D : Type 0) : Type 0 where
  pub id : String
  pub solver_name : String
  pub status : Status
  pub owner : String
  pub error : Option String
  pub created_at : ℕ
  pub finished_at : Option ℕ
  pub result : Option (SolverResult F D)
  pub artifacts : List Artifact
  pub events : List (Event F)
  pub inputs : Dict String InputValue
  pub cache_key : Option String
  pub reused : ℕ
  pub provenance : Option Provenance
  pub summary : Option (ResultSummary F)

-- The manager, its store and bus, and what its in-process backend runs: for each job that is being
-- solved, whether its cancel event is set.
pub record Manager (F D : Type 0) : Type 0 where
  pub jobs : Dict String (Job F D)
  pub world : World F D
  pub runs_locally : Bool
  pub cancels : Dict String Bool
  pub job_ttl : ℕ

-- What a submission says of a new job.
pub record Submission : Type 0 where
  pub job_id : String
  pub solver_name : String
  pub owner : String
  pub inputs : Dict String InputValue
  pub cache_key : Option String
  pub provenance : Option Provenance
  pub now : ℕ

-- `InProcessBackend.cancel`
unfoldable pub set_cancel : String → Dict String Bool → Dict String Bool
set_cancel job_id cancels = elim (lookup job_id cancels) [
  | none ↦ cancels
  | some set ↦ insert job_id true cancels
]

module _ {F D : Type 0} where
  -- `Job.to_record`, whose `events` is a new list
  unfoldable pub to_record : ListRef → Job F D → JobRecord F D ListRef
  to_record events j = record {
    id = j.id;
    solver = j.solver_name;
    status = j.status;
    owner = j.owner;
    error = j.error;
    created_at = j.created_at;
    finished_at = j.finished_at;
    result = j.result;
    artifacts = j.artifacts;
    events = events;
    summary = none;
    reused = j.reused;
    cache_key = j.cache_key;
    inputs = j.inputs;
    provenance = j.provenance;
  }

  -- `Job.from_record`
  unfoldable pub from_record :
      (D → Option (Series1DData F)) → JobRecord F D (List (Event F)) → Result SeriesError (Job F D)
  from_record parse r = do
    summary ← summarize parse r
    ok (record {
      id = r.id;
      solver_name = r.solver;
      status = r.status;
      owner = r.owner;
      error = r.error;
      created_at = r.created_at;
      finished_at = r.finished_at;
      result = r.result;
      artifacts = r.artifacts;
      events = r.events;
      inputs = r.inputs;
      cache_key = r.cache_key;
      reused = r.reused;
      provenance = r.provenance;
      summary = summary;
    })

  -- `Job.absorb`
  unfoldable pub absorb :
      (D → Option (Series1DData F)) → JobRecord F D ListRef → Job F D → Result SeriesError (Job F D)
  absorb parse r j = do
    summary ← summarize parse r
    ok (record j {
      status = r.status;
      error = r.error;
      finished_at = r.finished_at;
      result = r.result;
      artifacts = r.artifacts;
      summary = summary;
    })

  -- The live entry, or else what the store remembers.
  unfoldable pub find_job :
      (D → Option (Series1DData F))
      → String
      → Bool
      → Manager F D
      → Result SeriesError (Option (Job F D))
  unfolding from_record
  find_job parse job_id with_result m = elim (lookup job_id m.jobs) [
    | some j ↦ ok (some j)
    | none ↦ do
      r ← Memory.get parse job_id with_result false m.world.store
      elim r [ none ↦ ok none | some r ↦ do j ← from_record parse r; ok (some j) ]
  ]

  -- Somebody else's job is no job.
  unfoldable pub scoped : Option String → Job F D → Option (Job F D)
  scoped none j = some j
  scoped (some owner) j = if j.owner == owner then some j else none

  unfoldable pub get :
      (D → Option (Series1DData F))
      → String
      → Option String
      → Bool
      → Manager F D
      → Result SeriesError (Option (Job F D))
  unfolding find_job scoped
  get parse job_id owner with_result m = do
    found ← find_job parse job_id with_result m
    elim found [ none ↦ ok none | some j ↦ ok (scoped owner j) ]

  -- The live entry of each row, or else the row.
  unfoldable pub live_rows :
      (D → Option (Series1DData F))
      → Manager F D
      → List (JobRecord F D (List (Event F)))
      → Result SeriesError (List (Job F D))
  unfolding from_record
  live_rows parse m [] = ok []
  live_rows parse m (r ∷ rs) =
      let rest = live_rows parse m rs in
      do
        j ← elim (lookup r.id m.jobs) [ some j ↦ ok j | none ↦ from_record parse r ]
        js ← rest
        ok (j ∷ js)

  unfoldable pub list_jobs :
      (D → Option (Series1DData F))
      → ℕ
      → ℕ
      → Option String
      → Manager F D
      → Result SeriesError (List (Job F D) × ℕ)
  unfolding live_rows
  list_jobs parse limit offset owner m = do
    records ← Memory.Queries.list_jobs parse limit offset owner m.world.store
    jobs ← live_rows parse m records
    ok (jobs, count owner m.world.store)

  unfoldable pub new_job : Submission → Job F D
  new_job s = record {
    id = s.job_id;
    solver_name = s.solver_name;
    status = queued;
    owner = s.owner;
    error = none;
    created_at = s.now;
    finished_at = none;
    result = none;
    artifacts = [];
    events = [];
    inputs = s.inputs;
    cache_key = s.cache_key;
    reused = 0;
    provenance = s.provenance;
    summary = none;
  }

  abbrev pub with_store : Manager F D → Memory F D → Manager F D
  with_store m store = record m { world = record (m.world) { store = store } }

  -- The live entry and the cancel event of a job that this process runs.
  unfoldable pub register : Submission → Memory F D → Manager F D → Manager F D
  unfolding new_job
  register s store m =
      if m.runs_locally
      then (record (with_store m store) {
        jobs = insert s.job_id (new_job s) m.jobs;
        cancels = insert s.job_id false m.cancels;
      })
      else with_store m store

  -- `submit`, up to the task that the in-process backend starts: the record is stored as `queued`,
  -- and the job is live and has an unset cancel event only where this process runs it.
  unfoldable pub submit :
      (D → Option (Series1DData F))
      → ListRef
      → Submission
      → Manager F D
      → Result SeriesError (Manager F D × JobRecord F D ListRef)
  unfolding to_record new_job register
  submit parse events s m = do
    let r = to_record events (new_job s)
    store ← put parse r m.world.store
    ok (register s store m, r)

  -- `_retire`: the outcome goes onto the job object, and its live entry is dropped.
  unfoldable pub retire :
      (D → Option (Series1DData F))
      → Job F D
      → JobRecord F D ListRef
      → Manager F D
      → Result SeriesError (Manager F D × Job F D)
  unfolding absorb
  retire parse j finished m = do
    absorbed ← absorb parse finished j
    ok (record m { jobs = delete j.id m.jobs }, absorbed)

  -- The body of the task of `InProcessBackend.start`: the run, with the record's own event list for
  -- a mirror, then `on_finish`.
  unfoldable pub attempt :
      (D → Option (Series1DData F))
      → Run F D
      → Job F D
      → JobRecord F D ListRef
      → Manager F D
      → Manager F D × Result SeriesError (Job F D)
  unfolding retire
  attempt parse run j r m =
      let mirrored = record run { mirror = some r.events } in
      elim (run_solve parse mirrored r m.world) [
        | err e ↦ (record m { world = raised_in parse mirrored r m.world }, err e)
        | ok (world, finished) ↦ elim (retire parse j finished (record m { world = world })) [
          | err e ↦ (record m { world = world }, err e)
          | ok (retired, outcome) ↦ (retired, ok outcome)
        ]
      ]

  -- The task, which forgets the cancel event in its `finally`.
  unfoldable pub drive :
      (D → Option (Series1DData F))
      → Run F D
      → Job F D
      → JobRecord F D ListRef
      → Manager F D
      → Manager F D × Result SeriesError (Job F D)
  unfolding attempt
  drive parse run j r m =
      let over = attempt parse run j r m in
      (record (over.0) { cancels = delete r.id over.0.cancels }, over.1)

  unfoldable pub cancel : Job F D → Manager F D → Manager F D × Bool
  unfolding set_cancel
  cancel j m =
      if is_terminal_status j.status
      then (m, false)
      else (record m { cancels = set_cancel j.id m.cancels }, true)
