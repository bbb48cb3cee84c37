-- ===== src/Tests/Solved.antt =====
-- A solve of the stored job, to its end, and a subscriber that watches it.
use fenix_spoon.Prelude.{
  ◌⊎◌, ◌≡◌, refl, subst, ℕ, true, false, List, [], ◌∷◌, ◌++◌, none, some, Result, ok, err,
  string_eq, nat_eq, contains,
}
use fenix_spoon.Dict.{lookup}
use fenix_spoon.Series.{Series1DData, SeriesError, not_a_series, curves_of, model_validate}
use fenix_spoon.Store.{
  queued, running, done, Event, ProgressEvent, JobRecord, Artifact, SolverResult,
  is_terminal_status,
}
use fenix_spoon.Store.Memory.{ListRef}
use fenix_spoon.Store.Memory.Log.{log}
use fenix_spoon.Events.{Delivery, subscribe, waiting}
use fenix_spoon.Execution.{
  World, Run, fail, number, Outcome, finished, run_solve, settle, check_declared_convergence,
  fill_declared_metrics, emit_all, ended,
}
use fenix_spoon.Execution.Ready.{Ready}
use fenix_spoon.Execution.Checks.{Allowed, Kept, settle_done}
use fenix_spoon.Execution.Outcomes.{run_events, run_solve_log, run_solve_record}
use fenix_spoon.Execution.Totality.{run_solve_returns, run_solve_raises}
use fenix_spoon.Execution.Mirror.{Mirrored, run_solve_doubles}
use fenix_spoon.Execution.Sink.{twice}
use fenix_spoon.Jobs.{Manager, Job, drive}
use fenix_spoon.Jobs.Lifecycle.{drive_settles}
use fenix_spoon.Jobs.Subscribe.{stream}
use fenix_spoon.Jobs.Subscribe.Replay.{subscriber_sees_the_log, until_terminal}
use fenix_spoon.Tests.Stored.{no_curve, one_job, one_world, one_world-Ready}

abbrev answer : SolverResult ℕ ℕ
answer = record {
  kind = "grid2d";
  payload = 4;
  stats = [];
  metrics = ("t_max", 90) ∷ [];
  converged = some true;
  residual = none;
  iterations = some 12;
  warnings = [];
  series = [];
}

abbrev result_of : Outcome ℕ ℕ → SolverResult ℕ ℕ
result_of (finished raw artifacts) = raw
result_of o = answer

abbrev tick : ProgressEvent ℕ
tick = record { iteration = 1; total = some 2; residual = none; message = none }

-- A run that converges, with a metric that is declared and computed.
abbrev good_run : Run ℕ ℕ
good_run = record {
  solver = record {
    convergence = some fail;
    metrics = record { name = "t_mean"; field = some "t"; reduction = some "mean" } ∷ [];
  };
  reduce = λ payload kind field reduction. number 60;
  unconverged = "not converged";
  mirror = none;
  seconds = 3;
  now = 9;
  ticks = tick ∷ [];
  outcome = finished answer [];
  late = [];
}

-- The run's result has no curves to read.
readable :
    (raw : SolverResult ℕ ℕ) (artifacts : List Artifact)
    → finished answer [] ≡ finished raw artifacts
    → (cs : List (Series1DData ℕ)) × (curves_of no_curve raw.kind raw.payload raw.series ≡ ok cs)
readable raw artifacts same =
    subst
      (λ o.
        (cs : List (Series1DData ℕ)) × (curves_of no_curve (result_of o).kind (result_of o).payload
            (result_of o).series
          ≡ ok cs))
      same ([], unfold curves_of in refl)

run_solve_returns_example :
    (w : World ℕ ℕ) × (run_solve no_curve good_run one_job one_world
      ≡ ok (w, ended good_run one_job))
run_solve_returns_example = run_solve_returns no_curve good_run one_job one_world refl readable

settle_done_example :
    (raw : SolverResult ℕ ℕ) × (artifacts : List Artifact) × (res : SolverResult ℕ ℕ) × (finished
        answer []
      ≡ finished raw artifacts)
    × ((settle good_run one_job (finished answer [])).result ≡ some res)
    × ((settle good_run one_job (finished answer [])).artifacts ≡ artifacts)
    × Allowed (some fail) res.converged
    × (res.payload ≡ raw.payload)
    × Kept res raw
unfolding settle check_declared_convergence fill_declared_metrics contains
settle_done_example = settle_done good_run one_job (finished answer []) refl

-- the world that the run leaves
abbrev good_world : World ℕ ℕ
good_world = (run_solve_returns no_curve good_run one_job one_world refl readable).0

abbrev good_runs :
    run_solve no_curve good_run one_job one_world ≡ ok (good_world, ended good_run one_job)
good_runs = (run_solve_returns no_curve good_run one_job one_world refl readable).1

run_solve_log_example : Ready none "j-1" good_world ([] ++ run_events good_run one_job)
run_solve_log_example =
    run_solve_log no_curve good_run one_job one_world [] one_world-Ready good_runs

run_solve_record_example :
    (is_terminal_status (ended good_run one_job).status ≡ true)
    × ((ended good_run one_job).finished_at ≡ some 9)
    × (stored : JobRecord ℕ ℕ ListRef) × (lookup "j-1" good_world.store.records ≡ some stored)
    × (stored.status ≡ (ended good_run one_job).status)
    × (stored.error ≡ (ended good_run one_job).error)
    × (stored.finished_at ≡ (ended good_run one_job).finished_at)
    × (stored.result ≡ (ended good_run one_job).result)
run_solve_record_example = run_solve_record no_curve good_run one_job one_world good_runs

-- A solver that returns a payload of the kind `series1d` that is no curve.
abbrev bad_answer : SolverResult ℕ ℕ
bad_answer = record answer { kind = "series1d" }

abbrev bad_run : Run ℕ ℕ
bad_run = record good_run { outcome = finished bad_answer [] }

run_solve_raises_example : run_solve no_curve bad_run one_job one_world ≡ err not_a_series
unfolding curves_of model_validate
run_solve_raises_example =
    run_solve_raises no_curve bad_run one_job one_world bad_answer [] not_a_series refl refl refl

-- The job is its own record: the log that the sink mirrors into is the stored one.
one_world-Mirrored : Mirrored "j-1" 0 one_world []
unfolding lookup
one_world-Mirrored = record { stored = one_job; found = refl; address = refl; holds = refl }

abbrev mirrored_run : Run ℕ ℕ
mirrored_run = record good_run { mirror = some 0 }

abbrev mirrored_world : World ℕ ℕ
mirrored_world = (run_solve_returns no_curve mirrored_run one_job one_world refl readable).0

abbrev mirrored_runs :
    run_solve no_curve mirrored_run one_job one_world
    ≡ ok (mirrored_world, ended mirrored_run one_job)
mirrored_runs = (run_solve_returns no_curve mirrored_run one_job one_world refl readable).1

run_solve_doubles_example :
    Mirrored "j-1" 0 mirrored_world ([] ++ twice (run_events mirrored_run one_job))
run_solve_doubles_example =
    run_solve_doubles no_curve good_run one_job 0 one_world [] one_world-Mirrored mirrored_runs

abbrev solved_job : Job ℕ ℕ
solved_job = record {
  id = "j-1";
  solver_name = "mock.heat2d";
  status = queued;
  owner = "ada";
  error = none;
  created_at = 5;
  finished_at = none;
  result = none;
  artifacts = [];
  events = [];
  inputs = [];
  cache_key = some "k";
  reused = 0;
  provenance = none;
  summary = none;
}

abbrev solving : Manager ℕ ℕ
solving = record {
  jobs = ("j-1", solved_job) ∷ [];
  world = one_world;
  runs_locally = true;
  cancels = ("j-1", false) ∷ [];
  job_ttl = 0;
}

abbrev driven : Manager ℕ ℕ × Result SeriesError (Job ℕ ℕ)
driven = drive no_curve good_run solved_job one_job solving

drive_settles_example :
    (lookup "j-1" driven.0.cancels ≡ none)
    × (((j' : Job ℕ ℕ) × (driven.1 ≡ ok j')
          × (lookup "j-1" driven.0.jobs ≡ none)
          × (stored : JobRecord ℕ ℕ ListRef) × (lookup "j-1" driven.0.world.store.records
              ≡ some stored)
          × (is_terminal_status stored.status ≡ true)
          × (stored.finished_at ≡ some 9)
          × (j'.status ≡ stored.status)
          × (j'.error ≡ stored.error))
        ⊎ ((e : SeriesError) × (driven.1 ≡ err e)
            × (run_solve no_curve (record good_run { mirror = some 0 }) one_job one_world ≡ err e)
            × (driven.0.jobs ≡ solving.jobs)))
drive_settles_example = drive_settles no_curve good_run solved_job one_job solving refl

-- The run's first events, a subscriber after the first of them, its read after the second.
abbrev before : List (Event ℕ)
before = []

abbrev between : List (Event ℕ)
between = Event.status running ∷ Event.progress tick ∷ []

abbrev after : List (Event ℕ)
after = Event.progress tick ∷ Event.status_error done none ∷ []

abbrev watched : World ℕ ℕ
watched = emit_all none "j-1" between (record one_world { bus = subscribe "j-1" 7 one_world.bus })

abbrev watched_on : World ℕ ℕ
watched_on = emit_all none "j-1" after watched

subscriber_sees_the_log_example :
    (history : List (Event ℕ)) × (live : List (Delivery ℕ)) × (whole : List (Event ℕ)) × (log "j-1"
        watched.store
      ≡ some history)
    × (waiting "j-1" 7 watched_on.bus ≡ some live)
    × (log "j-1" watched_on.store ≡ some whole)
    × (whole ≡ before ++ (between ++ after))
    × (stream history live ≡ until_terminal whole)
unfolding lookup
subscriber_sees_the_log_example =
    subscriber_sees_the_log none "j-1" 7 one_world before between after one_world-Ready tt
