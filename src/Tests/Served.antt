-- ===== src/Tests/Served.antt =====
-- A service with one solver and an empty store, and what the theorems on it say.
use fenix_spoon.Prelude.{
  ◌≡◌, refl, inl, inr, ℕ, zero, suc, String, true, false, List, [], ◌∷◌, Option, none, some, ok,
  arith, nat_eq, string_eq, contains,
}
use fenix_spoon.Dict.{Dict, lookup, insert}
use fenix_spoon.Series.{Series1DData, curves_of}
use fenix_spoon.Conditions.{check_conditions}
use fenix_spoon.Store.{
  is_active, is_reusable, Event, JobRecord, SolverResult, ResultSummary, done, running, summarize,
  summary_of, is_terminal_status,
}
use fenix_spoon.Store.Memory.{mark_reused, Memory, ListRef, put, read, stored_or}
use fenix_spoon.Store.Memory
use fenix_spoon.Store.Memory.Queries.{
  has_key, newest, usage, find_cached, cached_record, pick_newest, serves,
}
use fenix_spoon.Jobs.{
  with_store, Job, Manager, new_job, register, to_record, from_record, find_job, scoped,
}
use fenix_spoon.Jobs
use fenix_spoon.Jobs.Subscribe.{is_terminal}
use fenix_spoon.Identity.{Principal, check_quotas, is_spent}
use fenix_spoon.Service.{
  reuse, Setting, Solver, Request, Checked, check_request, submit, capability, validate_params,
  check_cells, cache_key_for, reusable, answer, submit_new, submission, quota_usage,
}
use fenix_spoon.Service.Cache.{submit-submit}
use fenix_spoon.Service.Limits.{WithinQuotas, submit-WithinQuotas}
use fenix_spoon.Service.Paging.{job_events, read_all, read_all-job_events}
use fenix_spoon.Service.Reads.{
  ResultView, result, result_levels, job_of, check_levels, succeeded, payload_for, payload_of,
  build,
}
use fenix_spoon.Service.Reads.Levels.{result_levels-result}
use fenix_spoon.Service.Study.{
  StudyRun, Submissions, AddsUp, run_study, run_each, counted, run_study-AddsUp,
}

abbrev heat : Solver ℕ ℕ ℕ
heat = record {
  name = "mock.heat2d";
  version = "1";
  requires = [];
  deterministic = true;
  geometry_types = "rectangle" ∷ [];
  parameters = "n" ∷ [];
  metrics = [];
  condition_keys = [];
  validate = λ n. some n;
  estimate_cells = λ g n. some n;
}

abbrev no_curve : ℕ → Option (Series1DData ℕ)
no_curve raw = none

abbrev setting : Setting ℕ ℕ ℕ ℕ ℕ ℕ ℕ
setting = record {
  solvers = ("mock.heat2d", heat) ∷ [];
  geometry_type = λ g. "rectangle";
  boundaries = λ g. [];
  is_empty = λ l. true;
  validate_conditions = λ l. none;
  parse = no_curve;
  digest = λ c. "k";
  fingerprint = λ names. [];
  cache = true;
  max_cells = 100;
}

abbrev ada : Principal
ada = record {
  id = "ada";
  quotas = record { concurrent_jobs = 1; jobs_per_hour = 2; artifact_bytes = 0; objects = 0 };
}

abbrev request_of : String → ListRef → ℕ → Request ℕ ℕ ℕ
request_of id address n = record {
  solver = "mock.heat2d";
  geometry = 0;
  params = n;
  inputs = [];
  conditions = 0;
  job_id = id;
  events = address;
  now = 7;
  hour_ago = 3;
}

abbrev empty_manager : Manager ℕ ℕ
empty_manager = record {
  jobs = [];
  world = record { store = record { records = []; heap = λ a. [] }; bus = [] };
  runs_locally = true;
  cancels = [];
  job_ttl = 0;
}

abbrev checked : ℕ → Checked ℕ ℕ ℕ ℕ
checked n = record {
  solver = heat;
  params = n;
  conditions = [];
  cache_key = some "k";
  provenance = record { solver_version = "1"; environment = [] };
}

checks : check_request setting (request_of "j-1" 0 9) ≡ ok (checked 9)
unfolding check_request capability validate_params check_cells cache_key_for check_conditions lookup
    contains
checks = refl

checks_again : check_request setting (request_of "j-2" 1 9) ≡ ok (checked 9)
unfolding check_request capability validate_params check_cells cache_key_for check_conditions lookup
    contains
checks_again = refl

abbrev first_request : Request ℕ ℕ ℕ
first_request = request_of "j-1" 0 9

abbrev first_submission : Jobs.Submission
first_submission = submission setting first_request ada (checked 9)

abbrev stored_store : Memory ℕ ℕ
stored_store = record {
  records = ("j-1", to_record 0 (new_job first_submission)) ∷ [];
  heap = λ a. [];
}

abbrev after : Manager ℕ ℕ
after = register first_submission stored_store empty_manager

accepted : submit setting first_request ada empty_manager ≡ ok (after, new_job first_submission)
unfolding submit check_request capability validate_params check_cells cache_key_for check_conditions
    lookup contains reusable find_cached cached_record pick_newest serves answer submit_new
    check_quotas is_spent quota_usage usage Jobs.submit put summarize stored_or insert register
    to_record new_job submission
accepted = refl

submit-submit_example :
    (m : Manager ℕ ℕ) × (j : Job ℕ ℕ) × (submit setting (request_of "j-2" 1 9) ada after
      ≡ ok (m, j))
    × (j.id ≡ "j-1")
    × (j.reused ≡ 1)
    × (m.jobs ≡ after.jobs)
    × (m.cancels ≡ after.cancels)
unfolding new_job submission lookup
submit-submit_example =
    submit-submit setting first_request (request_of "j-2" 1 9) ada ada empty_manager after
      (new_job first_submission) (checked 9) (checked 9) "k" (tt, tt) refl refl checks checks_again
      refl refl accepted

submit-WithinQuotas_example : WithinQuotas ada (usage "ada" 3 after.world.store)
unfolding usage lookup
submit-WithinQuotas_example =
    submit-WithinQuotas setting first_request ada empty_manager after (new_job first_submission)
      (tt, tt) refl (inr (omega arith), inr (omega arith), inl refl) accepted

-- a job that is done, in the store, with its log
abbrev answer_of : SolverResult ℕ ℕ
answer_of = record {
  kind = "scalar";
  payload = 4;
  stats = [];
  metrics = [];
  converged = none;
  residual = none;
  iterations = none;
  warnings = [];
  series = [];
}

abbrev done_record : JobRecord ℕ ℕ ListRef
done_record = record {
  id = "j-1";
  solver = "mock.heat2d";
  status = done;
  owner = "ada";
  error = none;
  created_at = 5;
  finished_at = some 6;
  result = some answer_of;
  artifacts = [];
  events = 0;
  summary = none;
  reused = 0;
  cache_key = some "k";
  inputs = [];
  provenance = none;
}

abbrev progress_log : List (Event ℕ)
progress_log = Event.status running ∷ Event.status running ∷ Event.status_error done none ∷ []

abbrev done_manager : Manager ℕ ℕ
done_manager = record empty_manager {
  world = record {
    store = record { records = ("j-1", done_record) ∷ []; heap = λ a. progress_log };
    bus = [];
  };
}

abbrev done_summary : ResultSummary ℕ
done_summary = record {
  kind = "scalar";
  stats = [];
  metrics = [];
  converged = none;
  residual = none;
  iterations = none;
  warnings = [];
  series = [];
}

abbrev done_job : Option (SolverResult ℕ ℕ) → Job ℕ ℕ
done_job loaded = record {
  id = "j-1";
  solver_name = "mock.heat2d";
  status = done;
  owner = "ada";
  error = none;
  created_at = 5;
  finished_at = some 6;
  result = loaded;
  artifacts = [];
  events = [];
  inputs = [];
  cache_key = some "k";
  reused = 0;
  provenance = none;
  summary = some done_summary;
}

abbrev done_row : JobRecord ℕ ℕ (List (Event ℕ))
done_row = record {
  id = "j-1";
  solver = "mock.heat2d";
  status = done;
  owner = "ada";
  error = none;
  created_at = 5;
  finished_at = some 6;
  result = none;
  artifacts = [];
  events = progress_log;
  summary = some done_summary;
  reused = 0;
  cache_key = some "k";
  inputs = [];
  provenance = none;
}

done_found : job_of no_curve "j-1" "ada" false done_manager ≡ ok (done_job none)
unfolding job_of Jobs.get find_job scoped Memory.get from_record summarize summary_of curves_of read
    lookup
done_found = refl

done_read : Memory.get no_curve "j-1" false true done_manager.world.store ≡ ok (some done_row)
unfolding Memory.get summarize summary_of curves_of read lookup
done_read = refl

read_all-job_events_example :
    read_all (λ since. job_events no_curve "j-1" "ada" since 2 done_manager) 3 0 ≡ ok progress_log
unfolding is_terminal is_terminal_status
read_all-job_events_example =
    read_all-job_events no_curve "j-1" "ada" 1 done_manager (done_job none) done_row done_found
      done_read (refl, (refl, refl))

abbrev path_in : String → String → String
path_in job name = name

abbrev two_levels : List String
two_levels = "metrics" ∷ "fields" ∷ []

levels_given :
    result_levels path_in no_curve "j-1" "ada" (some two_levels) done_manager
    ≡ ok (build path_in (done_job (some answer_of)) two_levels)
unfolding result_levels check_levels job_of Jobs.get find_job scoped Memory.get from_record
    summarize summary_of curves_of read lookup contains succeeded payload_for payload_of
levels_given = refl

result_levels-result_example :
    (view : ResultView ℕ ℕ) × (result path_in no_curve "j-1" "ada" done_manager ≡ ok view)
    × ((build path_in (done_job (some answer_of)) two_levels).fields
        ≡ some (record { kind = view.kind; payload = view.payload }))
unfolding lookup check_levels contains
result_levels-result_example =
    result_levels-result no_curve path_in "j-1" "ada" (some two_levels) two_levels done_manager
      (build path_in (done_job (some answer_of)) two_levels) refl refl refl levels_given

-- three variations: the first is solved, the second is answered by it, and the third is too large
abbrev requests : ℕ → Dict String ℕ → Request ℕ ℕ ℕ
requests zero v = request_of "j-1" 0 9
requests (suc zero) v = request_of "j-2" 1 9
requests (suc (suc index)) v = request_of "j-3" 2 900

abbrev three : List (Dict String ℕ)
three = [] ∷ [] ∷ [] ∷ []

abbrev one_of_each : StudyRun
one_of_each = record { jobs = "j-1" ∷ "j-1" ∷ []; submitted = 1; reused = 1; refusals = 1 }

abbrev reused_manager : Manager ℕ ℕ
reused_manager = with_store after (mark_reused "j-1" stored_store)

study_run : run_study setting ada requests three empty_manager ≡ ok (reused_manager, one_of_each)
unfolding run_study run_each counted submit check_request capability validate_params check_cells
    cache_key_for check_conditions lookup contains reusable find_cached cached_record pick_newest
    newest serves has_key is_reusable is_active answer submit_new check_quotas is_spent quota_usage
    usage Jobs.submit put summarize stored_or insert register to_record new_job submission reuse
    from_record Memory.get read mark_reused
study_run = refl

run_study-AddsUp_example :
    (given : List (Option (Job ℕ ℕ))) × Submissions setting ada requests 0 three empty_manager
      reused_manager given
    × AddsUp one_of_each given
run_study-AddsUp_example =
    run_study-AddsUp setting ada requests three empty_manager reused_manager one_of_each study_run
