-- ===== src/Tests/Stored.antt =====
-- A memory store with one running job, and what the theorems on stores and jobs say of it.
use fenix_spoon.Prelude.{
  ◌&&◌, ◌≢◌, ◌≡◌, refl, sym, ◌∙◌, ℕ, String, true, false, [], ◌∷◌, Option, none, some, ok, arith,
  ◌⊎◌, if◌then◌else◌, ◌==◌, string_eq, All, contains, ◌≤◌,
}
use text.Mathlib.TextEquality.{eq_iff}
use fenix_spoon.Dict.{insert, lookup}
use fenix_spoon.Series.{Series1DData}
use fenix_spoon.Store.{queued, running, failed, Event, JobRecord, summarize}
use fenix_spoon.Store.Memory.{Memory, ListRef, put, mark_reused, purge_before}
use fenix_spoon.Store.Memory.Columns.{put-mark_reused}
use fenix_spoon.Store.Memory.Queries.{cached_record, records_of}
use fenix_spoon.Store.Memory.Lookups.{IsIn, Serves, cached_record_newest, purge_before_exact}
use fenix_spoon.Store.Memory.Log.{log}
use fenix_spoon.Events.{Bus, subscribe, unsubscribe}
use fenix_spoon.Events.Delivery.{unsubscribe-subscribe, Unused, queues_of, NoEmptyEntry}
use fenix_spoon.Execution.{World}
use fenix_spoon.Execution.Ready.{Ready}
use fenix_spoon.Jobs.{Manager, Submission, Job, get, submit, new_job, to_record, register}
use fenix_spoon.Jobs.Lifecycle.{submit_queues}
use fenix_spoon.Jobs.Access.{get_scoped}

abbrev pub no_curve : ℕ → Option (Series1DData ℕ)
no_curve raw = none

abbrev pub one_job : JobRecord ℕ ℕ ListRef
one_job = record {
  id = "j-1";
  solver = "mock.heat2d";
  status = running;
  owner = "ada";
  error = none;
  created_at = 5;
  finished_at = none;
  result = none;
  artifacts = [];
  events = 0;
  summary = none;
  reused = 0;
  cache_key = some "k";
  inputs = [];
  provenance = none;
}

abbrev pub one_store : Memory ℕ ℕ
one_store = record { records = ("j-1", one_job) ∷ []; heap = λ a. [] }

abbrev pub one_world : World ℕ ℕ
one_world = record { store = one_store; bus = [] }

pub one_job_found :
    (j : String) (r : JobRecord ℕ ℕ ListRef)
    → lookup j one_store.records ≡ some r
    → (j ≡ "j-1") × (r ≡ one_job)
unfolding lookup
one_job_found j r h = ground (arith, eq_iff "j-1" j, h)

-- The state of the store is in order for a sink without a mirror.
pub one_world-Ready : Ready none "j-1" one_world []
unfolding lookup log
one_world-Ready = record {
  own = λ i j r s hi hj same. (one_job_found i r hi).0 ∙ sym (one_job_found j s hj).0;
  apart = tt;
  logged = refl;
}

abbrev ended_job : JobRecord ℕ ℕ ListRef
ended_job = record one_job { status = failed; finished_at = some 9; reused = 3; events = 8 }

abbrev ended_store : Memory ℕ ℕ
ended_store = record one_store {
  records = ("j-1", record ended_job { reused = 0; events = 0 }) ∷ [];
}

put-mark_reused_example :
    (new : JobRecord ℕ ℕ ListRef) × (lookup "j-1"
        (record one_store {
          records = ("j-1", record ended_job { reused = 1; events = 0 }) ∷ [];
        }).records
      ≡ some new)
    × (new.reused ≡ 1)
    × (new.status ≡ failed)
unfolding put lookup summarize insert mark_reused
put-mark_reused_example = put-mark_reused no_curve ended_job one_job one_store refl refl

cached_record_newest_example :
    ((cached_record "k" "ada" one_store ≡ none)
      × All (λ x. ¬ Serves "k" "ada" x) (records_of one_store))
    ⊎ ((r : JobRecord ℕ ℕ ListRef) × (cached_record "k" "ada" one_store ≡ some r)
        × IsIn r (records_of one_store)
        × Serves "k" "ada" r
        × All (λ x. (¬ Serves "k" "ada" x) ⊎ (x.created_at ≤ r.created_at)) (records_of one_store))
cached_record_newest_example = cached_record_newest "k" "ada" one_store

purge_before_exact_example :
    (lookup "j-1" (purge_before 6 one_store).0.records ≡ none)
    × (contains "j-1" (purge_before 6 one_store).1 ≡ true)
unfolding purge_before lookup contains
purge_before_exact_example = purge_before_exact 6 one_store "j-1" ((refl, tt), (refl, tt))

abbrev idle_bus : Bus ℕ
idle_bus = ("j-1", record { address = 3; waiting = (1, Event.status running) ∷ [] } ∷ []) ∷ []

idle_bus-NoEmptyEntry : NoEmptyEntry idle_bus
unfolding lookup
idle_bus-NoEmptyEntry j h = ground (arith, h)

idle_bus-Unused : Unused 7 (queues_of "j-1" idle_bus)
unfolding lookup
idle_bus-Unused = ((λ same. absurd (omega (arith, same))), tt)

unsubscribe-subscribe_example :
    lookup "j-1" (unsubscribe "j-1" 7 (subscribe "j-1" 7 idle_bus)) ≡ lookup "j-1" idle_bus
unsubscribe-subscribe_example =
    unsubscribe-subscribe "j-1" 7 idle_bus idle_bus-NoEmptyEntry idle_bus-Unused "j-1"

abbrev one_manager : Manager ℕ ℕ
one_manager = record {
  jobs = [];
  world = one_world;
  runs_locally = true;
  cancels = [];
  job_ttl = 0;
}

abbrev submission : Submission
submission = record {
  job_id = "j-2";
  solver_name = "mock.heat2d";
  owner = "bob";
  inputs = [];
  cache_key = none;
  provenance = none;
  now = 6;
}

abbrev submitted_job : Job ℕ ℕ
submitted_job = record {
  id = "j-2";
  solver_name = "mock.heat2d";
  status = queued;
  owner = "bob";
  error = none;
  created_at = 6;
  finished_at = none;
  result = none;
  artifacts = [];
  events = [];
  inputs = [];
  cache_key = none;
  reused = 0;
  provenance = none;
  summary = none;
}

abbrev bobs_manager : Manager ℕ ℕ
bobs_manager = record one_manager { jobs = ("j-2", submitted_job) ∷ [] }

get_scoped_example :
    ((submitted_job.owner ≡ "ada")
      × (get no_curve "j-2" (some "ada") false bobs_manager ≡ ok (some submitted_job)))
    ⊎ ((submitted_job.owner ≢ "ada")
        × (get no_curve "j-2" (some "ada") false bobs_manager
            ≡ get no_curve "j-2" (some "ada") false one_manager))
unfolding get lookup
get_scoped_example =
    get_scoped no_curve "j-2" "ada" false bobs_manager one_manager submitted_job refl refl refl

abbrev submitted_record : JobRecord ℕ ℕ ListRef
submitted_record = record (one_job) {
  id = "j-2";
  status = queued;
  owner = "bob";
  created_at = 6;
  events = 1;
  cache_key = none;
}

abbrev after_submission : Manager ℕ ℕ
after_submission = record {
  jobs = ("j-2", submitted_job) ∷ [];
  world = record one_world {
    store = record one_store { records = ("j-1", one_job) ∷ ("j-2", submitted_record) ∷ [] };
  };
  runs_locally = true;
  cancels = ("j-2", false) ∷ [];
  job_ttl = 0;
}

submit_queues_example :
    (stored : JobRecord ℕ ℕ ListRef) × (lookup "j-2" after_submission.world.store.records
      ≡ some stored)
    × (stored.status ≡ queued)
    × (stored.owner ≡ "bob")
    × (stored.cache_key ≡ none)
    × (stored.events ≡ 1)
    × ((j : String)
        → lookup j after_submission.jobs
          ≡ (if true && "j-2" == j then some submitted_job else lookup j one_manager.jobs))
    × ((j : String)
        → lookup j after_submission.cancels
          ≡ (if true && "j-2" == j then some false else lookup j one_manager.cancels))
    × ((j : String)
        → lookup j after_submission.world.store.records
          ≡ (if "j-2" == j then some stored else lookup j one_store.records))
unfolding submit lookup put summarize insert new_job to_record register
submit_queues_example = submit_queues no_curve 1 submission one_manager refl refl
