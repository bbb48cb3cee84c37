-- ===== src/Execution.antt =====
-- server/fenixspoon/execution.py, with the two checks of solvers/base.py that it calls: one solve,
-- run to a terminal status over the memory store and the in-process bus.
-- What the solver thread did, and when its progress reached the event loop, are arguments.
pub mod Sink
pub mod Ready
pub mod Checks
pub mod Outcomes
pub mod Mirror
pub mod Totality
use fenix_spoon.Prelude.{
  ℕ, String, Bool, true, false, List, [], ◌∷◌, ◌++◌, map, Option, none, some, Result, ok, err,
  ◌>>=◌, if◌then◌else◌, string_eq, contains,
}
use fenix_spoon.Dict.{Dict, keys, lookup, insert}
use fenix_spoon.Series.{Series1DData, SeriesError}
use fenix_spoon.Store.{
  Status, queued, running, done, failed, cancelled, Event, ProgressEvent, Artifact, SolverResult,
  JobRecord,
}
use fenix_spoon.Store.Memory.{Memory, ListRef, append_at, add_event, put}
use fenix_spoon.Events.{Bus, publish}

-- `ConvergenceSpec.on_failure`
pub data OnFailure : Type 0 where
  fail return_iterate : OnFailure

-- The parts of a `MetricSpec` that name its recipe.
pub record MetricSpec : Type 0 where
  pub name : String
  pub field : Option String
  pub reduction : Option String

-- The declarations of a solver class that a run reads.
pub record SolverClass : Type 0 where
  pub convergence : Option OnFailure
  pub metrics : List MetricSpec

-- What `fields.reduce_field` answers: a number, one of the errors that are logged, or another error.
pub data Reduction (F : Type 0) : Type 0 where
  number : F → Reduction F
  not_supplied : Reduction F
  crashed : String → Reduction F

-- What waiting for the solver thread gives, and with what message.
pub data Outcome (F D : Type 0) : Type 0 where
  finished : SolverResult F D → List Artifact → Outcome F D
  timed_out : String → Outcome F D
  stopped : Outcome F D
  raised : String → Outcome F D

-- The shared state that a run writes.
pub record World (F D : Type 0) : Type 0 where
  pub store : Memory F D
  pub bus : Bus F

-- `result.converged is False`
unfoldable pub did_not_converge : Option Bool → Bool
did_not_converge (some false) = true
did_not_converge c = false

module _ {F D : Type 0} where
  -- `list.append` on the mirror, where there is one
  unfoldable pub mirror_event : Option ListRef → Event F → Memory F D → Memory F D
  mirror_event none e m = m
  mirror_event (some a) e m = record m { heap = append_at a e m.heap }

  -- `EventSink.emit`
  unfoldable pub emit : Option ListRef → String → Event F → World F D → World F D
  unfolding mirror_event
  emit mirror job_id e w =
      let (store, seq) = add_event job_id e (mirror_event mirror e w.store) in
      record { store = store; bus = publish job_id seq e w.bus }

  unfoldable pub emit_all : Option ListRef → String → List (Event F) → World F D → World F D
  emit_all mirror job_id [] w = w
  emit_all mirror job_id (e ∷ es) w = emit_all mirror job_id es (emit mirror job_id e w)

  -- A result that says nothing of convergence is taken to have converged.
  unfoldable pub presume_converged : SolverResult F D → SolverResult F D
  presume_converged res = elim res.converged [
    | none ↦ record res { converged = some true }
    | some c ↦ res
  ]

  -- The result as the check leaves it, and the message of `ConvergenceNotReached` if it raises.
  unfoldable pub check_declared_convergence :
      String → Option OnFailure → SolverResult F D → SolverResult F D × Option String
  unfolding presume_converged did_not_converge
  check_declared_convergence message none res =
      (res, if did_not_converge res.converged then some message else none)
  check_declared_convergence message (some fail) res =
      let presumed = presume_converged res in
      (presumed, if did_not_converge presumed.converged then some message else none)
  check_declared_convergence message (some return_iterate) res = (presume_converged res, none)

  add_metric : SolverResult F D → String → Reduction F → SolverResult F D × Option String
  add_metric res name (number x) = (record res { metrics = insert name x res.metrics }, none)
  add_metric res name not_supplied = (res, none)
  add_metric res name (crashed message) = (res, some message)

  -- `reduce` is `fields.reduce_field`: payload, kind, field, reduction.
  unfoldable pub fill_metric :
      (D → String → String → String → Reduction F)
      → MetricSpec
      → SolverResult F D
      → SolverResult F D × Option String
  unfolding add_metric
  fill_metric reduce spec res =
      if contains spec.name (keys res.metrics) then (res, none) else elim spec.field [
        | none ↦ (res, none)
        | some field ↦ elim spec.reduction [
          | none ↦ (res, none)
          | some reduction ↦ add_metric res spec.name (reduce res.payload res.kind field reduction)
        ]
      ]

  -- Each declared reduction that the adapter did not supply; an error ends the loop.
  unfoldable pub fill_declared_metrics :
      (D → String → String → String → Reduction F)
      → List MetricSpec
      → SolverResult F D
      → SolverResult F D × Option String
  unfolding fill_metric
  fill_declared_metrics reduce [] res = (res, none)
  fill_declared_metrics reduce (spec ∷ specs) res =
      let filled = fill_metric reduce spec res in
      let rest = fill_declared_metrics reduce specs filled.0 in
      elim filled.1 [ none ↦ rest | some message ↦ filled ]

-- What surrounds one run: the solver's declarations, the log mirror, the messages and times that
-- the run records, and what the solver thread did.
pub record Run (F D : Type 0) : Type 0 where
  pub solver : SolverClass
  pub reduce : D → String → String → String → Reduction F
  pub unconverged : String
  pub mirror : Option ListRef
  pub seconds : F
  pub now : ℕ
  pub ticks : List (ProgressEvent F)
  pub outcome : Outcome F D
  pub late : List (ProgressEvent F)

abbrev pub ticks_of : {F : Type 0} → List (ProgressEvent F) → List (Event F)
ticks_of = map Event.progress

module _ {F D : Type 0} where
  abbrev failed_with :
      JobRecord F D ListRef → Option (SolverResult F D) → String → JobRecord F D ListRef
  failed_with r res message = record r { status = failed; error = some message; result = res }

  -- After the convergence check and the metrics.
  accept :
      Run F D
      → JobRecord F D ListRef
      → List Artifact
      → SolverResult F D × Option String
      → JobRecord F D ListRef
  accept run r artifacts (res, some message) = failed_with r (some res) message
  accept run r artifacts (res, none) = record r {
    status = done;
    result = some res;
    artifacts = artifacts;
  }

  measure :
      Run F D
      → JobRecord F D ListRef
      → List Artifact
      → SolverResult F D × Option String
      → JobRecord F D ListRef
  unfolding accept
  measure run r artifacts (res, some message) = failed_with r (some res) message
  measure run r artifacts (res, none) =
      accept run r artifacts (fill_declared_metrics run.reduce run.solver.metrics res)

  -- The `try` statement: what the outcome makes of the record.
  unfoldable pub settle : Run F D → JobRecord F D ListRef → Outcome F D → JobRecord F D ListRef
  unfolding measure
  settle run r (finished res artifacts) = measure run r artifacts (
      check_declared_convergence run.unconverged run.solver.convergence
        (record res { stats = insert "seconds" run.seconds res.stats }))
  settle run r (timed_out message) = record r { status = failed; error = some message }
  settle run r stopped = record r { status = cancelled }
  settle run r (raised message) = record r { status = failed; error = some message }

  abbrev pub started : JobRecord F D ListRef → JobRecord F D ListRef
  started r = record r { status = running }

  abbrev pub ended : Run F D → JobRecord F D ListRef → JobRecord F D ListRef
  ended run r = record (settle run (started r) run.outcome) { finished_at = some run.now }

  unfoldable pub run_solve :
      (D → Option (Series1DData F))
      → Run F D
      → JobRecord F D ListRef
      → World F D
      → Result SeriesError (World F D × JobRecord F D ListRef)
  run_solve parse run r w = do
    opened ← put parse (started r) w.store
    let begun = emit run.mirror r.id (Event.status running) (record w { store = opened })
    let solved = emit_all run.mirror r.id (ticks_of run.ticks) begun
    closed ← put parse (ended run r) solved.store
    let drained = emit_all run.mirror r.id (ticks_of run.late) (record solved { store = closed })
    let final = ended run r
    ok (emit run.mirror r.id (Event.status_error final.status final.error) drained, final)

  -- The world that a run leaves when it raises: at the first write, or at the last.
  unfoldable pub raised_in :
      (D → Option (Series1DData F)) → Run F D → JobRecord F D ListRef → World F D → World F D
  raised_in parse run r w = elim (put parse (started r) w.store) [
    | err e ↦ w
    | ok opened ↦
        let begun = emit run.mirror r.id (Event.status running) (record w { store = opened }) in
        emit_all run.mirror r.id (ticks_of run.ticks) begun
  ]
