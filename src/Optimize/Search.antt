-- ===== src/Optimize/Search.antt =====
-- The two loops of server/fenixspoon/core/service.py over a search: `_search`, which submits, and
-- `optimization_report`, which replays. `S` is the service's state; `submit` is a submission at an
-- iteration's point, followed to its end by `_settled`, or the message of the `CoreError` that
-- refuses it; an error of another kind ends the task, and is not modelled.
pub mod Bounds
use fenix_spoon.Prelude.{
  ◌≡◌, ℕ, zero, suc, ◌+◌, String, Bool, true, false, not, ◌&&◌, ◌||◌, List, [], ◌∷◌, ◌++◌, map,
  Option, none, some, Eq, ◌==◌, nat_eq, string_eq, if◌then◌else◌, ltb, leb, length, Result, ok, err,
}
use fenix_spoon.Dict.{Dict, lookup}
use fenix_spoon.Numbers.{Order, Arithmetic}
use fenix_spoon.Store.{Status, done, ResultSummary}
use fenix_spoon.Studies.Curves.{RowStatus, of_job, refused}
use fenix_spoon.Jobs.{Job}
use fenix_spoon.Optimize.{
  OptimizationBody, Objective, Goal, Evaluation, as_minimum, message_or, next_point,
}

pub data Stop : Type 0 where
  converged budget stalled incomplete not_run : Stop

-- how far a search has got: its rows, and the objectives that they have
pub record Progress (F : Type 0) : Type 0 where
  pub evaluations : List (Evaluation F)
  pub answered : List F

-- `_SearchStop`
pub record SearchStop (F : Type 0) : Type 0 where
  pub answered : ℕ
  pub reason : Stop
  pub refusal : Option (Evaluation F)

pub record Searched (F : Type 0) : Type 0 where
  pub progress : Progress F
  pub stopped : Stop
  pub refusal : Option (Evaluation F)

-- One round of a loop ends it, or leaves it further on.
pub data Turn (F : Type 0) : Type 0 where
  over : Searched F → Turn F
  further : Progress F → Turn F

unfoldable pub blank : {F : Type 0} → Progress F
blank = record { evaluations = []; answered = [] }

unfoldable pub is_done : Status → Bool
is_done done = true
is_done s = false

-- `(job.summary.metrics if job.summary else {}).get(name)`
unfoldable pub reported : {F : Type 0} → String → Option (ResultSummary F) → Option F
reported name none = none
reported name (some s) = lookup name s.metrics

unfoldable pub with_row : {F : Type 0} → Progress F → Evaluation F → Progress F
with_row p e = record p { evaluations = p.evaluations ++ e ∷ [] }

-- A row with no objective ends the search, and another row's is the next answer.
unfoldable pub grade : {F : Type 0} → Progress F → Evaluation F → Option F → Turn F
unfolding with_row
grade p e none = over (record { progress = with_row p e; stopped = stalled; refusal = none })
grade p e (some v) = further (record (with_row p e) { answered = p.answered ++ v ∷ [] })

unfoldable pub ended : {F : Type 0} → Progress F → Stop → Turn F
ended p stopped = over (record { progress = p; stopped = stopped; refusal = none })

unfoldable pub refused_row : {F : Type 0} → ℕ → F → String → Evaluation F
refused_row iteration point message = record {
  iteration = iteration;
  value = point;
  job_id = none;
  status = refused;
  cached = false;
  metric = none;
  objective = none;
  error = some message;
}

-- the rounds of a loop, `turn` by `turn`
unfoldable pub loop :
    {F S : Type 0} → (S → Progress F → Turn F × S) → ℕ → S → Progress F → Option (Searched F × S)
loop turn zero s p = none
loop turn (suc fuel) s p =
    let (round, t) = turn s p in
    elim round [ over found ↦ some (found, t) | further q ↦ loop turn fuel t q ]

-- why a job that is done has no answer, where it has none
unfoldable pub silence :
    {F : Type 0} → (String → String) → String → Option F → Status → Option String
unfolding is_done
silence unreported name (some metric) status = none
silence unreported name none status = if is_done status then some (unreported name) else none

module _ {F : Type 0} (op : Arithmetic F) (square : F → F) where
  unfoldable pub objective_of : Goal F → Option F → Option F
  objective_of goal none = none
  objective_of goal (some metric) = some (as_minimum op square goal metric)

  module _ (unreported : String → String) {D : Type 0} where
    -- `_evaluation`, of a job
    unfoldable pub evaluation : Objective F → ℕ → F → Job F D → Evaluation F
    unfolding silence objective_of reported message_or
    evaluation o iteration point j =
        let metric = reported o.metric j.summary in
        record {
          iteration = iteration;
          value = point;
          job_id = some j.id;
          status = of_job j.status;
          cached = ltb 0 j.reused;
          metric = metric;
          objective = objective_of o.goal metric;
          error = message_or j.error (silence unreported o.metric metric j.status);
        }

    -- the end of a round whose point a job answers
    unfoldable pub answered_by : Objective F → Progress F → F → Job F D → Turn F
    unfolding evaluation grade
    answered_by o p point j =
        let e = evaluation o (length p.evaluations) point j in grade p e e.objective

-- Where no job and no memory says why the rows end here.
unfoldable pub untold : {F : Type 0} → Progress F → Turn F
unfolding ended
untold p = elim p.evaluations [ [] ↦ ended p not_run | e ∷ es ↦ ended p incomplete ]

-- where the last search ended at the same point
unfoldable pub told : {F : Type 0} → Progress F → Stop → Option (Evaluation F) → Turn F
unfolding ended with_row
told p reason none = ended p reason
told p reason (some row) =
    over (record { progress = with_row p row; stopped = reason; refusal = some row })

module _ {F : Type 0} (op : Arithmetic F) ⦃o : Order F⦄ (invphi : F)
    (body : OptimizationBody F) where
  abbrev pub looks : Progress F → Option F
  looks p = next_point op invphi body.lower body.upper body.tolerance p.answered

  module _ (square : F → F) (unreported : String → String) {D : Type 0} where
    -- a round of `_search` where its submission is refused, or followed to its end
    unfoldable pub submitted : Progress F → F → Result String (Job F D) → Turn F
    unfolding answered_by refused_row with_row
    submitted p point (ok j) = answered_by op square unreported body.objective p point j
    submitted p point (err message) =
        let row = refused_row (length p.evaluations) point message in
        over (record { progress = with_row p row; stopped = stalled; refusal = some row })

    -- a round of `_search`
    unfoldable pub search_turn :
        {S : Type 0} → (S → ℕ → F → Result String (Job F D) × S) → S → Progress F → Turn F × S
    unfolding ended submitted
    search_turn submit s p = elim (looks p) [
      | none ↦ (ended p converged, s)
      | some point ↦
          if leb body.max_evaluations (length p.evaluations)
          then (ended p budget, s)
          else (let (answer, t) = submit s (length p.evaluations) point in
              (submitted p point answer, t))
    ]

    -- The job of a point by its content address, or else the one recorded for the iteration.
    unfoldable pub job_of : (F → Option (Job F D)) → Dict ℕ (Job F D) → ℕ → F → Option (Job F D)
    job_of by_key by_input iteration point = elim (by_key point) [
      | none ↦ lookup iteration by_input
      | some j ↦ some j
    ]

    -- a round of `optimization_report` where its point has a job, or has none
    unfoldable pub replayed : Option (SearchStop F) → Progress F → F → Option (Job F D) → Turn F
    unfolding answered_by untold told
    replayed memory p point (some j) = answered_by op square unreported body.objective p point j
    replayed none p point none = untold p
    replayed (some m) p point none =
        if m.answered == length p.answered then told p m.reason m.refusal else untold p

    -- a round of `optimization_report`
    unfoldable pub report_turn :
        Option (SearchStop F) → (ℕ → F → Option (Job F D)) → Progress F → Turn F
    unfolding ended replayed
    report_turn memory find p = elim (looks p) [
      | none ↦ ended p converged
      | some point ↦
          if leb body.max_evaluations (length p.evaluations)
          then ended p budget
          else replayed memory p point (find (length p.evaluations) point)
    ]

    -- `_search`, with `fuel` rounds to spend, and the stop that it remembers
    unfoldable pub search :
        {S : Type 0} → (S → ℕ → F → Result String (Job F D) × S) → ℕ → S → Option (Searched F × S)
    unfolding loop search_turn blank
    search submit fuel s = loop (search_turn submit) fuel s blank

    -- the loop of `optimization_report`
    unfoldable pub report :
        Option (SearchStop F) → (ℕ → F → Option (Job F D)) → ℕ → Option (Searched F × Unit {0})
    unfolding loop report_turn blank
    report memory find fuel = loop (λ s p. (report_turn memory find p, tt)) fuel tt blank

unfoldable pub remembered : {F : Type 0} → Searched F → SearchStop F
remembered r = record {
  answered = length r.progress.answered;
  reason = r.stopped;
  refusal = r.refusal;
}
