-- ===== src/Service/Study.antt =====
-- `run_study` and `study_report` of server/fenixspoon/core/service.py. `request` is the submission of
-- a variation: the design's parameters with the variation's over them, and its `inputs`.
pub mod Columns
use fenix_spoon.Prelude.{
  append_assoc, append-nil, sym, ◌==◌, nat_eq, All-always, All-map, ◌≡◌, refl, ap, subst, inl, inr,
  ℕ, suc, ◌+◌, String, Bool, true, false, List, [], ◌∷◌, ◌++◌, map, Option, none, some, Eq, Result,
  ok, err, ◌>>=◌, ok-injective, length, length-append, ltb, contains, keep, arith, Bool-cases,
  Result-cases, if◌then◌else◌, AllDistinct, All, string_eq,
}
use fenix_spoon.Dict.{Dict, lookup, insert, keys, keys-insert, All-insert}
use fenix_spoon.Numbers.{Order, Arithmetic}
use fenix_spoon.Service.Study.Columns.{tabulated_columns}
use fenix_spoon.Series.{Series1DData, SeriesError}
use fenix_spoon.Series.Limits.{IsCurve}
use fenix_spoon.Store.{is_terminal_status}
use fenix_spoon.Jobs.{Job, Manager}
use fenix_spoon.Identity.{Principal}
use fenix_spoon.Studies.{
  SweepBody, MeshConvergenceBody, Variation, all, sweep_variations, check_sweep,
}
use fenix_spoon.Studies.Convergence.{MetricConvergence, LadderError, convergence_of}
use fenix_spoon.Studies.Curves.{
  RowStatus, of_job, refused, VariationResult, StudyRung, SweepPoint, CurveError, response_curves,
}
use fenix_spoon.Studies.Curves.Legal.{line_names, response_curves-IsCurve}
use fenix_spoon.Service.{Setting, Request, CoreError, core, series, submit}
use fenix_spoon.Service.Reads.{metrics_of}

pub record StudyRun : Type 0 where
  pub jobs : List String
  pub submitted : ℕ
  pub reused : ℕ
  pub refusals : ℕ

abbrev pub nothing_run : StudyRun
nothing_run = record { jobs = []; submitted = 0; reused = 0; refusals = 0 }

-- how an accepted submission is counted
unfoldable pub counted : {F D : Type 0} → Job F D → StudyRun → StudyRun
counted j run =
    if ltb 0 j.reused
    then record run { jobs = run.jobs ++ j.id ∷ []; reused = run.reused + 1 }
    else (record run { jobs = run.jobs ++ j.id ∷ []; submitted = run.submitted + 1 })

-- an answer by a job that was there, by a new job, and by none
abbrev pub is_again : {F D : Type 0} → Option (Job F D) → Bool
is_again none = false
is_again (some j) = ltb 0 j.reused

abbrev pub is_new : {F D : Type 0} → Option (Job F D) → Bool
is_new none = false
is_new (some j) = j.reused == 0

abbrev pub is_refusal : {F D : Type 0} → Option (Job F D) → Bool
is_refusal none = true
is_refusal (some j) = false

abbrev pub ids : {F D : Type 0} → List (Option (Job F D)) → List String
ids [] = []
ids (none ∷ given) = ids given
ids (some j ∷ given) = j.id ∷ ids given

-- How one run follows from another by more answers: the ids of their jobs come after those that it
-- had listed, and each answer is counted as what it was.
abbrev AddsTo : {F D : Type 0} → StudyRun → List (Option (Job F D)) → StudyRun → Type 0
AddsTo run given run' =
    (run'.jobs ≡ run.jobs ++ ids given)
    × (run'.submitted ≡ run.submitted + length (keep is_new given))
    × (run'.reused ≡ run.reused + length (keep is_again given))
    × (run'.refusals ≡ run.refusals + length (keep is_refusal given))

-- The run lists the jobs of the answers, in order, and counts as submitted those that are new, as
-- reused those that had answered before, and as refused the answers without a job.
abbrev pub AddsUp : {F D : Type 0} → StudyRun → List (Option (Job F D)) → Type 0
AddsUp run given = AddsTo nothing_run given run

counted-AddsTo :
    {F D : Type 0} (j : Job F D) (run run' : StudyRun) (given : List (Option (Job F D)))
    → AddsTo (counted j run) given run'
    → AddsTo run (some j ∷ given) run'
unfolding counted
counted-AddsTo j run run' given adds =
    let one = append_assoc run.jobs (j.id ∷ []) (ids given) in
    elim (Bool-cases (ltb 0 j.reused)) [
      | inl again ↦ ground (arith, again, adds, one)
      | inr new ↦ ground (arith, new, adds, one)
    ]

refusal-AddsTo :
    {F D : Type 0} (run run' : StudyRun) (given : List (Option (Job F D)))
    → AddsTo (record run { refusals = run.refusals + 1 }) given run'
    → AddsTo run (none ∷ given) run'
refusal-AddsTo run run' given adds = ground (arith, adds)

module _ {F D G R P L V : Type 0} (env : Setting F D G R P L V) (p : Principal) where
  -- A `CoreError` is a refusal, and any other error ends the run.
  unfoldable pub run_each :
      (ℕ → Variation F → Request G R L)
      → ℕ
      → List (Variation F)
      → StudyRun
      → Manager F D
      → Result SeriesError (Manager F D × StudyRun)
  unfolding counted
  run_each request index [] run m = ok (m, run)
  run_each request index (v ∷ vs) run m = elim (submit env (request index v) p m) [
    | err (core e) ↦ run_each request (suc index) vs (record run { refusals = run.refusals + 1 }) m
    | err (series e) ↦ err e
    | ok a ↦ run_each request (suc index) vs (counted a.1 run) a.0
  ]

  -- `run_study`, over its variations
  unfoldable pub run_study :
      (ℕ → Variation F → Request G R L)
      → List (Variation F)
      → Manager F D
      → Result SeriesError (Manager F D × StudyRun)
  unfolding run_each
  run_study request variations m = run_each request 0 variations nothing_run m

  -- The variations one after another, from a number on, and what `submit` answered to each in the
  -- state that the ones before it had left.
  pub data Submissions (request : ℕ → Variation F → Request G R L)
      : ℕ → List (Variation F) → Manager F D → Manager F D → List (Option (Job F D)) → Type 0 where
    no_more : (index : ℕ) (m : Manager F D) → Submissions request index [] m m []
    answered :
        (index : ℕ) (v : Variation F) (vs : List (Variation F)) (m m₁ m' : Manager F D)
        (j : Job F D) (given : List (Option (Job F D)))
        → submit env (request index v) p m ≡ ok (m₁, j)
        → Submissions request (suc index) vs m₁ m' given
        → Submissions request index (v ∷ vs) m m' (some j ∷ given)
    rejected :
        (index : ℕ) (v : Variation F) (vs : List (Variation F)) (m m' : Manager F D) (e : CoreError)
        (given : List (Option (Job F D)))
        → submit env (request index v) p m ≡ err (core e)
        → Submissions request (suc index) vs m m' given
        → Submissions request index (v ∷ vs) m m' (none ∷ given)

  run_each-AddsTo :
      (request : ℕ → Variation F → Request G R L) (index : ℕ) (vs : List (Variation F))
      (run run' : StudyRun) (m m' : Manager F D)
      → run_each request index vs run m ≡ ok (m', run')
      → (given : List (Option (Job F D))) × Submissions request index vs m m' given
        × AddsTo run given run'
  unfolding run_each
  run_each-AddsTo request index [] run run' m m' h =
      let same = ok-injective h in
      (
        [],
        subst (λ n. Submissions request index [] m n []) (ap (λ x. x.0) same) (no_more index m),
        subst (AddsTo {F = F} {D = D} run []) (ap (λ x. x.1) same)
            (sym (append-nil run.jobs), omega arith, omega arith, omega arith),
      )
  run_each-AddsTo request index (v ∷ vs) run run' m m' h =
      elim (Result-cases (submit env (request index v) p m)) [
        | inl (core e, refusal) ↦
            let next = record run { refusals = run.refusals + 1 } in
            let (given, done, adds) =
              run_each-AddsTo request (suc index) vs next run' m m' (ground (arith, refusal, h)) in
            (
              none ∷ given,
              rejected index v vs m m' e given refusal done,
              refusal-AddsTo run run' given adds,
            )
        | inl (series e, refusal) ↦ absurd (ground (arith, refusal, h))
        | inr ((m₁, j), answer) ↦
            let (given, done, adds) =
              run_each-AddsTo request (suc index) vs (counted j run) run' m₁ m'
                (ground (arith, answer, h)) in
            (
              some j ∷ given,
              answered index v vs m m₁ m' j given answer done,
              counted-AddsTo j run run' given adds,
            )
      ]

  -- A run that ends has submitted every variation of the study, in order, each in the state that the
  -- ones before it left; it lists the jobs that answered, and counts as submitted the new ones, as
  -- reused those with a use counted already, and as refused the variations without a job.
  pub run_study-AddsUp :
      (request : ℕ → Variation F → Request G R L) (variations : List (Variation F))
      (m m' : Manager F D) (run : StudyRun)
      → run_study request variations m ≡ ok (m', run)
      → (given : List (Option (Job F D))) × Submissions request 0 variations m m' given
        × AddsUp run given
  unfolding run_study
  run_study-AddsUp request variations m m' run h =
      run_each-AddsTo request 0 variations nothing_run run m m' h

abbrev pub not_accepted : String
not_accepted = "this variation was not accepted; run the study to see why"

module _ {F D : Type 0} where
  -- `_variation_result`: the metrics of a row are those that are tabulated
  unfoldable pub variation_result : Option (Job F D) → List String → VariationResult F
  variation_result none tabulated = record {
    job_id = none;
    status = refused;
    cached = false;
    metrics = [];
    error = some not_accepted;
  }
  variation_result (some j) tabulated = record {
    job_id = some j.id;
    status = of_job j.status;
    cached = ltb 0 j.reused;
    metrics = keep (λ e. contains e.0 tabulated) (metrics_of j.summary);
    error = j.error;
  }

-- `status in (*TERMINAL, "refused")`
unfoldable pub is_settled : RowStatus → Bool
is_settled (of_job s) = is_terminal_status s
is_settled refused = true

pub record SweepReport (F : Type 0) : Type 0 where
  pub points : List (SweepPoint F)
  pub curves : List (Series1DData F)
  pub complete : Bool

pub record ConvergenceReport (F : Type 0) : Type 0 where
  pub rungs : List (StudyRung F)
  pub convergence : List (MetricConvergence F)
  pub complete : Bool

module _ {F D : Type 0} where
  -- the points of a sweep, each with the job that answers it
  unfoldable pub points_from :
      (ℕ → Variation F → Option (Job F D))
      → List String
      → ℕ
      → List (Variation F)
      → List (SweepPoint F)
  unfolding variation_result
  points_from find tabulated index [] = []
  points_from find tabulated index (v ∷ vs) =
      record { answer = variation_result (find index v) tabulated; values = v }
      ∷ points_from find tabulated (suc index) vs

  -- the rungs of a ladder
  unfoldable pub rungs_from :
      (ℕ → Variation F → Option (Job F D)) → List String → String → ℕ → List F → List (StudyRung F)
  unfolding variation_result
  rungs_from find tabulated parameter index [] = []
  rungs_from find tabulated parameter index (x ∷ xs) =
      record { answer = variation_result (find index ((parameter, x) ∷ [])) tabulated; value = x }
      ∷ rungs_from find tabulated parameter (suc index) xs

  -- `study_report` of a sweep
  unfoldable pub sweep_report :
      ⦃e : Eq F⦄
      → (String → Variation F → String)
      → (ℕ → Variation F → Option (Job F D))
      → SweepBody F
      → List String
      → Dict String String
      → Result CurveError (SweepReport F)
  unfolding points_from is_settled
  sweep_report trace_name find b tabulated units =
      let points = points_from find tabulated 0 (sweep_variations b) in
      response_curves trace_name b.axes points tabulated units >>= λ curves. ok (record {
        points = points;
        curves = curves;
        complete = all (λ q. is_settled q.answer.status) points;
      })

  -- `study_report` of a ladder
  unfoldable pub ladder_report :
      ⦃e : Eq F⦄ ⦃o : Order F⦄
      → Arithmetic F
      → (ℕ → Variation F → Option (Job F D))
      → MeshConvergenceBody F
      → List String
      → Result LadderError (ConvergenceReport F)
  unfolding rungs_from is_settled tabulated_columns
  ladder_report op find b tabulated =
      let rungs = rungs_from find tabulated b.parameter 0 b.values in
      let columns =
        tabulated_columns (λ name. map (λ r. lookup name r.answer.metrics) rungs) tabulated [] in
      convergence_of op b.values columns b.tolerance >>= λ convergence. ok (record {
        rungs = rungs;
        convergence = convergence;
        complete = all (λ r. is_settled r.answer.status) rungs;
      })

  values-points_from :
      (find : ℕ → Variation F → Option (Job F D)) (tabulated : List String) (index : ℕ)
      (vs : List (Variation F))
      → map (λ (q : SweepPoint F). q.values) (points_from find tabulated index vs) ≡ vs
  unfolding points_from
  values-points_from find tabulated index [] = refl
  values-points_from find tabulated index (v ∷ vs) =
      ap (λ l. v ∷ l) (values-points_from find tabulated (suc index) vs)

module _ {F D : Type 0} ⦃e : Eq F⦄ ⦃o : Order F⦄ where
  -- An accepted sweep can be reported at any time, whichever jobs have been found for it: where no
  -- two lines of a metric are printed with one name, the report raises nothing, it has one point
  -- for each variation, in order, and its curve sets pass the check of a curve set.
  pub sweep_report_total :
      (trace_name : String → Variation F → String) (find : ℕ → Variation F → Option (Job F D))
      (b : SweepBody F) (tabulated : List String) (units : Dict String String)
      → check_sweep b ≡ ok tt
      → ((metric : String) → AllDistinct (line_names trace_name metric b.axes))
      → (r : SweepReport F) × (sweep_report trace_name find b tabulated units ≡ ok r)
        × (map (λ (q : SweepPoint F). q.values) r.points ≡ sweep_variations b)
        × All IsCurve r.curves
  unfolding sweep_report
  sweep_report_total trace_name find b tabulated units accepted names =
      let points = points_from find tabulated 0 (sweep_variations b) in
      let rows = values-points_from find tabulated 0 (sweep_variations b) in
      let (curves, drawn, legal) =
        response_curves-IsCurve trace_name b points tabulated units accepted rows names in
      let report : SweepReport F = record {
        points = points;
        curves = curves;
        complete = all (λ (q : SweepPoint F). is_settled q.answer.status) points;
      } in
      (report, ground (arith, drawn), rows, legal)
