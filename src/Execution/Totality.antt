-- ===== src/Execution/Totality.antt =====
-- When a run returns, and when the final write raises.
use fenix_spoon.Prelude.{
  subst, ◌≡◌, refl, sym, ◌∙◌, Option, none, some, Result, ok, err, List, inl, inr, Option-cases,
  arith, string_eq,
}
use fenix_spoon.Dict.{insert}
use fenix_spoon.Series.{Series1DData, SeriesError, curves_of}
use fenix_spoon.Store.{SolverResult, JobRecord, Artifact, ResultSummary, summary_of, summarize}
use fenix_spoon.Store.Memory.{Memory, ListRef, put}
use fenix_spoon.Execution.{
  World, Run, Outcome, finished, timed_out, stopped, raised, started, ended, settle, measure,
  accept, run_solve, fill_declared_metrics,
}
use fenix_spoon.Execution.Checks.{check-same_payload, fill-SameAnswer, checked}

module _ {F D : Type 0} where
  -- The same kind, payload and curves.
  abbrev SameCurves : SolverResult F D → SolverResult F D → Type 0
  SameCurves a b = (a.kind ≡ b.kind) × (a.payload ≡ b.payload) × (a.series ≡ b.series)

  -- A finished solve leaves its result on the record, also where a check refuses it.
  settle_finished :
      (run : Run F D) (r : JobRecord F D ListRef) (raw : SolverResult F D)
      (artifacts : List Artifact)
      → (res : SolverResult F D) × ((settle run r (finished raw artifacts)).result ≡ some res)
        × SameCurves res raw
  unfolding settle measure accept
  settle_finished run r raw artifacts =
      let out = checked run raw in
      let input = record raw { stats = insert "seconds" run.seconds raw.stats } in
      let (kind, payload, series, _) =
        check-same_payload run.unconverged run.solver.convergence input in
      let same = fill-SameAnswer run.reduce run.solver.metrics out.0 in
      let filled = fill_declared_metrics run.reduce run.solver.metrics out.0 in
      elim (Option-cases out.1) [
        | inr (m, refused) ↦ (out.0, ground (arith, refused), (kind, payload, series))
        | inl clean ↦ (
          filled.0,
          elim (Option-cases filled.1) [
            | inr (m, crash) ↦ ground (arith, clean, crash)
            | inl full ↦ ground (arith, clean, full)
          ],
          (same.kind ∙ kind, same.payload ∙ payload, same.series ∙ series),
        )
      ]

  module _ (parse : D → Option (Series1DData F)) where
    -- The write of a record whose result has the curves of `raw`.
    abbrev reading : SolverResult F D → Result SeriesError (List (Series1DData F))
    reading raw = curves_of parse raw.kind raw.payload raw.series

    put_returns :
        (r : JobRecord F D ListRef) (m : Memory F D) {s : Option (ResultSummary F)}
        → summarize parse r ≡ ok s
        → (m' : Memory F D) × (put parse r m ≡ ok m')
    unfolding put
    put_returns r m h = rw h (_, refl)

    put_raises :
        (r : JobRecord F D ListRef) (m : Memory F D) {e : SeriesError}
        → summarize parse r ≡ err e
        → put parse r m ≡ err e
    unfolding put
    put_raises r m h = rw h

    without_result :
        (r : JobRecord F D ListRef) → r.result ≡ none → summarize parse r ≡ ok r.summary
    unfolding summarize
    without_result r h = ground arith

    with_result :
        (r : JobRecord F D ListRef) (res raw : SolverResult F D) (cs : List (Series1DData F))
        → r.result ≡ some res
        → SameCurves res raw
        → reading raw ≡ ok cs
        → (s : Option (ResultSummary F)) × (summarize parse r ≡ ok s)
    unfolding summarize summary_of
    with_result r res raw cs h same e = (
      some (record {
        kind = res.kind;
        stats = res.stats;
        metrics = res.metrics;
        converged = res.converged;
        residual = res.residual;
        iterations = res.iterations;
        warnings = res.warnings;
        series = cs;
      }),
      ground arith,
    )

    with_bad_result :
        (r : JobRecord F D ListRef) (res raw : SolverResult F D) (e : SeriesError)
        → r.result ≡ some res
        → SameCurves res raw
        → reading raw ≡ err e
        → summarize parse r ≡ err e
    unfolding summarize summary_of
    with_bad_result r res raw e h same bad = ground arith

    -- The result of the record that a run ends with can be summarised.
    ended_summary :
        (run : Run F D) (r : JobRecord F D ListRef) (o : Outcome F D)
        → r.result ≡ none
        → ((raw : SolverResult F D) (artifacts : List Artifact)
            → o ≡ finished raw artifacts
            → (cs : List (Series1DData F)) × (reading raw ≡ ok cs))
        → (s : Option (ResultSummary F)) × (summarize parse
              (record (settle run r o) { finished_at = some run.now })
            ≡ ok s)
    ended_summary run r (finished raw artifacts) h readable =
        let (cs, e) = readable raw artifacts refl in
        let (res, at, same) = settle_finished run r raw artifacts in
        with_result (record (settle run r (finished raw artifacts)) { finished_at = some run.now })
          res raw cs at same e
    ended_summary run r (timed_out m) h readable =
        (r.summary, unfold settle summarize in (ground arith))
    ended_summary run r stopped h readable = (r.summary, unfold settle summarize in (ground arith))
    ended_summary run r (raised m) h readable =
        (r.summary, unfold settle summarize in (ground arith))

    -- A run of a job that has no result yet always returns, however the solve ended, as long as the
    -- curves of a returned result can be read.
    pub run_solve_returns :
        (run : Run F D) (r : JobRecord F D ListRef) (w : World F D)
        → r.result ≡ none
        → ((raw : SolverResult F D) (artifacts : List Artifact)
            → run.outcome ≡ finished raw artifacts
            → (cs : List (Series1DData F)) × (curves_of parse raw.kind raw.payload raw.series
                ≡ ok cs))
        → (w' : World F D) × (run_solve parse run r w ≡ ok (w', ended run r))
    unfolding run_solve
    run_solve_returns run r w h readable =
        let (m₁, e₁) = put_returns (started r) w.store (without_result (started r) h) in
        let (s, e) = ended_summary run (started r) run.outcome h readable in
        rw e₁ (rw (put_returns (ended run r) _ e).1 (_, refl))

    -- A solver that returns a `series1d` payload which is no curve makes the run itself raise.
    pub run_solve_raises :
        (run : Run F D) (r : JobRecord F D ListRef) (w : World F D) (raw : SolverResult F D)
        (artifacts : List Artifact) (e : SeriesError)
        → r.result ≡ none
        → run.outcome ≡ finished raw artifacts
        → curves_of parse raw.kind raw.payload raw.series ≡ err e
        → run_solve parse run r w ≡ err e
    unfolding run_solve
    run_solve_raises run r w raw artifacts e h outcome bad =
        let (m₁, e₁) = put_returns (started r) w.store (without_result (started r) h) in
        let (res, at, same) = settle_finished run (started r) raw artifacts in
        let there = subst (λ o. (settle run (started r) o).result ≡ some res) (sym outcome) at in
        rw (e₁, put_raises (ended run r) _ (with_bad_result (ended run r) res raw e there same bad))
