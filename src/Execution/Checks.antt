-- ===== src/Execution/Checks.antt =====
-- What the convergence check and the declared metrics do to a result.
use fenix_spoon.Prelude.{
  Bool, ◌⊎◌, subst, ◌≡◌, refl, sym, ◌∙◌, ◌≢◌, String, true, false, Option, none, some, List, [],
  ◌∷◌, inl, inr, Option-cases, Bool-cases, arith, string_eq, contains,
}
use text.Mathlib.TextEquality.{eq_iff}
use fenix_spoon.Dict.{keys, lookup, insert, lookup-insert, contains-keys_iff}
use fenix_spoon.Store.{done, SolverResult, JobRecord, Artifact}
use fenix_spoon.Store.Memory.{ListRef}
use fenix_spoon.Execution.{
  Run, Outcome, finished, timed_out, stopped, raised, OnFailure, fail, return_iterate, MetricSpec,
  Reduction, number, not_supplied, crashed, did_not_converge, presume_converged,
  check_declared_convergence, add_metric, fill_metric, fill_declared_metrics, settle, measure,
  accept,
}

-- What a declared policy lets through: `fail` converged results only, `return_iterate` those that
-- say whether they converged; undeclared, those that do not say that they failed to.
abbrev pub Allowed : Option OnFailure → Option Bool → Type 0
Allowed none converged = converged ≢ some false
Allowed (some fail) converged = converged ≡ some true
Allowed (some return_iterate) converged = converged ≢ none

module _ {F D : Type 0} where
  -- Two results with the same answer: everything but the metrics agrees.
  pub record SameAnswer (a b : SolverResult F D) : Type 0 where
    pub kind : a.kind ≡ b.kind
    pub payload : a.payload ≡ b.payload
    pub converged : a.converged ≡ b.converged
    pub series : a.series ≡ b.series

  SameAnswer-trans : {a b c : SolverResult F D} → SameAnswer a b → SameAnswer b c → SameAnswer a c
  SameAnswer-trans p q = record {
    kind = p.kind ∙ q.kind;
    payload = p.payload ∙ q.payload;
    converged = p.converged ∙ q.converged;
    series = p.series ∙ q.series;
  }

  -- A metric that the adapter supplied is never overwritten.
  abbrev pub KeepsMetrics : SolverResult F D → SolverResult F D → Type 0
  KeepsMetrics a b =
      (name : String) (x : F) → lookup name b.metrics ≡ some x → lookup name a.metrics ≡ some x

  module _ (reduce : D → String → String → String → Reduction F) where
    add_metric-SameAnswer :
        (res : SolverResult F D) (name : String) (red : Reduction F)
        → SameAnswer (add_metric res name red).0 res
    unfolding add_metric
    add_metric-SameAnswer res name (number x) = record {
      kind = refl;
      payload = refl;
      converged = refl;
      series = refl;
    }
    add_metric-SameAnswer res name not_supplied = record {
      kind = refl;
      payload = refl;
      converged = refl;
      series = refl;
    }
    add_metric-SameAnswer res name (crashed m) = record {
      kind = refl;
      payload = refl;
      converged = refl;
      series = refl;
    }

    fill_metric-SameAnswer :
        (spec : MetricSpec) (res : SolverResult F D)
        → SameAnswer (fill_metric reduce spec res).0 res
    unfolding fill_metric add_metric
    fill_metric-SameAnswer spec res = record {
      kind = ground arith;
      payload = ground arith;
      converged = ground arith;
      series = ground arith;
    }

    add_metric-KeepsMetrics :
        (res : SolverResult F D) (added : String) (red : Reduction F)
        → lookup added res.metrics ≡ none
        → KeepsMetrics (add_metric res added red).0 res
    unfolding add_metric
    add_metric-KeepsMetrics res added (number y) new name x h =
        ground (arith, lookup-insert added name y res.metrics, eq_iff added name)
    add_metric-KeepsMetrics res added not_supplied new name x h = h
    add_metric-KeepsMetrics res added (crashed m) new name x h = h

    fill_metric-KeepsMetrics :
        (spec : MetricSpec) (res : SolverResult F D)
        → KeepsMetrics (fill_metric reduce spec res).0 res
    unfolding fill_metric
    fill_metric-KeepsMetrics spec res name x h =
        elim (Bool-cases (contains spec.name (keys res.metrics))) [
          | inl supplied ↦ rw (supplied, fill_metric) h
          | inr new ↦
              let missing = (contains-keys_iff spec.name res.metrics).0 new in
              elim (Option-cases spec.field) [
                | inl no_field ↦ ground (arith, new, no_field)
                | inr (f, e) ↦ elim (Option-cases spec.reduction) [
                  | inl no_reduction ↦ ground (arith, new, e, no_reduction)
                  | inr (g, k) ↦ ground (
                    arith,
                    new,
                    e,
                    k,
                    add_metric-KeepsMetrics res spec.name (reduce res.payload res.kind f g) missing
                        name x h,
                  )
                ]
              ]
        ]

    pub fill-SameAnswer :
        (specs : List MetricSpec) (res : SolverResult F D)
        → SameAnswer (fill_declared_metrics reduce specs res).0 res
    unfolding fill_declared_metrics
    fill-SameAnswer [] res = record { kind = refl; payload = refl; converged = refl; series = refl }
    fill-SameAnswer (spec ∷ specs) res =
        let first = fill_metric reduce spec res in
        elim (Option-cases first.1) [
          | inl clean ↦
              rw (clean, fill_declared_metrics)
                (SameAnswer-trans (fill-SameAnswer specs first.0) (fill_metric-SameAnswer spec res))
          | inr (m, crash) ↦ rw (crash, fill_declared_metrics) (fill_metric-SameAnswer spec res)
        ]

    -- What the adapter reported is reported: the declared reductions only fill in what is missing.
    pub fill-KeepsMetrics :
        (specs : List MetricSpec) (res : SolverResult F D)
        → KeepsMetrics (fill_declared_metrics reduce specs res).0 res
    unfolding fill_declared_metrics
    fill-KeepsMetrics [] res name x h = h
    fill-KeepsMetrics (spec ∷ specs) res name x h =
        let first = fill_metric reduce spec res in
        let kept = fill_metric-KeepsMetrics spec res name x h in
        elim (Option-cases first.1) [
          | inl clean ↦
              rw (clean, fill_declared_metrics) (fill-KeepsMetrics specs first.0 name x kept)
          | inr (m, crash) ↦ rw (crash, fill_declared_metrics) kept
        ]

  -- The check changes nothing but `converged`.
  pub check-same_payload :
      (message : String) (policy : Option OnFailure) (res : SolverResult F D)
      → let checked = (check_declared_convergence message policy res).0 in
        (checked.kind ≡ res.kind)
        × (checked.payload ≡ res.payload)
        × (checked.series ≡ res.series)
        × (checked.metrics ≡ res.metrics)
  unfolding check_declared_convergence presume_converged
  check-same_payload message none res = (refl, refl, refl, refl)
  check-same_payload message (some fail) res = ground arith
  check-same_payload message (some return_iterate) res = ground arith

  pub check_passes :
      (message : String) (policy : Option OnFailure) (res : SolverResult F D)
      → (check_declared_convergence message policy res).1 ≡ none
      → let checked = (check_declared_convergence message policy res).0 in
        Allowed policy checked.converged
  unfolding check_declared_convergence presume_converged did_not_converge
  check_passes message none res h = λ failed. ground (arith, h, failed)
  check_passes message (some fail) res h = ground (arith, h)
  check_passes message (some return_iterate) res h = elim (Option-cases res.converged) [
    | inl silent ↦ λ e. ground (arith, silent, e)
    | inr (c, said) ↦ λ e. ground (arith, said, e)
  ]

  -- Every metric of `raw` is in `res`, with the same value.
  abbrev pub Kept : SolverResult F D → SolverResult F D → Type 0
  Kept res raw =
      (name : String)
      → (lookup name raw.metrics ≡ none) ⊎ (lookup name res.metrics ≡ lookup name raw.metrics)

  KeepsMetrics-Kept : (res raw : SolverResult F D) → KeepsMetrics res raw → Kept res raw
  KeepsMetrics-Kept res raw keeps name = elim (Option-cases (lookup name raw.metrics)) [
    | inl missing ↦ inl missing
    | inr (x, found) ↦ inr (keeps name x found ∙ sym found)
  ]

  -- The result that a finished solve leaves, and the message of the check that refused it, if any.
  abbrev pub checked : Run F D → SolverResult F D → SolverResult F D × Option String
  checked run raw =
      check_declared_convergence run.unconverged run.solver.convergence
        (record raw { stats = insert "seconds" run.seconds raw.stats })

  -- A job is done only if the solver returned a result, the declared policy on convergence lets that
  -- result through, and every metric that the adapter reported is reported.
  pub settle_done :
      (run : Run F D) (r : JobRecord F D ListRef) (o : Outcome F D)
      → (settle run r o).status ≡ done
      → (raw : SolverResult F D) × (artifacts : List Artifact) × (res : SolverResult F D) × (o
          ≡ finished raw artifacts)
        × ((settle run r o).result ≡ some res)
        × ((settle run r o).artifacts ≡ artifacts)
        × Allowed run.solver.convergence res.converged
        × (res.payload ≡ raw.payload)
        × Kept res raw
  unfolding settle measure accept
  settle_done run r (timed_out m) h = absurd (ground arith)
  settle_done run r stopped h = absurd (ground arith)
  settle_done run r (raised m) h = absurd (ground arith)
  settle_done run r (finished raw artifacts) h =
      let out = checked run raw in
      elim (Option-cases out.1) [
        | inr (m, refused) ↦ absurd (ground (arith, refused))
        | inl clean ↦
            let filled = fill_declared_metrics run.reduce run.solver.metrics out.0 in
            elim (Option-cases filled.1) [
              | inr (m, crash) ↦ absurd (ground (arith, clean, crash))
              | inl full ↦
                  let same = fill-SameAnswer run.reduce run.solver.metrics out.0 in
                  let input = record raw { stats = insert "seconds" run.seconds raw.stats } in
                  let (_, payload, _, metrics) =
                    check-same_payload run.unconverged run.solver.convergence input in
                  let passed = check_passes run.unconverged run.solver.convergence input clean in
                  (
                    raw,
                    artifacts,
                    filled.0,
                    refl,
                    ground (arith, clean, full),
                    ground (arith, clean, full),
                    subst (Allowed run.solver.convergence) (sym same.converged) passed,
                    same.payload ∙ payload,
                    KeepsMetrics-Kept filled.0 raw (λ name x found.
                        fill-KeepsMetrics run.reduce run.solver.metrics out.0 name x
                          (rw metrics found)),
                  )
            ]
      ]
