-- ===== src/Service/Reads/Levels.antt =====
-- What a selection of levels gives, and how it agrees with the whole result
-- (server/fenixspoon/core/service.py).
use fenix_spoon.Prelude.{
  ◌≡◌, sym, ap, ◌∙◌, subst, inl, inr, String, Bool, true, false, List, Option, none, some,
  string_eq, ok, >>=-eq-ok, ok-injective, contains, arith, Option-cases, Result-cases,
}
use fenix_spoon.Dict.{lookup}
use fenix_spoon.Series.{Series1DData, curves_of}
use fenix_spoon.Store.{Event, JobRecord, SolverResult, ResultSummary, summarize, summary_of}
use fenix_spoon.Store.Memory.{Memory, ListRef, read}
use fenix_spoon.Store.Memory
use fenix_spoon.Jobs.{Job, Manager, find_job, from_record, scoped}
use fenix_spoon.Jobs
use fenix_spoon.Service.Reads.{
  ResultView, LeveledResult, check_levels, handles, succeeded, payload_of, payload_for, fields_of,
  job_of, build, result, result_levels,
}

module _ {F D : Type 0} (parse : D → Option (Series1DData F)) where
  -- A job read from its record has the summary of the result that it has.
  from_record-summary :
      (r : JobRecord F D (List (Event F))) (j : Job F D) (res : SolverResult F D)
      → from_record parse r ≡ ok j
      → j.result ≡ some res
      → (s : ResultSummary F) × (j.summary ≡ some s) × (s.kind ≡ res.kind)
  unfolding from_record summarize summary_of
  from_record-summary r j res h has = elim (Option-cases r.result) [
    | inl blank ↦ ground (arith, h, has, blank)
    | inr (given, there) ↦
        elim (Result-cases (curves_of parse given.kind given.payload given.series)) [
          | inl (e, bad) ↦ ground (arith, h, there, bad)
          | inr (curves, drawn) ↦
              let s : ResultSummary F = record {
                kind = given.kind;
                stats = given.stats;
                metrics = given.metrics;
                converged = given.converged;
                residual = given.residual;
                iterations = given.iterations;
                warnings = given.warnings;
                series = curves;
              } in
              (s, ground (arith, h, there, drawn), ground (arith, h, has, there, drawn))
        ]
  ]

  -- A job that is not live is its record.
  job_of-from_record :
      (job_id caller : String) (with_result : Bool) (m : Manager F D) (j : Job F D)
      → lookup job_id m.jobs ≡ none
      → job_of parse job_id caller with_result m ≡ ok j
      → (r : JobRecord F D (List (Event F))) × (from_record parse r ≡ ok j)
  unfolding job_of Jobs.get find_job scoped
  job_of-from_record job_id caller with_result m j settled h =
      elim (Result-cases (Memory.get parse job_id with_result false m.world.store)) [
        | inl (e, bad) ↦ ground (arith, settled, bad, h)
        | inr (found, read) ↦ elim (Option-cases found) [
          | inl absent ↦ ground (arith, settled, read, absent, h)
          | inr (r, there) ↦ elim (Result-cases (from_record parse r)) [
            | inl (e, bad) ↦ ground (arith, settled, read, there, bad, h)
            | inr (i, made) ↦ (r, ground (arith, settled, read, there, made, h))
          ]
        ]
      ]

  module _ (path_of : String → String → String) where
    levels_steps :
        (job_id caller : String) (levels : Option (List String)) (wanted : List String)
        (m : Manager F D) (out : LeveledResult F D)
        → check_levels levels ≡ ok wanted
        → result_levels path_of parse job_id caller levels m ≡ ok out
        → (j : Job F D) × (job_of parse job_id caller (contains "fields" wanted) m ≡ ok j)
          × (succeeded j.status j.error ≡ ok tt)
          × (payload_for wanted j ≡ ok tt)
          × (out ≡ build path_of j wanted)
    unfolding result_levels
    levels_steps job_id caller levels wanted m out checked h =
        let (asked, known, h1) = >>=-eq-ok (check_levels levels) _ h in
        let (j, found, h2) =
          >>=-eq-ok (job_of parse job_id caller (contains "fields" asked) m) _ h1 in
        let (_, finished, h3) = >>=-eq-ok (succeeded j.status j.error) _ h2 in
        let (_, loaded, h4) = >>=-eq-ok (payload_for asked j) _ h3 in
        let same : asked ≡ wanted = ok-injective (sym known ∙ checked) in
        (
          j,
          subst (λ w. job_of parse job_id caller (contains "fields" w) m ≡ ok j) same found,
          finished,
          subst (λ w. payload_for w j ≡ ok tt) same loaded,
          sym (ok-injective h4) ∙ ap (build path_of j) same,
        )

    -- A requested payload never goes missing: where the levels that are asked for have `fields`
    -- among them and an answer is given for a job that is not live, then the whole result is there
    -- too, and the level holds its kind and its payload.
    pub result_levels-result :
        (job_id caller : String) (levels : Option (List String)) (wanted : List String)
        (m : Manager F D) (out : LeveledResult F D)
        → lookup job_id m.jobs ≡ none
        → check_levels levels ≡ ok wanted
        → contains "fields" wanted ≡ true
        → result_levels path_of parse job_id caller levels m ≡ ok out
        → (view : ResultView F D) × (result path_of parse job_id caller m ≡ ok view)
          × (out.fields ≡ some (record { kind = view.kind; payload = view.payload }))
    unfolding result payload_for payload_of build fields_of
    result_levels-result job_id caller levels wanted m out settled checked asked h =
        let (j, found, finished, loaded, same) =
          levels_steps job_id caller levels wanted m out checked h in
        let whole : job_of parse job_id caller true m ≡ ok j =
          subst (λ b. job_of parse job_id caller b m ≡ ok j) asked found in
        let (r, made) = job_of-from_record job_id caller true m j settled whole in
        elim (Option-cases j.result) [
          | inl missing ↦ ground (arith, loaded, asked, missing)
          | inr (res, there) ↦
              let (s, summary, kind) = from_record-summary r j res made there in
              let view : ResultView F D = record {
                job_id = j.id;
                kind = res.kind;
                payload = res.payload;
                stats = res.stats;
                artifacts = handles path_of j;
              } in
              (
                view,
                ground (arith, whole, finished, there),
                ap (λ o. o.fields) same ∙ ground (arith, asked, summary, there, kind),
              )
        ]
