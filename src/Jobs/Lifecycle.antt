-- ===== src/Jobs/Lifecycle.antt =====
-- A job from its submission to its end.
use text.Mathlib.TextEquality.{eq_iff}
use fenix_spoon.Prelude.{
  inl, inr, ◌⊎◌, Result-cases, err, subst, ◌≡◌, refl, sym, ap, ◌∙◌, String, true, false, Option,
  none, some, ok, >>=-eq-ok, ok-injective, string_eq, nat_eq, ◌&&◌, arith, if◌then◌else◌, ◌==◌,
}
use fenix_spoon.Dict.{lookup-insert, lookup, lookup-delete_self, delete}
use fenix_spoon.Series.{Series1DData, SeriesError}
use fenix_spoon.Store.{JobRecord, ResultSummary, queued, is_terminal_status, summarize}
use fenix_spoon.Store.Memory.{stored_or, Memory, ListRef, put}
use fenix_spoon.Store.Memory.Columns.{lookup-put, merged}
use fenix_spoon.Execution.{World, Run, run_solve, raised_in, started, ended}
use fenix_spoon.Execution.Outcomes.{run_solve_record}
use fenix_spoon.Jobs.{
  register, Job, absorb, Manager, Submission, new_job, to_record, submit, retire, attempt, drive,
}

module _ {F D : Type 0} (parse : D → Option (Series1DData F)) where
  -- The record of a run that returns can be summarized.
  run_solve_summarized :
      (run : Run F D) (r : JobRecord F D ListRef) (w : World F D)
      {out : World F D × JobRecord F D ListRef}
      → run_solve parse run r w ≡ ok out
      → (s : Option (ResultSummary F)) × (summarize parse out.1 ≡ ok s)
  unfolding run_solve
  run_solve_summarized run r w h =
      let (opened, put₁, rest) = >>=-eq-ok (put parse (started r) w.store) _ h in
      let (closed, put₂, last) = >>=-eq-ok (put parse (ended run r) _) _ rest in
      let (s, good, _) = lookup-put parse (ended run r) _ put₂ in
      (s, subst (λ p. summarize parse p.1 ≡ ok s) (ok-injective last) good)

  -- What the body of a task comes to: the run is over and its job retired, or the run raised.
  attempt_cases :
      (run : Run F D) (j : Job F D) (r : JobRecord F D ListRef) (m : Manager F D)
      → let mirrored : Run F D = record run { mirror = some r.events } in
        ((out : World F D × JobRecord F D ListRef) × (run_solve parse mirrored r m.world ≡ ok out)
          × (s : Option (ResultSummary F)) × (attempt parse run j r m ≡ (
            record m { world = out.0; jobs = delete j.id m.jobs },
            ok (record j {
              status = out.1.status;
              error = out.1.error;
              finished_at = out.1.finished_at;
              result = out.1.result;
              artifacts = out.1.artifacts;
              summary = s;
            }),
          )))
        ⊎ ((e : SeriesError) × (run_solve parse mirrored r m.world ≡ err e)
            × (attempt parse run j r m
                ≡ (record m { world = raised_in parse mirrored r m.world }, err e)))
  unfolding attempt retire absorb
  attempt_cases run j r m =
      let mirrored : Run F D = record run { mirror = some r.events } in
      elim (Result-cases (run_solve parse mirrored r m.world)) [
        | inl (e, raised) ↦ inr (e, raised, rw (attempt, raised) refl)
        | inr (out, ran) ↦
            let (s, good) = run_solve_summarized mirrored r m.world ran in
            inl (out, ran, s, rw (attempt, ran, good) refl)
      ]

  -- When the task of a job is over, the job is not cancellable any more. Where the run returned, the
  -- job is not live, the store has it with a terminal status and the time of its end, and the job
  -- object has that status and error too; where the run raised, the error is raised on and the live
  -- jobs are as they were.
  pub drive_settles :
      (run : Run F D) (j : Job F D) (r : JobRecord F D ListRef) (m : Manager F D)
      → j.id ≡ r.id
      → let (m', over) = drive parse run j r m in
        (lookup r.id m'.cancels ≡ none)
        × (((j' : Job F D) × (over ≡ ok j')
              × (lookup r.id m'.jobs ≡ none)
              × (stored : JobRecord F D ListRef) × (lookup r.id m'.world.store.records
                  ≡ some stored)
              × (is_terminal_status stored.status ≡ true)
              × (stored.finished_at ≡ some run.now)
              × (j'.status ≡ stored.status)
              × (j'.error ≡ stored.error))
            ⊎ ((e : SeriesError) × (over ≡ err e)
                × (run_solve parse (record run { mirror = some r.events }) r m.world ≡ err e)
                × (m'.jobs ≡ m.jobs)))
  unfolding drive
  drive_settles run j r m id = (
    lookup-delete_self r.id (attempt parse run j r m).0.cancels,
    elim (attempt_cases run j r m) [
      | inr (e, raised, is) ↦ inr (e, ap (λ p. p.1) is, raised, ap (λ p. p.0.jobs) is)
      | inl (out, ran, s, is) ↦
          let mirrored_run : Run F D = record run { mirror = some r.events } in
          let (terminal, dated, stored, at, st, er, fi, _) =
            run_solve_record parse mirrored_run r m.world ran in
          inl (
            _,
            ap (λ p. p.1) is,
            ap (λ p. lookup r.id p.0.jobs) is ∙ rw id (lookup-delete_self r.id m.jobs),
            stored,
            ap (λ p. lookup r.id p.0.world.store.records) is ∙ at,
            ap is_terminal_status st ∙ terminal,
            fi ∙ dated,
            sym st,
            sym er,
          )
    ],
  )

  register_fields :
      (s : Submission) (store : Memory F D) (m : Manager F D)
      → ((register s store m).world.store ≡ store)
        × ((j : String)
            → lookup j (register s store m).jobs
              ≡ (if m.runs_locally && s.job_id == j then some (new_job s) else lookup j m.jobs))
        × ((j : String)
            → lookup j (register s store m).cancels
              ≡ (if m.runs_locally && s.job_id == j then some false else lookup j m.cancels))
  unfolding register
  register_fields s store m = (
    ground arith,
    λ j. ground (arith, lookup-insert s.job_id j (new_job {F = F} {D = D} s) m.jobs),
    λ j. ground (arith, lookup-insert s.job_id j false m.cancels),
  )

  -- A submission under a new id stores the job as `queued`, for its owner; it becomes live, with a
  -- cancel event that is not set, where this process runs it; every other stored record, live job
  -- and cancel event is as it was.
  pub submit_queues :
      (events : ListRef) (s : Submission) (m : Manager F D) {m' : Manager F D}
      {r : JobRecord F D ListRef}
      → lookup s.job_id m.world.store.records ≡ none
      → submit parse events s m ≡ ok (m', r)
      → (stored : JobRecord F D ListRef) × (lookup s.job_id m'.world.store.records ≡ some stored)
        × (stored.status ≡ queued)
        × (stored.owner ≡ s.owner)
        × (stored.cache_key ≡ s.cache_key)
        × (stored.events ≡ events)
        × ((j : String)
            → lookup j m'.jobs
              ≡ (if m.runs_locally && s.job_id == j then some (new_job s) else lookup j m.jobs))
        × ((j : String)
            → lookup j m'.cancels
              ≡ (if m.runs_locally && s.job_id == j then some false else lookup j m.cancels))
        × ((j : String)
            → lookup j m'.world.store.records
              ≡ (if s.job_id == j then some stored else lookup j m.world.store.records))
  unfolding submit to_record new_job merged stored_or
  submit_queues events s m {m'} {r} new h =
      let record₀ = to_record events (new_job s) in
      let (store, put₀, made) = >>=-eq-ok (put parse record₀ m.world.store) _ h in
      let (summary, _, look) = lookup-put parse record₀ m.world.store put₀ in
      let (kept, live, cancellable) = register_fields s store m in
      let same : m' ≡ register s store m = sym (ap (λ p. p.0) (ok-injective made)) in
      let stored = merged none record₀ summary in
      rw same (
        rw kept (
          stored,
          ground (arith, look s.job_id, new, eq_iff s.job_id s.job_id),
          refl,
          refl,
          refl,
          refl,
          live,
          cancellable,
          λ j. ground (arith, look j, new),
        ))
