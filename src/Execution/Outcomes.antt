-- ===== src/Execution/Outcomes.antt =====
-- What a run leaves in the store and in the log, however the solve ended.
use fenix_spoon.Store.Memory.Columns.{lookup-put, merged}
use fenix_spoon.Dict.{lookup}
use fenix_spoon.Execution.Sink.{records-emit_all, records-emit}
use fenix_spoon.Prelude.{
  ◌∙◌, sym, some, ◌≡◌, refl, ap, true, Option, ok, >>=-eq-ok, ok-injective, subst, string_eq,
  nat_eq, List, [], ◌∷◌, ◌++◌, append_assoc, arith,
}
use text.Mathlib.TextEquality.{eq_iff}
use fenix_spoon.Series.{Series1DData}
use fenix_spoon.Store.{running, Event, JobRecord, is_terminal_status}
use fenix_spoon.Store.Memory.{Memory, ListRef, put}
use fenix_spoon.Execution.{
  World, Run, Outcome, finished, emit, emit_all, started, ended, settle, measure, accept, ticks_of,
  run_solve,
}
use fenix_spoon.Execution.Ready.{Ready, emit-Ready, emit_all-Ready, put-Ready}

module _ {F D : Type 0} where
  -- However the solve ended, its record has a terminal status.
  pub settle_terminal :
      (run : Run F D) (r : JobRecord F D ListRef) (o : Outcome F D)
      → is_terminal_status (settle run r o).status ≡ true
  unfolding settle measure accept is_terminal_status
  settle_terminal run r (finished res artifacts) = ground arith
  settle_terminal run r _ = refl

  -- The solve's record keeps its id, its solver, its owner and its submission.
  pub settle_keeps :
      (run : Run F D) (r : JobRecord F D ListRef) (o : Outcome F D)
      → ((settle run r o).id ≡ r.id) × ((settle run r o).events ≡ r.events)
  unfolding settle measure accept
  settle_keeps run r (finished res artifacts) = ground arith
  settle_keeps run r _ = (refl, refl)

  -- The whole log of a run: `running`, the progress, and the terminal status last.
  abbrev pub run_events : Run F D → JobRecord F D ListRef → List (Event F)
  run_events run r =
      Event.status running
      ∷ (ticks_of run.ticks
          ++ (ticks_of run.late
              ++ Event.status_error (ended run r).status (ended run r).error ∷ []))

  module _ (parse : D → Option (Series1DData F)) (run : Run F D) (r : JobRecord F D ListRef) where
    -- The second half of a run: the final write, what is left to publish, and the terminal event.
    finish_Ready :
        (w : World F D) (l : List (Event F)) {m : Memory F D}
        → Ready run.mirror r.id w l
        → put parse (ended run r) w.store ≡ ok m
        → Ready run.mirror r.id
            (emit run.mirror r.id
              (Event.status_error (ended run r).status (ended run r).error)
              (emit_all run.mirror r.id (ticks_of run.late) (record w { store = m })))
            (l
              ++ (ticks_of run.late
                  ++ Event.status_error (ended run r).status (ended run r).error ∷ []))
    finish_Ready w l {m} g h =
        let same : (ended run r).id ≡ r.id = (settle_keeps run (started r) run.outcome).0 in
        let written : Ready run.mirror r.id (record w { store = m }) l =
          rw same at (put-Ready parse run.mirror (ended run r) w l (rw same g) h) in
        rw (← append_assoc l (ticks_of run.late) _) (
          emit-Ready run.mirror r.id _ _ _
            (emit_all-Ready run.mirror r.id (ticks_of run.late) _ l written))

    -- A run over a job of the store, with a sink whose mirror is a list of its own, appends to the
    -- job's log each of its events once and in order, the terminal status last.
    pub run_solve_log :
        (w : World F D) (past : List (Event F)) {w' : World F D} {final : JobRecord F D ListRef}
        → Ready run.mirror r.id w past
        → run_solve parse run r w ≡ ok (w', final)
        → Ready run.mirror r.id w' (past ++ run_events run r)
    unfolding run_solve
    run_solve_log w past g h =
        let (opened, put₁, rest) = >>=-eq-ok (put parse (started r) w.store) _ h in
        let (closed, put₂, last) = >>=-eq-ok (put parse (ended run r) _) _ rest in
        let begun =
          emit-Ready run.mirror r.id (Event.status running) _ _
            (put-Ready parse run.mirror (started r) w past g put₁) in
        let solved = emit_all-Ready run.mirror r.id (ticks_of run.ticks) _ _ begun in
        let over = finish_Ready _ _ solved put₂ in
        subst (λ v. Ready run.mirror r.id v (past ++ run_events run r))
          (ap (λ p. p.0) (ok-injective last)) (simp append_assoc at over)

    -- The record that the store has after the final write and the events that follow it.
    stored_end :
        (m : Memory F D) (w : World F D) {m' : Memory F D}
        → put parse (ended run r) m ≡ ok m'
        → w.store.records ≡ m'.records
        → (stored : JobRecord F D ListRef) × (lookup r.id w.store.records ≡ some stored)
          × (stored.status ≡ (ended run r).status)
          × (stored.error ≡ (ended run r).error)
          × (stored.finished_at ≡ (ended run r).finished_at)
          × (stored.result ≡ (ended run r).result)
    unfolding merged
    stored_end m w h same =
        let final = ended run r in
        let at : final.id ≡ r.id = (settle_keeps run (started r) run.outcome).0 in
        let (summary, _, look) = lookup-put parse final m h in
        (
          merged (lookup final.id m.records) final summary,
          rw same (ground (arith, look r.id, at, eq_iff final.id r.id)),
          refl,
          refl,
          refl,
          refl,
        )

    -- The record that is returned is terminal and dated, and the store has it: the same status,
    -- error, end and result, under the id of the job.
    pub run_solve_record :
        (w : World F D) {w' : World F D} {final : JobRecord F D ListRef}
        → run_solve parse run r w ≡ ok (w', final)
        → (is_terminal_status final.status ≡ true)
          × (final.finished_at ≡ some run.now)
          × (stored : JobRecord F D ListRef) × (lookup r.id w'.store.records ≡ some stored)
          × (stored.status ≡ final.status)
          × (stored.error ≡ final.error)
          × (stored.finished_at ≡ final.finished_at)
          × (stored.result ≡ final.result)
    unfolding run_solve
    run_solve_record w {w'} {final} h =
        let (opened, put₁, rest) = >>=-eq-ok (put parse (started r) w.store) _ h in
        let (closed, put₂, last) = >>=-eq-ok (put parse (ended run r) _) _ rest in
        let pair = ok-injective last in
        let same_final : ended run r ≡ final = ap (λ p. p.1) pair in
        let same_records =
          ap (λ p. p.0.store.records) (sym pair)
          ∙ (records-emit run.mirror r.id _ _
              ∙ records-emit_all run.mirror r.id (ticks_of run.late) _) in
        let (stored, at, st, er, fi, re) = stored_end _ w' put₂ same_records in
        rw (← same_final)
          (settle_terminal run (started r) run.outcome, refl, stored, at, st, er, fi, re)
