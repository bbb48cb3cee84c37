-- ===== src/Optimize/Replay.antt =====
-- The report of a finished search, rebuilt from its jobs (`optimization_report` of
-- server/fenixspoon/core/service.py), is the search's own.
use fenix_spoon.Prelude.{
  ◌≡◌, sym, ap, ◌∙◌, subst, ◌≢◌, ◌⊎◌, inl, inr, ℕ, zero, suc, String, true, false, List, [], ◌∷◌,
  ◌++◌, append-nil, append_assoc, Option, none, some, nat_eq, string_eq, leb, length, Result, ok,
  err, arith, Option-cases, Bool-cases, All, All-append-inverse,
}
use fenix_spoon.Numbers.{Order, Arithmetic}
use fenix_spoon.Studies.Curves.{refused, of_job}
use fenix_spoon.Store.{Status}
use fenix_spoon.Jobs.{Job}
use fenix_spoon.Optimize.{OptimizationBody, Evaluation}
use fenix_spoon.Optimize.Search.Bounds.{
  grade_over, grade_further, over-injective, Turn-cases, submitted_further,
}
use fenix_spoon.Optimize.Search.{
  converged, budget, Progress, Searched, SearchStop, over, further, blank, with_row, grade, ended,
  refused_row, loop, evaluation, answered_by, looks, submitted, search_turn, search, told, replayed,
  report_turn, report, remembered,
}

not_refused : (s : Status) → of_job s ≢ refused
not_refused s h = cc

module _ {F : Type 0} (op : Arithmetic F) ⦃o : Order F⦄ (invphi : F) (body : OptimizationBody F)
    (square : F → F) (unreported : String → String) {D : Type 0} where
  -- A row is found again: there is no job for a refusal, and another row is its job's.
  abbrev pub Recorded : (ℕ → F → Option (Job F D)) → Evaluation F → Type 0
  Recorded find e =
      ((e.status ≡ refused) × (find e.iteration e.value ≡ none))
      ⊎ ((j : Job F D) × (find e.iteration e.value ≡ some j)
          × (evaluation op square unreported body.objective e.iteration e.value j ≡ e))

  Known : (ℕ → F → Option (Job F D)) → Progress F → Type 0
  Known find p = All (Recorded find) p.evaluations

  -- The row that a job gives can only be found as a job's, and that job ends the round likewise.
  job_found :
      (find : ℕ → F → Option (Job F D)) (p : Progress F) (point : F) (j : Job F D)
      → Recorded find
          (evaluation op square unreported body.objective (length p.evaluations) point j)
      → (k : Job F D) × (find (length p.evaluations) point ≡ some k)
        × (answered_by op square unreported body.objective p point k
            ≡ answered_by op square unreported body.objective p point j)
  unfolding answered_by evaluation
  job_found find p point j (inl (never, _)) = absurd cc
  job_found find p point j (inr (k, found, same)) = (k, found, ap (λ e. grade p e e.objective) same)

  row_of :
      (find : ℕ → F → Option (Job F D)) (p : Progress F) (e : Evaluation F) (r : Searched F)
      → with_row p e ≡ r.progress
      → Known find r.progress
      → Recorded find e
  unfolding with_row Known
  row_of find p e r same known =
      (All-append-inverse (Recorded find) p.evaluations (e ∷ [])
        (subst (λ q. All (Recorded find) q.evaluations) (sym same) known)).1.0

  replayed_same :
      (find : ℕ → F → Option (Job F D)) (p : Progress F) (point : F)
      (given : Result String (Job F D)) (r : Searched F)
      → submitted op invphi body square unreported p point given ≡ over r
      → Known find r.progress
      → replayed op invphi body square unreported
          (some (remembered r))
          p
          point
          (find (length p.evaluations) point)
        ≡ over r
  unfolding submitted replayed answered_by told remembered evaluation refused_row with_row
  replayed_same find p point (err message) r h known =
      let row = refused_row (length p.evaluations) point message in
      let same = over-injective h in
      elim (row_of find p row r (ap (λ s. s.progress) same) known) [
        | inl (_, nothing) ↦
            subst
              (λ s.
                replayed op invphi body square unreported (some (remembered s)) p point
                  (find (length p.evaluations) point)
                ≡ over s)
              same (ground (arith, nothing, nat_eq.beq_iff (length p.answered) (length p.answered)))
        | inr (k, _, wrong) ↦ absurd (not_refused k.status (ap (λ e. e.status) wrong))
      ]
  replayed_same find p point (ok j) r h known =
      let e = evaluation op square unreported body.objective (length p.evaluations) point j in
      let (_, same) = grade_over p r e e.objective h in
      let (k, found, likewise) =
        job_found find p point j (row_of find p e r (ap (λ s. s.progress) same) known) in
      ground (arith, found, likewise, h)

  replayed_further :
      (find : ℕ → F → Option (Job F D)) (memory : Option (SearchStop F)) (p q : Progress F)
      (point : F) (given : Result String (Job F D))
      → submitted op invphi body square unreported p point given ≡ further q
      → Known find q
      → replayed op invphi body square unreported memory p point (find (length p.evaluations) point)
        ≡ further q
  unfolding submitted replayed answered_by Known
  replayed_further find memory p q point (err message) h known = cc
  replayed_further find memory p q point (ok j) h known =
      let e = evaluation op square unreported body.objective (length p.evaluations) point j in
      let (v, _, same) = grade_further p q e e.objective h in
      let rows = subst (λ s. All (Recorded find) s.evaluations) same known in
      let (_, row) = All-append-inverse (Recorded find) p.evaluations (e ∷ []) rows in
      let (k, found, likewise) = job_found find p point j row.0 in
      ground (arith, found, likewise, h)

  submitted_rows :
      (p : Progress F) (point : F) (given : Result String (Job F D)) (q : Progress F)
      → submitted op invphi body square unreported p point given ≡ further q
      → (e : Evaluation F) × (q.evaluations ≡ p.evaluations ++ e ∷ [])
  submitted_rows p point given q h =
      let (e, v, _, _, _, same) =
        submitted_further op invphi body square unreported p q point given h in
      (e, ap (λ s. s.evaluations) same)

  submitted_last :
      (p : Progress F) (point : F) (given : Result String (Job F D)) (r : Searched F)
      → submitted op invphi body square unreported p point given ≡ over r
      → (e : Evaluation F) × (r.progress.evaluations ≡ p.evaluations ++ e ∷ [])
  unfolding submitted answered_by with_row
  submitted_last p point (err message) r h = (
    refused_row (length p.evaluations) point message,
    sym (ap (λ s. s.progress.evaluations) (over-injective h)),
  )
  submitted_last p point (ok j) r h =
      let e = evaluation op square unreported body.objective (length p.evaluations) point j in
      let (_, same) = grade_over p r e e.objective h in
      (e, sym (ap (λ s. s.progress.evaluations) same))

  -- what a round does, by its two tests
  Round : {S : Type 0} → (S → ℕ → F → Result String (Job F D) × S) → S → Progress F → Type 0
  Round submit s p =
      ((looks op invphi body p ≡ none)
        × (search_turn op invphi body square unreported submit s p ≡ (ended p converged, s)))
      ⊎ ((point : F) × (looks op invphi body p ≡ some point)
          × (((leb body.max_evaluations (length p.evaluations) ≡ true)
                × (search_turn op invphi body square unreported submit s p ≡ (ended p budget, s)))
              ⊎ ((leb body.max_evaluations (length p.evaluations) ≡ false)
                  × (search_turn op invphi body square unreported submit s p ≡ (
                    submitted op invphi body square unreported p point
                        (submit s (length p.evaluations) point).0,
                    (submit s (length p.evaluations) point).1,
                  )))))

  Round-total :
      {S : Type 0} (submit : S → ℕ → F → Result String (Job F D) × S) (s : S) (p : Progress F)
      → Round submit s p
  unfolding search_turn Round
  Round-total submit s p = elim (Option-cases (looks op invphi body p)) [
    | inl nowhere ↦ inl (nowhere, ground (arith, nowhere))
    | inr (point, at) ↦ elim (Bool-cases (leb body.max_evaluations (length p.evaluations))) [
      | inl all_spent ↦ inr (point, at, inl (all_spent, ground (arith, at, all_spent)))
      | inr left ↦ inr (point, at, inr (left, ground (arith, at, left)))
    ]
  ]

  -- A later round keeps the rows that it is given.
  loop-extends :
      {S : Type 0} (submit : S → ℕ → F → Result String (Job F D) × S) (fuel : ℕ) (s t : S)
      (p : Progress F) (r : Searched F)
      → loop (search_turn op invphi body square unreported submit) fuel s p ≡ some (r, t)
      → (more : List (Evaluation F)) × (r.progress.evaluations ≡ p.evaluations ++ more)
  unfolding loop ended Round
  loop-extends submit zero s t p r h = cc
  loop-extends submit (suc fuel) s t p r h = elim (Round-total submit s p) [
    | inl (_, turn) ↦ ([], ground (arith, h, turn, append-nil p.evaluations))
    | inr (point, _, inl (_, turn)) ↦ ([], ground (arith, h, turn, append-nil p.evaluations))
    | inr (point, _, inr (_, turn)) ↦
        let (given, u) = submit s (length p.evaluations) point in
        elim (Turn-cases (submitted op invphi body square unreported p point given)) [
          | inl (r', ends) ↦
              let (e, rows) = submitted_last p point given r' ends in
              (e ∷ [], ground (arith, h, turn, ends, rows))
          | inr (q, goes) ↦
              let (e, rows) = submitted_rows p point given q goes in
              let (more, later) =
                loop-extends submit fuel u t q r (ground (arith, h, turn, goes)) in
              (
                e ∷ more,
                later ∙ ap (λ es. es ++ more) rows ∙ append_assoc p.evaluations (e ∷ []) more,
              )
        ]
  ]

  -- the loop of the report, from where a search has got to
  resumed :
      Option (SearchStop F)
      → (ℕ → F → Option (Job F D))
      → ℕ
      → Progress F
      → Option (Searched F × Unit {0})
  resumed memory find fuel p =
      loop (λ s q. (report_turn op invphi body square unreported memory find q, tt)) fuel tt p

  replay-search :
      {S : Type 0} (submit : S → ℕ → F → Result String (Job F D) × S)
      (find : ℕ → F → Option (Job F D)) (fuel : ℕ) (s t : S) (p : Progress F) (r : Searched F)
      → loop (search_turn op invphi body square unreported submit) fuel s p ≡ some (r, t)
      → Known find r.progress
      → resumed (some (remembered r)) find fuel p ≡ some (r, tt)
  unfolding loop ended resumed report_turn Round Known
  replay-search submit find zero s t p r h known = cc
  replay-search submit find (suc fuel) s t p r h known = elim (Round-total submit s p) [
    | inl (nowhere, turn) ↦ ground (arith, h, turn, nowhere)
    | inr (point, at, inl (all_spent, turn)) ↦ ground (arith, h, turn, at, all_spent)
    | inr (point, at, inr (left, turn)) ↦
        let (given, u) = submit s (length p.evaluations) point in
        elim (Turn-cases (submitted op invphi body square unreported p point given)) [
          | inl (r', ends) ↦
              let same : r' ≡ r = ground (arith, h, turn, ends) in
              let again = replayed_same find p point given r (ends ∙ ap over same) known in
              ground (arith, at, left, again)
          | inr (q, goes) ↦
              let rest : loop (search_turn op invphi body square unreported submit) fuel u q
                  ≡ some (r, t) =
                ground (arith, h, turn, goes) in
              let (more, rows) = loop-extends submit fuel u t q r rest in
              let (given_rows, _) =
                All-append-inverse (Recorded find) q.evaluations more
                  (subst (All (Recorded find)) rows known) in
              let again =
                replayed_further find (some (remembered r)) p q point given goes given_rows in
              let later = replay-search submit find fuel u t q r rest known in
              ground (arith, at, left, again, later)
        ]
  ]

  -- A search that has ended, and whose rows are found again, is reported as it was: replaying the
  -- method over its jobs, with the stop that it remembered, gives the same rows and answers, the
  -- same stop, and the same refusal.
  pub report-search :
      {S : Type 0} (submit : S → ℕ → F → Result String (Job F D) × S)
      (find : ℕ → F → Option (Job F D)) (fuel : ℕ) (s t : S) (r : Searched F)
      → search op invphi body square unreported submit fuel s ≡ some (r, t)
      → All (Recorded find) r.progress.evaluations
      → report op invphi body square unreported (some (remembered r)) find fuel ≡ some (r, tt)
  unfolding search report resumed Known
  report-search submit find fuel s t r h known = replay-search submit find fuel s t blank r h known
