-- ===== src/Optimize/Search/Bounds.antt =====
-- The rounds of a search: that they end, and which they are.
use fenix_spoon.Prelude.{
  ◌≡◌, refl, subst, ◌≤◌, ◌<◌, ◌⊎◌, inl, inr, ℕ, zero, suc, ◌+◌, String, [], ◌∷◌, ◌++◌, Option, none,
  some, nat_eq, string_eq, leb, length, length-append, Result, ok, err, arith, Option-cases,
  Bool-cases,
}
use fenix_spoon.Numbers.{Order, Arithmetic}
use fenix_spoon.Jobs.{Job}
use fenix_spoon.Optimize.{OptimizationBody, Evaluation}
use fenix_spoon.Optimize.Search.{
  converged, budget, stalled, Progress, Searched, Turn, over, further, blank, with_row, grade,
  ended, refused_row, loop, evaluation, answered_by, looks, submitted, search_turn, search,
}

module _ {F : Type 0} where
  pub Turn-cases :
      (round : Turn F)
      → ((r : Searched F) × (round ≡ over r)) ⊎ ((q : Progress F) × (round ≡ further q))
  Turn-cases (over r) = inl (r, refl)
  Turn-cases (further q) = inr (q, refl)

  -- Where a round goes further only below a budget, and by one row, enough fuel is one more than
  -- the budget.
  pub loop-total :
      {S : Type 0} (max : ℕ) (turn : S → Progress F → Turn F × S)
      → ((s : S) (p q : Progress F)
          → (turn s p).0 ≡ further q
          → (length p.evaluations < max) × (length q.evaluations ≡ suc (length p.evaluations)))
      → (fuel : ℕ) (s : S) (p : Progress F) → length p.evaluations ≤ max
      → max < fuel + length p.evaluations
      → (r : Searched F) × (t : S) × (loop turn fuel s p ≡ some (r, t))
  unfolding loop
  loop-total max turn advances zero s p within enough = absurd (omega (arith, within, enough))
  loop-total max turn advances (suc fuel) s p within enough = elim (Turn-cases (turn s p).0) [
    | inl (r, ends) ↦ (r, (turn s p).1, ground (arith, ends))
    | inr (q, goes) ↦
        let (below, longer) = advances s p q goes in
        let (r, t, rest) =
          loop-total max turn advances fuel (turn s p).1 q (omega (arith, below, longer))
            (omega (arith, enough, longer)) in
        (r, t, ground (arith, goes, rest))
  ]

  pub over-injective : {r r' : Searched F} → ◌≡◌ {A = Turn F} (over r) (over r') → r ≡ r'
  over-injective h = cc

  pub grade_further :
      (p q : Progress F) (e : Evaluation F) (v : Option F)
      → grade p e v ≡ further q
      → (w : F) × (v ≡ some w)
        × (q ≡ record { evaluations = p.evaluations ++ e ∷ []; answered = p.answered ++ w ∷ [] })
  unfolding grade with_row
  grade_further p q e none h = cc
  grade_further p q e (some w) h = (w, refl, cc)

  pub grade_over :
      (p : Progress F) (r : Searched F) (e : Evaluation F) (v : Option F)
      → grade p e v ≡ over r
      → (v ≡ none) × (record { progress = with_row p e; stopped = stalled; refusal = none } ≡ r)
  unfolding grade
  grade_over p r e none h = (refl, cc)
  grade_over p r e (some w) h = cc

-- What has been asked and answered, round by round: each row is of the point that the answers
-- before it lead to, below the budget, and has an objective.
module _ {F : Type 0} (op : Arithmetic F) ⦃o : Order F⦄ (invphi : F)
    (body : OptimizationBody F) where
  pub data Trajectory : Progress F → Type 0 where
    start : Trajectory blank
    answer :
        (p : Progress F) (e : Evaluation F) (v : F)
        → Trajectory p
        → looks op invphi body p ≡ some e.value
        → length p.evaluations < body.max_evaluations
        → e.iteration ≡ length p.evaluations
        → e.objective ≡ some v
        → Trajectory
            (record { evaluations = p.evaluations ++ e ∷ []; answered = p.answered ++ v ∷ [] })

  -- The three ways in which a search ends.
  pub data Ends : Searched F → Type 0 where
    located :
        (p : Progress F)
        → Trajectory p
        → looks op invphi body p ≡ none
        → Ends (record { progress = p; stopped = converged; refusal = none })
    spent :
        (p : Progress F) (point : F)
        → Trajectory p
        → looks op invphi body p ≡ some point
        → length p.evaluations ≡ body.max_evaluations
        → Ends (record { progress = p; stopped = budget; refusal = none })
    stuck :
        (p : Progress F) (e : Evaluation F) (refusal : Option (Evaluation F))
        → Trajectory p
        → looks op invphi body p ≡ some e.value
        → length p.evaluations < body.max_evaluations
        → e.objective ≡ none
        → Ends (record { progress = with_row p e; stopped = stalled; refusal = refusal })

  module _ (square : F → F) (unreported : String → String) {D : Type 0} where
    pub submitted_further :
        (p q : Progress F) (point : F) (given : Result String (Job F D))
        → submitted op invphi body square unreported p point given ≡ further q
        → (e : Evaluation F) × (v : F) × (e.value ≡ point)
          × (e.iteration ≡ length p.evaluations)
          × (e.objective ≡ some v)
          × (q ≡ record { evaluations = p.evaluations ++ e ∷ []; answered = p.answered ++ v ∷ [] })
    unfolding submitted answered_by evaluation
    submitted_further p q point (err message) h = cc
    submitted_further p q point (ok j) h =
        let e = evaluation op square unreported body.objective (length p.evaluations) point j in
        let (v, graded, same) = grade_further p q e e.objective h in
        (e, v, refl, refl, graded, same)

    submitted_over :
        (p : Progress F) (r : Searched F) (point : F) (given : Result String (Job F D))
        → Trajectory p
        → looks op invphi body p ≡ some point
        → length p.evaluations < body.max_evaluations
        → submitted op invphi body square unreported p point given ≡ over r
        → Ends r
    unfolding submitted answered_by evaluation grade refused_row
    submitted_over p r point (err message) t at below h =
        let row = refused_row (length p.evaluations) point message in
        subst Ends (over-injective h) (stuck p row (some row) t at below refl)
    submitted_over p r point (ok j) t at below h =
        let e = evaluation op square unreported body.objective (length p.evaluations) point j in
        let (silent, same) = grade_over p r e e.objective h in
        subst Ends same (stuck p e none t at below silent)

    search_turn_cases :
        {S : Type 0} (submit : S → ℕ → F → Result String (Job F D) × S) (s : S) (p : Progress F)
        → Trajectory p
        → length p.evaluations ≤ body.max_evaluations
        → ((r : Searched F) × ((search_turn op invphi body square unreported submit s p).0 ≡ over r)
            × Ends r)
          ⊎ ((e : Evaluation F) × (v : F) × ((search_turn op invphi body square unreported submit s
                  p).0
                ≡ further (record {
                  evaluations = p.evaluations ++ e ∷ [];
                  answered = p.answered ++ v ∷ [];
                }))
              × (length p.evaluations < body.max_evaluations)
              × Trajectory (record {
                evaluations = p.evaluations ++ e ∷ [];
                answered = p.answered ++ v ∷ [];
              }))
    unfolding search_turn ended
    search_turn_cases submit s p t within = elim (Option-cases (looks op invphi body p)) [
      | inl nowhere ↦ inl (_, ground (arith, nowhere), located p t nowhere)
      | inr (point, at) ↦ elim (Bool-cases (leb body.max_evaluations (length p.evaluations))) [
        | inl all_spent ↦ inl (
          _,
          ground (arith, at, all_spent),
          spent p point t at (ground (arith, all_spent, within)),
        )
        | inr left ↦
            let below : length p.evaluations < body.max_evaluations = ground (arith, left) in
            let given = (submit s (length p.evaluations) point).0 in
            elim (Turn-cases (submitted op invphi body square unreported p point given)) [
              | inl (r, ends) ↦ inl (
                r,
                ground (arith, at, left, ends),
                submitted_over p r point given t at below ends,
              )
              | inr (q, goes) ↦
                  let (e, v, asked, number, graded, same) =
                    submitted_further p q point given goes in
                  inr (
                    e,
                    v,
                    ground (arith, at, left, goes, same),
                    below,
                    answer p e v t (ground (arith, at, asked)) below number graded,
                  )
            ]
      ]
    ]

    search-Ends :
        {S : Type 0} (submit : S → ℕ → F → Result String (Job F D) × S) (fuel : ℕ) (s : S)
        (p : Progress F)
        → Trajectory p
        → length p.evaluations ≤ body.max_evaluations
        → body.max_evaluations < fuel + length p.evaluations
        → (r : Searched F) × (t : S) × (loop
              (search_turn op invphi body square unreported submit)
              fuel
              s
              p
            ≡ some (r, t))
          × Ends r
    unfolding loop
    search-Ends submit zero s p walked within enough = absurd (omega (arith, within, enough))
    search-Ends submit (suc fuel) s p walked within enough =
        let next = (search_turn op invphi body square unreported submit s p).1 in
        elim (search_turn_cases submit s p walked within) [
          | inl (r, stops, ends) ↦ (r, next, ground (arith, stops), ends)
          | inr (e, v, goes, below, later) ↦
              let q : Progress F = record {
                evaluations = p.evaluations ++ e ∷ [];
                answered = p.answered ++ v ∷ [];
              } in
              let longer = length-append p.evaluations (e ∷ []) in
              let (r, t, rest, ends) =
                search-Ends submit fuel next q later (omega (arith, below, longer))
                  (omega (arith, enough, longer)) in
              (r, t, ground (arith, goes, rest), ends)
        ]

    -- Whatever the service answers, a search that may spend `max_evaluations` ends within one
    -- round more, in one of the three ways: the bracket is small enough; or there is a next
    -- point, and the budget is spent to the last; or the last row has no answer. Every row before
    -- that is of the point that the answers before it lead to.
    pub search_total :
        {S : Type 0} (submit : S → ℕ → F → Result String (Job F D) × S) (s : S)
        → (r : Searched F) × (t : S) × (search op invphi body square unreported submit
              (suc body.max_evaluations)
              s
            ≡ some (r, t))
          × Ends r
    unfolding search blank
    search_total submit s =
        search-Ends submit (suc body.max_evaluations) s blank start (omega arith) (omega arith)

  Trajectory-length : (p : Progress F) → Trajectory p → length p.evaluations ≡ length p.answered
  unfolding blank
  Trajectory-length p start = refl
  Trajectory-length p (answer q e v walked at below number graded) = omega (
    arith,
    length-append q.evaluations (e ∷ []),
    length-append q.answered (v ∷ []),
    Trajectory-length q walked,
  )
