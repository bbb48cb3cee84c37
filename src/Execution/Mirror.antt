-- ===== src/Execution/Mirror.antt =====
-- A sink whose mirror is the stored log itself.
use fenix_spoon.Store.Memory.Log.{put_keeps_heap}
use fenix_spoon.Store.Memory.Columns.{lookup-put, merged}
use fenix_spoon.Prelude.{
  arith, ◌≡◌, refl, ap, ◌∙◌, subst, String, Option, some, List, [], ◌∷◌, ◌++◌, ok, >>=-eq-ok,
  ok-injective, append_assoc, string_eq,
}
use fenix_spoon.Dict.{lookup}
use text.Mathlib.TextEquality.{eq_iff}
use fenix_spoon.Series.{Series1DData}
use fenix_spoon.Store.{Event, running, JobRecord}
use fenix_spoon.Store.Memory.{stored_or, Memory, ListRef, put}
use fenix_spoon.Execution.{World, Run, emit, emit_all, started, ended, ticks_of, run_solve}
use fenix_spoon.Execution.Sink.{twice, emit_all_doubles, records-emit_all}
use fenix_spoon.Execution.Outcomes.{run_events, settle_keeps}

twice-append : {F : Type 0} (xs ys : List (Event F)) → twice (xs ++ ys) ≡ twice xs ++ twice ys
twice-append [] ys = refl
twice-append (x ∷ xs) ys = rw (twice-append xs ys)

module _ {F D : Type 0} where
  -- The stored log of the job is the list object at the address.
  pub record Mirrored (id : String) (a : ListRef) (w : World F D) (l : List (Event F))
      : Type 0 where
    pub stored : JobRecord F D ListRef
    pub found : lookup id w.store.records ≡ some stored
    pub address : stored.events ≡ a
    pub holds : w.store.heap a ≡ l

  emit_all-Mirrored :
      (id : String) (a : ListRef) (es : List (Event F)) (w : World F D) (l : List (Event F))
      → Mirrored id a w l
      → Mirrored id a (emit_all (some a) id es w) (l ++ twice es)
  emit_all-Mirrored id a es w l g = record {
    stored = g.stored;
    found = rw (records-emit_all (some a) id es w) g.found;
    address = g.address;
    holds =
        subst (λ b. (emit_all (some b) id es w).store.heap b ≡ l ++ twice es) g.address
          (emit_all_doubles id es w g.stored l g.found
            (ap (λ b. w.store.heap b) g.address ∙ g.holds));
  }

  emit-Mirrored :
      (id : String) (a : ListRef) (e : Event F) (w : World F D) (l : List (Event F))
      → Mirrored id a w l
      → Mirrored id a (emit (some a) id e w) (l ++ e ∷ e ∷ [])
  unfolding emit_all
  emit-Mirrored id a e w l g = emit_all-Mirrored id a (e ∷ []) w l g

  put-Mirrored :
      (parse : D → Option (Series1DData F)) (r : JobRecord F D ListRef) (a : ListRef)
      (w : World F D) (l : List (Event F)) {m' : Memory F D}
      → Mirrored r.id a w l
      → put parse r w.store ≡ ok m'
      → Mirrored r.id a (record w { store = m' }) l
  unfolding merged stored_or
  put-Mirrored parse r a w l g h =
      let (s, _, look) = lookup-put parse r w.store h in
      record {
        stored = merged (some g.stored) r s;
        found = ground (arith, look r.id, g.found, eq_iff r.id r.id);
        address = g.address;
        holds = ap (λ heap. heap a) (put_keeps_heap parse r g.stored w.store h g.found) ∙ g.holds;
      }

  module _ (parse : D → Option (Series1DData F)) (run : Run F D) (r : JobRecord F D ListRef)
      (a : ListRef) where
    abbrev mirrored : Run F D
    mirrored = record run { mirror = some a }

    finish_Mirrored :
        (w : World F D) (l : List (Event F)) {m : Memory F D}
        → Mirrored r.id a w l
        → put parse (ended mirrored r) w.store ≡ ok m
        → Mirrored r.id a
            (emit
              (some a)
              r.id
              (Event.status_error (ended mirrored r).status (ended mirrored r).error)
              (emit_all (some a) r.id (ticks_of run.late) (record w { store = m })))
            ((l ++ twice (ticks_of run.late))
              ++ twice (Event.status_error (ended mirrored r).status (ended mirrored r).error ∷ []))
    finish_Mirrored w l {m} g h =
        let same : (ended mirrored r).id ≡ r.id =
          (settle_keeps mirrored (started r) run.outcome).0 in
        let written : Mirrored r.id a (record w { store = m }) l =
          rw same at (put-Mirrored parse (ended mirrored r) a w l (rw same g) h) in
        emit-Mirrored r.id a _ _ _ (emit_all-Mirrored r.id a (ticks_of run.late) _ l written)

    -- A run whose sink mirrors into the stored log leaves every one of its events there twice.
    pub run_solve_doubles :
        (w : World F D) (past : List (Event F)) {w' : World F D} {final : JobRecord F D ListRef}
        → Mirrored r.id a w past
        → run_solve parse mirrored r w ≡ ok (w', final)
        → Mirrored r.id a w' (past ++ twice (run_events mirrored r))
    unfolding run_solve
    run_solve_doubles w past g h =
        let (opened, put₁, rest) = >>=-eq-ok (put parse (started r) w.store) _ h in
        let (closed, put₂, last) = >>=-eq-ok (put parse (ended mirrored r) _) _ rest in
        let begun =
          emit-Mirrored r.id a (Event.status running) _ _
            (put-Mirrored parse (started r) a w past g put₁) in
        let solved = emit_all-Mirrored r.id a (ticks_of run.ticks) _ _ begun in
        let over = finish_Mirrored _ _ solved put₂ in
        subst (λ v. Mirrored r.id a v (past ++ twice (run_events mirrored r)))
          (ap (λ p. p.0) (ok-injective last)) (simp twice-append (simp append_assoc at over))
