-- ===== src/Store/Sqlite/Appends.antt =====
-- `add_event` of the two stores (server/fenixspoon/store.py), one against the other.
use fenix_spoon.Prelude.{
  length, length-append, max, ◌≡◌, refl, sym, ap, ◌∙◌, subst, inl, inr, ℕ, ◌+◌, String, Bool, true,
  false, List, [], ◌∷◌, ◌++◌, Option, none, some, ◌==◌, nat_eq, nat_beq_iff, string_eq,
  if◌then◌else◌, arith,
}
use fenix_spoon.Dict.{lookup}
use fenix_spoon.Series.{Series1DData}
use fenix_spoon.Store.{Event, JobRecord}
use fenix_spoon.Store.Memory.{read, Memory, ListRef, append_at, stored_or}
use fenix_spoon.Store.Memory
use fenix_spoon.Store.Sqlite.{EventRow, Sqlite, events_of, last_seq, add_event}
use fenix_spoon.Store.Sqlite.Refines.{SameEntry, Same, Found-Same, entry_at}

max_step :
    (b c : Bool) (x l e rest : ℕ)
    → rest ≡ (if c then max l e else l)
    → (if b then max x rest else rest)
      ≡ (if c then max (if b then max x l else l) e else (if b then max x l else l))
max_step true true x l e rest h = omega (arith, h)
max_step true false x l e rest h = omega (arith, h)
max_step false true x l e rest h = omega (arith, h)
max_step false false x l e rest h = omega (arith, h)

events_of-append :
    {F : Type 0} (j : String) (es : List (EventRow F)) (e : EventRow F)
    → events_of j (es ++ e ∷ [])
      ≡ (if e.job_id == j then events_of j es ++ e.payload ∷ [] else events_of j es)
unfolding events_of
events_of-append j [] e = ground arith
events_of-append j (x ∷ es) e = ground (arith, events_of-append j es e)

last_seq-append :
    {F : Type 0} (j : String) (es : List (EventRow F)) (e : EventRow F)
    → last_seq j (es ++ e ∷ [])
      ≡ (if e.job_id == j then max (last_seq j es) e.seq else last_seq j es)
unfolding last_seq
last_seq-append j [] e = ground arith
last_seq-append j (x ∷ es) e =
    max_step (x.job_id == j) (e.job_id == j) x.seq (last_seq j es) e.seq _ (last_seq-append j es e)

module _ {F D : Type 0} (parse : D → Option (Series1DData F)) where
  module _ (m : Memory F D) (s : Sqlite F D) (k : String) (e : Event F) (r : JobRecord F D ListRef)
      (same : Same parse m s) (there : lookup k m.records ≡ some r) where
    appended : Memory F D
    unfolding append_at
    appended = record m { heap = append_at r.events e m.heap }

    row_added : Sqlite F D
    row_added = record s {
      events = s.events ++ record { job_id = k; seq = last_seq k s.events + 1; payload = e } ∷ [];
    }

    add_event-entry :
        (j : String) → SameEntry parse appended row_added j (lookup j m.records) (lookup j s.jobs)
    unfolding appended row_added append_at
    add_event-entry j =
        let new : EventRow F = record { job_id = k; seq = last_seq k s.events + 1; payload = e } in
        elim (Found-Same parse m s j same) [
          | inl (absent, absent', silent) ↦
              entry_at parse appended row_added j none none absent absent' (
                ground (
                  arith,
                  events_of-append j s.events new,
                  absent,
                  silent,
                  there,
                  string_eq.beq_iff k j,
                ))
          | inr (a, row, at, at', job, log, keyed) ↦
              entry_at parse appended row_added j (some a) (some row) at at' (
                job,
                ground (
                  arith,
                  events_of-append j s.events new,
                  log,
                  at,
                  there,
                  string_eq.beq_iff k j,
                  nat_beq_iff r.events a.events,
                  same.own k j r a there at,
                ),
                keyed,
              )
        ]

    add_event-numbered :
        (j : String) → last_seq j row_added.events ≡ length (events_of j row_added.events)
    unfolding row_added
    add_event-numbered j =
        let new : EventRow F = record { job_id = k; seq = last_seq k s.events + 1; payload = e } in
        ground (
          arith,
          events_of-append j s.events new,
          last_seq-append j s.events new,
          length-append (events_of j s.events) (e ∷ []),
          same.numbered j,
          same.numbered k,
          string_eq.beq_iff k j,
        )

    add_event_there : Memory.add_event k e m ≡ (appended, length (appended.heap r.events))
    unfolding appended append_at Memory.add_event
    add_event_there = rw (Memory.add_event, there) refl

    add_event-number : length (appended.heap r.events) ≡ last_seq k s.events + 1
    unfolding appended append_at
    add_event-number = elim (Found-Same parse m s k same) [
      | inl (absent, _, _) ↦ absurd (ground (arith, absent, there))
      | inr (a, row, at, at', job, log, keyed) ↦ ground (
        arith,
        at,
        there,
        log,
        same.numbered k,
        nat_beq_iff r.events r.events,
        length-append (m.heap r.events) (e ∷ []),
      )
    ]

    -- An event of a job that is there goes to the end of its log in both, under the same number.
    pub add_event-Same :
        Same parse (Memory.add_event k e m).0 (add_event k e s).0
        × ((Memory.add_event k e m).1 ≡ (add_event k e s).1)
    unfolding add_event row_added appended
    add_event-Same = (
      subst (λ p. Same parse p.0 row_added) (sym add_event_there)
          (record { entry = add_event-entry; own = same.own; numbered = add_event-numbered }),
      ap (λ p. p.1) add_event_there ∙ add_event-number,
    )
