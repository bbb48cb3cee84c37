-- ===== src/Store/Memory/Log.antt =====
-- The event logs of the memory store, which live in list objects.
use fenix_spoon.Prelude.{
  ◌+◌, ◌≡◌, ◌≢◌, String, Option, none, some, ok, string_eq, nat_eq, nat_beq_iff, >>=-eq-ok, List,
  [], ◌∷◌, ◌++◌, length, length-append, arith, inl, inr, Option-cases,
}
use text.Mathlib.TextEquality.{eq_iff}
use fenix_spoon.Dict.{lookup}
use fenix_spoon.Series.{Series1DData}
use fenix_spoon.Store.{JobRecord, Event, summarize}
use fenix_spoon.Store.Memory.{Memory, ListRef, stored_or, put, append_at, add_event}
use fenix_spoon.Store.Memory.Columns.{lookup-put, merged}

module _ {F D : Type 0} where
  -- The log of a job, as a reader sees it.
  unfoldable pub log : String → Memory F D → Option (List (Event F))
  log j m = elim (lookup j m.records) [ none ↦ none | some r ↦ some (m.heap r.events) ]

  -- No two jobs share a list object.
  abbrev pub OwnLogs : Memory F D → Type 0
  OwnLogs m =
      (i j : String) (r s : JobRecord F D ListRef)
      → lookup i m.records ≡ some r
      → lookup j m.records ≡ some s
      → r.events ≡ s.events
      → i ≡ j

  -- The list object of a new record is nobody else's.
  abbrev pub FreshLog : JobRecord F D ListRef → Memory F D → Type 0
  FreshLog r m =
      (j : String) (s : JobRecord F D ListRef)
      → lookup j m.records ≡ some s
      → s.events ≡ r.events
      → j ≡ r.id

  -- The sequence number is the length of the log that the event was appended to, so numbers run
  -- from 1 without gaps, and no other job's log changes.
  pub add_event_appends :
      (id : String) (e : Event F) (m : Memory F D) (past : List (Event F))
      → OwnLogs m
      → log id m ≡ some past
      → (log id (add_event id e m).0 ≡ some (past ++ e ∷ []))
        × ((add_event id e m).1 ≡ length past + 1)
        × ((j : String) → j ≢ id → log j (add_event id e m).0 ≡ log j m)
  unfolding log add_event append_at
  add_event_appends id e m past own h = elim (Option-cases (lookup id m.records)) [
    | inl missing ↦ absurd (ground (arith, missing))
    | inr (r, found) ↦ (
      ground (arith, found, nat_beq_iff r.events r.events),
      ground (arith, found, nat_beq_iff r.events r.events, length-append past (e ∷ [])),
      λ j other. elim (Option-cases (lookup j m.records)) [
        | inl none_there ↦ ground (arith, found, none_there)
        | inr (s, at) ↦
            ground (arith, found, at, own id j r s found at, nat_beq_iff r.events s.events)
      ],
    )
  ]

  pub add_event-OwnLogs :
      (id : String) (e : Event F) (m : Memory F D) → OwnLogs m → OwnLogs (add_event id e m).0
  unfolding add_event
  add_event-OwnLogs id e m own = elim (Option-cases (lookup id m.records)) [
    | inl missing ↦ rw (missing, add_event) own
    | inr (r, found) ↦ rw (found, add_event) own
  ]

  pub put-OwnLogs :
      (parse : D → Option (Series1DData F)) (r : JobRecord F D ListRef) (m : Memory F D)
      {m' : Memory F D}
      → OwnLogs m
      → FreshLog r m
      → put parse r m ≡ ok m'
      → OwnLogs m'
  unfolding merged stored_or
  put-OwnLogs parse r m own fresh h i j a b ea eb same =
      let (s, _, look) = lookup-put parse r m h in
      elim (Option-cases (lookup r.id m.records)) [
        | inl new ↦ ground (
          arith,
          new,
          look i,
          look j,
          eq_iff r.id i,
          eq_iff r.id j,
          own i j a b,
          fresh i a,
          fresh j b,
        )
        | inr (old, found) ↦ ground (
          arith,
          found,
          look i,
          look j,
          eq_iff r.id i,
          eq_iff r.id j,
          own i j a b,
          own r.id j old b found,
          own i r.id a old,
        )
      ]

  -- A write to a job that is there already leaves every log as it is, in its own list object.
  module _ (parse : D → Option (Series1DData F)) (r old : JobRecord F D ListRef) (m : Memory F D)
      {m' : Memory F D} (h : put parse r m ≡ ok m') (found : lookup r.id m.records ≡ some old) where
    pub put_same_log :
        (j : String) (s' : JobRecord F D ListRef)
        → lookup j m'.records ≡ some s'
        → (s : JobRecord F D ListRef) × (lookup j m.records ≡ some s) × (s'.events ≡ s.events)
    unfolding merged stored_or
    put_same_log j s' at =
        let (s, _, look) = lookup-put parse r m h in
        elim (Option-cases (lookup j m.records)) [
          | inl missing ↦ absurd (ground (arith, missing, found, look j, eq_iff r.id j))
          | inr (t, there) ↦ (t, there, ground (arith, there, found, look j, eq_iff r.id j))
        ]

    pub put_keeps_heap : m'.heap ≡ m.heap
    unfolding put
    put_keeps_heap = let (s, _, stored) = >>=-eq-ok (summarize parse r) _ h in ground arith

    pub put_keeps_OwnLogs : OwnLogs m → OwnLogs m'
    put_keeps_OwnLogs own i j a b ea eb same =
        let (a', at_i, ei) = put_same_log i a ea in
        let (b', at_j, ej) = put_same_log j b eb in own i j a' b' at_i at_j (cc)

    pub put_keeps_log : (j : String) (l : List (Event F)) → log j m ≡ some l → log j m' ≡ some l
    unfolding log merged stored_or
    put_keeps_log j l e =
        let (s, _, look) = lookup-put parse r m h in
        elim (Option-cases (lookup j m.records)) [
          | inl missing ↦ absurd (ground (arith, missing))
          | inr (t, there) ↦ ground (arith, there, found, look j, eq_iff r.id j, put_keeps_heap)
        ]
