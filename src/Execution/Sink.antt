-- ===== src/Execution/Sink.antt =====
-- The event sink: what an emitted event does to the logs and to the subscribers.
use fenix_spoon.Events.{publish}
use fenix_spoon.Prelude.{
  ap, ◌+◌, length, ◌≡◌, refl, sym, ◌∙◌, ◌≢◌, String, Option, none, some, string_eq, nat_eq,
  nat_beq_iff, List, [], ◌∷◌, ◌++◌, append_assoc, append-nil, arith, inl, inr, Option-cases,
}
use fenix_spoon.Dict.{lookup}
use fenix_spoon.Store.{JobRecord, Event}
use fenix_spoon.Store.Memory.{Memory, ListRef, append_at, add_event}
use fenix_spoon.Store.Memory.Log.{log, OwnLogs, add_event_appends}
use fenix_spoon.Execution.{World, mirror_event, emit, emit_all}

-- Every event, twice.
abbrev pub twice : {F : Type 0} → List (Event F) → List (Event F)
twice [] = []
twice (e ∷ es) = e ∷ e ∷ twice es

module _ {F D : Type 0} where
  -- The mirror is not the list object of any stored log.
  abbrev pub Separate : Option ListRef → Memory F D → Type 0
  Separate none m = Unit
  Separate (some a) m =
      (j : String) (s : JobRecord F D ListRef) → lookup j m.records ≡ some s → s.events ≢ a

  log-mirror_event :
      (mirror : Option ListRef) (e : Event F) (m : Memory F D) (j : String)
      → Separate mirror m
      → log j (mirror_event mirror e m) ≡ log j m
  unfolding mirror_event log append_at
  log-mirror_event none e m j apart = refl
  log-mirror_event (some a) e m j apart = elim (Option-cases (lookup j m.records)) [
    | inl missing ↦ ground (arith, missing)
    | inr (s, found) ↦ ground (arith, found, apart j s found, nat_beq_iff a s.events)
  ]

  records-mirror_event :
      (mirror : Option ListRef) (e : Event F) (m : Memory F D)
      → (mirror_event mirror e m).records ≡ m.records
  unfolding mirror_event
  records-mirror_event none e m = refl
  records-mirror_event (some a) e m = refl

  records-add_event :
      (id : String) (e : Event F) (m : Memory F D) → (add_event id e m).0.records ≡ m.records
  unfolding add_event
  records-add_event id e m = elim (Option-cases (lookup id m.records)) [
    | inl missing ↦ rw (missing, add_event)
    | inr (r, found) ↦ rw (found, add_event)
  ]

  pub records-emit :
      (mirror : Option ListRef) (id : String) (e : Event F) (w : World F D)
      → (emit mirror id e w).store.records ≡ w.store.records
  unfolding emit
  records-emit mirror id e w =
      records-add_event id e (mirror_event mirror e w.store) ∙ records-mirror_event mirror e w.store

  -- With a mirror of its own, or none, the sink appends an event to the job's log once, and to no
  -- other log.
  pub emit_appends :
      (mirror : Option ListRef) (id : String) (e : Event F) (w : World F D) (past : List (Event F))
      → OwnLogs w.store
      → Separate mirror w.store
      → log id w.store ≡ some past
      → (log id (emit mirror id e w).store ≡ some (past ++ e ∷ []))
        × ((j : String) → j ≢ id → log j (emit mirror id e w).store ≡ log j w.store)
  unfolding emit
  emit_appends mirror id e w past own apart h =
      let m = mirror_event mirror e w.store in
      let (here, _, elsewhere) =
        add_event_appends id e m past (rw (records-mirror_event mirror e w.store) own)
          (log-mirror_event mirror e w.store id apart ∙ h) in
      (here, λ j other. elsewhere j other ∙ log-mirror_event mirror e w.store j apart)

  -- The bus gets the event with its place in the log.
  pub emit_publishes :
      (mirror : Option ListRef) (id : String) (e : Event F) (w : World F D) (past : List (Event F))
      → OwnLogs w.store
      → Separate mirror w.store
      → log id w.store ≡ some past
      → (emit mirror id e w).bus ≡ publish id (length past + 1) e w.bus
  unfolding emit
  emit_publishes mirror id e w past own apart h =
      let m = mirror_event mirror e w.store in
      let (_, seq, _) =
        add_event_appends id e m past (rw (records-mirror_event mirror e w.store) own)
          (log-mirror_event mirror e w.store id apart ∙ h) in
      ap (λ n. publish id n e w.bus) seq

  pub Separate-same :
      (mirror : Option ListRef) (m m' : Memory F D)
      → m'.records ≡ m.records
      → Separate mirror m
      → Separate mirror m'
  Separate-same none m m' same apart = tt
  Separate-same (some a) m m' same apart = rw same apart

  pub emit_all_appends :
      (mirror : Option ListRef) (id : String) (es : List (Event F)) (w : World F D)
      (past : List (Event F))
      → OwnLogs w.store
      → Separate mirror w.store
      → log id w.store ≡ some past
      → (log id (emit_all mirror id es w).store ≡ some (past ++ es))
        × ((emit_all mirror id es w).store.records ≡ w.store.records)
  unfolding emit_all
  emit_all_appends mirror id [] w past own apart h = (rw append-nil h, refl)
  emit_all_appends mirror id (e ∷ es) w past own apart h =
      let same = records-emit mirror id e w in
      let (logged, kept) =
        emit_all_appends mirror id es (emit mirror id e w) (past ++ e ∷ []) (rw same own)
          (Separate-same mirror w.store (emit mirror id e w).store same apart)
          (emit_appends mirror id e w past own apart h).0 in
      (rw (append_assoc past (e ∷ []) es) at logged, kept ∙ same)

  pub records-emit_all :
      (mirror : Option ListRef) (id : String) (es : List (Event F)) (w : World F D)
      → (emit_all mirror id es w).store.records ≡ w.store.records
  unfolding emit_all
  records-emit_all mirror id [] w = refl
  records-emit_all mirror id (e ∷ es) w =
      records-emit_all mirror id es (emit mirror id e w) ∙ records-emit mirror id e w

  -- Where the mirror is the stored log itself, one emitted event is appended twice.
  emit_doubles :
      (id : String) (e : Event F) (w : World F D) (r : JobRecord F D ListRef)
      (past : List (Event F))
      → lookup id w.store.records ≡ some r
      → w.store.heap r.events ≡ past
      → (emit (some r.events) id e w).store.heap r.events ≡ past ++ e ∷ e ∷ []
  unfolding emit mirror_event add_event append_at
  emit_doubles id e w r past found h =
      ground (arith, found, nat_beq_iff r.events r.events, append_assoc past (e ∷ []) (e ∷ []))

  pub emit_all_doubles :
      (id : String) (es : List (Event F)) (w : World F D) (r : JobRecord F D ListRef)
      (past : List (Event F))
      → lookup id w.store.records ≡ some r
      → w.store.heap r.events ≡ past
      → (emit_all (some r.events) id es w).store.heap r.events ≡ past ++ twice es
  unfolding emit_all
  emit_all_doubles id [] w r past found h = h ∙ sym (append-nil past)
  emit_all_doubles id (e ∷ es) w r past found h =
      emit_all_doubles id es (emit (some r.events) id e w) r (past ++ e ∷ e ∷ [])
        (rw (records-emit (some r.events) id e w) found) (emit_doubles id e w r past found h)
      ∙ append_assoc past (e ∷ e ∷ []) (twice es)
