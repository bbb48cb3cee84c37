-- ===== src/Execution/Ready.antt =====
-- A store and a sink in order: every job with a list object of its own, the mirror apart from them.
use fenix_spoon.Prelude.{
  ◌≡◌, String, Option, none, some, ok, List, [], ◌∷◌, ◌++◌, inl, inr, Option-cases, arith,
  string_eq,
}
use fenix_spoon.Dict.{lookup}
use fenix_spoon.Series.{Series1DData}
use fenix_spoon.Store.{JobRecord, Event}
use fenix_spoon.Store.Memory.{Memory, ListRef, put}
use fenix_spoon.Store.Memory.Log.{log, OwnLogs, put_same_log, put_keeps_OwnLogs, put_keeps_log}
use fenix_spoon.Execution.{World, emit, emit_all}
use fenix_spoon.Execution.Sink.{
  Separate, Separate-same, emit_appends, emit_all_appends, records-emit,
}

module _ {F D : Type 0} where
  pub record Ready (mirror : Option ListRef) (id : String) (w : World F D) (l : List (Event F))
      : Type 0 where
    pub own : OwnLogs w.store
    pub apart : Separate mirror w.store
    pub logged : log id w.store ≡ some l

  pub emit-Ready :
      (mirror : Option ListRef) (id : String) (e : Event F) (w : World F D) (l : List (Event F))
      → Ready mirror id w l
      → Ready mirror id (emit mirror id e w) (l ++ e ∷ [])
  emit-Ready mirror id e w l g = record {
    own = rw (records-emit mirror id e w) g.own;
    apart =
        Separate-same mirror w.store (emit mirror id e w).store (records-emit mirror id e w)
          g.apart;
    logged = (emit_appends mirror id e w l g.own g.apart g.logged).0;
  }

  pub emit_all-Ready :
      (mirror : Option ListRef) (id : String) (es : List (Event F)) (w : World F D)
      (l : List (Event F))
      → Ready mirror id w l
      → Ready mirror id (emit_all mirror id es w) (l ++ es)
  emit_all-Ready mirror id es w l g =
      let (logged, same) = emit_all_appends mirror id es w l g.own g.apart g.logged in
      record {
        own = rw same g.own;
        apart = Separate-same mirror w.store (emit_all mirror id es w).store same g.apart;
        logged = logged;
      }

  -- A logged job is in the store.
  stored_of_log :
      (id : String) (m : Memory F D) (l : List (Event F))
      → log id m ≡ some l
      → (s : JobRecord F D ListRef) × (lookup id m.records ≡ some s)
  unfolding log
  stored_of_log id m l h = elim (Option-cases (lookup id m.records)) [
    | inl missing ↦ absurd (ground (arith, missing))
    | inr found ↦ found
  ]

  Separate-put :
      (parse : D → Option (Series1DData F)) (mirror : Option ListRef) (r s : JobRecord F D ListRef)
      (m : Memory F D) {m' : Memory F D}
      → put parse r m ≡ ok m'
      → lookup r.id m.records ≡ some s
      → Separate mirror m
      → Separate mirror m'
  Separate-put parse none r s m h found apart = tt
  Separate-put parse (some a) r s m h found apart = λ j t at.
      let (t', there, same) = put_same_log parse r s m h found j t at in
      λ clash. apart j t' there (cc)

  pub put-Ready :
      (parse : D → Option (Series1DData F)) (mirror : Option ListRef) (r : JobRecord F D ListRef)
      (w : World F D) (l : List (Event F)) {m' : Memory F D}
      → Ready mirror r.id w l
      → put parse r w.store ≡ ok m'
      → Ready mirror r.id (record w { store = m' }) l
  put-Ready parse mirror r w l g h =
      let (s, found) = stored_of_log r.id w.store l g.logged in
      record {
        own = put_keeps_OwnLogs parse r s w.store h found g.own;
        apart = Separate-put parse mirror r s w.store h found g.apart;
        logged = put_keeps_log parse r s w.store h found r.id l g.logged;
      }
