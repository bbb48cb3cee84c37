-- ===== src/Store/Sqlite/Refines.antt =====
-- The SQLite store against the memory store (server/fenixspoon/store.py): a caller that reads jobs
-- cannot tell one from the other.
use fenix_spoon.Store.Memory.Log.{OwnLogs}
use fenix_spoon.Prelude.{
  length, ◌≡◌, refl, sym, ap, ◌∙◌, subst, ◌⊎◌, inl, inr, ◌+◌, String, Bool, false, [], Option, none,
  some, ok, ◌==◌, nat_eq, string_eq, if◌then◌else◌, arith, Option-cases, Bool-cases,
}
use fenix_spoon.Dict.{lookup-insert_self, Dict, lookup, insert, lookup-insert}
use fenix_spoon.Series.{Series1DData}
use fenix_spoon.Store.{JobRecord, summarize}
use fenix_spoon.Store.Memory.{read, Memory, ListRef, append_at, stored_or}
use fenix_spoon.Store.Memory
use fenix_spoon.Store.Sqlite.{
  Row, Sqlite, shown_summary, events_of, last_seq, mark_reused, get, record_from,
}

module _ {F D : Type 0} (parse : D → Option (Series1DData F)) where
  -- A stored record and a row say the same of a job, but for its log.
  pub record SameJob (r : JobRecord F D ListRef) (row : Row F) : Type 0 where
    pub id : r.id ≡ row.id
    pub solver : r.solver ≡ row.solver
    pub status : r.status ≡ row.status
    pub owner : r.owner ≡ row.owner
    pub error : r.error ≡ row.error
    pub created_at : r.created_at ≡ row.created_at
    pub finished_at : r.finished_at ≡ row.finished_at
    pub artifacts : r.artifacts ≡ row.artifacts
    pub reused : r.reused ≡ row.reused
    pub cache_key : r.cache_key ≡ row.cache_key
    pub inputs : r.inputs ≡ row.inputs
    pub provenance : r.provenance ≡ row.provenance
    pub summary : summarize parse r ≡ ok (shown_summary row.summary)

  abbrev pub SameEntry :
      Memory F D → Sqlite F D → String → Option (JobRecord F D ListRef) → Option (Row F) → Type 0
  SameEntry m s j none none = events_of j s.events ≡ []
  SameEntry m s j none (some row) = ⊥
  SameEntry m s j (some r) none = ⊥
  SameEntry m s j (some r) (some row) =
      SameJob r row × (m.heap r.events ≡ events_of j s.events) × (row.id ≡ j)

  -- The two stores say the same of every job. The memory store's logs are apart, and the events of a
  -- table are numbered from 1 without gaps.
  pub record Same (m : Memory F D) (s : Sqlite F D) : Type 0 where
    pub entry : (j : String) → SameEntry m s j (lookup j m.records) (lookup j s.jobs)
    pub own : OwnLogs m
    pub numbered : (j : String) → last_seq j s.events ≡ length (events_of j s.events)

  get-SameEntry :
      (m : Memory F D) (s : Sqlite F D) (j : String) (with_events : Bool)
      (r : Option (JobRecord F D ListRef)) (row : Option (Row F))
      → lookup j m.records ≡ r
      → lookup j s.jobs ≡ row
      → SameEntry m s j r row
      → Memory.get parse j false with_events m ≡ ok (get j false with_events s)
  unfolding Memory.get get record_from read
  get-SameEntry m s j with_events none none there there' h = ground (arith, there, there')
  get-SameEntry m s j with_events none (some row) there there' h = absurd h
  get-SameEntry m s j with_events (some r) none there there' h = absurd h
  get-SameEntry m s j with_events (some r) (some row) there there' h =
      let f = h.0 in
      ground (
        arith, there, there', f.id, f.solver, f.status, f.owner, f.error, f.created_at,
        f.finished_at, f.artifacts, f.reused, f.cache_key, f.inputs, f.provenance, f.summary, h.1,
      )

  -- A reader who leaves the payload cannot tell the stores apart.
  pub get-Same :
      (m : Memory F D) (s : Sqlite F D) (j : String) (with_events : Bool)
      → Same m s
      → Memory.get parse j false with_events m ≡ ok (get j false with_events s)
  get-Same m s j with_events same =
      get-SameEntry m s j with_events (lookup j m.records) (lookup j s.jobs) refl refl
        (same.entry j)

  pub entry_at :
      (m : Memory F D) (s : Sqlite F D) (j : String) (r : Option (JobRecord F D ListRef))
      (row : Option (Row F))
      → lookup j m.records ≡ r
      → lookup j s.jobs ≡ row
      → SameEntry m s j r row
      → SameEntry m s j (lookup j m.records) (lookup j s.jobs)
  entry_at m s j r row there there' h =
      subst (λ o. SameEntry m s j o (lookup j s.jobs)) (sym there)
        (subst (λ o. SameEntry m s j r o) (sym there') h)

  -- the other way round, where both lookups are known
  pub entry_of :
      (m : Memory F D) (s : Sqlite F D) (j : String) (r : Option (JobRecord F D ListRef))
      (row : Option (Row F))
      → lookup j m.records ≡ r
      → lookup j s.jobs ≡ row
      → Same m s
      → SameEntry m s j r row
  entry_of m s j r row there there' same =
      subst (λ o. SameEntry m s j r o) there'
        (subst (λ o. SameEntry m s j o (lookup j s.jobs)) there (same.entry j))

  -- Both stores have a job, or neither has.
  abbrev pub Found : Memory F D → Sqlite F D → String → Type 0
  Found m s j =
      ((lookup j m.records ≡ none) × (lookup j s.jobs ≡ none) × (events_of j s.events ≡ []))
      ⊎ ((r : JobRecord F D ListRef) × (row : Row F) × (lookup j m.records ≡ some r)
          × (lookup j s.jobs ≡ some row)
          × SameJob r row
          × (m.heap r.events ≡ events_of j s.events)
          × (row.id ≡ j))

  pub Found-Same : (m : Memory F D) (s : Sqlite F D) (j : String) → Same m s → Found m s j
  Found-Same m s j same = elim (Option-cases (lookup j m.records)) [
    | inl absent ↦ elim (Option-cases (lookup j s.jobs)) [
      | inl absent' ↦ inl (absent, absent', entry_of m s j none none absent absent' same)
      | inr (row, there') ↦ absurd (entry_of m s j none (some row) absent there' same)
    ]
    | inr (r, there) ↦ elim (Option-cases (lookup j s.jobs)) [
      | inl absent' ↦ absurd (entry_of m s j (some r) none there absent' same)
      | inr (row, there') ↦
          let h = entry_of m s j (some r) (some row) there there' same in
          inr (r, row, there, there', h.0, h.1, h.2)
    ]
  ]

  pub SameJob-bump :
      (r : JobRecord F D ListRef) (row : Row F)
      → SameJob r row
      → SameJob (record r { reused = r.reused + 1 }) (record row { reused = row.reused + 1 })
  unfolding summarize
  SameJob-bump r row h = record {
    id = h.id;
    solver = h.solver;
    status = h.status;
    owner = h.owner;
    error = h.error;
    created_at = h.created_at;
    finished_at = h.finished_at;
    artifacts = h.artifacts;
    reused = ap (λ n. n + 1) h.reused;
    cache_key = h.cache_key;
    inputs = h.inputs;
    provenance = h.provenance;
    summary = h.summary;
  }

  -- Writing one entry of each table, and neither log, keeps the stores the same if the entries are.
  pub insert-Same :
      (m : Memory F D) (s : Sqlite F D) (k : String) (r : JobRecord F D ListRef) (row : Row F)
      (files : Dict String D)
      → Same m s
      → OwnLogs (record m { records = insert k r m.records })
      → SameJob r row
      → m.heap r.events ≡ events_of k s.events
      → row.id ≡ k
      → Same
          (record m { records = insert k r m.records })
          (record s { jobs = insert k row s.jobs; files = files })
  insert-Same m s k r row files same own job log keyed =
      let m' : Memory F D = record m { records = insert k r m.records } in
      let s' : Sqlite F D = record s { jobs = insert k row s.jobs; files = files } in
      record {
        entry = λ j. elim (Bool-cases (k == j)) [
          | inl here ↦
              subst (λ i. SameEntry m' s' i (lookup i m'.records) (lookup i s'.jobs))
                ((string_eq.beq_iff k j).0 here)
                (entry_at m' s' k (some r) (some row) (lookup-insert_self k r m.records)
                  (lookup-insert_self k row s.jobs) (job, log, keyed))
          | inr other ↦
              entry_at m' s' j (lookup j m.records) (lookup j s.jobs)
                (lookup-insert k j r m.records
                  ∙ ap (λ b. if b then some r else lookup j m.records) other)
                (lookup-insert k j row s.jobs
                  ∙ ap (λ b. if b then some row else lookup j s.jobs) other)
                (same.entry j)
        ];
        own = own;
        numbered = same.numbered;
      }

  pub OwnLogs-insert :
      (m : Memory F D) (k : String) (r old : JobRecord F D ListRef)
      → OwnLogs m
      → lookup k m.records ≡ some old
      → r.events ≡ old.events
      → OwnLogs (record m { records = insert k r m.records })
  OwnLogs-insert m k r old own found log i j a b ea eb same = ground (
    arith,
    found,
    log,
    lookup-insert k i r m.records,
    lookup-insert k j r m.records,
    string_eq.beq_iff k i,
    string_eq.beq_iff k j,
    own i j a b,
    own k j old b found,
    own i k a old,
  )

  -- Counting a use, of a job that is there or of none.
  pub mark_reused-Same :
      (m : Memory F D) (s : Sqlite F D) (k : String)
      → Same m s
      → Same (Memory.mark_reused k m) (mark_reused k s)
  unfolding mark_reused Memory.mark_reused
  mark_reused-Same m s k same = elim (Found-Same m s k same) [
    | inl (absent, absent', _) ↦
        subst (λ n. Same n (mark_reused k s)) (rw (Memory.mark_reused, absent) refl)
          (subst (Same m) (rw (mark_reused, absent') refl) same)
    | inr (r, row, there, there', job, log, keyed) ↦
        let r' : JobRecord F D ListRef = record r { reused = r.reused + 1 } in
        let row' : Row F = record row { reused = row.reused + 1 } in
        let m' : Memory F D = record m { records = insert k r' m.records } in
        let s' : Sqlite F D = record s { jobs = insert k row' s.jobs } in
        subst (λ n. Same n (mark_reused k s)) (rw (Memory.mark_reused, there) refl)
          (subst (Same m') (rw (mark_reused, there') refl) (
            insert-Same m s k r' row' s.files same (OwnLogs-insert m k r' r same.own there refl)
              (SameJob-bump r row job) log keyed))
  ]
