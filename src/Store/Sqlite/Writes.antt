-- ===== src/Store/Sqlite/Writes.antt =====
-- `put` of the two stores (server/fenixspoon/store.py), one against the other.
use fenix_spoon.Store.Memory.Log.{FreshLog, put-OwnLogs, put_keeps_OwnLogs}
use fenix_spoon.Prelude.{
  ◌≡◌, refl, sym, ap, ◌∙◌, subst, inl, inr, false, [], Option, none, some, ok, ◌==◌, nat_eq,
  string_eq, >>=-eq-ok, arith, Option-cases, Result-cases, ok-injective,
}
use fenix_spoon.Dict.{lookup, insert}
use fenix_spoon.Series.{Series1DData, curves_of}
use fenix_spoon.Store.{JobRecord, ResultSummary, SolverResult, summarize, summary_of}
use fenix_spoon.Store.Memory.{read, Memory, ListRef, append_at, stored_or}
use fenix_spoon.Store.Memory
use fenix_spoon.Store.Memory.Columns.{merged, lookup-put}
use fenix_spoon.Store.Sqlite.{
  Row, Sqlite, shown_summary, inserted_row, updated, columns_of, with_file, put,
}
use fenix_spoon.Store.Sqlite.Refines.{SameJob, Same, Found-Same, insert-Same}

module _ {F D : Type 0} (parse : D → Option (Series1DData F)) where
  -- A write that both stores can take: a record that was inserted keeps its solver, owner, creation
  -- time and inputs; a new one has an empty log of its own and no uses; a result has a kind, and a
  -- record without a result has no summary.
  pub record Writable (r : JobRecord F D ListRef) (m : Memory F D) : Type 0 where
    pub fresh : lookup r.id m.records ≡ none → FreshLog r m
    pub empty : lookup r.id m.records ≡ none → m.heap r.events ≡ []
    pub unused : lookup r.id m.records ≡ none → r.reused ≡ 0
    pub solver :
        (old : JobRecord F D ListRef) → lookup r.id m.records ≡ some old → r.solver ≡ old.solver
    pub owner :
        (old : JobRecord F D ListRef) → lookup r.id m.records ≡ some old → r.owner ≡ old.owner
    pub created_at :
        (old : JobRecord F D ListRef)
        → lookup r.id m.records ≡ some old
        → r.created_at ≡ old.created_at
    pub inputs :
        (old : JobRecord F D ListRef) → lookup r.id m.records ≡ some old → r.inputs ≡ old.inputs
    pub kind : (res : SolverResult F D) → r.result ≡ some res → (res.kind == "") ≡ false
    pub unsolved : r.result ≡ none → r.summary ≡ none

  -- The columns of a record are its summary.
  columns_of-summarize :
      (r : JobRecord F D ListRef)
      → (r.result ≡ none → r.summary ≡ none)
      → columns_of parse r.result ≡ summarize parse r
  unfolding columns_of summarize
  columns_of-summarize r unsolved = elim (Option-cases r.result) [
    | inl bare ↦ ground (arith, bare, unsolved bare)
    | inr (res, solved) ↦ ground (arith, solved)
  ]

  shown_summary-summarize :
      (r : JobRecord F D ListRef) (m : Memory F D) (x : Option (ResultSummary F))
      → Writable r m
      → summarize parse r ≡ ok x
      → shown_summary x ≡ x
  unfolding summarize summary_of shown_summary
  shown_summary-summarize r m x w h = elim (Option-cases r.result) [
    | inl bare ↦ ground (arith, bare, w.unsolved bare)
    | inr (res, solved) ↦ elim (Result-cases (summary_of parse res)) [
      | inr (s, good) ↦
          let (curves, _, made) =
            >>=-eq-ok (curves_of parse res.kind res.payload res.series) _ good in
          ground (arith, solved, h, good, made, w.kind res solved)
      | inl (e, bad) ↦ absurd (ground (arith, solved, bad, h))
    ]
  ]

  merged_summary :
      (old : Option (JobRecord F D ListRef)) (r : JobRecord F D ListRef)
      (x : Option (ResultSummary F))
      → summarize parse r ≡ ok x
      → summarize parse (merged old r x) ≡ ok x
  unfolding summarize merged
  merged_summary old r x h = elim (Option-cases r.result) [
    | inl bare ↦ ground (arith, bare)
    | inr (res, solved) ↦ ground (arith, solved)
  ]

  SameJob-inserted :
      (r : JobRecord F D ListRef) (x : Option (ResultSummary F))
      → r.reused ≡ 0
      → summarize parse r ≡ ok x
      → shown_summary x ≡ x
      → SameJob parse (merged none r x) (updated none (inserted_row x r))
  unfolding merged updated inserted_row stored_or
  SameJob-inserted r x unused h shown = record {
    id = refl;
    solver = refl;
    status = refl;
    owner = refl;
    error = refl;
    created_at = refl;
    finished_at = refl;
    artifacts = refl;
    reused = unused;
    cache_key = refl;
    inputs = refl;
    provenance = refl;
    summary = merged_summary none r x h ∙ ap ok (sym shown);
  }

  SameJob-updated :
      (r old : JobRecord F D ListRef) (m : Memory F D) (row : Row F) (x : Option (ResultSummary F))
      → Writable r m
      → lookup r.id m.records ≡ some old
      → SameJob parse old row
      → row.id ≡ r.id
      → summarize parse r ≡ ok x
      → shown_summary x ≡ x
      → SameJob parse (merged (some old) r x) (updated (some row) (inserted_row x r))
  unfolding merged updated inserted_row stored_or
  SameJob-updated r old m row x w at job keyed h shown = record {
    id = sym keyed;
    solver = w.solver old at ∙ job.solver;
    status = refl;
    owner = w.owner old at ∙ job.owner;
    error = refl;
    created_at = w.created_at old at ∙ job.created_at;
    finished_at = refl;
    artifacts = refl;
    reused = job.reused;
    cache_key = job.cache_key;
    inputs = w.inputs old at ∙ job.inputs;
    provenance = job.provenance;
    summary = merged_summary (some old) r x h ∙ ap ok (sym shown);
  }

  put_stores :
      (r : JobRecord F D ListRef) (m : Memory F D) (x : Option (ResultSummary F))
      → summarize parse r ≡ ok x
      → Memory.put parse r m
        ≡ ok (record m { records = insert r.id (merged (lookup r.id m.records) r x) m.records })
  unfolding Memory.put merged
  put_stores r m x h = ground (arith, h)

  module _ (r : JobRecord F D ListRef) (m : Memory F D) (s : Sqlite F D)
      (x : Option (ResultSummary F)) (same : Same parse m s) (w : Writable r m)
      (good : summarize parse r ≡ ok x) where
    put-Same_stored :
        Same parse
          (record m { records = insert r.id (merged (lookup r.id m.records) r x) m.records })
          (record s {
            jobs = insert r.id (updated (lookup r.id s.jobs) (inserted_row x r)) s.jobs;
            files = with_file r.id r.result s.files;
          })
    unfolding merged updated inserted_row
    put-Same_stored = elim (Found-Same parse m s r.id same) [
      | inl (absent, absent', silent) ↦
          let job =
            SameJob-inserted r x (w.unused absent) good (shown_summary-summarize r m x w good) in
          let own = put-OwnLogs parse r m same.own (w.fresh absent) (put_stores r m x good) in
          insert-Same parse m s r.id _ _ (with_file r.id r.result s.files) same own
            (rw (absent, absent') job) (rw (absent) (w.empty absent ∙ sym silent))
            (rw (absent') refl)
      | inr (a, row, at, at', job, log, keyed) ↦
          let updated_job =
            SameJob-updated r a m row x w at job keyed good
              (shown_summary-summarize r m x w good) in
          let own = put_keeps_OwnLogs parse r a m (put_stores r m x good) at same.own in
          insert-Same parse m s r.id _ _ (with_file r.id r.result s.files) same own
            (rw (at, at') updated_job) (rw (at) log) (rw (at') keyed)
    ]

  -- Writing a record in both stores.
  pub put-Same :
      (r : JobRecord F D ListRef) (m : Memory F D) (s : Sqlite F D) {m' : Memory F D}
      → Same parse m s
      → Writable r m
      → Memory.put parse r m ≡ ok m'
      → (s' : Sqlite F D) × (put parse r s ≡ ok s') × Same parse m' s'
  unfolding put
  put-Same r m s same w h =
      let (x, good, _) = lookup-put parse r m h in
      let s' : Sqlite F D = record s {
        jobs = insert r.id (updated (lookup r.id s.jobs) (inserted_row x r)) s.jobs;
        files = with_file r.id r.result s.files;
      } in
      (
        s',
        rw (columns_of-summarize r w.unsolved, good) refl,
        subst (λ n. Same parse n s') (ok-injective (sym (put_stores r m x good) ∙ h))
            (put-Same_stored r m s x same w good),
      )
