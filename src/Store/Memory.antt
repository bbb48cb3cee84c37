-- ===== src/Store/Memory.antt =====
-- `MemoryJobStore` of server/fenixspoon/store.py. A stored record keeps the event list object that
-- it was first given, so the lists live in a heap, by address.
pub mod Columns
pub mod Log
pub mod Queries
pub mod Lookups
pub mod Reuse
pub mod Usage
use fenix_spoon.Prelude.{
  ℕ, zero, suc, ◌+◌, ◌≡◌, String, Bool, true, false, ◌&&◌, List, [], ◌∷◌, ◌++◌, map, Option, none,
  some, Result, ok, err, ◌>>=◌, ◌==◌, nat_eq, string_eq, if◌then◌else◌, ltb, leb, not, length, take,
  drop, keep, sum_by,
}
use fenix_spoon.Dict.{Dict, lookup, insert, delete, values}
use fenix_spoon.Series.{Series1DData, SeriesError}
use fenix_spoon.Store.{
  Status, Event, JobRecord, ResultSummary, InputValue, summarize, artifact_bytes, without_series,
  is_active, is_reusable, references,
}

-- The address of a list object.
abbrev pub ListRef : Type 0
ListRef = ℕ

pub record Memory (F D : Type 0) : Type 0 where
  pub records : Dict String (JobRecord F D ListRef)
  pub heap : ListRef → List (Event F)

-- `list.append` on the object at an address
unfoldable pub append_at :
    {F : Type 0} → ListRef → Event F → (ListRef → List (Event F)) → ListRef → List (Event F)
append_at a e heap b = if a == b then heap b ++ e ∷ [] else heap b

module _ {F D : Type 0} where
  -- A field of the stored record, where there is one.
  unfoldable pub stored_or :
      {A : Type 0}
      → Option (JobRecord F D ListRef)
      → (JobRecord F D ListRef → A)
      → JobRecord F D ListRef
      → A
  stored_or none field r = field r
  stored_or (some old) field r = field old

  -- `put`: the log and the cache columns of a record that is there already are kept.
  unfoldable pub put :
      (D → Option (Series1DData F))
      → JobRecord F D ListRef
      → Memory F D
      → Result SeriesError (Memory F D)
  unfolding stored_or
  put parse r m = do
    summary ← summarize parse r
    let existing = lookup r.id m.records
    ok (record m {
      records =
          insert r.id
            (record r {
              events = stored_or existing (λ x. x.events) r;
              summary = summary;
              reused = stored_or existing (λ x. x.reused) r;
              cache_key = stored_or existing (λ x. x.cache_key) r;
              provenance = stored_or existing (λ x. x.provenance) r;
            })
            m.records;
    })

  unfoldable pub add_event : String → Event F → Memory F D → Memory F D × ℕ
  unfolding append_at
  add_event job_id e m = elim (lookup job_id m.records) [
    | none ↦ (m, 0)
    | some r ↦ (
      record m { heap = append_at r.events e m.heap },
      length (append_at r.events e m.heap r.events),
    )
  ]

  -- A record with its events read.
  unfoldable pub read : Memory F D → JobRecord F D ListRef → JobRecord F D (List (Event F))
  read m r = record {
    id = r.id;
    solver = r.solver;
    status = r.status;
    owner = r.owner;
    error = r.error;
    created_at = r.created_at;
    finished_at = r.finished_at;
    result = r.result;
    artifacts = r.artifacts;
    events = m.heap r.events;
    summary = r.summary;
    reused = r.reused;
    cache_key = r.cache_key;
    inputs = r.inputs;
    provenance = r.provenance;
  }

  -- `get`: the stored record whole, or a copy with the parts that were asked for
  unfoldable pub get :
      (D → Option (Series1DData F))
      → String
      → Bool
      → Bool
      → Memory F D
      → Result SeriesError (Option (JobRecord F D (List (Event F))))
  unfolding read
  get parse job_id with_result with_events m = elim (lookup job_id m.records) [
    | none ↦ ok none
    | some r ↦ if with_result && with_events then ok (some (read m r)) else (do
      summary ← summarize parse r
      ok (
          some (record (read m r) {
            result = if with_result then r.result else none;
            events = if with_events then m.heap r.events else [];
            summary = summary;
          })))
  ]

  unfoldable pub doomed_ids : ℕ → Memory F D → List String
  doomed_ids cutoff m = map (λ r. r.id) (keep (λ r. ltb r.created_at cutoff) (values m.records))

  unfoldable pub delete_all :
      List String → Dict String (JobRecord F D ListRef) → Dict String (JobRecord F D ListRef)
  delete_all [] d = d
  delete_all (j ∷ js) d = delete_all js (delete j d)

  -- `del` of every record created before the cutoff, and their ids
  unfoldable pub purge_before : ℕ → Memory F D → Memory F D × List String
  unfolding doomed_ids delete_all
  purge_before cutoff m =
      let doomed = doomed_ids cutoff m in
      (record m { records = delete_all doomed m.records }, doomed)

  unfoldable pub mark_reused : String → Memory F D → Memory F D
  mark_reused job_id m = elim (lookup job_id m.records) [
    | none ↦ m
    | some r ↦ record m { records = insert job_id (record r { reused = r.reused + 1 }) m.records }
  ]
