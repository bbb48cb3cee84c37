-- ===== src/Jobs/Sweeps.antt =====
-- `reconcile` and `purge_expired` of server/fenixspoon/jobs.py: what a manager does with the jobs
-- that a previous process left, and with those past their time.
use fenix_spoon.Prelude.{
  ◌++◌, ℕ, ◌-◌, String, List, [], ◌∷◌, Option, none, some, Result, ok, ◌>>=◌, ◌==◌, string_eq,
  nat_eq, if◌then◌else◌, contains,
}
use fenix_spoon.Dict.{Dict, lookup, delete, keys}
use fenix_spoon.Series.{Series1DData, SeriesError}
use fenix_spoon.Store.{failed, Event}
use fenix_spoon.Store.Memory.{Memory, put, add_event, purge_before}
use fenix_spoon.Store.Memory.Queries.{unfinished_ids}
use fenix_spoon.Jobs.{Job, Manager, with_store}

abbrev pub restart_error : String
restart_error = "server restarted while this job was running"

module _ {F D : Type 0} where
  -- One job of `reconcile`: nobody is solving it, so it fails, in the store and in its log.
  unfoldable pub fail_stranded :
      (D → Option (Series1DData F))
      → ℕ
      → String
      → Memory F D
      → Result SeriesError (Memory F D × List String)
  fail_stranded parse now job_id store = elim (lookup job_id store.records) [
    | none ↦ ok (store, [])
    | some r ↦ do
      written ←
          put parse
            (record r { status = failed; error = some restart_error; finished_at = some now }) store
      ok (
        (add_event job_id (Event.status_error failed (some restart_error)) written).0,
        job_id ∷ [],
      )
  ]

  unfoldable pub reconcile_each :
      (D → Option (Series1DData F))
      → ℕ
      → List String
      → List String
      → Memory F D
      → Result SeriesError (Memory F D × List String)
  unfolding fail_stranded
  reconcile_each parse now active [] store = ok (store, [])
  reconcile_each parse now active (j ∷ js) store =
      let skipped = reconcile_each parse now active js store in
      let failed_too = fail_stranded parse now j store >>= λ first.
      reconcile_each parse now active js first.0 >>= λ later. ok (later.0, first.1 ++ later.1) in
      if contains j active then skipped else failed_too

  unfoldable pub reconcile :
      (D → Option (Series1DData F))
      → ℕ
      → Manager F D
      → Result SeriesError (Manager F D × List String)
  unfolding reconcile_each
  reconcile parse now m =
      if m.runs_locally
      then (reconcile_each parse now (keys m.cancels) (unfinished_ids m.world.store) m.world.store
          >>= λ out. ok (with_store m out.0, out.1))
      else ok (m, [])

  unfoldable pub drop_live : List String → Dict String (Job F D) → Dict String (Job F D)
  drop_live [] jobs = jobs
  drop_live (j ∷ js) jobs = drop_live js (delete j jobs)

  -- `purge_expired`; a cutoff before the epoch purges nothing
  unfoldable pub purge_expired : ℕ → Manager F D → Manager F D × List String
  unfolding drop_live
  purge_expired now m =
      if m.job_ttl == 0
      then (m, [])
      else (let (store, purged) = purge_before (now - m.job_ttl) m.world.store in
          (record (with_store m store) { jobs = drop_live purged m.jobs }, purged))
