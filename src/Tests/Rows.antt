-- ===== src/Tests/Rows.antt =====
-- One job in the memory store and in the SQLite store, written, logged and used again.
use fenix_spoon.Prelude.{◌≡◌, refl, ℕ, String, Bool, false, List, [], ◌∷◌, ok, arith}
use fenix_spoon.Dict.{lookup, insert}
use fenix_spoon.Store.{summarize, status, failed}
use fenix_spoon.Store.Memory.{Memory, stored_or}
use fenix_spoon.Store.Memory
use fenix_spoon.Store.Sqlite.{Sqlite, get}
use fenix_spoon.Store.Sqlite.Calls.{
  Call, save, log_event, count_use, Ran, stop, then, writable, there, any_job, no_memory, no_rows,
  memory_call, rows_calls, rows_calls-get,
}
use fenix_spoon.Store.Sqlite.Writes.{Writable}
use fenix_spoon.Tests.Stored.{one_job, no_curve}

one_job-Writable : Writable no_curve one_job no_memory
unfolding lookup
one_job-Writable = record {
  fresh = λ new j s h. absurd (ground (arith, h));
  empty = λ new. refl;
  unused = λ new. refl;
  solver = λ old h. absurd (ground (arith, h));
  owner = λ old h. absurd (ground (arith, h));
  created_at = λ old h. absurd (ground (arith, h));
  inputs = λ old h. absurd (ground (arith, h));
  kind = λ res h. absurd (ground (arith, h));
  unsolved = λ h. refl;
}

abbrev calls : List (Call ℕ ℕ)
calls = save one_job ∷ log_event "j-1" (status failed) ∷ count_use "j-1" ∷ []

abbrev written : Memory ℕ ℕ
written = record { records = ("j-1", one_job) ∷ []; heap = λ a. [] }

abbrev after : Memory ℕ ℕ
after = Memory.mark_reused "j-1" (Memory.add_event "j-1" (status failed) written).0

calls-Ran : Ran no_curve no_memory calls after (0 ∷ 1 ∷ 0 ∷ [])
unfolding lookup memory_call Memory.put Memory.add_event Memory.mark_reused summarize stored_or
    insert
calls-Ran = then _ written _ _ _ _ _ (writable one_job no_memory one_job-Writable) refl (
    then _ _ _ _ _ _ _ (there "j-1" _ written one_job refl) refl
      (then _ _ _ _ _ _ _ (any_job "j-1" _) refl (stop _)))

rows_calls-get_example :
    (s : Sqlite ℕ ℕ) × (rows_calls no_curve calls no_rows ≡ ok (s, 0 ∷ 1 ∷ 0 ∷ []))
    × ((j : String) (with_events : Bool)
        → Memory.get no_curve j false with_events after ≡ ok (get j false with_events s))
rows_calls-get_example = rows_calls-get no_curve calls after (0 ∷ 1 ∷ 0 ∷ []) calls-Ran
