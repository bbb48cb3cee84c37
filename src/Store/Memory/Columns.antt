-- ===== src/Store/Memory/Columns.antt =====
-- What `put` may change and what it keeps.
use fenix_spoon.Prelude.{
  ◌≡◌, refl, String, Option, some, ok, ◌==◌, string_eq, >>=-eq-ok, ◌+◌, if◌then◌else◌, arith,
}
use text.Mathlib.TextEquality.{eq_iff}
use fenix_spoon.Dict.{lookup, lookup-insert, lookup-insert_self}
use fenix_spoon.Series.{Series1DData}
use fenix_spoon.Store.{JobRecord, ResultSummary, summarize}
use fenix_spoon.Store.Memory.{Memory, ListRef, stored_or, put, mark_reused}

module _ {F D : Type 0} where
  -- The record that `put` leaves under the id, from what was there.
  unfoldable pub merged :
      Option (JobRecord F D ListRef)
      → JobRecord F D ListRef
      → Option (ResultSummary F)
      → JobRecord F D ListRef
  unfolding stored_or
  merged existing r summary = record r {
    events = stored_or existing (λ x. x.events) r;
    summary = summary;
    reused = stored_or existing (λ x. x.reused) r;
    cache_key = stored_or existing (λ x. x.cache_key) r;
    provenance = stored_or existing (λ x. x.provenance) r;
  }

module _ {F D : Type 0} (parse : D → Option (Series1DData F)) where
  pub lookup-put :
      (r : JobRecord F D ListRef) (m : Memory F D) {m' : Memory F D}
      → put parse r m ≡ ok m'
      → (s : Option (ResultSummary F)) × (summarize parse r ≡ ok s)
        × ((j : String)
            → lookup j m'.records ≡ (
                if r.id == j
                then some (merged (lookup r.id m.records) r s)
                else lookup j m.records))
  unfolding put merged
  lookup-put r m h =
      let (s, summarized, stored) = >>=-eq-ok (summarize parse r) _ h in
      (
        s,
        summarized,
        λ j. ground (arith, lookup-insert r.id j (merged (lookup r.id m.records) r s) m.records),
      )

  pub put_keeps_columns :
      (r old : JobRecord F D ListRef) (m : Memory F D) {m' : Memory F D}
      → put parse r m ≡ ok m'
      → lookup r.id m.records ≡ some old
      → (new : JobRecord F D ListRef) × (lookup r.id m'.records ≡ some new)
        × (new.status ≡ r.status)
        × (new.error ≡ r.error)
        × (new.finished_at ≡ r.finished_at)
        × (new.events ≡ old.events)
        × (new.reused ≡ old.reused)
        × (new.cache_key ≡ old.cache_key)
        × (new.provenance ≡ old.provenance)
        × ((j : String)
            → lookup j m'.records ≡ (if r.id == j then some new else lookup j m.records))
  unfolding merged stored_or
  put_keeps_columns r old m h found =
      let (s, _, look) = lookup-put r m h in
      (
        merged (some old) r s,
        ground (arith, look r.id, eq_iff r.id r.id),
        refl,
        refl,
        refl,
        refl,
        refl,
        refl,
        refl,
        λ j. ground (arith, look j, found),
      )

  -- A solve that began before a cache hit cannot walk the hit back.
  pub put-mark_reused :
      (r old : JobRecord F D ListRef) (m : Memory F D) {m' : Memory F D}
      → lookup r.id m.records ≡ some old
      → put parse r (mark_reused r.id m) ≡ ok m'
      → (new : JobRecord F D ListRef) × (lookup r.id m'.records ≡ some new)
        × (new.reused ≡ old.reused + 1)
        × (new.status ≡ r.status)
  unfolding mark_reused
  put-mark_reused r old m found h =
      let (new, at, st, _, _, _, reused, _, _, _) =
        put_keeps_columns r (record old { reused = old.reused + 1 }) (mark_reused r.id m) h
          (ground (
            arith,
            found,
            lookup-insert_self r.id (record old { reused = old.reused + 1 }) m.records,
          )) in
      (new, at, reused, st)
