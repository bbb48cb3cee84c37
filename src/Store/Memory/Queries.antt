-- ===== src/Store/Memory/Queries.antt =====
-- The queries of `MemoryJobStore`: listing, counting, usage, the cache and input lookups.
use fenix_spoon.Prelude.{
  ℕ, String, Bool, true, false, ◌&&◌, List, [], ◌∷◌, Option, none, some, Result, ok, ◌>>=◌, ◌==◌,
  string_eq, if◌then◌else◌, leb, length, take, drop, keep, sum_by, map,
}
use fenix_spoon.Dict.{values}
use fenix_spoon.Series.{Series1DData, SeriesError}
use fenix_spoon.Store.{
  Event, JobRecord, summarize, artifact_bytes, without_series, is_active, is_reusable, references,
}
use fenix_spoon.Store.Memory.{Memory, ListRef, read, get}

-- `owner is None or r.owner == owner`
unfoldable pub visible_to : Option String → String → Bool
visible_to none owner = true
visible_to (some mine) owner = owner == mine

-- `r.cache_key == cache_key`
unfoldable pub has_key : String → Option String → Bool
has_key key none = false
has_key key (some k) = k == key

module _ {F D E : Type 0} where
  -- `sorted(…, key=created_at, reverse=True)`, which keeps the order of equal keys
  unfoldable pub place : JobRecord F D E → List (JobRecord F D E) → List (JobRecord F D E)
  place r [] = r ∷ []
  place r (x ∷ xs) =
      let rest = place r xs in if leb x.created_at r.created_at then r ∷ x ∷ xs else x ∷ rest

  unfoldable pub newest_first : List (JobRecord F D E) → List (JobRecord F D E)
  unfolding place
  newest_first [] = []
  newest_first (r ∷ rs) = place r (newest_first rs)

  -- `max(…, key=created_at)`, the first of equals
  unfoldable pub newest : JobRecord F D E → List (JobRecord F D E) → JobRecord F D E
  newest best [] = best
  newest best (x ∷ xs) = newest (if leb x.created_at best.created_at then best else x) xs

module _ {F D : Type 0} where
  abbrev pub records_of : Memory F D → List (JobRecord F D ListRef)
  records_of m = values m.records

  unfoldable pub matching : Option String → Memory F D → List (JobRecord F D ListRef)
  unfolding visible_to
  matching owner m = keep (λ r. visible_to owner r.owner) (records_of m)

  -- `[replace(r, result=None, events=[], summary=…) for r in page]`
  unfoldable pub rows :
      (D → Option (Series1DData F))
      → Bool
      → Memory F D
      → List (JobRecord F D ListRef)
      → Result SeriesError (List (JobRecord F D (List (Event F))))
  unfolding read
  rows parse with_series m [] = ok []
  rows parse with_series m (r ∷ rs) =
      let rest = rows parse with_series m rs in
      do
        summary ← summarize parse r
        shown ← rest
        ok (
            record (read m r) {
              result = none;
              events = [];
              summary = if with_series then summary else without_series summary;
            }
            ∷ shown)

  unfoldable pub page : ℕ → ℕ → Option String → Memory F D → List (JobRecord F D ListRef)
  unfolding matching newest_first
  page limit offset owner m = take limit (drop offset (newest_first (matching owner m)))

  unfoldable pub list_jobs :
      (D → Option (Series1DData F))
      → ℕ
      → ℕ
      → Option String
      → Memory F D
      → Result SeriesError (List (JobRecord F D (List (Event F))))
  list_jobs parse limit offset owner m = rows parse false m (page limit offset owner m)

  unfoldable pub count : Option String → Memory F D → ℕ
  count none m = length (records_of m)
  count (some owner) m = length (keep (λ r. r.owner == owner) (records_of m))

  -- active jobs, jobs created since, artifact bytes
  unfoldable pub usage : String → ℕ → Memory F D → ℕ × ℕ × ℕ
  usage owner since m =
      let mine = keep (λ r. r.owner == owner) (records_of m) in
      (
        length (keep (λ r. is_active r.status) mine),
        length (keep (λ r. leb since r.created_at) mine),
        sum_by artifact_bytes mine,
      )

  unfoldable pub serves : String → String → JobRecord F D ListRef → Bool
  unfolding has_key
  serves key owner r = r.owner == owner && has_key key r.cache_key && is_reusable r.status

  unfoldable pub pick_newest : List (JobRecord F D ListRef) → Option (JobRecord F D ListRef)
  unfolding newest
  pick_newest [] = none
  pick_newest (r ∷ rs) = some (newest r rs)

  -- the record that `find_cached` goes on to read
  unfoldable pub cached_record : String → String → Memory F D → Option (JobRecord F D ListRef)
  unfolding pick_newest
  cached_record key owner m = pick_newest (keep (serves key owner) (records_of m))

  unfoldable pub find_cached :
      (D → Option (Series1DData F))
      → String
      → String
      → Memory F D
      → Result SeriesError (Option (JobRecord F D (List (Event F))))
  find_cached parse key owner m = elim (cached_record key owner m) [
    | none ↦ ok none
    | some r ↦ get parse r.id false false m
  ]

  unfoldable pub find_by_input :
      (D → Option (Series1DData F))
      → String
      → String
      → ℕ
      → Memory F D
      → Result SeriesError (List (JobRecord F D (List (Event F))))
  find_by_input parse reference owner limit m = rows parse true m (
      take limit (
        newest_first
          (keep (λ r. r.owner == owner && references r.inputs reference) (records_of m))))

  -- `JobStore.unfinished_ids`: over the newest ten thousand
  unfoldable pub unfinished_ids : Memory F D → List String
  unfinished_ids m = map (λ r. r.id) (keep (λ r. is_active r.status) (page 10000 0 none m))
