-- ===== src/Store/Sqlite/Calls.antt =====
-- A run of calls of `JobStore` on its two implementations (server/fenixspoon/store.py).
use fenix_spoon.Prelude.{
  string_eq, ◌≡◌, ◌∙◌, ap, refl, sym, subst, ℕ, String, Bool, false, List, [], ◌∷◌, some, Option,
  Result, ok, ok-injective, >>=-eq-ok, arith, ◌>>=◌,
}
use fenix_spoon.Dict.{lookup}
use fenix_spoon.Series.{Series1DData, SeriesError}
use fenix_spoon.Store.{Event, JobRecord}
use fenix_spoon.Store.Memory.{Memory, ListRef}
use fenix_spoon.Store.Memory
use fenix_spoon.Store.Sqlite.{Sqlite, put, add_event, mark_reused, get, events_of, last_seq}
use fenix_spoon.Store.Sqlite.Refines.{Same, get-Same, mark_reused-Same}
use fenix_spoon.Store.Sqlite.Appends.{add_event-Same}
use fenix_spoon.Store.Sqlite.Writes.{Writable, put-Same}

module _ {F D : Type 0} where
  abbrev pub no_memory : Memory F D
  no_memory = record { records = []; heap = λ _. [] }

  abbrev pub no_rows : Sqlite F D
  no_rows = record { jobs = []; events = []; files = [] }

  no_rows-Same : (parse : D → Option (Series1DData F)) → Same parse no_memory no_rows
  unfolding lookup events_of last_seq
  no_rows-Same parse = record {
    entry = λ j. refl;
    own = λ i j a b ea. absurd (ground (arith, ea));
    numbered = λ j. refl;
  }

-- What a job server writes: a record, an event, and one more use of a job.
pub data Call (F D : Type 0) : Type 0 where
  save : JobRecord F D ListRef → Call F D
  log_event : String → Event F → Call F D
  count_use : String → Call F D

module _ {F D : Type 0} (parse : D → Option (Series1DData F)) where
  -- A call on the memory store, and the number that an event was given.
  unfoldable pub memory_call : Call F D → Memory F D → Result SeriesError (Memory F D × ℕ)
  memory_call (save r) m = Memory.put parse r m >>= λ n. ok (n, 0)
  memory_call (log_event j e) m = ok (Memory.add_event j e m)
  memory_call (count_use j) m = ok (Memory.mark_reused j m, 0)

  unfoldable pub rows_call : Call F D → Sqlite F D → Result SeriesError (Sqlite F D × ℕ)
  rows_call (save r) s = put parse r s >>= λ n. ok (n, 0)
  rows_call (log_event j e) s = ok (add_event j e s)
  rows_call (count_use j) s = ok (mark_reused j s, 0)

  unfoldable pub rows_calls :
      List (Call F D) → Sqlite F D → Result SeriesError (Sqlite F D × List ℕ)
  unfolding rows_call
  rows_calls [] s = ok (s, [])
  rows_calls (c ∷ cs) s = do
    now ← rows_call c s
    rest ← rows_calls cs now.0
    ok (rest.0, now.1 ∷ rest.1)

  -- An event is of a job that is there, and a record is one that both stores can take.
  pub data Legal : Call F D → Memory F D → Type 0 where
    writable : (r : JobRecord F D ListRef) (m : Memory F D) → Writable parse r m → Legal (save r) m
    there :
        (j : String) (e : Event F) (m : Memory F D) (r : JobRecord F D ListRef)
        → lookup j m.records ≡ some r
        → Legal (log_event j e) m
    any_job : (j : String) (m : Memory F D) → Legal (count_use j) m

  -- Calls one after another on the memory store, with the numbers that they answered.
  pub data Ran : Memory F D → List (Call F D) → Memory F D → List ℕ → Type 0 where
    stop : (m : Memory F D) → Ran m [] m []
    then :
        (m m' n : Memory F D) (c : Call F D) (cs : List (Call F D)) (seq : ℕ) (seqs : List ℕ)
        → Legal c m
        → memory_call c m ≡ ok (m', seq)
        → Ran m' cs n seqs
        → Ran m (c ∷ cs) n (seq ∷ seqs)

  rows_call-Same :
      (c : Call F D) (m m' : Memory F D) (s : Sqlite F D) (seq : ℕ)
      → Same parse m s
      → Legal c m
      → memory_call c m ≡ ok (m', seq)
      → (s' : Sqlite F D) × (rows_call c s ≡ ok (s', seq)) × Same parse m' s'
  unfolding memory_call rows_call
  rows_call-Same _ _ m' s seq same (writable r m w) h =
      let (n, stored, done) = >>=-eq-ok (Memory.put parse r m) _ h in
      let (s', stored', same') = put-Same parse r m s same w stored in
      (
        s',
        rw (stored') (ap (λ k. ok (s', k)) (ap (λ p. p.1) (ok-injective done))),
        subst (λ x. Same parse x s') (ap (λ p. p.0) (ok-injective done)) same',
      )
  rows_call-Same _ _ m' s seq same (there j e m r at) h =
      let (same', number) = add_event-Same parse m s j e r same at in
      let p = ok-injective h in
      (
        (add_event j e s).0,
        ap (λ k. ok ((add_event j e s).0, k)) (sym number ∙ ap (λ p. p.1) p),
        subst (λ x. Same parse x (add_event j e s).0) (ap (λ p. p.0) p) same',
      )
  rows_call-Same _ _ m' s seq same (any_job j m) h = (
    mark_reused j s,
    ap (λ n. ok (mark_reused j s, n)) (ap (λ p. p.1) (ok-injective h)),
    subst (λ x. Same parse x (mark_reused j s)) (ap (λ p. p.0) (ok-injective h))
        (mark_reused-Same parse m s j same),
  )

  rows_calls-Same :
      (m n : Memory F D) (cs : List (Call F D)) (seqs : List ℕ) (s : Sqlite F D)
      → Same parse m s
      → Ran m cs n seqs
      → (t : Sqlite F D) × (rows_calls cs s ≡ ok (t, seqs)) × Same parse n t
  unfolding rows_calls
  rows_calls-Same _ _ _ _ s same (stop m) = (s, refl, same)
  rows_calls-Same _ _ _ _ s same (then m m' n c rest seq more legal h run) =
      let (s', now, same') = rows_call-Same c m m' s seq same legal h in
      let (t, later, same'') = rows_calls-Same m' n rest more s' same' run in
      (t, rw (now, later) refl, same'')

  -- Where every event is of a stored job, and every record that is written either is new, with no
  -- uses and an empty list of events of its own, or has the solver, owner, creation time and inputs
  -- that it was first stored with, and has a result with a kind that is not empty, or neither result
  -- nor summary: such calls, if the memory store takes them from empty, the SQLite store takes too,
  -- and it gives every event the same number; then every job reads the same from both, with its
  -- events or without, but for the payload.
  pub rows_calls-get :
      (cs : List (Call F D)) (m : Memory F D) (seqs : List ℕ)
      → Ran no_memory cs m seqs
      → (s : Sqlite F D) × (rows_calls cs no_rows ≡ ok (s, seqs))
        × ((j : String) (with_events : Bool)
            → Memory.get parse j false with_events m ≡ ok (get j false with_events s))
  rows_calls-get cs m seqs run =
      let (s, taken, same) = rows_calls-Same no_memory m cs seqs no_rows (no_rows-Same parse) run in
      (s, taken, λ j with_events. get-Same parse m s j with_events same)
