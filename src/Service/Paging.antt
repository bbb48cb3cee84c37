-- ===== src/Service/Paging.antt =====
-- `job_events` of server/fenixspoon/core/service.py: the progress log, a page at a time.
use fenix_spoon.Prelude.{
  ◌≡◌, refl, sym, ap, ◌∙◌, subst, ◌⊎◌, inl, inr, ◌≤◌, ◌<◌, ℕ, zero, suc, ◌+◌, String, Bool, true,
  false, ◌||◌, List, [], ◌∷◌, ◌++◌, Option, none, some, Result, ok, ◌>>=◌, length, length-drop,
  take, drop, arith, if◌then◌else◌,
}
use fenix_spoon.Series.{Series1DData}
use fenix_spoon.Store.{Event, JobRecord}
use fenix_spoon.Store.Memory
use fenix_spoon.Jobs.{Manager, Job}
use fenix_spoon.Jobs.Subscribe.{is_terminal}
use fenix_spoon.Service.Reads.{ReadError, as_read, job_of}

pub record EventPage (F : Type 0) : Type 0 where
  pub job_id : String
  pub events : List (Event F)
  pub next : ℕ
  pub final : Bool

module _ {F : Type 0} where
  -- a terminal status event is among them
  unfoldable pub any_terminal : List (Event F) → Bool
  any_terminal [] = false
  any_terminal (e ∷ es) = is_terminal e || any_terminal es

  -- `stored[since : since + limit]`
  unfoldable pub page_of : String → ℕ → ℕ → List (Event F) → EventPage F
  unfolding any_terminal
  page_of job_id since limit stored =
      let page = take limit (drop since stored) in
      record {
        job_id = job_id;
        events = page;
        next = since + length page;
        final = any_terminal page;
      }

module _ {F D : Type 0} where
  abbrev pub events_of : Option (JobRecord F D (List (Event F))) → List (Event F)
  events_of none = []
  events_of (some r) = r.events

  unfoldable pub job_events :
      (D → Option (Series1DData F))
      → String
      → String
      → ℕ
      → ℕ
      → Manager F D
      → Result ReadError (EventPage F)
  unfolding job_of page_of
  job_events parse job_id caller since limit m = do
    j ← job_of parse job_id caller false m
    record_found ← as_read (Memory.get parse job_id false true m.world.store)
    ok (page_of job_id since limit (events_of record_found))

plus_zero : (n : ℕ) → 0 + n ≡ n
plus_zero n = omega arith

module _ {F : Type 0} where
  -- A caller's reading of a log: page after page from where the last left off, until a page is final.
  unfoldable pub read_all :
      {E : Type 0} → (ℕ → Result E (EventPage F)) → ℕ → ℕ → Result E (List (Event F))
  read_all page zero since = ok []
  read_all page (suc fuel) since = page since >>= λ p.
      if p.final then ok p.events else (read_all page fuel p.next >>= λ rest. ok (p.events ++ rest))

  -- A log that has ended: its last event is terminal, and no other is.
  abbrev pub HasEnded : List (Event F) → Type 0
  HasEnded [] = ⊥
  HasEnded (e ∷ []) = is_terminal e ≡ true
  HasEnded (e ∷ f ∷ es) = (is_terminal e ≡ false) × HasEnded (f ∷ es)

  take-HasEnded :
      (n : ℕ) (log : List (Event F))
      → HasEnded log
      → ((any_terminal (take (suc n) log) ≡ true) × (take (suc n) log ≡ log))
        ⊎ ((any_terminal (take (suc n) log) ≡ false) × HasEnded (drop (suc n) log))
  unfolding any_terminal
  take-HasEnded n [] h = absurd h
  take-HasEnded zero (e ∷ []) h = inl (ground (arith, h), refl)
  take-HasEnded (suc n) (e ∷ []) h = inl (ground (arith, h), refl)
  take-HasEnded zero (e ∷ f ∷ es) h = inr (ground (arith, h.0), h.1)
  take-HasEnded (suc n) (e ∷ f ∷ es) h = elim (take-HasEnded n (f ∷ es) h.1) [
    | inl (ends, whole) ↦ inl (ground (arith, ends, h.0), ap (λ l. e ∷ l) whole)
    | inr (goes_on, later) ↦ inr (ground (arith, goes_on, h.0), later)
  ]

  take-drop : (n : ℕ) (log : List (Event F)) → take n log ++ drop n log ≡ log
  take-drop zero log = refl
  take-drop (suc n) [] = refl
  take-drop (suc n) (e ∷ log) = ap (λ l. e ∷ l) (take-drop n log)

  drop-length-take : (n : ℕ) (log : List (Event F)) → drop (length (take n log)) log ≡ drop n log
  drop-length-take zero log = refl
  drop-length-take (suc n) [] = refl
  drop-length-take (suc n) (e ∷ log) = drop-length-take n log

  drop-nil : (n : ℕ) → drop {A = Event F} n [] ≡ []
  drop-nil zero = refl
  drop-nil (suc n) = refl

  drop-drop : (m n : ℕ) (log : List (Event F)) → drop n (drop m log) ≡ drop (m + n) log
  drop-drop zero n log = ap (λ k. drop k log) (sym (plus_zero n))
  drop-drop (suc m) n [] = drop-nil n ∙ sym (drop-nil (suc m + n))
  drop-drop (suc m) n (e ∷ log) =
      let same : suc (m + n) ≡ suc m + n = omega arith in
      drop-drop m n log ∙ ap (λ k. drop k (e ∷ log)) same

  HasEnded-length : (log : List (Event F)) → HasEnded log → 0 < length log
  HasEnded-length [] h = absurd h
  HasEnded-length (e ∷ log) h = omega arith

  -- The pages from a place on are the rest of the log.
  read_rest :
      {E : Type 0} (page : ℕ → Result E (EventPage F)) (job_id : String) (limit : ℕ)
      (log : List (Event F))
      → ((s : ℕ) → page s ≡ ok (page_of job_id s (suc limit) log))
      → (fuel since : ℕ) → HasEnded (drop since log)
      → length (drop since log) ≤ fuel
      → read_all page fuel since ≡ ok (drop since log)
  unfolding read_all page_of
  read_rest page job_id limit log pages zero since h few =
      absurd (omega (arith, few, HasEnded-length (drop since log) h))
  read_rest page job_id limit log pages (suc fuel) since h few =
      let rest = drop since log in
      elim (take-HasEnded limit rest h) [
        | inl (ends, whole) ↦ ground (arith, pages since, ends, whole)
        | inr (goes_on, later) ↦
            let next = since + length (take (suc limit) rest) in
            let left : drop next log ≡ drop (suc limit) rest =
              sym (drop-drop since (length (take (suc limit) rest)) log)
              ∙ drop-length-take (suc limit) rest in
            let fewer : length (drop next log) ≤ fuel =
              omega (arith, ap length left, length-drop (suc limit) rest, few) in
            let more =
              read_rest page job_id limit log pages fuel next (subst HasEnded (sym left) later)
                fewer in
            let all = ap (λ l. take (suc limit) rest ++ l) left ∙ take-drop (suc limit) rest in
            ground (arith, pages since, goes_on, more, all)
      ]

  -- A caller that asks for the events after those it has had, a page of any size at a time and
  -- until a page is final, is given the whole log, where its last event and no other is terminal, in
  -- as many pages as there are events or fewer: every event, once, in order.
  pub read_all-job_events :
      {D : Type 0} (parse : D → Option (Series1DData F)) (job_id caller : String) (limit : ℕ)
      (m : Manager F D) (j : Job F D) (r : JobRecord F D (List (Event F)))
      → job_of parse job_id caller false m ≡ ok j
      → Memory.get parse job_id false true m.world.store ≡ ok (some r)
      → HasEnded r.events
      → read_all (λ since. job_events parse job_id caller since (suc limit) m) (length r.events) 0
        ≡ ok r.events
  unfolding job_events
  read_all-job_events parse job_id caller limit m j r found read ended =
      read_rest (λ since. job_events parse job_id caller since (suc limit) m) job_id limit r.events
        (λ s. ground (arith, found, read)) (length r.events) 0 ended (omega arith)
