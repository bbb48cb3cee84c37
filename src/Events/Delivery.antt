-- ===== src/Events/Delivery.antt =====
-- Who receives what, and what a closed subscription leaves behind.
use fenix_spoon.Prelude.{
  ℕ, ◌≡◌, refl, ◌≢◌, String, not, List, [], ◌∷◌, ◌++◌, map, Option, none, some, ◌==◌, nat_eq,
  string_eq, keep, if◌then◌else◌, arith, inl, inr, Option-cases, nat_beq_iff, ◌∙◌, ap,
}
use text.Mathlib.TextEquality.{eq_iff}
use fenix_spoon.Dict.{lookup, insert, lookup-insert, lookup-delete}
use fenix_spoon.Store.{Event}
use fenix_spoon.Events.{
  Bus, Queue, Delivery, put_nowait, publish, subscribe, put_or_drop, unsubscribe, find_queue,
  waiting,
}

module _ {F : Type 0} where
  find_queue-map :
      (a : ℕ) (d : Delivery F) (qs : List (Queue F)) (w : List (Delivery F))
      → find_queue a qs ≡ some w
      → find_queue a (map (put_nowait d) qs) ≡ some (w ++ d ∷ [])
  unfolding find_queue put_nowait
  find_queue-map a d [] w h = cc
  find_queue-map a d (q ∷ qs) w h = ground (arith, find_queue-map a d qs w, nat_beq_iff q.address a)

  -- A current subscriber of the job receives the event behind what waits; a subscriber of another
  -- job does not.
  pub waiting-publish :
      (job other : String) (a : ℕ) (seq : ℕ) (e : Event F) (bus : Bus F) (w : List (Delivery F))
      → waiting job a bus ≡ some w
      → (waiting job a (publish job seq e bus) ≡ some (w ++ (seq, e) ∷ []))
        × (other ≢ job → waiting job a (publish other seq e bus) ≡ some w)
  unfolding waiting publish
  waiting-publish job other a seq e bus w h = elim (Option-cases (lookup job bus)) [
    | inl missing ↦ absurd (ground (arith, missing))
    | inr (qs, found) ↦ (
      ground (
        arith,
        found,
        find_queue-map a (seq, e) qs w,
        lookup-insert job job (map (put_nowait (seq, e)) qs) bus,
        eq_iff job job,
      ),
      λ apart. elim (Option-cases (lookup other bus)) [
        | inl nobody ↦ ground (arith, nobody)
        | inr (rs, there) ↦ ground (
          arith,
          there,
          lookup-insert other job (map (put_nowait (seq, e)) rs) bus,
          eq_iff other job,
        )
      ],
    )
  ]

  -- No queue of the set has the address.
  abbrev pub Unused : ℕ → List (Queue F) → Type 0
  Unused a [] = Unit
  Unused a (q ∷ qs) = (q.address ≢ a) × Unused a qs

  find_queue-append_new :
      (a : ℕ) (q : Queue F) (qs : List (Queue F))
      → q.address ≡ a
      → Unused a qs
      → find_queue a (qs ++ q ∷ []) ≡ some q.waiting
  unfolding find_queue
  find_queue-append_new a q [] h u = ground (arith, nat_beq_iff q.address a)
  find_queue-append_new a q (p ∷ qs) h u =
      ground (arith, find_queue-append_new a q qs h u.1, nat_beq_iff p.address a)

  keep_others :
      (a : ℕ) (q : Queue F) (qs : List (Queue F))
      → q.address ≡ a
      → Unused a qs
      → keep (λ (p : Queue F). not (p.address == a)) (qs ++ q ∷ []) ≡ qs
  keep_others a q [] h u = ground (arith, nat_beq_iff q.address a)
  keep_others a q (p ∷ qs) h u = ground (arith, keep_others a q qs h u.1, nat_beq_iff p.address a)

  -- The subscribers of a job, none where it has no entry.
  abbrev pub queues_in : Option (List (Queue F)) → List (Queue F)
  queues_in none = []
  queues_in (some queues) = queues

  abbrev pub queues_of : String → Bus F → List (Queue F)
  queues_of job bus = queues_in (lookup job bus)

  abbrev new_queue : ℕ → Queue F
  new_queue a = record { address = a; waiting = [] }

  -- A new subscriber starts with nothing waiting.
  pub waiting-subscribe :
      (job : String) (a : ℕ) (bus : Bus F)
      → Unused a (queues_of job bus)
      → waiting job a (subscribe job a bus) ≡ some []
  unfolding waiting subscribe find_queue
  waiting-subscribe job a bus u = elim (Option-cases (lookup job bus)) [
    | inl missing ↦ ground (
      arith,
      missing,
      lookup-insert job job (record { address = a; waiting = [] } ∷ []) bus,
      eq_iff job job,
      nat_beq_iff a a,
    )
    | inr (qs, found) ↦ ground (
      arith,
      found,
      lookup-insert job job (qs ++ new_queue a ∷ []) bus,
      eq_iff job job,
      find_queue-append_new a (new_queue a) qs refl (rw found at u),
    )
  ]

  -- No job is listed with an empty set of subscribers.
  abbrev pub NoEmptyEntry : Bus F → Type 0
  NoEmptyEntry bus = (job : String) → lookup job bus ≢ some []

  lookup-put_or_drop :
      (job j : String) (qs : List (Queue F)) (bus : Bus F)
      → qs ≢ []
      → lookup j (put_or_drop job qs bus) ≡ (if job == j then some qs else lookup j bus)
  unfolding put_or_drop
  lookup-put_or_drop job j [] bus h = absurd (h refl)
  lookup-put_or_drop job j (q ∷ qs) bus h = lookup-insert job j (q ∷ qs) bus

  unsubscribe_last :
      (job j : String) (a : ℕ) (bus : Bus F)
      → lookup job bus ≡ none
      → lookup j (unsubscribe job a (subscribe job a bus)) ≡ lookup j bus
  unfolding unsubscribe subscribe put_or_drop
  unsubscribe_last job j a bus missing = ground (
    arith,
    missing,
    lookup-insert job job (new_queue a ∷ []) bus,
    lookup-insert job j (new_queue a ∷ []) bus,
    lookup-delete job j (insert job (new_queue a ∷ []) bus),
    eq_iff job job,
    eq_iff job j,
    nat_beq_iff a a,
  )

  unsubscribe_one :
      (job j : String) (a : ℕ) (bus : Bus F) (qs : List (Queue F))
      → lookup job bus ≡ some qs
      → qs ≢ []
      → Unused a qs
      → lookup j (unsubscribe job a (subscribe job a bus)) ≡ lookup j bus
  unfolding unsubscribe subscribe
  unsubscribe_one job j a bus qs found full u =
      let wider = insert job (qs ++ new_queue a ∷ []) bus in
      ground (
        arith,
        found,
        lookup-insert job job (qs ++ new_queue a ∷ []) bus,
        lookup-insert job j (qs ++ new_queue a ∷ []) bus,
        lookup-put_or_drop job j qs wider full,
        keep_others a (new_queue a) qs refl u,
        eq_iff job job,
        eq_iff job j,
      )

  -- Closing a subscription leaves every job with the subscribers that it had before, and no entry
  -- for a job that had none.
  pub unsubscribe-subscribe :
      (job : String) (a : ℕ) (bus : Bus F)
      → NoEmptyEntry bus
      → Unused a (queues_of job bus)
      → (j : String) → lookup j (unsubscribe job a (subscribe job a bus)) ≡ lookup j bus
  unsubscribe-subscribe job a bus full u j = elim (Option-cases (lookup job bus)) [
    | inl missing ↦ unsubscribe_last job j a bus missing
    | inr (qs, found) ↦
        unsubscribe_one job j a bus qs found (λ e. full job (found ∙ ap some e)) (rw found at u)
  ]
