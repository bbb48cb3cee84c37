-- ===== src/Events.antt =====
-- server/fenixspoon/events.py: the in-process bus, one queue for each subscriber.
-- A queue object is known by a number; a set of queues is a list.
pub mod Delivery
use fenix_spoon.Prelude.{
  ℕ, String, Bool, not, List, [], ◌∷◌, ◌++◌, map, Option, none, some, ◌==◌, nat_eq, string_eq, keep,
  if◌then◌else◌,
}
use fenix_spoon.Dict.{Dict, lookup, insert, delete}
use fenix_spoon.Store.{Event}

-- One event as it moves through the bus: the store's sequence number, and the payload.
abbrev pub Delivery : Type 0 → Type 0
Delivery F = ℕ × Event F

pub record Queue (F : Type 0) : Type 0 where
  pub address : ℕ
  pub waiting : List (Delivery F)

abbrev pub Bus : Type 0 → Type 0
Bus F = Dict String (List (Queue F))

module _ {F : Type 0} where
  -- `put_nowait`
  unfoldable pub put_nowait : Delivery F → Queue F → Queue F
  put_nowait d q = record q { waiting = q.waiting ++ d ∷ [] }

  unfoldable pub publish : String → ℕ → Event F → Bus F → Bus F
  publish job_id seq e bus = elim (lookup job_id bus) [
    | none ↦ bus
    | some queues ↦ insert job_id (map (put_nowait (seq, e)) queues) bus
  ]

  -- `setdefault(job_id, set()).add(queue)` of a new, empty queue
  unfoldable pub subscribe : String → ℕ → Bus F → Bus F
  subscribe job_id address bus = elim (lookup job_id bus) [
    | none ↦ insert job_id (record { address = address; waiting = [] } ∷ []) bus
    | some queues ↦ insert job_id (queues ++ record { address = address; waiting = [] } ∷ []) bus
  ]

  -- An entry whose last queue is gone is dropped.
  unfoldable pub put_or_drop : String → List (Queue F) → Bus F → Bus F
  put_or_drop job_id [] bus = delete job_id bus
  put_or_drop job_id (q ∷ qs) bus = insert job_id (q ∷ qs) bus

  -- `_unsubscribe`
  unfoldable pub unsubscribe : String → ℕ → Bus F → Bus F
  unfolding put_or_drop
  unsubscribe job_id address bus = elim (lookup job_id bus) [
    | none ↦ bus
    | some queues ↦ put_or_drop job_id (keep (λ q. not (q.address == address)) queues) bus
  ]

  -- The deliveries that wait in a subscriber's queue.
  find_queue : ℕ → List (Queue F) → Option (List (Delivery F))
  find_queue address [] = none
  find_queue address (q ∷ qs) =
      if q.address == address then some q.waiting else find_queue address qs

  unfoldable pub waiting : String → ℕ → Bus F → Option (List (Delivery F))
  unfolding find_queue
  waiting job_id address bus = elim (lookup job_id bus) [
    | none ↦ none
    | some queues ↦ find_queue address queues
  ]
