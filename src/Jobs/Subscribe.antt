-- ===== src/Jobs/Subscribe.antt =====
-- `JobManager.subscribe` of server/fenixspoon/jobs.py: stored history first, then the live feed.
pub mod Replay
use fenix_spoon.Prelude.{ℕ, suc, ◌+◌, Bool, true, false, List, [], ◌∷◌, ◌++◌, leb, if◌then◌else◌}
use fenix_spoon.Store.{Event, is_terminal_status}
use fenix_spoon.Events.{Delivery}

-- `_is_terminal`
unfoldable pub is_terminal : {F : Type 0} → Event F → Bool
is_terminal (Event.status s) = is_terminal_status s
is_terminal (Event.status_error s e) = is_terminal_status s
is_terminal (Event.progress p) = false

module _ {F : Type 0} where
  -- The second loop: deliveries as they come, without those of the stored history.
  unfoldable pub follow : ℕ → List (Delivery F) → List (Event F)
  follow replayed [] = []
  follow replayed ((seq, e) ∷ live) =
      let skipped = follow replayed live in
      let rest = follow seq live in
      if leb seq replayed then skipped else if is_terminal e then e ∷ [] else e ∷ rest

  -- The first loop: the stored history, and then the live feed.
  unfoldable pub replay : ℕ → List (Event F) → List (Delivery F) → List (Event F)
  unfolding follow
  replay replayed [] live = follow replayed live
  replay replayed (e ∷ history) live =
      let rest = replay (suc replayed) history live in if is_terminal e then e ∷ [] else e ∷ rest

  -- What a subscriber is given, from the history that it read and the deliveries in its queue.
  unfoldable pub stream : List (Event F) → List (Delivery F) → List (Event F)
  unfolding replay
  stream history live = replay 0 history live
