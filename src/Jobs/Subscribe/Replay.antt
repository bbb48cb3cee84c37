-- ===== src/Jobs/Subscribe/Replay.antt =====
-- A subscriber sees the stored log, each event once and in order, whenever it attaches.
use fenix_spoon.Execution.Sink.{emit_publishes}
use native.Mathlib.Nat.{add-zero}
use fenix_spoon.Prelude.{
  subst, ℕ, suc, ◌+◌, ◌≡◌, refl, sym, ap, ◌∙◌, String, Option, some, List, [], ◌∷◌, ◌++◌,
  if◌then◌else◌, append_assoc, append-nil, length, length-append, arith, string_eq,
}
use fenix_spoon.Store.{Event}
use fenix_spoon.Store.Memory.{ListRef}
use fenix_spoon.Store.Memory.Log.{log}
use fenix_spoon.Events.{Delivery, subscribe, waiting}
use fenix_spoon.Events.Delivery.{waiting-publish, waiting-subscribe, Unused, queues_of}
use fenix_spoon.Execution.{World, emit, emit_all}
use fenix_spoon.Execution.Ready.{Ready, emit-Ready, emit_all-Ready}
use fenix_spoon.Jobs.Subscribe.{is_terminal, follow, replay, stream}

module _ {F : Type 0} where
  -- A log up to its first terminal event, that event included.
  unfoldable pub until_terminal : List (Event F) → List (Event F)
  until_terminal [] = []
  until_terminal (e ∷ es) =
      let rest = until_terminal es in if is_terminal e then e ∷ [] else e ∷ rest

  -- Events numbered upwards.
  unfoldable pub numbered : ℕ → List (Event F) → List (Delivery F)
  numbered n [] = []
  numbered n (e ∷ es) = (n, e) ∷ numbered (suc n) es

  follow_new : (n : ℕ) (zs : List (Event F)) → follow n (numbered (suc n) zs) ≡ until_terminal zs
  unfolding follow numbered until_terminal
  follow_new n [] = refl
  follow_new n (z ∷ zs) = ground (arith, follow_new (suc n) zs)

  follow_overlap :
      (n k : ℕ) (ys zs : List (Event F))
      → k + length ys ≡ n
      → follow n (numbered (suc k) (ys ++ zs)) ≡ until_terminal zs
  unfolding follow numbered
  follow_overlap n k [] zs h = rw (ap suc (k_eq h)) (follow_new n zs)
    where
      k_eq : k + 0 ≡ n → k ≡ n
      k_eq e = omega arith
  follow_overlap n k (y ∷ ys) zs h = ground (arith, follow_overlap n (suc k) ys zs)

  replay_all :
      (k : ℕ) (xs : List (Event F)) (live : List (Delivery F)) (zs : List (Event F))
      → follow (k + length xs) live ≡ until_terminal zs
      → replay k xs live ≡ until_terminal (xs ++ zs)
  unfolding replay until_terminal
  replay_all k [] live zs h = rw add-zero at h
  replay_all k (x ∷ xs) live zs h =
      let shift : k + suc (length xs) ≡ suc k + length xs = omega arith in
      rw (replay_all (suc k) xs live zs (subst (λ n. follow n live ≡ until_terminal zs) shift h))

  -- The history and the queue overlap in the events of between the attachment and the read: the
  -- stream is the log all the same.
  pub stream_exactly_once :
      (before between after : List (Event F))
      → stream (before ++ between) (numbered (suc (length before)) (between ++ after))
        ≡ until_terminal (before ++ (between ++ after))
  unfolding stream
  stream_exactly_once before between after =
      replay_all 0 (before ++ between) _ after (
        follow_overlap (0 + length (before ++ between)) (length before) between after
          (omega (arith, length-append before between)))
      ∙ ap until_terminal (append_assoc before between after)

  numbered-append :
      (n : ℕ) (xs ys : List (Event F))
      → numbered n (xs ++ ys) ≡ numbered n xs ++ numbered (n + length xs) ys
  unfolding numbered
  numbered-append n [] ys = rw add-zero
  numbered-append n (x ∷ xs) ys =
      let shift : n + suc (length xs) ≡ suc n + length xs = omega arith in
      rw shift (ap (◌∷◌ (n, x)) (numbered-append (suc n) xs ys))

module _ {F D : Type 0} where
  -- The sink gives a subscriber each event with its place in the log.
  emit_delivers :
      (mirror : Option ListRef) (id : String) (e : Event F) (w : World F D) (l : List (Event F))
      (a : ℕ) (q : List (Delivery F))
      → Ready mirror id w l
      → waiting id a w.bus ≡ some q
      → waiting id a (emit mirror id e w).bus ≡ some (q ++ (suc (length l), e) ∷ [])
  emit_delivers mirror id e w l a q g h =
      let one : length l + 1 ≡ suc (length l) = omega arith in
      rw (emit_publishes mirror id e w l g.own g.apart g.logged, one)
        (waiting-publish id id a (suc (length l)) e w.bus q h).0

  emit_all_delivers :
      (mirror : Option ListRef) (id : String) (es : List (Event F)) (w : World F D)
      (l : List (Event F)) (a : ℕ) (q : List (Delivery F))
      → Ready mirror id w l
      → waiting id a w.bus ≡ some q
      → waiting id a (emit_all mirror id es w).bus ≡ some (q ++ numbered (suc (length l)) es)
  unfolding emit_all numbered
  emit_all_delivers mirror id [] w l a q g h = rw append-nil h
  emit_all_delivers mirror id (e ∷ es) w l a q g h =
      let next =
        emit_all_delivers mirror id es (emit mirror id e w) (l ++ e ∷ []) a
          (q ++ (suc (length l), e) ∷ []) (emit-Ready mirror id e w l g)
          (emit_delivers mirror id e w l a q g h) in
      let one : length (l ++ e ∷ []) ≡ suc (length l) = omega (arith, length-append l (e ∷ [])) in
      rw one at (rw (append_assoc q _ _) at next)

  -- Where the stored logs are lists of their own, and the sink's mirror, if it has one, is none of
  -- them: a subscriber attaches to a stored job with the log `before`, under an address that no other
  -- queue of the job has, reads the stored history after the events `between`, and is delivered those
  -- of `after` too. Then its stream is the job's log, each event once and in order, up to the
  -- terminal one. (The in-process backend over the memory store mirrors into the stored list itself,
  -- and is not such a pair.)
  pub subscriber_sees_the_log :
      (mirror : Option ListRef) (id : String) (a : ℕ) (w : World F D)
      (before between after : List (Event F))
      → Ready mirror id w before
      → Unused a (queues_of id w.bus)
      → let attached = record w { bus = subscribe id a w.bus } in
        let read = emit_all mirror id between attached in
        let over = emit_all mirror id after read in
        (history : List (Event F)) × (live : List (Delivery F)) × (whole : List (Event F)) × (log id
            read.store
          ≡ some history)
        × (waiting id a over.bus ≡ some live)
        × (log id over.store ≡ some whole)
        × (whole ≡ before ++ (between ++ after))
        × (stream history live ≡ until_terminal whole)
  subscriber_sees_the_log mirror id a w before between after g unused =
      let attached = record w { bus = subscribe id a w.bus } in
      let g₀ : Ready mirror id attached before = record {
        own = g.own;
        apart = g.apart;
        logged = g.logged;
      } in
      let g₁ = emit_all-Ready mirror id between attached before g₀ in
      let g₂ = emit_all-Ready mirror id after _ _ g₁ in
      let q₁ =
        emit_all_delivers mirror id between attached before a [] g₀
          (waiting-subscribe id a w.bus unused) in
      let q₂ = emit_all_delivers mirror id after _ _ a _ g₁ q₁ in
      let place : suc (length (before ++ between)) ≡ suc (length before) + length between =
        omega (arith, length-append before between) in
      (
        before ++ between,
        numbered (suc (length before)) (between ++ after),
        before ++ (between ++ after),
        g₁.logged,
        q₂
            ∙ ap some (
                ap (λ n. numbered (suc (length before)) between ++ numbered n after) place
                ∙ sym (numbered-append (suc (length before)) between after)),
        rw append_assoc at (g₂.logged),
        refl,
        stream_exactly_once before between after,
      )
