-- ===== src/Service/Cache.antt =====
-- The cache of solves (`submit` of server/fenixspoon/core/service.py): what is asked again is not
-- solved again.
use fenix_spoon.Prelude.{
  ok-injective, ◌≡◌, ◌≢◌, refl, sym, ap, ◌∙◌, subst, ◌⊎◌, inl, inr, suc, String, true, List, [],
  Option, none, some, nat_eq, string_eq, ok, err, arith, Option-cases, Result-cases,
}
use fenix_spoon.Dict.{lookup, insert, lookup-insert_self}
use fenix_spoon.Series.{Series1DData, SeriesError}
use fenix_spoon.Store.{Event, JobRecord, ResultSummary, summarize, is_reusable, is_active}
use fenix_spoon.Store.Memory.{stored_or, Memory, ListRef, mark_reused, put, read, get}
use fenix_spoon.Store.Memory.Queries.{find_cached, cached_record, serves, has_key}
use fenix_spoon.Store.Memory.Lookups.{Keyed}
use fenix_spoon.Store.Memory.Reuse.{
  bump, cached_record_stored, cached_record-mark_reused, cached_record-insert,
}
use fenix_spoon.Jobs.{
  Job, Manager, Submission, from_record, to_record, new_job, with_store, register,
}
use fenix_spoon.Jobs
use fenix_spoon.Identity.{Principal, check_quotas}
use fenix_spoon.Service.{
  Setting, Request, Checked, check_request, reusable, reuse, submission, quota_usage, submit_new,
  answer, submit,
}

module _ {F D : Type 0} (parse : D → Option (Series1DData F)) where
  -- A record that has no result is read by its stored summary.
  find_cached-read :
      (key owner : String) (m : Memory F D) (r : JobRecord F D ListRef)
      → cached_record key owner m ≡ some r
      → lookup r.id m.records ≡ some r
      → (s : Option (ResultSummary F)) → summarize parse r ≡ ok s
      → find_cached parse key owner m
        ≡ ok (some (record (read m r) { result = none; events = []; summary = s }))
  unfolding find_cached get
  find_cached-read key owner m r picked stored s summarized =
      ground (arith, picked, stored, summarized)

  find_cached-none :
      (key owner : String) (m : Memory F D) (hit : Option (JobRecord F D (List (Event F))))
      → cached_record key owner m ≡ none
      → find_cached parse key owner m ≡ ok hit
      → hit ≡ none
  unfolding find_cached
  find_cached-none key owner m hit nothing h = ground (arith, nothing, h)

  find_cached_raises :
      (key owner : String) (m : Memory F D) (hit : Option (JobRecord F D (List (Event F))))
      (r : JobRecord F D ListRef) (e : SeriesError)
      → cached_record key owner m ≡ some r
      → lookup r.id m.records ≡ some r
      → summarize parse r ≡ err e
      → find_cached parse key owner m ≢ ok hit
  unfolding find_cached get
  find_cached_raises key owner m hit r e picked stored bad h =
      ground (arith, picked, stored, bad, h)

  abbrev pub shown :
      Memory F D → JobRecord F D ListRef → Option (ResultSummary F) → JobRecord F D (List (Event F))
  shown m r s = record (read m r) { result = none; events = []; summary = s }

  -- What the lookup gives: nothing where no record serves, and else that record's row.
  pub find_cached_cases :
      (key owner : String) (m : Memory F D) (hit : Option (JobRecord F D (List (Event F))))
      → Keyed m
      → find_cached parse key owner m ≡ ok hit
      → ((hit ≡ none) × (cached_record key owner m ≡ none))
        ⊎ ((r : JobRecord F D ListRef) × (s : Option (ResultSummary F)) × (cached_record key owner m
              ≡ some r)
            × (lookup r.id m.records ≡ some r)
            × (summarize parse r ≡ ok s)
            × (hit ≡ some (shown m r s)))
  find_cached_cases key owner m hit keyed h = elim (Option-cases (cached_record key owner m)) [
    | inl nothing ↦ inl (find_cached-none key owner m hit nothing h, nothing)
    | inr (r, picked) ↦
        let (stored, _) = cached_record_stored key owner m r keyed picked in
        elim (Result-cases (summarize parse r)) [
          | inl (e, bad) ↦ absurd (find_cached_raises key owner m hit r e picked stored bad h)
          | inr (s, summarized) ↦ inr (
            r,
            s,
            picked,
            stored,
            summarized,
            ok-injective (sym h ∙ find_cached-read key owner m r picked stored s summarized),
          )
        ]
  ]

module _ {F D G R P L V : Type 0} (env : Setting F D G R P L V) where
  -- A row without a result becomes a job whatever its summary is, and its count goes up by one.
  pub reuse-shown :
      (r : JobRecord F D ListRef) (s : Option (ResultSummary F)) (m : Manager F D)
      → (j : Job F D) × (reuse env (shown env.parse m.world.store r s) m
          ≡ ok (with_store m (mark_reused r.id m.world.store), j))
        × (j.id ≡ r.id)
        × (j.reused ≡ suc r.reused)
  unfolding reuse from_record summarize read
  reuse-shown r s m = (_, refl, refl, omega arith)

  -- A submission that a record serves.
  submit_hit :
      (q : Request G R L) (p : Principal) (m : Manager F D) (c : Checked G R P V) (key : String)
      (r : JobRecord F D ListRef) (s : Option (ResultSummary F))
      → check_request env q ≡ ok c
      → c.cache_key ≡ some key
      → cached_record key p.id m.world.store ≡ some r
      → lookup r.id m.world.store.records ≡ some r
      → summarize env.parse r ≡ ok s
      → (j : Job F D) × (submit env q p m ≡ ok (with_store m (mark_reused r.id m.world.store), j))
        × (j.id ≡ r.id)
        × (j.reused ≡ suc r.reused)
  unfolding submit reusable answer
  submit_hit q p m c key r s checked keyed picked stored summarized =
      let found = find_cached-read env.parse key p.id m.world.store r picked stored s summarized in
      let (j, reused, id, count) = reuse-shown r s m in
      (j, ground (arith, checked, keyed, found, reused), id, count)

  -- A new job's record, as it is stored under an id that is new.
  pub stored_new :
      (events : ListRef) (s : Submission) (m m' : Manager F D) (r : JobRecord F D ListRef)
      → lookup s.job_id m.world.store.records ≡ none
      → Jobs.submit env.parse events s m ≡ ok (m', r)
      → m'.world.store ≡ record (m.world.store) {
        records = insert s.job_id (to_record events (new_job s)) m.world.store.records;
      }
  unfolding Jobs.submit put stored_or summarize to_record new_job register
  stored_new events s m m' r new h = ground (arith, new, h)

  new_record-serves :
      (events : ListRef) (q : Request G R L) (p : Principal) (c : Checked G R P V) (key : String)
      → c.cache_key ≡ some key
      → serves key p.id (to_record {F = F} {D = D} events (new_job (submission env q p c))) ≡ true
  unfolding serves has_key is_reusable is_active to_record new_job submission
  new_record-serves events q p c key keyed =
      ground (arith, keyed, string_eq.beq_iff p.id p.id, string_eq.beq_iff key key)

  pub submit_new_ok :
      (q : Request G R L) (p : Principal) (c : Checked G R P V) (m m' : Manager F D) (j : Job F D)
      → submit_new env q p c m ≡ ok (m', j)
      → (r : JobRecord F D ListRef) × (check_quotas p (quota_usage env p q.hour_ago m) ≡ ok tt)
        × (Jobs.submit env.parse q.events (submission env q p c) m ≡ ok (m', r))
        × (j ≡ new_job (submission env q p c))
  unfolding submit_new
  submit_new_ok q p c m m' j h =
      elim (Result-cases (check_quotas p (quota_usage env p q.hour_ago m))) [
        | inl (e, spent) ↦ ground (arith, spent, h)
        | inr (_, room) ↦
            elim (Result-cases (Jobs.submit env.parse q.events (submission env q p c) m)) [
              | inl (e, bad) ↦ ground (arith, room, bad, h)
              | inr ((started, r), begun) ↦
                  (r, room, ground (arith, h, room, begun), ground (arith, h, room, begun))
            ]
      ]

  -- A submission that no record serves, and that was accepted: its record is new in the store.
  submit_miss :
      (q : Request G R L) (p : Principal) (m m' : Manager F D) (j : Job F D) (c : Checked G R P V)
      (key : String)
      → check_request env q ≡ ok c
      → c.cache_key ≡ some key
      → cached_record key p.id m.world.store ≡ none
      → lookup q.job_id m.world.store.records ≡ none
      → submit env q p m ≡ ok (m', j)
      → (j ≡ new_job (submission env q p c))
        × (m'.world.store ≡ record (m.world.store) {
          records =
              insert q.job_id
                (to_record q.events (new_job (submission env q p c)))
                m.world.store.records;
        })
  unfolding submit reusable answer find_cached submission
  submit_miss q p m m' j c key checked keyed nothing new h =
      let missed : submit_new env q p c m ≡ ok (m', j) =
        ground (arith, checked, keyed, nothing, h) in
      let (r, _, begun, same) = submit_new_ok q p c m m' j missed in
      (same, stored_new q.events (submission env q p c) m m' r new begun)

  submit_raises :
      (q : Request G R L) (p : Principal) (m : Manager F D) {o : Manager F D × Job F D}
      (c : Checked G R P V) (key : String) (r : JobRecord F D ListRef) (e : SeriesError)
      → check_request env q ≡ ok c
      → c.cache_key ≡ some key
      → cached_record key p.id m.world.store ≡ some r
      → lookup r.id m.world.store.records ≡ some r
      → summarize env.parse r ≡ err e
      → submit env q p m ≢ ok o
  unfolding submit reusable find_cached get
  submit_raises q p m c key r e checked keyed picked stored bad h =
      ground (arith, checked, keyed, picked, stored, bad, h)

  abbrev Again : Request G R L → Principal → Manager F D → Job F D → Type 0
  Again q p m j =
      (m' : Manager F D) × (j' : Job F D) × (submit env q p m ≡ ok (m', j'))
      × (j'.id ≡ j.id)
      × (j'.reused ≡ suc j.reused)
      × (m'.jobs ≡ m.jobs)
      × (m'.cancels ≡ m.cancels)

  -- A record that serves the address answers for a job that it is the record of.
  Again-served :
      (q : Request G R L) (p : Principal) (m : Manager F D) (j : Job F D) (c : Checked G R P V)
      (key : String) (r : JobRecord F D ListRef) (s : Option (ResultSummary F))
      → check_request env q ≡ ok c
      → c.cache_key ≡ some key
      → cached_record key p.id m.world.store ≡ some r
      → lookup r.id m.world.store.records ≡ some r
      → summarize env.parse r ≡ ok s
      → r.id ≡ j.id
      → r.reused ≡ j.reused
      → Again q p m j
  Again-served q p m j c key r s checked keyed picked stored summarized id count =
      let (j', hit, id', count') =
        submit_hit q p m c key r s checked keyed picked stored summarized in
      (
        with_store m (mark_reused r.id m.world.store),
        j',
        hit,
        id' ∙ id,
        count' ∙ ap suc count,
        refl,
        refl,
      )

  Again-hit :
      (q' : Request G R L) (p' : Principal) (m m' : Manager F D) (j : Job F D)
      (c' : Checked G R P V) (key : String) (r : JobRecord F D ListRef)
      (s : Option (ResultSummary F))
      → Keyed m.world.store
      → cached_record key p'.id m.world.store ≡ some r
      → summarize env.parse r ≡ ok s
      → check_request env q' ≡ ok c'
      → c'.cache_key ≡ some key
      → m'.world.store ≡ mark_reused r.id m.world.store
      → j.id ≡ r.id
      → j.reused ≡ suc r.reused
      → Again q' p' m' j
  unfolding summarize
  Again-hit q' p' m m' j c' key r s filed picked summarized checked' keyed' store id count =
      let (again, stored) = cached_record-mark_reused key p'.id m.world.store r filed picked in
      Again-served q' p' m' j c' key (bump r) s checked' keyed'
        (ap (cached_record key p'.id) store ∙ again)
        (ap (λ t. lookup r.id t.records) store ∙ stored) summarized (sym id) (omega (arith, count))

  Again-miss :
      (q q' : Request G R L) (p p' : Principal) (m m' : Manager F D) (j : Job F D)
      (c c' : Checked G R P V) (key : String)
      → lookup q.job_id m.world.store.records ≡ none
      → p.id ≡ p'.id
      → check_request env q ≡ ok c
      → check_request env q' ≡ ok c'
      → c.cache_key ≡ some key
      → c'.cache_key ≡ some key
      → cached_record key p.id m.world.store ≡ none
      → submit env q p m ≡ ok (m', j)
      → Again q' p' m' j
  unfolding to_record new_job submission summarize
  Again-miss q q' p p' m m' j c c' key new mine checked checked' keyed keyed' nothing h =
      let (same, store) = submit_miss q p m m' j c key checked keyed nothing new h in
      let r : JobRecord F D ListRef = to_record q.events (new_job (submission env q p c)) in
      let picked =
        cached_record-insert key p.id q.job_id m.world.store r nothing new
          (new_record-serves q.events q p c key keyed) in
      Again-served q' p' m' j c' key r none checked' keyed'
        (subst (λ o. cached_record key o m'.world.store ≡ some r) mine
          (ap (cached_record key p.id) store ∙ picked))
        (ap (λ t. lookup q.job_id t.records) store
          ∙ lookup-insert_self q.job_id r m.world.store.records)
        refl (ap (λ (i : Job F D). i.id) (sym same)) (ap (λ (i : Job F D). i.reused) (sym same))

  -- Asked again at once, a solve is not done again: in a store where records stand under their own
  -- ids, once a request whose solve has an address is accepted under an id that is new, the same
  -- principal's very next submission, if its request has that address too, is answered, whatever the
  -- quotas are, by the job that the first was answered by, with one more use counted. The manager's
  -- live jobs and cancel events stay as they were.
  pub submit-submit :
      (q q' : Request G R L) (p p' : Principal) (m m' : Manager F D) (j : Job F D)
      (c c' : Checked G R P V) (key : String)
      → Keyed m.world.store
      → lookup q.job_id m.world.store.records ≡ none
      → p.id ≡ p'.id
      → check_request env q ≡ ok c
      → check_request env q' ≡ ok c'
      → c.cache_key ≡ some key
      → c'.cache_key ≡ some key
      → submit env q p m ≡ ok (m', j)
      → (m'' : Manager F D) × (j' : Job F D) × (submit env q' p' m' ≡ ok (m'', j'))
        × (j'.id ≡ j.id)
        × (j'.reused ≡ suc j.reused)
        × (m''.jobs ≡ m'.jobs)
        × (m''.cancels ≡ m'.cancels)
  submit-submit q q' p p' m m' j c c' key filed new mine checked checked' keyed keyed' h =
      elim (Option-cases (cached_record key p.id m.world.store)) [
        | inl nothing ↦
            Again-miss q q' p p' m m' j c c' key new mine checked checked' keyed keyed' nothing h
        | inr (r, picked) ↦
            let (stored, _) = cached_record_stored key p.id m.world.store r filed picked in
            elim (Result-cases (summarize env.parse r)) [
              | inl (e, bad) ↦
                  absurd (submit_raises q p m c key r e checked keyed picked stored bad h)
              | inr (s, summarized) ↦
                  let (i, hit, id, count) =
                    submit_hit q p m c key r s checked keyed picked stored summarized in
                  let same = ok-injective (sym hit ∙ h) in
                  Again-hit q' p' m m' j c' key r s filed
                    (subst (λ o. cached_record key o m.world.store ≡ some r) mine picked) summarized
                    checked' keyed' (sym (ap (λ x. x.0.world.store) same))
                    (ap (λ x. x.1.id) (sym same) ∙ id) (ap (λ x. x.1.reused) (sym same) ∙ count)
            ]
      ]
