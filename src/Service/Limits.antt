-- ===== src/Service/Limits.antt =====
-- What the quotas hold to over submissions (server/fenixspoon/core/service.py).
use fenix_spoon.Prelude.{
  ◌≡◌, refl, sym, ap, ◌∙◌, subst, ◌≤◌, ◌⊎◌, inl, inr, ℕ, suc, String, List, Option, none, some, ok,
  arith, ok-injective, Result-cases, string_eq,
}
use fenix_spoon.Dict.{lookup}
use fenix_spoon.Store.{Event, JobRecord, ResultSummary}
use fenix_spoon.Store.Memory.{ListRef, mark_reused}
use fenix_spoon.Store.Memory.Queries.{usage}
use fenix_spoon.Store.Memory.Lookups.{Keyed}
use fenix_spoon.Store.Memory.Usage.{usage-insert, usage-mark_reused}
use fenix_spoon.Jobs.{Job, Manager, with_store, to_record, new_job}
use fenix_spoon.Identity.{Principal}
use fenix_spoon.Identity.Limits.{Room, check_quotas_iff}
use fenix_spoon.Service.{
  Setting, Request, Checked, check_request, reusable, submission, quota_usage, submit_new, answer,
  submit,
}
use fenix_spoon.Service.Cache.{find_cached_cases, shown, stored_new, reuse-shown, submit_new_ok}

-- A limit is off, or is not passed.
abbrev pub Within : ℕ → ℕ → Type 0
Within limit used = (limit ≡ 0) ⊎ (used ≤ limit)

abbrev pub WithinQuotas : Principal → ℕ × ℕ × ℕ → Type 0
WithinQuotas p u =
    Within p.quotas.concurrent_jobs u.0
    × Within p.quotas.jobs_per_hour u.1
    × Within p.quotas.artifact_bytes u.2

one_more : (limit before after : ℕ) → Room limit before → after ≤ suc before → Within limit after
one_more limit before after room h = ground (arith, room, h)

module _ {F D G R P L V : Type 0} (env : Setting F D G R P L V) where
  reusable_cases :
      (key : Option String) (owner : String) (m : Manager F D)
      (hit : Option (JobRecord F D (List (Event F))))
      → Keyed m.world.store
      → reusable env key owner m ≡ ok hit
      → (hit ≡ none)
        ⊎ ((r : JobRecord F D ListRef) × (s : Option (ResultSummary F)) × (lookup r.id
                m.world.store.records
              ≡ some r)
            × (hit ≡ some (shown env.parse m.world.store r s)))
  unfolding reusable
  reusable_cases none owner m hit filed h = inl (sym (ok-injective h))
  reusable_cases (some key) owner m hit filed h =
      elim (find_cached_cases env.parse key owner m.world.store hit filed h) [
        | inl (nothing, _) ↦ inl nothing
        | inr (r, s, _, stored, _, found) ↦ inr (r, s, stored, found)
      ]

  submit_steps :
      (q : Request G R L) (p : Principal) (m m' : Manager F D) (j : Job F D)
      → submit env q p m ≡ ok (m', j)
      → (c : Checked G R P V) × (hit : Option (JobRecord F D (List (Event F)))) × (reusable env
            c.cache_key p.id m
          ≡ ok hit)
        × (answer env q p c m hit ≡ ok (m', j))
  unfolding submit
  submit_steps q p m m' j h = elim (Result-cases (check_request env q)) [
    | inl (e, refused) ↦ ground (arith, refused, h)
    | inr (c, checked) ↦ elim (Result-cases (reusable env c.cache_key p.id m)) [
      | inl (e, bad) ↦ ground (arith, checked, bad, h)
      | inr (hit, found) ↦ (c, hit, found, ground (arith, checked, found, h))
    ]
  ]

  -- An accepted submission is a use of a stored record, or a new job.
  submit_cases :
      (q : Request G R L) (p : Principal) (m m' : Manager F D) (j : Job F D)
      → Keyed m.world.store
      → submit env q p m ≡ ok (m', j)
      → ((r : JobRecord F D ListRef) × (lookup r.id m.world.store.records ≡ some r)
          × (m' ≡ with_store m (mark_reused r.id m.world.store)))
        ⊎ ((c : Checked G R P V) × (submit_new env q p c m ≡ ok (m', j)))
  unfolding answer
  submit_cases q p m m' j filed h =
      let (c, hit, found, answered) = submit_steps q p m m' j h in
      elim (reusable_cases c.cache_key p.id m hit filed found) [
        | inl missed ↦ inr (c, ground (arith, missed, answered))
        | inr (r, s, stored, served) ↦
            let (i, reused, _, _) = reuse-shown env r s m in
            inl (r, stored, ground (arith, served, answered, reused))
      ]

  -- The limits hold on: if a principal has no more active jobs, jobs in the last hour and bytes of
  -- artifacts than its quotas allow, then the same holds after any submission of its that is
  -- accepted, by the hour that the submission looked at.
  pub submit-WithinQuotas :
      (q : Request G R L) (p : Principal) (m m' : Manager F D) (j : Job F D)
      → Keyed m.world.store
      → lookup q.job_id m.world.store.records ≡ none
      → WithinQuotas p (usage p.id q.hour_ago m.world.store)
      → submit env q p m ≡ ok (m', j)
      → WithinQuotas p (usage p.id q.hour_ago m'.world.store)
  unfolding submission quota_usage to_record new_job
  submit-WithinQuotas q p m m' j filed new within h = elim (submit_cases q p m m' j filed h) [
    | inl (r, stored, same) ↦
        subst (WithinQuotas p)
          (sym (
            ap (λ x. usage p.id q.hour_ago x.world.store) same
            ∙ usage-mark_reused p.id q.hour_ago m.world.store r filed stored))
          within
    | inr (c, started) ↦
        let (r, room, begun, _) = submit_new_ok env q p c m m' j started in
        let now = usage p.id q.hour_ago m.world.store in
        let (jobs, hourly, _) = (check_quotas_iff p (quota_usage env p q.hour_ago m)).0 room in
        let job = to_record q.events (new_job (submission env q p c)) in
        let (active, recent, bytes) =
          usage-insert p.id q.job_id q.hour_ago m.world.store job new refl in
        subst (WithinQuotas p)
          (sym (
            ap (usage p.id q.hour_ago)
              (stored_new env q.events (submission env q p c) m m' r new begun)))
          (
            one_more p.quotas.concurrent_jobs now.0 _ jobs active,
            one_more p.quotas.jobs_per_hour now.1 _ hourly recent,
            subst (Within p.quotas.artifact_bytes) (sym bytes) within.2,
          )
  ]
