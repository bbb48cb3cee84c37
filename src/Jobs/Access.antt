-- ===== src/Jobs/Access.antt =====
-- Who is given which job.
use fenix_spoon.Prelude.{
  ◌==◌, ◌≡◌, String, Bool, Option, none, some, ok, >>=-eq-ok, string_eq, inl, inr, Option-cases,
  arith, ◌⊎◌, ◌≢◌, ◌∙◌, sym, Bool-cases, ne_of_==,
}
use fenix_spoon.Series.{Series1DData}
use fenix_spoon.Dict.{lookup}
use fenix_spoon.Store.Memory
use fenix_spoon.Jobs.{Manager, Job, find_job, scoped, get}

module _ {F D : Type 0} (parse : D → Option (Series1DData F)) where
  get_missing :
      (job_id : String) (owner : Option String) (with_result : Bool) (m : Manager F D)
      → lookup job_id m.jobs ≡ none
      → lookup job_id m.world.store.records ≡ none
      → get parse job_id owner with_result m ≡ ok none
  unfolding get find_job Memory.get
  get_missing job_id owner with_result m idle missing = ground (arith, idle, missing)

  -- A principal who asks for a job that is there is given it exactly if it is theirs; otherwise the
  -- answer is the one that they have where no such job is live or stored.
  pub get_scoped :
      (job_id owner : String) (with_result : Bool) (m elsewhere : Manager F D) (j : Job F D)
      → get parse job_id none with_result m ≡ ok (some j)
      → lookup job_id elsewhere.jobs ≡ none
      → lookup job_id elsewhere.world.store.records ≡ none
      → ((j.owner ≡ owner) × (get parse job_id (some owner) with_result m ≡ ok (some j)))
        ⊎ ((j.owner ≢ owner)
            × (get parse job_id (some owner) with_result m
                ≡ get parse job_id (some owner) with_result elsewhere))
  unfolding get scoped
  get_scoped job_id owner with_result m elsewhere j h idle missing =
      let (found, e, rest) = >>=-eq-ok (find_job parse job_id with_result m) _ h in
      let nowhere = get_missing job_id (some owner) with_result elsewhere idle missing in
      elim (Option-cases found) [
        | inl nothing ↦ absurd (ground (arith, rest, nothing))
        | inr (k, at) ↦ elim (Bool-cases (j.owner == owner)) [
          | inl mine ↦
              inl ((string_eq.beq_iff j.owner owner).0 mine, ground (arith, e, at, rest, mine))
          | inr other ↦
              inr (ne_of_== j.owner owner other, ground (arith, e, at, rest, other) ∙ sym nowhere)
        ]
      ]
