-- ===== src/Service.antt =====
-- `FenixSpoonCore` of server/fenixspoon/core/service.py: the door that every submission goes
-- through. `G` is a geometry, `R` the parameters as they are sent, `P` as a solver reads them, `L`
-- and `V` a load case as it is sent and a scalar of it as it is read.
pub mod Cache
pub mod Limits
pub mod Reads
pub mod Paging
pub mod Study
use fenix_spoon.Prelude.{
  ◌≡◌, ℕ, ◌+◌, String, Bool, true, false, not, ◌&&◌, ◌||◌, List, [], ◌∷◌, ◌++◌, map, Option, none,
  some, Eq, ◌==◌, nat_eq, string_eq, if◌then◌else◌, ltb, leb, length, contains, Result, ok, err,
  guard, ◌>>=◌, ◌>>◌,
}
use fenix_spoon.Dict.{Dict, lookup, insert}
use fenix_spoon.Series.{Series1DData, SeriesError}
use fenix_spoon.Conditions.{Conditions, ConditionError, check_conditions}
use fenix_spoon.Store.{Event, InputValue, JobRecord, Provenance}
use fenix_spoon.Store.Memory.{ListRef, mark_reused}
use fenix_spoon.Store.Memory.Queries.{find_cached, usage}
use fenix_spoon.Jobs.{Job, Manager, Submission, from_record, new_job, with_store}
use fenix_spoon.Jobs
use fenix_spoon.Identity.{Principal, QuotaUsage, QuotaExceeded, check_quotas}

-- `MetricSpec`, and what a `Solver` class says of itself
pub record MetricSpec : Type 0 where
  pub name : String
  pub unit : String

pub record Solver (G R P : Type 0) : Type 0 where
  pub name : String
  pub version : String
  pub requires : List String
  pub deterministic : Bool
  pub geometry_types : List String
  pub parameters : List String
  pub metrics : List MetricSpec
  pub condition_keys : List String
  pub validate : R → Option P
  pub estimate_cells : G → P → Option ℕ

-- `CoreError`s of a submission
pub data CoreError : Type 0 where
  unknown_capability : String → CoreError
  geometry_kind_mismatch : String → List String → String → CoreError
  invalid_params : CoreError
  condition_error : ConditionError → CoreError
  cell_budget_exceeded : ℕ → ℕ → CoreError
  quota_exceeded : QuotaExceeded → CoreError

-- what a submission may raise: a `CoreError`, or the `ValidationError` of a curve in the store
pub data Raised : Type 0 where
  core : CoreError → Raised
  series : SeriesError → Raised

abbrev pub as_core : {A : Type 0} → Result CoreError A → Result Raised A
as_core (err e) = err (core e)
as_core (ok a) = ok a

abbrev pub as_series : {A : Type 0} → Result SeriesError A → Result Raised A
as_series (err e) = err (series e)
as_series (ok a) = ok a

abbrev pub as_quota : Result QuotaExceeded (Unit {0}) → Result CoreError (Unit {0})
as_quota (err e) = err (quota_exceeded e)
as_quota (ok a) = ok a

abbrev pub as_condition : {A : Type 0} → Result ConditionError A → Result CoreError A
as_condition (err e) = err (condition_error e)
as_condition (ok a) = ok a

-- What a cache key is a digest of.
pub record CacheInputs (G P V : Type 0) : Type 0 where
  pub solver : String
  pub solver_version : String
  pub geometry : G
  pub params : P
  pub environment : Dict String String
  pub conditions : Conditions V

-- What the service is run with: the registry, the geometry's two attributes, pydantic's reading of a
-- load case and of a curve, the hash, and the versions of what is installed.
pub record Setting (F D G R P L V : Type 0) : Type 0 where
  pub solvers : Dict String (Solver G R P)
  pub geometry_type : G → String
  pub boundaries : G → List String
  pub is_empty : L → Bool
  pub validate_conditions : L → Option (Conditions V)
  pub parse : D → Option (Series1DData F)
  pub digest : CacheInputs G P V → String
  pub fingerprint : List String → Dict String String
  pub cache : Bool
  pub max_cells : ℕ

-- the arguments of `submit`, and what the process gives a new job
pub record Request (G R L : Type 0) : Type 0 where
  pub solver : String
  pub geometry : G
  pub params : R
  pub inputs : Dict String InputValue
  pub conditions : L
  pub job_id : String
  pub events : ListRef
  pub now : ℕ
  pub hour_ago : ℕ

-- what the checks leave of a request
pub record Checked (G R P V : Type 0) : Type 0 where
  pub solver : Solver G R P
  pub params : P
  pub conditions : Conditions V
  pub cache_key : Option String
  pub provenance : Provenance

module _ {F D G R P L V : Type 0} (env : Setting F D G R P L V) where
  -- `capability`
  unfoldable pub capability : String → Result CoreError (Solver G R P)
  capability name = elim (lookup name env.solvers) [
    | none ↦ err (unknown_capability name)
    | some s ↦ ok s
  ]

  unfoldable pub validate_params : Solver G R P → R → Result CoreError P
  validate_params s params = elim (s.validate params) [ none ↦ err invalid_params | some p ↦ ok p ]

  -- `estimate is not None and limit and estimate > limit`
  unfoldable pub check_cells : Option ℕ → Result CoreError (Unit {0})
  check_cells none = ok tt
  check_cells (some estimate) =
      guard (not (not (env.max_cells == 0) && ltb env.max_cells estimate))
        (cell_budget_exceeded estimate env.max_cells)

  unfoldable pub cache_key_for :
      Solver G R P → G → P → Dict String String → Conditions V → Option String
  cache_key_for s geometry params environment conditions =
      if not env.cache || not s.deterministic
      then none
      else some (
          env.digest (record {
            solver = s.name;
            solver_version = s.version;
            geometry = geometry;
            params = params;
            environment = environment;
            conditions = conditions;
          }))

  -- `submit`, up to the cache lookup
  unfoldable pub check_request : Request G R L → Result CoreError (Checked G R P V)
  unfolding capability validate_params check_cells cache_key_for
  check_request q = do
    s ← capability q.solver
    guard (contains (env.geometry_type q.geometry) s.geometry_types)
        (geometry_kind_mismatch q.solver s.geometry_types (env.geometry_type q.geometry))
    params ← validate_params s q.params
    conditions ← as_condition (
        check_conditions env.is_empty env.validate_conditions s.name s.condition_keys
          (env.boundaries q.geometry) q.conditions)
    check_cells (s.estimate_cells q.geometry params)
    let environment = env.fingerprint s.requires
    ok (record {
      solver = s;
      params = params;
      conditions = conditions;
      cache_key = cache_key_for s q.geometry params environment conditions;
      provenance = record { solver_version = s.version; environment = environment };
    })

  -- the record that serves a key, where there is a key and there is one
  unfoldable pub reusable :
      Option String
      → String
      → Manager F D
      → Result SeriesError (Option (JobRecord F D (List (Event F))))
  reusable none owner m = ok none
  reusable (some key) owner m = find_cached env.parse key owner m.world.store

  -- a hit: the counter of the job that it is goes up, and so does that of the copy
  unfoldable pub reuse :
      JobRecord F D (List (Event F)) → Manager F D → Result SeriesError (Manager F D × Job F D)
  reuse r m = do
    j ← from_record env.parse (record r { reused = r.reused + 1 })
    ok (with_store m (mark_reused r.id m.world.store), j)

  unfoldable pub submission : Request G R L → Principal → Checked G R P V → Submission
  submission q p c = record {
    job_id = q.job_id;
    solver_name = c.solver.name;
    owner = p.id;
    inputs = q.inputs;
    cache_key = c.cache_key;
    provenance = some c.provenance;
    now = q.now;
  }

  unfoldable pub quota_usage : Principal → ℕ → Manager F D → QuotaUsage
  quota_usage p since m =
      let (active, recent, bytes) = usage p.id since m.world.store in
      record { concurrent_jobs = active; jobs_last_hour = recent; artifact_bytes = bytes }

  -- a miss: the quotas, and then a job of its own
  unfoldable pub submit_new :
      Request G R L
      → Principal
      → Checked G R P V
      → Manager F D
      → Result Raised (Manager F D × Job F D)
  unfolding submission quota_usage
  submit_new q p c m = do
    as_core (as_quota (check_quotas p (quota_usage p q.hour_ago m)))
    let s = submission q p c
    (started, r) ← as_series (Jobs.submit env.parse q.events s m)
    ok (started, new_job s)

  unfoldable pub answer :
      Request G R L
      → Principal
      → Checked G R P V
      → Manager F D
      → Option (JobRecord F D (List (Event F)))
      → Result Raised (Manager F D × Job F D)
  unfolding reuse submit_new
  answer q p c m (some r) = as_series (reuse r m)
  answer q p c m none = submit_new q p c m

  -- `submit`
  unfoldable pub submit :
      Request G R L → Principal → Manager F D → Result Raised (Manager F D × Job F D)
  unfolding check_request reusable answer
  submit q p m = do
    c ← as_core (check_request q)
    hit ← as_series (reusable c.cache_key p.id m)
    answer q p c m hit
