-- ===== src/Identity.antt =====
-- server/fenixspoon/core/identity.py: who is asking, and what they may still do.
pub mod Limits
use fenix_spoon.Prelude.{
  ◌≡◌, ℕ, ◌≤◌, ◌<◌, String, Bool, true, false, not, ◌&&◌, Option, none, some, ◌==◌, nat_eq, leb,
  Result, ok, err, guard, ◌>>=◌, ◌>>◌,
}

-- 0 is no limit
pub record Quotas : Type 0 where
  pub concurrent_jobs : ℕ
  pub jobs_per_hour : ℕ
  pub artifact_bytes : ℕ
  pub objects : ℕ

pub record Principal : Type 0 where
  pub id : String
  pub quotas : Quotas

pub record QuotaUsage : Type 0 where
  pub concurrent_jobs : ℕ
  pub jobs_last_hour : ℕ
  pub artifact_bytes : ℕ

-- `QuotaExceeded`, by the quota that its message names, with its `retry_after`
pub data QuotaExceeded : Type 0 where
  too_many_active : ℕ → ℕ → QuotaExceeded
  too_many_in_hour : ℕ → ℕ → QuotaExceeded
  too_many_bytes : ℕ → ℕ → QuotaExceeded
  too_many_objects : ℕ → ℕ → QuotaExceeded

unfoldable pub retry_after : QuotaExceeded → Option ℕ
retry_after (too_many_active used limit) = none
retry_after (too_many_in_hour used limit) = some 3600
retry_after (too_many_bytes used limit) = none
retry_after (too_many_objects used limit) = none

-- `limit and used >= limit`
unfoldable pub is_spent : ℕ → ℕ → Bool
is_spent limit used = not (limit == 0) && leb limit used

unfoldable pub check_quotas : Principal → QuotaUsage → Result QuotaExceeded (Unit {0})
unfolding is_spent
check_quotas p usage = do
  guard (not (is_spent p.quotas.concurrent_jobs usage.concurrent_jobs))
      (too_many_active usage.concurrent_jobs p.quotas.concurrent_jobs)
  guard (not (is_spent p.quotas.jobs_per_hour usage.jobs_last_hour))
      (too_many_in_hour usage.jobs_last_hour p.quotas.jobs_per_hour)
  guard (not (is_spent p.quotas.artifact_bytes usage.artifact_bytes))
      (too_many_bytes usage.artifact_bytes p.quotas.artifact_bytes)

unfoldable pub check_object_quota : Principal → ℕ → Result QuotaExceeded (Unit {0})
unfolding is_spent
check_object_quota p owned =
    guard (not (is_spent p.quotas.objects owned)) (too_many_objects owned p.quotas.objects)
