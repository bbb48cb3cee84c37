-- ===== src/Identity/Limits.antt =====
-- What the quota checks let through.
use fenix_spoon.Prelude.{◌≡◌, ◌↔◌, ◌⊎◌, ◌<◌, ℕ, ok, nat_eq, arith}
use fenix_spoon.Identity.{Principal, QuotaUsage, is_spent, check_quotas, check_object_quota}

-- A limit is off, or there is room under it.
abbrev pub Room : ℕ → ℕ → Type 0
Room limit used = (limit ≡ 0) ⊎ (used < limit)

pub check_quotas_iff :
    (p : Principal) (usage : QuotaUsage)
    → (check_quotas p usage ≡ ok tt) ↔ (
        Room p.quotas.concurrent_jobs usage.concurrent_jobs
        × Room p.quotas.jobs_per_hour usage.jobs_last_hour
        × Room p.quotas.artifact_bytes usage.artifact_bytes)
unfolding check_quotas is_spent
check_quotas_iff p usage = ground arith

pub check_object_quota_iff :
    (p : Principal) (owned : ℕ) → (check_object_quota p owned ≡ ok tt) ↔ Room p.quotas.objects owned
unfolding check_object_quota is_spent
check_object_quota_iff p owned = ground arith
