-- ===== src/Auth/RateLimit.antt =====
-- app/common/rate_limit.py
use green_communuty_backend.Prelude.{ℕ, zero, Bool, true, false, ltb, leb, if◌then◌else◌}
use green_communuty_backend.Core.Redis.{Redis, Key}

pub record RateLimitResult : Type 0 where
  pub allowed : Bool
  pub current : ℕ
  pub retry_after : ℕ

module _ (R : Redis) where
  unfoldable pub hit : Key → ℕ → ℕ → R.Store → RateLimitResult × R.Store
  hit key max_attempts window store =
      let store' = R.incr_expire_nx key window store in
      let current = R.counter key store' in
      let ttl = R.ttl key store' in
      (
        (if leb current max_attempts
            then record { allowed = true; current = current; retry_after = 0 }
            else record {
              allowed = false;
              current = current;
              retry_after = if ltb zero ttl then ttl else window;
            }),
        store',
      )

  unfoldable pub reset : Key → R.Store → R.Store
  reset key store = R.delete key store
