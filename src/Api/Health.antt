-- ===== src/Api/Health.antt =====
-- app/api/health.py. What the driver of the database and the client of Redis answer is a parameter.
use green_communuty_backend.Prelude.{ℕ, Bool, true, false, ◌&&◌, if◌then◌else◌}
use green_communuty_backend.Core.Errors.{Error}
use green_communuty_backend.Core.Action.{Result, ok, err}

pub data Health : Type 0 where
  healthy failing : Health

pub record ReadinessResponse : Type 0 where
  pub status : Health
  pub database : Health
  pub redis : Health

-- A call of the driver: it answers, or raises its own kind of exception, or another one.
pub data Probe : Type 0 where
  answers own_error : Probe
  other_error : Error → Probe

abbrev health_of : Bool → Health
health_of true = Health.healthy
health_of false = Health.failing

-- `_check_database` and `_check_redis`: they catch only the exceptions of the library.
unfoldable pub check : Probe → Result Bool
check Probe.answers = ok true
check Probe.own_error = ok false
check (Probe.other_error e) = err e

abbrev respond : Bool → Bool → ReadinessResponse × ℕ
respond database_ok redis_ok = (
  record {
    status = health_of (database_ok && redis_ok);
    database = health_of database_ok;
    redis = health_of redis_ok;
  },
  if database_ok && redis_ok then 200 else 503,
)

abbrev with_redis : Bool → Result Bool → Result (ReadinessResponse × ℕ)
with_redis database_ok (err e) = err e
with_redis database_ok (ok redis_ok) = ok (respond database_ok redis_ok)

-- The body of the response and its status; the database is asked first.
unfoldable pub readiness : Probe → Probe → Result (ReadinessResponse × ℕ)
unfolding check
readiness database redis = elim (check database) [
  | err e ↦ err e
  | ok database_ok ↦ with_redis database_ok (check redis)
]
