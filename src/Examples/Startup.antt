-- ===== src/Examples/Startup.antt =====
-- Settings, addresses, log entries and failures at concrete inputs.
use green_communuty_backend.Prelude.{◌≡◌, refl, true, false, none, some, [], ◌∷◌}
use green_communuty_backend.Core.Errors.{storage_error, rate_limited, status_code}
use green_communuty_backend.Core.Action.{ok}
use green_communuty_backend.Core.Storage.{s3}
use green_communuty_backend.Config.Texts.{encoded_len}
use green_communuty_backend.Config.Settings.{
  Settings, Environment, SameSite, IsAccepted, load, validate, normalise, check_region,
  load-IsAccepted, check_fields, validate_secret_key, validate_pool_capacity,
  validate_db_synchronize, validate_cookie_policy, is_production, database_url,
}
use green_communuty_backend.Config.Quoting.{Address, read_address}
use green_communuty_backend.Schema.{
  Step, Operations, single, bundle, done, next, collect_operations,
}
use green_communuty_backend.Schema.Flatten.{flatten, collect_operations-flatten}
use green_communuty_backend.Logging.{
  Fields, field, end_fields, dict, text, mask_sensitive_data, max_mask_depth,
}
use green_communuty_backend.Logging.Masking.{shows_fields, mask_sensitive_data-hides}
use green_communuty_backend.Api.Failures.{
  Failure, Carried, JsonResponse, told_by, answer, answer-hides, answer-contract,
}

abbrev pub deployed : Settings
deployed = record {
  environment = Environment.production;
  project_name = "community-backend";
  api_v1_prefix = "/api/v1";
  jwt_algorithm = "HS256";
  cors_origins = "http://localhost:3000";
  db_echo = false;
  storage = record {
    storage_provider = s3;
    s3_access_key = some "";
    s3_secret_key = none;
    s3_bucket = none;
    r2_account_id = none;
    r2_access_key_id = none;
    r2_secret_access_key = none;
    r2_bucket_name = none;
  };
  s3_endpoint_url = some " ";
  s3_region = "ap-northeast-2";
  r2_public_url = none;
  r2_region = none;
  secret_key = "0123456789abcdef0123456789abcdef";
  access_token_expire_minutes = 30;
  refresh_token_expire_days = 14;
  cookie_secure = true;
  cookie_samesite = SameSite.none_at_all;
  login_rate_limit_max_attempts = 5;
  login_rate_limit_window_seconds = 300;
  mysql_host = "db";
  mysql_port = 3306;
  mysql_user = "app";
  mysql_password = "p@ss:/word";
  mysql_db = "community";
  db_pool_size = 20;
  db_max_overflow = 30;
  db_pool_timeout = 30;
  db_synchronize = false;
  threadpool_max_workers = 40;
  redis_host = "cache";
  redis_port = 6379;
  redis_password = some "";
  redis_db = 0;
}

pub deployed_loads : load deployed ≡ ok (normalise deployed)
unfolding load validate normalise check_region check_fields validate_secret_key
    validate_pool_capacity validate_db_synchronize validate_cookie_policy is_production encoded_len
deployed_loads = refl

load-IsAccepted_example :
    (normalise deployed ≡ normalise deployed) × IsAccepted (normalise deployed)
load-IsAccepted_example = load-IsAccepted deployed (normalise deployed) deployed_loads

abbrev read : Address
read = read_address (database_url (λ n. "3306") deployed)

abbrev entry : Fields
entry = field "user" (dict (field "user_password" (text "a long secret") end_fields)) end_fields

mask_sensitive_data-hides_example :
    shows_fields (λ s. s) (mask_sensitive_data (λ s. s) entry) max_mask_depth ≡ false
mask_sensitive_data-hides_example = mask_sensitive_data-hides (λ s. s) entry

abbrev timed_out : Carried
timed_out = record { message = ""; detail = none; representation = "Timeout('10.0.0.7')" }

abbrev unreachable : Carried
unreachable = record { message = ""; detail = none; representation = "Unreachable('10.0.0.8')" }

abbrev reply : Environment → Failure → JsonResponse
reply environment f = answer (λ n. "9") (λ n. "OK") environment (some "r1") f

answer-hides_example :
    (reply Environment.production (Failure.raised storage_error timed_out)
      ≡ reply Environment.production (Failure.raised storage_error unreachable))
    × ((reply Environment.production (Failure.raised storage_error timed_out)).status_code ≡ 500)
    × ((reply Environment.production (Failure.raised storage_error timed_out)).content.detail
        ≡ none)
unfolding status_code
answer-hides_example =
    answer-hides (λ n. "9") (λ n. "OK") Environment.production (some "r1") storage_error timed_out
      unreachable refl refl

answer-contract_example :
    (told_by
        (λ n. "9")
        (λ n. "OK")
        Environment.local
        (some "r1")
        (reply Environment.local (Failure.raised (rate_limited 9) timed_out))
      ≡ record { status = 429; code = "RATE_LIMITED"; headers = ("Retry-After", "9") ∷ [] })
    × ((reply Environment.local (Failure.raised (rate_limited 9) timed_out)).content.request_id
        ≡ some "r1")
answer-contract_example =
    answer-contract (λ n. "9") (λ n. "OK") Environment.local (some "r1")
      (Failure.raised (rate_limited 9) timed_out)

abbrev drop_index : Step
drop_index = record {
  type_name = "DropIndexOp";
  table_name = some "posts";
  column = none;
  column_name = none;
  index_name = some "ix_posts";
  constraint_name = none;
}

abbrev changes : Operations
changes =
    next
      (bundle (
        next (single drop_index)
          (next (single (record drop_index { type_name = "DropColumnOp" })) done)))
      (next (single drop_index) done)

collect_operations-flatten_example : collect_operations (some changes) ≡ ok (flatten changes)
collect_operations-flatten_example = collect_operations-flatten changes
