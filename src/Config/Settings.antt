-- ===== src/Config/Settings.antt =====
-- The class `Settings` of app/core/config.py. A `SecretStr` is its text; the address parts that no check
-- reads are kept for the addresses.
use Prim.Native.String.{◌++◌}
use green_communuty_backend.Prelude.{
  ℕ, ◌+◌, ◌≤◌, ◌≡◌, ◌≢◌, sym, String, Bool, true, false, not, ◌&&◌, ◌||◌, Option, none, some, ltb,
  str_eq, eq_iff, inl, inr, if◌then◌else◌, arith,
}
use green_communuty_backend.Core.Errors.{value_error}
use green_communuty_backend.Core.Action.{Result, ok, raise_if, ◌and_then◌, Result-cases, ok_err}
use green_communuty_backend.Core.Storage.{StorageSettings}
use green_communuty_backend.Config.Texts.{strip, is_empty, encoded_len, quote_plus}

pub data Environment : Type 0 where
  local dev staging production : Environment

pub data SameSite : Type 0 where
  lax strict none_at_all : SameSite

-- The values as they are sent, or their defaults; an optional text is none where nothing was sent.
-- `r2_region` is a text with the default "auto", and none stands for that default.
pub record Settings : Type 0 where
  pub environment : Environment
  pub project_name : String
  pub api_v1_prefix : String
  pub secret_key : String
  pub jwt_algorithm : String
  pub access_token_expire_minutes : ℕ
  pub refresh_token_expire_days : ℕ
  pub cors_origins : String
  pub cookie_secure : Bool
  pub cookie_samesite : SameSite
  pub login_rate_limit_max_attempts : ℕ
  pub login_rate_limit_window_seconds : ℕ
  pub mysql_host : String
  pub mysql_port : ℕ
  pub mysql_user : String
  pub mysql_password : String
  pub mysql_db : String
  pub db_pool_size : ℕ
  pub db_max_overflow : ℕ
  pub db_pool_timeout : ℕ
  pub db_echo : Bool
  pub db_synchronize : Bool
  pub threadpool_max_workers : ℕ
  pub redis_host : String
  pub redis_port : ℕ
  pub redis_password : Option String
  pub redis_db : ℕ
  pub storage : StorageSettings
  pub s3_endpoint_url : Option String
  pub s3_region : String
  pub r2_public_url : Option String
  pub r2_region : Option String

abbrev pub insecure_secret_key : String
insecure_secret_key = "change-me-in-production-this-is-not-a-secret"

abbrev pub min_secret_key_bytes : ℕ
min_secret_key_bytes = 32

-- `_empty_str_to_none`, of a value that was sent as a text
unfoldable pub empty_str_to_none : Option String → Option String
unfolding strip
empty_str_to_none none = none
empty_str_to_none (some value) = if is_empty (strip value) then none else some value

-- The validator runs on these fields before the others.
unfoldable pub normalise : Settings → Settings
unfolding empty_str_to_none
normalise s = record s {
  redis_password = empty_str_to_none s.redis_password;
  s3_endpoint_url = empty_str_to_none s.s3_endpoint_url;
  r2_public_url = empty_str_to_none s.r2_public_url;
  storage = record (s.storage) {
    s3_access_key = empty_str_to_none s.storage.s3_access_key;
    s3_secret_key = empty_str_to_none s.storage.s3_secret_key;
    s3_bucket = empty_str_to_none s.storage.s3_bucket;
    r2_account_id = empty_str_to_none s.storage.r2_account_id;
    r2_access_key_id = empty_str_to_none s.storage.r2_access_key_id;
    r2_secret_access_key = empty_str_to_none s.storage.r2_secret_access_key;
    r2_bucket_name = empty_str_to_none s.storage.r2_bucket_name;
  };
}

-- `R2_REGION` goes through the same validator, and its type takes no None.
unfoldable pub check_region : Option String → Result (Unit {0})
unfolding strip
check_region none = ok tt
check_region (some region) = raise_if (is_empty (strip region)) value_error

abbrev pub is_production_at : Environment → Bool
is_production_at Environment.production = true
is_production_at Environment.local = false
is_production_at Environment.dev = false
is_production_at Environment.staging = false

unfoldable pub is_production : Settings → Bool
is_production s = is_production_at s.environment

unfoldable pub database_url : (ℕ → String) → Settings → String
database_url str_of s =
    "mysql+pymysql://"
    ++ ((quote_plus s.mysql_user ++ (":" ++ quote_plus s.mysql_password))
        ++ ("@"
            ++ (s.mysql_host
                ++ (":" ++ (str_of s.mysql_port ++ ("/" ++ (s.mysql_db ++ "?charset=utf8mb4")))))))

abbrev redis_credentials : Option String → String
redis_credentials none = ""
redis_credentials (some password) = ":" ++ (quote_plus password ++ "@")

unfoldable pub redis_url : (ℕ → String) → Settings → String
redis_url str_of s =
    "redis://"
    ++ (redis_credentials s.redis_password
        ++ (s.redis_host ++ (":" ++ (str_of s.redis_port ++ ("/" ++ str_of s.redis_db)))))

-- The bounds in the fields' declarations: `ge=1`.
unfoldable pub check_fields : Settings → Result (Unit {0})
check_fields s =
    raise_if
      (ltb s.access_token_expire_minutes 1
        || ltb s.refresh_token_expire_days 1
        || ltb s.login_rate_limit_max_attempts 1
        || ltb s.login_rate_limit_window_seconds 1
        || ltb s.db_pool_size 1
        || ltb s.db_pool_timeout 1
        || ltb s.threadpool_max_workers 1)
      value_error

unfoldable pub validate_secret_key : Settings → Result (Unit {0})
unfolding is_production
validate_secret_key s =
    raise_if (is_production s && str_eq s.secret_key insecure_secret_key) value_error
    and_then raise_if (ltb (encoded_len s.secret_key) min_secret_key_bytes) value_error

unfoldable pub validate_pool_capacity : Settings → Result (Unit {0})
validate_pool_capacity s =
    raise_if (ltb (s.db_pool_size + s.db_max_overflow) s.threadpool_max_workers) value_error

-- `ENVIRONMENT in DB_SYNCHRONIZE_ALLOWED_ENVIRONMENTS`
abbrev pub may_synchronize : Environment → Bool
may_synchronize Environment.local = true
may_synchronize Environment.dev = true
may_synchronize Environment.staging = false
may_synchronize Environment.production = false

unfoldable pub validate_db_synchronize : Settings → Result (Unit {0})
validate_db_synchronize s =
    raise_if (s.db_synchronize && not (may_synchronize s.environment)) value_error

abbrev is_none_at_all : SameSite → Bool
is_none_at_all SameSite.none_at_all = true
is_none_at_all SameSite.lax = false
is_none_at_all SameSite.strict = false

unfoldable pub validate_cookie_policy : Settings → Result (Unit {0})
validate_cookie_policy s =
    raise_if (is_none_at_all s.cookie_samesite && not s.cookie_secure) value_error

-- The bounds of the fields, then the validators in the order of the class.
unfoldable pub validate : Settings → Result Settings
unfolding check_fields validate_secret_key validate_pool_capacity validate_db_synchronize
    validate_cookie_policy
validate s =
    check_fields s
    and_then validate_secret_key s
    and_then validate_pool_capacity s
    and_then validate_db_synchronize s
    and_then validate_cookie_policy s
    and_then ok s

-- `Settings()`
unfoldable pub load : Settings → Result Settings
unfolding normalise check_region
load sent = check_region sent.r2_region and_then validate (normalise sent)

-- What the rest of the program may count on.
pub record IsAccepted (s : Settings) : Type 0 where
  pub own_key : s.environment ≡ Environment.production → s.secret_key ≢ insecure_secret_key
  pub long_key : min_secret_key_bytes ≤ encoded_len s.secret_key
  pub enough_connections : s.threadpool_max_workers ≤ s.db_pool_size + s.db_max_overflow
  pub some_worker : 1 ≤ s.threadpool_max_workers
  pub sessions_last : (1 ≤ s.access_token_expire_minutes) × (1 ≤ s.refresh_token_expire_days)
  pub attempts_limited :
      (1 ≤ s.login_rate_limit_max_attempts) × (1 ≤ s.login_rate_limit_window_seconds)
  pub no_drop_in_production : s.environment ≡ Environment.production → s.db_synchronize ≡ false
  pub sent_cookie : s.cookie_samesite ≡ SameSite.none_at_all → s.cookie_secure ≡ true

validate-IsAccepted : (s t : Settings) → validate s ≡ ok t → (t ≡ s) × IsAccepted t
unfolding validate check_fields validate_secret_key validate_pool_capacity validate_db_synchronize
    validate_cookie_policy is_production
validate-IsAccepted s t h =
    let same : t ≡ s = ground (arith, h) in
    (
      same,
      rw same (record {
        own_key = λ e published.
            ground (arith, h, e, (eq_iff s.secret_key insecure_secret_key).1 published);
        long_key = ground (arith, h);
        enough_connections = ground (arith, h);
        some_worker = ground (arith, h);
        sessions_last = ground (arith, h);
        attempts_limited = ground (arith, h);
        no_drop_in_production = λ e. ground (arith, h, e);
        sent_cookie = λ e. ground (arith, h, e);
      }),
    )

-- If the settings load, they are the ones that were given, with the blank optional ones as none,
-- and: in production the key is not the published one and the schema is not synchronised; the key
-- has at least 32 bytes; there are at most as many workers as database connections, and at least
-- one; the lifetimes and limits are at least one; and a cookie with SameSite=None is Secure.
pub load-IsAccepted : (s t : Settings) → load s ≡ ok t → (t ≡ normalise s) × IsAccepted t
unfolding load
load-IsAccepted s t h = elim (Result-cases (check_region s.r2_region)) [
  | inr (e, blank) ↦ absurd (ok_err t e (sym (rw blank at h)))
  | inl (done, sent) ↦ validate-IsAccepted (normalise s) t (rw sent at h)
]
