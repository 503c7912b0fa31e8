-- ===== src/Examples/Sessions.antt =====
-- Signing in, renewing and signing out at concrete inputs.
use green_communuty_backend.Prelude.{
  ℕ, ◌+◌, ◌*◌, String, ◌≡◌, ◌≢◌, refl, sym, ◌∙◌, str_eq, true, false, some, ltb, first,
  if◌then◌else◌, arith,
}
use green_communuty_backend.Core.Errors.{unauthorized, rate_limited}
use green_communuty_backend.Core.Action.{ok_inj, ok, err}
use green_communuty_backend.Core.Redis.{Key}
use green_communuty_backend.Core.World.{World}
use green_communuty_backend.Models.{User}
use green_communuty_backend.Auth.Security.{
  Settings, TokenPayload, access, refresh, create_token, create_access_token, create_refresh_token,
  decode_token, hash_token, verify_password,
}
use green_communuty_backend.Auth.TokenStore as TokenStore
use green_communuty_backend.Auth.TokenStore.{TokenState, save}
use green_communuty_backend.Users.Repository.{get_user_by_id, get_user_by_email}
use green_communuty_backend.Auth.Service.{
  IssuedTokens, FreshIds, refresh_tokens, issue_tokens, login, logout, check_login_rate_limit,
  check_key, reset_login_rate_limit,
}
use green_communuty_backend.Auth.RateLimit.{hit}
use green_communuty_backend.Auth.Tokens.{decode_token-create_token, decode_refresh}
use green_communuty_backend.Auth.States.{is_token, verify-save}
use green_communuty_backend.Auth.Rotation.{refresh_tokens-renews, logout-ends}
use green_communuty_backend.Auth.Limits.{login-ok, login-limited}
use green_communuty_backend.Examples.Database.{permissive}
use green_communuty_backend.Examples.Cache.{cache, cache-texts, cache-counters}
use green_communuty_backend.Examples.Signing.{signing, signing-laws, encode-filled}
use green_communuty_backend.Examples.Rows.{started}

abbrev settings : Settings
settings = record {
  access_token_expire_minutes = 15;
  refresh_token_expire_days = 1;
  login_rate_limit_max_attempts = 1;
  login_rate_limit_window_seconds = 60;
}

abbrev lower : String → String
lower s = s

abbrev ids : FreshIds
ids = record { access_jti = "a2"; refresh_jti = "r2" }

abbrev more_ids : FreshIds
more_ids = record { access_jti = "a3"; refresh_jti = "r3" }

-- Ann's first refresh token, and the world in which it was saved.
abbrev token : String
token = create_refresh_token signing settings 0 "r1" 1

abbrev payload : TokenPayload
payload = record { user_id = 1; token_type = refresh; jti = "r1"; expires_at = 0 + 1 * 86400 }

abbrev signed_in : World permissive cache
signed_in = record started {
  store = save cache settings 1 "r1" (hash_token signing token) started.store;
}

read_token : decode_token signing 10 token refresh ≡ ok payload
read_token = decode_refresh signing signing-laws settings 0 10 1 "r1" refl refl

token_active : TokenStore.verify cache signing 1 "r1" token signed_in.store ≡ TokenState.active
token_active = verify-save cache cache-texts signing settings 1 "r1" token started.store refl

abbrev renewed : IssuedTokens
renewed = record {
  access_token = create_access_token signing settings 10 "a2" 1;
  refresh_token = create_refresh_token signing settings 10 "r2" 1;
  expires_in = 15 * 60;
}

renewal :
    (refresh_tokens permissive cache signing settings lower 10 ids token signed_in).0 ≡ ok renewed
unfolding refresh_tokens issue_tokens get_user_by_id first
renewal = rw (read_token, token_active) refl

refresh_tokens-renews_example :
    (decode_token signing 20 renewed.refresh_token refresh
      ≡ ok (record { user_id = 1; token_type = refresh; jti = "r2"; expires_at = 10 + 1 * 86400 }))
    × (TokenStore.verify cache signing 1 "r2" renewed.refresh_token
          (refresh_tokens permissive cache signing settings lower 10 ids token signed_in).1.store
        ≡ TokenState.active)
unfolding save
refresh_tokens-renews_example =
    refresh_tokens-renews cache cache-texts signing settings permissive lower signing-laws 10 20 ids
      token signed_in payload renewed read_token refl refl refl refl renewal

token_filled : str_eq token "" ≡ false
unfolding create_refresh_token create_token
token_filled = encode-filled _

token_apart :
    (p : TokenPayload)
    → decode_token signing 10 token refresh ≡ ok p
    → is_token p.user_id p.jti 1 "r2" ≡ false
token_apart p e =
    let same : payload ≡ p = ok_inj payload p (sym read_token ∙ e) in rw (sym same) refl

logout-ends_example :
    ((logout permissive cache signing settings lower 10 (some token) signed_in).0 ≡ ok tt)
    × (TokenStore.verify cache signing 1 "r1" token
          (logout permissive cache signing settings lower 10 (some token) signed_in).1.store
        ≢ TokenState.active)
logout-ends_example =
    logout-ends cache cache-texts signing settings permissive lower 10 token signed_in payload
      token_filled read_token

abbrev session_tokens : IssuedTokens
session_tokens = record {
  access_token = create_access_token signing settings 0 "a2" 1;
  refresh_token = create_refresh_token signing settings 0 "r2" 1;
  expires_in = 15 * 60;
}

signing_in :
    (login permissive cache signing settings lower 0 ids "ann@example.com" "secret" "::1" started).0
    ≡ ok session_tokens
unfolding login check_login_rate_limit check_key hit get_user_by_email first verify_password
    reset_login_rate_limit issue_tokens
signing_in = refl

login-ok_example :
    (u : User) × (get_user_by_email permissive "ann@example.com" started.session.live.users
      ≡ some u)
    × (verify_password signing "secret" u.user_password_hash ≡ true)
    × (u.user_is_active ≡ true)
login-ok_example =
    login-ok permissive cache signing settings lower 0 ids "ann@example.com" "secret" "::1" started
      session_tokens signing_in

failing :
    (login permissive cache signing settings lower 0 ids "ann@example.com" "guess" "::1" started).0
    ≡ err unauthorized
unfolding login check_login_rate_limit check_key hit get_user_by_email first verify_password
failing = refl

abbrev tried : World permissive cache
tried = record started {
  store = cache.incr_expire_nx (Key.ratelimit_email "ann@example.com") 60 started.store;
}

login-limited_example :
    (retry : ℕ) × ((login permissive cache signing settings lower 0 ids "ann@example.com" "secret"
        "::1" tried).0
      ≡ err (rate_limited retry))
    × ((login permissive cache signing settings lower 0 ids "ann@example.com" "secret" "::1"
          tried).1.session
        ≡ tried.session)
login-limited_example =
    login-limited permissive cache signing settings lower cache-counters 0 ids "ann@example.com"
      "secret" "::1" tried (omega arith)

decode_token-create_token_example :
    decode_token signing 10 (create_token signing 0 "r1" 1 refresh 86400) access
    ≡ (if ltb 10 (0 + 86400) then err unauthorized else err unauthorized)
decode_token-create_token_example =
    decode_token-create_token signing signing-laws 0 10 1 86400 "r1" refresh access
