-- ===== src/Auth/Service.antt =====
-- app/modules/auth/service.py, and app/common/dependencies.py. The time, the fresh token ids and
-- Python's `str.lower` are arguments.
use green_communuty_backend.Prelude.{
  ℕ, ◌*◌, ◌-◌, String, Bool, true, false, not, ◌||◌, Option, none, some, List, [], ◌∷◌, str_eq,
  if◌then◌else◌,
}
use green_communuty_backend.Core.Errors.{unauthorized, forbidden, rate_limited}
use green_communuty_backend.Core.Action.{
  Action, Result, ok, err, ◌>>=◌, ◌>>◌, gets, pure, lift, raise_if,
}
use green_communuty_backend.Core.Session.{Engine}
use green_communuty_backend.Core.Redis.{Redis, Key}
use green_communuty_backend.Core.World.{World, on_session, on_store, tables}
use green_communuty_backend.Models.{User, UserRole}
use green_communuty_backend.Auth.Security.{
  Crypto, Settings, TokenPayload, access, refresh, verify_password, create_access_token,
  create_refresh_token, decode_token, hash_token,
}
use green_communuty_backend.Users.Repository.{get_user_by_id, get_user_by_email}
use green_communuty_backend.Users.Service as UserService
use green_communuty_backend.Users.Service.{UserCreate}
use green_communuty_backend.Auth.TokenStore as TokenStore
use green_communuty_backend.Auth.TokenStore.{TokenState}
use green_communuty_backend.Auth.RateLimit as RateLimit

pub record IssuedTokens : Type 0 where
  pub access_token : String
  pub refresh_token : String
  pub expires_in : ℕ

abbrev pub dummy_password_hash : String
dummy_password_hash = "$2b$12$C6UzMDM.H6dfI/f/IKcEe.6qL8x4rY4rB0LHhCwZgHUqvOeYlqQvi"

-- The ids that a call draws from `uuid4`: of the access token, and of the refresh token.
pub record FreshIds : Type 0 where
  pub access_jti : String
  pub refresh_jti : String

abbrev pub hash_of : Option User → String
hash_of none = dummy_password_hash
hash_of (some u) = u.user_password_hash

-- The user who may sign in: known, with the right password, and active.
abbrev pub may_login : Option User → Bool → Result User
may_login none right = err unauthorized
may_login (some u) right = if not right || not u.user_is_active then err unauthorized else ok u

abbrev pub active_user : Option User → Result User
active_user none = err unauthorized
active_user (some u) = if u.user_is_active then ok u else err unauthorized

abbrev pub has_role : List UserRole → UserRole → Bool
has_role [] role = false
has_role (UserRole.user ∷ roles) UserRole.user = true
has_role (UserRole.admin ∷ roles) UserRole.admin = true
has_role (UserRole.user ∷ roles) UserRole.admin = has_role roles UserRole.admin
has_role (UserRole.admin ∷ roles) UserRole.user = has_role roles UserRole.user

-- The dependency that `require_role` builds.
unfoldable pub require_role : List UserRole → User → Result User
require_role roles current = if has_role roles current.user_role then ok current else err forbidden

module _ (E : Engine) (R : Redis) (C : Crypto) (cfg : Settings) (lower : String → String) where
  unfoldable pub signup : UserCreate → Action (World E R) User
  signup payload = on_session E R (UserService.create E C payload)

  -- One round of the loop of `_check_login_rate_limit`.
  unfoldable pub check_key : Key → Action (World E R) (Unit {0})
  check_key key w =
      let (result, store) =
        RateLimit.hit R key cfg.login_rate_limit_max_attempts cfg.login_rate_limit_window_seconds
          w.store in
      (raise_if (not result.allowed) (rate_limited result.retry_after), record w { store = store })

  unfoldable pub check_login_rate_limit : String → String → Action (World E R) (Unit {0})
  check_login_rate_limit email ip = do
    check_key (Key.ratelimit_email (lower email))
    check_key (Key.ratelimit_ip ip)

  unfoldable pub reset_login_rate_limit : String → String → Action (World E R) (Unit {0})
  reset_login_rate_limit email ip = do
    on_store E R (RateLimit.reset R (Key.ratelimit_email (lower email)))
    on_store E R (RateLimit.reset R (Key.ratelimit_ip ip))

  unfoldable pub issue_tokens : ℕ → FreshIds → ℕ → Action (World E R) IssuedTokens
  issue_tokens now ids user = do
    on_store E R (
        TokenStore.save R cfg user ids.refresh_jti
          (hash_token C (create_refresh_token C cfg now ids.refresh_jti user)))
    pure (record {
      access_token = create_access_token C cfg now ids.access_jti user;
      refresh_token = create_refresh_token C cfg now ids.refresh_jti user;
      expires_in = cfg.access_token_expire_minutes * 60;
    })

  unfoldable pub login : ℕ → FreshIds → String → String → String → Action (World E R) IssuedTokens
  login now ids email password ip = do
    check_login_rate_limit email ip
    found ← gets (λ w. get_user_by_email E email (tables E R w).users)
    user ← lift (may_login found (verify_password C password (hash_of found)))
    reset_login_rate_limit email ip
    issue_tokens now ids user.user_id

  abbrev pub forget_user : ℕ → World E R → World E R
  forget_user user w = record w { store = (TokenStore.revoke_all R user w.store).1 }

  abbrev pub verify_state : TokenPayload → String → World E R → TokenState
  verify_state p token w = TokenStore.verify R C p.user_id p.jti token w.store

  abbrev pub rotate_issue : ℕ → FreshIds → TokenPayload → User → Action (World E R) IssuedTokens
  rotate_issue now ids p u = do
    on_store E R (TokenStore.rotate R p.user_id p.jti (p.expires_at - now))
    issue_tokens now ids u.user_id

  -- `refresh` for an active token, by what `get_by_id` finds.
  abbrev pub renew : ℕ → FreshIds → TokenPayload → Result User → Action (World E R) IssuedTokens
  renew now ids p (err e) w = (err e, forget_user p.user_id w)
  renew now ids p (ok u) w = rotate_issue now ids p u w

  -- `refresh` after the token is decoded, by what the store says of it.
  abbrev pub by_state : ℕ → FreshIds → TokenPayload → TokenState → Action (World E R) IssuedTokens
  by_state now ids p TokenState.reused w = (err unauthorized, forget_user p.user_id w)
  by_state now ids p TokenState.forged w = (err unauthorized, forget_user p.user_id w)
  by_state now ids p TokenState.unknown w = (err unauthorized, w)
  by_state now ids p TokenState.active w =
      renew now ids p (active_user (get_user_by_id p.user_id (tables E R w).users)) w

  unfoldable pub refresh_tokens : ℕ → FreshIds → String → Action (World E R) IssuedTokens
  refresh_tokens now ids token = do
    p ← lift (decode_token C now token refresh)
    state ← gets (verify_state p token)
    by_state now ids p state

  abbrev pub revoke_decoded : Result TokenPayload → Action (World E R) (Unit {0})
  revoke_decoded (err e) w = (ok tt, w)
  revoke_decoded (ok p) w = on_store E R (TokenStore.revoke R p.user_id p.jti) w

  unfoldable pub logout : ℕ → Option String → Action (World E R) (Unit {0})
  logout now none = pure tt
  logout now (some token) =
      if str_eq token "" then pure tt else revoke_decoded (decode_token C now token refresh)

  unfoldable pub logout_all : ℕ → Action (World E R) ℕ
  logout_all user w = (ok (TokenStore.revoke_all R user w.store).0, forget_user user w)

  -- `get_current_user`, by the bearer token of the request
  unfoldable pub get_current_user : ℕ → Option String → Action (World E R) User
  get_current_user now none = lift (err unauthorized)
  get_current_user now (some token) = do
    p ← lift (decode_token C now token access)
    found ← gets (λ w. get_user_by_id p.user_id (tables E R w).users)
    lift (active_user found)
