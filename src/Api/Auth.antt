-- ===== src/Api/Auth.antt =====
-- app/modules/auth/router.py and app/modules/auth/schemas.py. The texts of the messages are left
-- out; the number of ended sessions is kept.
use green_communuty_backend.Prelude.{ℕ, ◌*◌, String, Option, none, some, str_eq, if◌then◌else◌}
use green_communuty_backend.Core.Errors.{unauthorized}
use green_communuty_backend.Core.Action.{Result, ok, err, ◌>>=◌, ◌>>◌, pure, lift}
use green_communuty_backend.Core.Site.{on_world}
use green_communuty_backend.Models.{User}
use green_communuty_backend.Users.Service.{UserCreate}
use green_communuty_backend.Auth.Security.{Settings}
use green_communuty_backend.Auth.Service as AuthService
use green_communuty_backend.Auth.Service.{IssuedTokens, FreshIds}
use green_communuty_backend.Api.Platform.{Platform, Handler}
use green_communuty_backend.Api.Users.{UserResponse, user_response}

pub record LoginRequest : Type 0 where
  pub email : String
  pub password : String

pub record TokenResponse : Type 0 where
  pub access_token : String
  pub expires_in : ℕ

-- What the response says of the refresh cookie.
pub data CookieChange : Type 0 where
  kept cleared : CookieChange
  set_to : String → ℕ → CookieChange

pub data AuthCall : Type 0 where
  signup : UserCreate → AuthCall
  login : LoginRequest → AuthCall
  refresh logout logout_all : AuthCall

pub data AuthReply : Type 0 where
  signed_up : UserResponse → AuthReply
  tokens : TokenResponse → AuthReply
  logged_out : AuthReply
  sessions_ended : ℕ → AuthReply

-- What the handlers read of a request.
pub record Client : Type 0 where
  pub now : ℕ
  pub ids : FreshIds
  pub host : Option String
  pub refresh_cookie : Option String
  pub bearer : Option String

-- `_set_refresh_cookie`
unfoldable pub set_refresh_cookie : Settings → String → CookieChange
set_refresh_cookie cfg token =
    CookieChange.set_to token (cfg.refresh_token_expire_days * 24 * 60 * 60)

-- `_token_response`
unfoldable pub token_response : Settings → IssuedTokens → AuthReply × CookieChange
unfolding set_refresh_cookie
token_response cfg issued = (
  AuthReply.tokens (record { access_token = issued.access_token; expires_in = issued.expires_in }),
  set_refresh_cookie cfg issued.refresh_token,
)

-- `_client_ip`
unfoldable pub client_ip : Option String → String
client_ip none = "unknown"
client_ip (some host) = host

-- `request.cookies.get(…)`, refused where it is missing or empty
unfoldable pub presented : Option String → Result String
presented none = err unauthorized
presented (some token) = if str_eq token "" then err unauthorized else ok token

module _ (P : Platform) where
  abbrev service_login : Client → LoginRequest → Handler P IssuedTokens
  service_login c payload = on_world P.engine P.redis P.storage (
      AuthService.login P.engine P.redis P.crypto P.settings P.lower c.now c.ids payload.email
        payload.password (client_ip c.host))

  unfoldable pub handle_signup : UserCreate → Handler P (AuthReply × CookieChange)
  handle_signup payload = do
    user ←
        on_world P.engine P.redis P.storage
          (AuthService.signup P.engine P.redis P.crypto P.settings P.lower payload)
    pure (AuthReply.signed_up (user_response user), CookieChange.kept)

  unfoldable pub handle_login : Client → LoginRequest → Handler P (AuthReply × CookieChange)
  unfolding client_ip
  handle_login c payload = do
    issued ← service_login c payload
    pure (token_response P.settings issued)

  unfoldable pub handle_refresh : Client → Handler P (AuthReply × CookieChange)
  handle_refresh c = do
    token ← lift (presented c.refresh_cookie)
    issued ←
        on_world P.engine P.redis P.storage (
          AuthService.refresh_tokens P.engine P.redis P.crypto P.settings P.lower c.now c.ids token)
    pure (token_response P.settings issued)

  unfoldable pub handle_logout : Client → Handler P (AuthReply × CookieChange)
  handle_logout c = do
    on_world P.engine P.redis P.storage
        (AuthService.logout P.engine P.redis P.crypto P.settings P.lower c.now c.refresh_cookie)
    pure (AuthReply.logged_out, CookieChange.cleared)

  -- The dependency `CurrentUser`.
  unfoldable pub current_user : Client → Handler P User
  current_user c =
      on_world P.engine P.redis P.storage
        (AuthService.get_current_user P.engine P.redis P.crypto P.settings P.lower c.now c.bearer)

  unfoldable pub handle_logout_all : Client → Handler P (AuthReply × CookieChange)
  unfolding current_user
  handle_logout_all c = do
    user ← current_user c
    revoked ←
        on_world P.engine P.redis P.storage
          (AuthService.logout_all P.engine P.redis P.crypto P.settings P.lower user.user_id)
    pure (AuthReply.sessions_ended revoked, CookieChange.cleared)

  unfoldable pub auth_router : Client → AuthCall → Handler P (AuthReply × CookieChange)
  auth_router c (AuthCall.signup payload) = handle_signup payload
  auth_router c (AuthCall.login payload) = handle_login c payload
  auth_router c AuthCall.refresh = handle_refresh c
  auth_router c AuthCall.logout = handle_logout c
  auth_router c AuthCall.logout_all = handle_logout_all c
