-- ===== src/Auth/Frame.antt =====
-- What signing in, renewing and signing out leave alone: the session of the database.
use green_communuty_backend.Prelude.{ℕ, String, inl, inr, Bool-cases, Option, none, some, str_eq}
use green_communuty_backend.Core.Action.{Result, ok, err, Result-cases}
use green_communuty_backend.Core.Session.{Engine}
use green_communuty_backend.Core.Redis.{Redis, Key}
use green_communuty_backend.Core.Keeps.{Keeps, Keeps-bind}
use green_communuty_backend.Core.World.{World, tables}
use green_communuty_backend.Models.{User}
use green_communuty_backend.Users.Repository.{get_user_by_id, get_user_by_email}
use green_communuty_backend.Auth.Security.{
  Crypto, Settings, TokenPayload, access, refresh, decode_token, verify_password,
}
use green_communuty_backend.Auth.TokenStore.{TokenState}
use green_communuty_backend.Auth.Service.{
  FreshIds, check_key, check_login_rate_limit, reset_login_rate_limit, issue_tokens, login,
  may_login, hash_of, renew, active_user, by_state, verify_state, refresh_tokens, revoke_decoded,
  logout, logout_all, get_current_user,
}

module _ (E : Engine) (R : Redis) (C : Crypto) (cfg : Settings) (lower : String → String)
    (I : E.Session → Type 0) where
  abbrev Held : World E R → Type 0
  Held w = I w.session

  check_key-Keeps : (key : Key) → Keeps Held (check_key E R C cfg lower key)
  unfolding check_key
  check_key-Keeps key w h = h

  limit-Keeps : (email ip : String) → Keeps Held (check_login_rate_limit E R C cfg lower email ip)
  unfolding check_login_rate_limit
  limit-Keeps email ip =
      Keeps-bind Held (check_key E R C cfg lower (Key.ratelimit_email (lower email))) _
        (check_key-Keeps _) (λ _. check_key-Keeps (Key.ratelimit_ip ip))

  issue-Keeps :
      (now : ℕ) (ids : FreshIds) (user : ℕ) → Keeps Held (issue_tokens E R C cfg lower now ids user)
  unfolding issue_tokens
  issue-Keeps now ids user w h = h

  pub login-Keeps :
      (now : ℕ) (ids : FreshIds) (email password ip : String)
      → Keeps Held (login E R C cfg lower now ids email password ip)
  unfolding login issue_tokens reset_login_rate_limit
  login-Keeps now ids email password ip w h =
      let limited = check_login_rate_limit E R C cfg lower email ip w in
      let user = get_user_by_email E email (tables E R limited.1).users in
      let h' = limit-Keeps email ip w h in
      elim (Result-cases limited.0) [
        | inr (e, refused) ↦ rw refused h'
        | inl (done, passed) ↦
            elim (Result-cases (may_login user (verify_password C password (hash_of user)))) [
              | inr (e, wrong) ↦ rw (passed, wrong) h'
              | inl (u, right) ↦ rw (passed, right) h'
            ]
      ]

  renew-Keeps :
      (now : ℕ) (ids : FreshIds) (p : TokenPayload) (found : Result User)
      → Keeps Held (renew E R C cfg lower now ids p found)
  renew-Keeps now ids p (err e) w h = h
  renew-Keeps now ids p (ok u) w h = issue-Keeps now ids u.user_id _ h

  by_state-Keeps :
      (now : ℕ) (ids : FreshIds) (p : TokenPayload) (state : TokenState)
      → Keeps Held (by_state E R C cfg lower now ids p state)
  by_state-Keeps now ids p TokenState.reused w h = h
  by_state-Keeps now ids p TokenState.forged w h = h
  by_state-Keeps now ids p TokenState.unknown w h = h
  by_state-Keeps now ids p TokenState.active w h =
      renew-Keeps now ids p (active_user (get_user_by_id p.user_id (tables E R w).users)) w h

  pub refresh_tokens-Keeps :
      (now : ℕ) (ids : FreshIds) (token : String)
      → Keeps Held (refresh_tokens E R C cfg lower now ids token)
  unfolding refresh_tokens
  refresh_tokens-Keeps now ids token w h = elim (Result-cases (decode_token C now token refresh)) [
    | inr (e, bad) ↦ rw bad h
    | inl (p, good) ↦
        rw good (by_state-Keeps now ids p (verify_state E R C cfg lower p token w) w h)
  ]

  revoke-Keeps : (r : Result TokenPayload) → Keeps Held (revoke_decoded E R C cfg lower r)
  revoke-Keeps (err e) w h = h
  revoke-Keeps (ok p) w h = h

  pub logout-Keeps :
      (now : ℕ) (presented : Option String) → Keeps Held (logout E R C cfg lower now presented)
  unfolding logout
  logout-Keeps now none w h = h
  logout-Keeps now (some token) w h = elim (Bool-cases (str_eq token "")) [
    | inl empty ↦ rw empty h
    | inr full ↦ rw full (revoke-Keeps (decode_token C now token refresh) w h)
  ]

  pub logout_all-Keeps : (user : ℕ) → Keeps Held (logout_all E R C cfg lower user)
  unfolding logout_all
  logout_all-Keeps user w h = h

  pub get_current_user-Keeps :
      (now : ℕ) (bearer : Option String) → Keeps Held (get_current_user E R C cfg lower now bearer)
  unfolding get_current_user
  get_current_user-Keeps now none w h = h
  get_current_user-Keeps now (some token) w h =
      elim (Result-cases (decode_token C now token access)) [
        | inr (e, bad) ↦ rw bad h
        | inl (p, good) ↦ rw good h
      ]
