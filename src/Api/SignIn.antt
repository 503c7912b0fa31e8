-- ===== src/Api/SignIn.antt =====
-- A login and the requests that follow it.
use green_communuty_backend.Prelude.{
  ◌+◌, ◌*◌, ◌≡◌, refl, sym, ap, ◌∙◌, true, inl, inr, some, leb, ltb, arith,
}
use green_communuty_backend.Core.Action.{Result, ok, Result-cases}
use green_communuty_backend.Core.World.{tables}
use green_communuty_backend.Models.{User, Tables}
use green_communuty_backend.Users.Repository.{get_user_by_id, get_user_by_email}
use green_communuty_backend.Auth.Security.{CryptoLaws, access, create_access_token}
use green_communuty_backend.Auth.Service.{IssuedTokens, login}
use green_communuty_backend.Auth.Tokens.{decode_token-create_token}
use green_communuty_backend.Auth.Limits.{login-issues}
use green_communuty_backend.Auth.Frame.{login-Keeps}
use green_communuty_backend.Api.Platform.{Platform, State}
use green_communuty_backend.Api.Auth.{
  Client, LoginRequest, TokenResponse, AuthCall, AuthReply, CookieChange, auth_router, handle_login,
  token_response, client_ip,
}
use green_communuty_backend.Api.Application.{Request, Response, api_router, serve}
use green_communuty_backend.Api.Access.{SignedIn}

module _ (P : Platform) (client : Client) (payload : LoginRequest) (w : State P) where
  abbrev request : Request
  request = Request.auth client (AuthCall.login payload)

  abbrev attempt : Result IssuedTokens
  attempt =
      (login P.engine P.redis P.crypto P.settings P.lower client.now client.ids payload.email
        payload.password (client_ip client.host) w.world).0

  -- A response with tokens is the answer to a login that issued them.
  served_tokens :
      (t : TokenResponse) (cookie : CookieChange)
      → (serve P request w).0 ≡ ok (Response.auth (AuthReply.tokens t) cookie)
      → (issued : IssuedTokens) × (attempt ≡ ok issued) × (t.access_token ≡ issued.access_token)
  unfolding serve api_router auth_router handle_login token_response
  served_tokens t cookie h = elim (Result-cases attempt) [
    | inr (e, refused) ↦ absurd (ground (arith, h, refused))
    | inl (issued, passed) ↦ (issued, passed, ground (arith, h, passed))
  ]

  served_tables :
      tables P.engine P.redis (serve P request w).1.world ≡ P.engine.saved w.world.session
  unfolding serve api_router auth_router handle_login token_response
  served_tables =
      let s =
        (login P.engine P.redis P.crypto P.settings P.lower client.now client.ids payload.email
          payload.password (client_ip client.host) w.world).1.session in
      let same : P.engine.live (P.engine.rollback s) ≡ P.engine.saved w.world.session =
        P.engine.live-rollback s
        ∙ login-Keeps P.engine P.redis P.crypto P.settings P.lower
            (λ v. P.engine.saved v ≡ P.engine.saved w.world.session) client.now client.ids
            payload.email payload.password (client_ip client.host) w.world refl in
      elim (Result-cases attempt) [
        | inl (issued, passed) ↦ rw passed same
        | inr (e, refused) ↦ rw refused same
      ]

  -- If a login is answered with tokens, at a start where the session sees what is committed and a
  -- user who is found by the address is found by the own id too, then a request that carries the
  -- access token, at or after the time of the login and before the token's minutes are over, is
  -- signed in as a user whom the database finds by that address, in the state that the login leaves
  -- once its session is closed.
  pub login-SignedIn :
      (L : CryptoLaws P.crypto) (later : Client) (t : TokenResponse) (cookie : CookieChange)
      → (serve P request w).0 ≡ ok (Response.auth (AuthReply.tokens t) cookie)
      → P.engine.live w.world.session ≡ P.engine.saved w.world.session
      → ((u : User)
          → get_user_by_email P.engine payload.email (tables P.engine P.redis w.world).users
            ≡ some u
          → get_user_by_id u.user_id (tables P.engine P.redis w.world).users ≡ some u)
      → later.bearer ≡ some t.access_token
      → leb client.now later.now ≡ true
      → ltb later.now (client.now + P.settings.access_token_expire_minutes * 60) ≡ true
      → (u : User) × (get_user_by_email P.engine payload.email
            (tables P.engine P.redis w.world).users
          ≡ some u)
        × SignedIn P later (serve P request w).1 u
  unfolding create_access_token
  login-SignedIn L later t cookie h clean by_id carried after early =
      let (issued, passed, same) = served_tokens t cookie h in
      let (u, known, active, token) =
        login-issues P.engine P.redis P.crypto P.settings P.lower client.now client.ids
          payload.email payload.password (client_ip client.host) w.world issued passed in
      (
        u,
        known,
        record {
          token =
              create_access_token P.crypto P.settings client.now client.ids.access_jti u.user_id;
          payload = record {
            user_id = u.user_id;
            token_type = access;
            jti = client.ids.access_jti;
            expires_at = client.now + P.settings.access_token_expire_minutes * 60;
          };
          carried = carried ∙ ap some (same ∙ token);
          decoded =
              decode_token-create_token P.crypto L client.now later.now u.user_id
                (P.settings.access_token_expire_minutes * 60) client.ids.access_jti access access
              ∙ rw (after, early) refl;
          known =
              ap (λ (tables : Tables). get_user_by_id u.user_id tables.users)
                (served_tables ∙ sym clean)
              ∙ by_id u known;
          active = active;
        },
      )
