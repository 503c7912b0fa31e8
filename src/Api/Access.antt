-- ===== src/Api/Access.antt =====
-- Who gets past the dependencies of the routers.
use green_communuty_backend.Prelude.{
  ℕ, String, ◌≡◌, refl, ap, true, ◌⊎◌, inl, inr, Bool-cases, some, Option-cases, arith,
}
use green_communuty_backend.Core.Errors.{Error, unauthorized, forbidden}
use green_communuty_backend.Core.Action.{ok, err, Result-cases}
use green_communuty_backend.Core.World.{tables}
use green_communuty_backend.Core.Pagination.{PageParams}
use green_communuty_backend.Models.{User, UserRole}
use green_communuty_backend.Users.Repository.{get_user_by_id}
use green_communuty_backend.Auth.Security.{Crypto, TokenPayload, access, decode_token}
use green_communuty_backend.Auth.Service.{get_current_user, require_role}
use green_communuty_backend.Api.Platform.{Platform, State}
use green_communuty_backend.Api.Auth.{Client, current_user}
use green_communuty_backend.Api.Users.{UserCall, users_router, handle_list_users}
use green_communuty_backend.Api.Application.{Call, Request, dispatch, api_router}

decode_token-err :
    (C : Crypto) (now : ℕ) (token : String) (e : Error)
    → decode_token C now token access ≡ err e
    → e ≡ unauthorized
unfolding decode_token
decode_token-err C now token e h = ground (arith, h)

module _ (P : Platform) where
  -- The request carries an access token of a user who is active now.
  pub record SignedIn (client : Client) (w : State P) (current : User) : Type 0 where
    pub token : String
    pub payload : TokenPayload
    pub carried : client.bearer ≡ some token
    pub decoded : decode_token P.crypto client.now token access ≡ ok payload
    pub known :
        get_user_by_id payload.user_id (tables P.engine P.redis w.world).users ≡ some current
    pub active : current.user_is_active ≡ true

  current_user-cases :
      (client : Client) (w : State P)
      → ((u : User) × SignedIn client w u × (current_user P client w ≡ (ok u, w)))
        ⊎ (current_user P client w ≡ (err unauthorized, w))
  unfolding current_user get_current_user
  current_user-cases client w = elim (Option-cases client.bearer) [
    | inl absent ↦ inr (rw absent refl)
    | inr (token, carried) ↦ elim (Result-cases (decode_token P.crypto client.now token access)) [
      | inr (e, bad) ↦ inr (
          rw (carried, bad)
            (ap (λ x. (err x, w)) (decode_token-err P.crypto client.now token e bad)))
      | inl (p, good) ↦
          elim (Option-cases (get_user_by_id p.user_id (tables P.engine P.redis w.world).users)) [
            | inl unknown ↦ inr (rw (carried, good, unknown) refl)
            | inr (u, known) ↦ elim (Bool-cases u.user_is_active) [
              | inl active ↦ inl (
                u,
                record {
                  token = token;
                  payload = p;
                  carried = carried;
                  decoded = good;
                  known = known;
                  active = active;
                },
                rw (carried, good, known, active) refl,
              )
              | inr inactive ↦ inr (rw (carried, good, known, inactive) refl)
            ]
          ]
    ]
  ]

  current_user-SignedIn :
      (client : Client) (w : State P) (u : User)
      → SignedIn client w u
      → current_user P client w ≡ (ok u, w)
  unfolding current_user get_current_user
  current_user-SignedIn client w u s = rw (s.carried, s.decoded, s.known, s.active) refl

  -- Every request behind `protected_router` either carries an access token that decodes, at the
  -- time of the request, to the id of a user who is found and active, or is refused as
  -- unauthorized with the database, Redis and the storage as they were.
  pub protected-guarded :
      (client : Client) (file_id : String) (call : Call) (w : State P)
      → ((u : User) × SignedIn client w u)
        ⊎ (api_router P (Request.protected client file_id call) w ≡ (err unauthorized, w))
  unfolding api_router
  protected-guarded client file_id call w = elim (current_user-cases client w) [
    | inl (u, s, _) ↦ inl (u, s)
    | inr refused ↦ inr (rw refused refl)
  ]

  -- A request for the list of users by a signed in user who is no administrator is refused as
  -- forbidden, and changes nothing.
  pub list_users-forbidden :
      (client : Client) (file_id : String) (params : PageParams) (w : State P) (u : User)
      → SignedIn client w u
      → u.user_role ≡ UserRole.user
      → api_router P (Request.protected client file_id (Call.users (UserCall.list_users params))) w
        ≡ (err forbidden, w)
  unfolding api_router dispatch users_router handle_list_users require_role
  list_users-forbidden client file_id params w u s role =
      rw (current_user-SignedIn client w u s, role) refl
