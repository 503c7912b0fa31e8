-- ===== src/Api/Composed.antt =====
-- A property of the state that every router keeps is kept by every request.
use green_communuty_backend.Prelude.{ℕ, String}
use green_communuty_backend.Core.Action.{Action, lift, modify}
use green_communuty_backend.Core.Keeps.{Keeps, Keeps-bind}
use green_communuty_backend.Core.World.{World}
use green_communuty_backend.Core.Site.{in_session, on_world}
use green_communuty_backend.Models.{User}
use green_communuty_backend.Users.Service.{UserCreate}
use green_communuty_backend.Auth.Service as AuthService
use green_communuty_backend.Api.Platform.{Platform, State}
use green_communuty_backend.Api.Auth.{
  Client, AuthCall, auth_router, current_user, presented, handle_signup, handle_login,
  handle_refresh, handle_logout, handle_logout_all, client_ip,
}
use green_communuty_backend.Api.Application.{Call, Request, dispatch, api_router, serve}
use green_communuty_backend.Api.Users.{UserCall, users_router}
use green_communuty_backend.Api.Posts.{PostCall, posts_router}
use green_communuty_backend.Api.Comments.{CommentCall, comments_router}
use green_communuty_backend.Api.Menus.{MenuCall, menus_router}

module _ (P : Platform) (I : State P → Type 0) where
  abbrev pub AuthKeeps : {A : Type 0} → Action (World P.engine P.redis) A → Type 0
  AuthKeeps m = Keeps I (on_world P.engine P.redis P.storage m)

  -- The routers, and the calls of the auth service.
  pub record Parts : Type 0 where
    pub users : (current : User) (call : UserCall) → Keeps I (users_router P current call)
    pub posts :
        (now : ℕ) (file_id : String) (current : User) (call : PostCall)
        → Keeps I (posts_router P now file_id current call)
    pub comments :
        (now : ℕ) (current : User) (call : CommentCall)
        → Keeps I (comments_router P now current call)
    pub menus : (now : ℕ) (call : MenuCall) → Keeps I (menus_router P now call)
    pub signup :
        (payload : UserCreate)
        → AuthKeeps (AuthService.signup P.engine P.redis P.crypto P.settings P.lower payload)
    pub login :
        (c : Client) (email password ip : String)
        → AuthKeeps (
            AuthService.login P.engine P.redis P.crypto P.settings P.lower c.now c.ids email
              password ip)
    pub refresh :
        (c : Client) (token : String)
        → AuthKeeps (
            AuthService.refresh_tokens P.engine P.redis P.crypto P.settings P.lower c.now c.ids
              token)
    pub logout :
        (c : Client)
        → AuthKeeps
            (AuthService.logout P.engine P.redis P.crypto P.settings P.lower c.now c.refresh_cookie)
    pub logout_all :
        (user : ℕ)
        → AuthKeeps (AuthService.logout_all P.engine P.redis P.crypto P.settings P.lower user)
    pub current : (c : Client) → Keeps I (current_user P c)
    pub close : Keeps I (in_session P.engine P.redis P.storage (modify P.engine.rollback))

  module _ (parts : Parts) where
    dispatch-Keeps :
        (now : ℕ) (file_id : String) (current : User) (call : Call)
        → Keeps I (dispatch P now file_id current call)
    unfolding dispatch
    dispatch-Keeps now file_id current (Call.users call) =
        Keeps-bind I (users_router P current call) _ (parts.users current call) (λ _ w h. h)
    dispatch-Keeps now file_id current (Call.posts call) =
        Keeps-bind I (posts_router P now file_id current call) _
          (parts.posts now file_id current call) (λ _ w h. h)
    dispatch-Keeps now file_id current (Call.comments call) =
        Keeps-bind I (comments_router P now current call) _ (parts.comments now current call)
          (λ _ w h. h)
    dispatch-Keeps now file_id current (Call.menus call) =
        Keeps-bind I (menus_router P now call) _ (parts.menus now call) (λ _ w h. h)

    auth-Keeps : (c : Client) (call : AuthCall) → Keeps I (auth_router P c call)
    unfolding auth_router handle_signup handle_login handle_refresh handle_logout handle_logout_all
    auth-Keeps c (AuthCall.signup payload) =
        Keeps-bind I
          (on_world P.engine P.redis P.storage
            (AuthService.signup P.engine P.redis P.crypto P.settings P.lower payload))
          _ (parts.signup payload) (λ _ w h. h)
    auth-Keeps c (AuthCall.login payload) =
        Keeps-bind I
          (on_world P.engine P.redis P.storage (
            AuthService.login P.engine P.redis P.crypto P.settings P.lower c.now c.ids payload.email
              payload.password (client_ip c.host)))
          _ (parts.login c payload.email payload.password (client_ip c.host)) (λ _ w h. h)
    auth-Keeps c AuthCall.refresh =
        Keeps-bind I (lift (presented c.refresh_cookie)) _ (λ w h. h)
          (λ token.
            Keeps-bind I
              (on_world P.engine P.redis P.storage (
                AuthService.refresh_tokens P.engine P.redis P.crypto P.settings P.lower c.now c.ids
                  token))
              _ (parts.refresh c token) (λ _ w h. h))
    auth-Keeps c AuthCall.logout =
        Keeps-bind I
          (on_world P.engine P.redis P.storage (
            AuthService.logout P.engine P.redis P.crypto P.settings P.lower c.now c.refresh_cookie))
          _ (parts.logout c) (λ _ w h. h)
    auth-Keeps c AuthCall.logout_all = Keeps-bind I (current_user P c) _ (parts.current c) (λ u.
        Keeps-bind I
          (on_world P.engine P.redis P.storage
            (AuthService.logout_all P.engine P.redis P.crypto P.settings P.lower u.user_id))
          _ (parts.logout_all u.user_id) (λ _ w h. h))

    api_router-Keeps : (request : Request) → Keeps I (api_router P request)
    unfolding api_router
    api_router-Keeps (Request.auth client call) =
        Keeps-bind I (auth_router P client call) _ (auth-Keeps client call) (λ _ w h. h)
    api_router-Keeps (Request.protected client file_id call) =
        Keeps-bind I (current_user P client) _ (parts.current client) (λ u.
          Keeps-bind I (dispatch P client.now file_id u call) _
            (dispatch-Keeps client.now file_id u call) (λ _ w h. h))

    pub serve-Keeps : (request : Request) → Keeps I (serve P request)
    unfolding serve
    serve-Keeps request w h = parts.close (api_router P request w).1 (api_router-Keeps request w h)
