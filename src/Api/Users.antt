-- ===== src/Api/Users.antt =====
-- app/modules/users/user_router.py, and the responses of app/modules/users/user_schemas.py without
-- the time stamps.
use green_communuty_backend.Prelude.{ℕ, String, Bool, [], ◌∷◌, map}
use green_communuty_backend.Core.Action.{◌>>=◌, ◌>>◌, pure, lift}
use green_communuty_backend.Core.Site.{in_session}
use green_communuty_backend.Core.Pagination.{PageParams, PageResponse}
use green_communuty_backend.Core.Pagination as Pagination
use green_communuty_backend.Models.{User, UserRole}
use green_communuty_backend.Users.Service as UserService
use green_communuty_backend.Users.Service.{UserUpdate}
use green_communuty_backend.Auth.Service.{require_role}
use green_communuty_backend.Api.Platform.{Platform, Handler}

pub record UserResponse : Type 0 where
  pub user_id : ℕ
  pub user_email : String
  pub user_nickname : String
  pub user_role : UserRole
  pub user_is_active : Bool

abbrev pub user_response : User → UserResponse
user_response u = record {
  user_id = u.user_id;
  user_email = u.user_email;
  user_nickname = u.user_nickname;
  user_role = u.user_role;
  user_is_active = u.user_is_active;
}

pub data UserCall : Type 0 where
  get_me deactivate_me : UserCall
  update_me : UserUpdate → UserCall
  list_users : PageParams → UserCall
  get_user : ℕ → UserCall

pub data UserReply : Type 0 where
  one : UserResponse → UserReply
  page : PageResponse UserResponse → UserReply
  no_content : UserReply

module _ (P : Platform) where
  unfoldable pub handle_get_me : User → Handler P UserReply
  handle_get_me current = pure (UserReply.one (user_response current))

  unfoldable pub handle_update_me : User → UserUpdate → Handler P UserReply
  handle_update_me current payload = do
    user ← in_session P.engine P.redis P.storage (UserService.update P.engine current payload)
    pure (UserReply.one (user_response user))

  unfoldable pub handle_deactivate_me : User → Handler P UserReply
  handle_deactivate_me current = do
    in_session P.engine P.redis P.storage (UserService.deactivate P.engine current)
    pure UserReply.no_content

  unfoldable pub handle_list_users : User → PageParams → Handler P UserReply
  unfolding require_role
  handle_list_users current params = do
    lift (require_role (UserRole.admin ∷ []) current)
    found ← in_session P.engine P.redis P.storage (UserService.list_users P.engine params)
    pure (UserReply.page (Pagination.create (map user_response found.0) found.1 params))

  unfoldable pub handle_get_user : ℕ → Handler P UserReply
  handle_get_user id = do
    user ← in_session P.engine P.redis P.storage (UserService.get P.engine id)
    pure (UserReply.one (user_response user))

  unfoldable pub users_router : User → UserCall → Handler P UserReply
  users_router current UserCall.get_me = handle_get_me current
  users_router current UserCall.deactivate_me = handle_deactivate_me current
  users_router current (UserCall.update_me payload) = handle_update_me current payload
  users_router current (UserCall.list_users params) = handle_list_users current params
  users_router current (UserCall.get_user id) = handle_get_user id
