-- ===== src/Api/Application.antt =====
-- app/api/v1/router.py, and the session that `get_db` opens and closes around a request.
use green_communuty_backend.Prelude.{ℕ, String}
use green_communuty_backend.Core.Action.{◌>>=◌, pure, modify}
use green_communuty_backend.Core.Site.{in_session}
use green_communuty_backend.Models.{User}
use green_communuty_backend.Api.Platform.{Platform, Handler}
use green_communuty_backend.Api.Auth.{
  Client, AuthCall, AuthReply, CookieChange, auth_router, current_user,
}
use green_communuty_backend.Api.Users.{UserCall, UserReply, users_router}
use green_communuty_backend.Api.Posts.{PostCall, PostReply, posts_router}
use green_communuty_backend.Api.Comments.{CommentCall, CommentReply, comments_router}
use green_communuty_backend.Api.Menus.{MenuCall, MenuReply, menus_router}

pub data Call : Type 0 where
  users : UserCall → Call
  posts : PostCall → Call
  comments : CommentCall → Call
  menus : MenuCall → Call

pub data Reply : Type 0 where
  users : UserReply → Reply
  posts : PostReply → Reply
  comments : CommentReply → Reply
  menus : MenuReply → Reply

-- `file_id` is the text of the `uuid4()` of an upload.
pub data Request : Type 0 where
  auth : Client → AuthCall → Request
  protected : Client → String → Call → Request

pub data Response : Type 0 where
  auth : AuthReply → CookieChange → Response
  protected : Reply → Response

module _ (P : Platform) where
  -- The routers behind `protected_router`.
  unfoldable pub dispatch : ℕ → String → User → Call → Handler P Reply
  dispatch now file_id current (Call.users call) = do
    r ← users_router P current call
    pure (Reply.users r)
  dispatch now file_id current (Call.posts call) = do
    r ← posts_router P now file_id current call
    pure (Reply.posts r)
  dispatch now file_id current (Call.comments call) = do
    r ← comments_router P now current call
    pure (Reply.comments r)
  dispatch now file_id current (Call.menus call) = do
    r ← menus_router P now call
    pure (Reply.menus r)

  -- `api_router`
  unfoldable pub api_router : Request → Handler P Response
  api_router (Request.auth client call) = do
    r ← auth_router P client call
    pure (Response.auth r.0 r.1)
  api_router (Request.protected client file_id call) = do
    current ← current_user P client
    r ← dispatch client.now file_id current call
    pure (Response.protected r)

  -- One request, with the `close` of its session at the end.
  unfoldable pub serve : Request → Handler P Response
  serve request w =
      let (r, v) = api_router request w in
      (r, (in_session P.engine P.redis P.storage (modify P.engine.rollback) v).1)
