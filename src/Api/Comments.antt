-- ===== src/Api/Comments.antt =====
-- app/modules/comments/comment_router.py, and the responses of
-- app/modules/comments/comment_schemas.py without the time of the last change.
use green_communuty_backend.Prelude.{ℕ, String, Option, List, [], ◌∷◌, map, ◌==◌, if◌then◌else◌}
use green_communuty_backend.Core.Action.{◌>>=◌, ◌>>◌, pure}
use green_communuty_backend.Core.Site.{in_session}
use green_communuty_backend.Core.Pagination.{PageParams, PageResponse}
use green_communuty_backend.Core.Pagination as Pagination
use green_communuty_backend.Models.{User, Comment}
use green_communuty_backend.Comments.Service as CommentService
use green_communuty_backend.Comments.Service.{CommentCreate}
use green_communuty_backend.Api.Platform.{Platform, Handler}

pub record CommentResponse : Type 0 where
  pub comment_id : ℕ
  pub post_id : ℕ
  pub author_id : ℕ
  pub comment_content : String
  pub parent_comment_id : Option ℕ
  pub reply_count : ℕ
  pub created_at : ℕ

-- `CommentResponse.model_validate`, with a number of replies
abbrev pub comment_response : ℕ → Comment → CommentResponse
comment_response replies c = record {
  comment_id = c.comment_id;
  post_id = c.post_id;
  author_id = c.author_id;
  comment_content = c.comment_content;
  parent_comment_id = c.parent_comment_id;
  reply_count = replies;
  created_at = c.created_at;
}

-- `reply_counts.get(comment_id, 0)`
unfoldable pub replies_of : ℕ → List (ℕ × ℕ) → ℕ
replies_of id [] = 0
replies_of id ((c, n) ∷ counts) = let rest = replies_of id counts in if c == id then n else rest

pub data CommentCall : Type 0 where
  list_comments : ℕ → PageParams → CommentCall
  list_replies : ℕ → CommentCall
  create_comment : ℕ → CommentCreate → CommentCall
  update_comment : ℕ → String → CommentCall
  delete_comment : ℕ → CommentCall

pub data CommentReply : Type 0 where
  page : PageResponse CommentResponse → CommentReply
  replies : List CommentResponse → CommentReply
  one : CommentResponse → CommentReply
  no_content : CommentReply

module _ (P : Platform) where
  unfoldable pub handle_list_comments : ℕ → PageParams → Handler P CommentReply
  unfolding replies_of
  handle_list_comments post params = do
    found ← in_session P.engine P.redis P.storage (CommentService.list_by_post P.engine post params)
    let items = map (λ c. comment_response (replies_of c.comment_id found.2) c) found.0
    pure (CommentReply.page (Pagination.create items found.1 params))

  unfoldable pub handle_list_replies : ℕ → Handler P CommentReply
  handle_list_replies id = do
    found ← in_session P.engine P.redis P.storage (CommentService.list_by_parent P.engine id)
    pure (CommentReply.replies (map (comment_response 0) found))

  unfoldable pub handle_create_comment : ℕ → ℕ → User → CommentCreate → Handler P CommentReply
  handle_create_comment now post current payload = do
    c ←
        in_session P.engine P.redis P.storage
          (CommentService.create P.engine now post current payload)
    pure (CommentReply.one (comment_response 0 c))

  unfoldable pub handle_update_comment : ℕ → User → String → Handler P CommentReply
  handle_update_comment id current content = do
    c ← in_session P.engine P.redis P.storage (CommentService.update P.engine id current content)
    pure (CommentReply.one (comment_response 0 c))

  unfoldable pub handle_delete_comment : ℕ → ℕ → User → Handler P CommentReply
  handle_delete_comment now id current = do
    in_session P.engine P.redis P.storage (CommentService.delete P.engine now id current)
    pure CommentReply.no_content

  unfoldable pub comments_router : ℕ → User → CommentCall → Handler P CommentReply
  comments_router now current (CommentCall.list_comments post params) =
      handle_list_comments post params
  comments_router now current (CommentCall.list_replies id) = handle_list_replies id
  comments_router now current (CommentCall.create_comment post payload) =
      handle_create_comment now post current payload
  comments_router now current (CommentCall.update_comment id content) =
      handle_update_comment id current content
  comments_router now current (CommentCall.delete_comment id) = handle_delete_comment now id current
