-- ===== src/Comments/Service.antt =====
-- app/modules/comments/comment_service.py
use green_communuty_backend.Prelude.{
  ℕ, String, not, Option, none, some, List, ◌==◌, is_none, is_some, if◌then◌else◌,
}
use green_communuty_backend.Core.Errors.{not_found, forbidden}
use green_communuty_backend.Core.Action.{
  Action, Result, ok, err, ◌>>=◌, ◌>>◌, gets, pure, lift, modify, raise_if, ◌and_then◌,
}
use green_communuty_backend.Core.Session.{Engine}
use green_communuty_backend.Core.Pagination.{PageParams}
use green_communuty_backend.Models.{Comment, User, Tables}
use green_communuty_backend.Posts.Repository as PostRepository
use green_communuty_backend.Comments.Repository
use green_communuty_backend.Comments.Mentions.{validate_mentions}

-- app/modules/comments/comment_schemas.py
pub record CommentCreate : Type 0 where
  pub comment_content : String
  pub parent_comment_id : Option ℕ

-- `_ensure_post_exists`
unfoldable pub ensure_post_exists : ℕ → Tables → Result (Unit {0})
ensure_post_exists post t = raise_if (is_none (PostRepository.get_by_id post t.posts)) not_found

abbrev pub owned : User → Option Comment → Result Comment
owned current none = err not_found
owned current (some c) = if not (c.author_id == current.user_id) then err forbidden else ok c

-- `_get_owned`
unfoldable pub get_owned : ℕ → User → List Comment → Result Comment
get_owned id current rows = owned current (Repository.get_by_id id rows)

abbrev pub accepts_reply : ℕ → Option Comment → Result (Unit {0})
accepts_reply post none = err not_found
accepts_reply post (some parent) =
    if not (parent.post_id == post)
    then err not_found
    else raise_if (is_some parent.parent_comment_id) forbidden

-- The checks of `create` on the comment that is replied to.
unfoldable pub check_parent : ℕ → Option ℕ → List Comment → Result (Unit {0})
check_parent post none rows = ok tt
check_parent post (some p) rows = accepts_reply post (Repository.get_parent_comment p rows)

abbrev pub set_content : String → Comment → Comment
set_content content c = record c { comment_content = content }

abbrev pub set_deleted : ℕ → Comment → Comment
set_deleted now c = record c { deleted_at = some now }

module _ (E : Engine) where
  open E use {Session, live, commit}

  -- The checks of `create`, in its order.
  unfoldable pub check_create : ℕ → CommentCreate → Tables → Result (Unit {0})
  unfolding ensure_post_exists check_parent
  check_create post payload t =
      ensure_post_exists post t
      and_then check_parent post payload.parent_comment_id t.comments
      and_then validate_mentions E post payload.comment_content t

  abbrev pub draft : ℕ → ℕ → User → CommentCreate → ℕ → Comment
  draft now post author payload id = record {
    comment_id = id;
    comment_content = payload.comment_content;
    post_id = post;
    author_id = author.user_id;
    parent_comment_id = payload.parent_comment_id;
    created_at = now;
    deleted_at = none;
  }

  unfoldable pub create : ℕ → ℕ → User → CommentCreate → Action Session Comment
  create now post author payload = do
    t ← gets live
    lift (check_create post payload t)
    comment ← Repository.add E (draft now post author payload)
    modify commit
    pure comment

  unfoldable pub update : ℕ → User → String → Action Session Comment
  update id current content = do
    t ← gets live
    comment ← lift (get_owned id current t.comments)
    lift (validate_mentions E comment.post_id content t)
    Repository.flush_changes E id (set_content content)
    modify commit
    pure (set_content content comment)

  unfoldable pub delete : ℕ → ℕ → User → Action Session (Unit {0})
  delete now id current = do
    t ← gets live
    lift (get_owned id current t.comments)
    Repository.flush_changes E id (set_deleted now)
    modify commit

  unfoldable pub list_by_post : ℕ → PageParams → Action Session (List Comment × ℕ × List (ℕ × ℕ))
  list_by_post post params = do
    t ← gets live
    lift (ensure_post_exists post t)
    pure (Repository.list_by_post post params t.comments)

  unfoldable pub list_by_parent : ℕ → Action Session (List Comment)
  list_by_parent id = do
    t ← gets live
    lift (raise_if (is_none (Repository.get_by_id id t.comments)) not_found)
    pure (Repository.list_by_parent id t.comments)
