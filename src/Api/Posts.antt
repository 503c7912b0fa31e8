-- ===== src/Api/Posts.antt =====
-- app/modules/posts/post_router.py, and the responses of app/modules/posts/post_schemas.py without
-- the time stamps.
use green_communuty_backend.Prelude.{ℕ, String, Bool, true, List, [], map}
use green_communuty_backend.Core.Action.{◌>>=◌, ◌>>◌, gets, lift, pure}
use green_communuty_backend.Core.Site.{on_world}
use green_communuty_backend.Core.Storage.{get_storage}
use green_communuty_backend.Core.Pagination.{PageParams, PageResponse}
use green_communuty_backend.Core.Pagination as Pagination
use green_communuty_backend.Models.{User, Post}
use green_communuty_backend.Posts.Service as PostService
use green_communuty_backend.Posts.Service.{PostCreate, PostUpdate, PostDetail}
use green_communuty_backend.Posts.Images as Images
use green_communuty_backend.Posts.Images.{UploadFile, PostImageResponse}
use green_communuty_backend.Api.Platform.{Platform, Handler}

pub record AuthorSummary : Type 0 where
  pub user_id : ℕ
  pub user_nickname : String

abbrev author_summary : User → AuthorSummary
author_summary u = record { user_id = u.user_id; user_nickname = u.user_nickname }

pub record PostSummaryResponse : Type 0 where
  pub post_id : ℕ
  pub post_title : String
  pub author : AuthorSummary
  pub post_view_count : ℕ

-- `PostSummaryResponse.from_entities`
unfoldable pub summary : Post → User → PostSummaryResponse
summary p author = record {
  post_id = p.post_id;
  post_title = p.post_title;
  author = author_summary author;
  post_view_count = p.post_view_count;
}

-- `CommentResponse` of this module's schemas
pub record PostCommentResponse : Type 0 where
  pub comment_id : ℕ
  pub comment_content : String
  pub author : AuthorSummary
  pub created_at : ℕ

pub record PostDetailResponse : Type 0 where
  pub post_id : ℕ
  pub post_title : String
  pub post_content : String
  pub post_view_count : ℕ
  pub post_like_count : ℕ
  pub is_liked : Bool
  pub has_images : Bool
  pub author : AuthorSummary
  pub comments : List PostCommentResponse

-- `PostDetailResponse.from_entities`, and `has_images` that the service sets on it. The list of
-- comments is always empty.
unfoldable pub detail : PostDetail → PostDetailResponse
detail d = record {
  post_id = d.post.post_id;
  post_title = d.post.post_title;
  post_content = d.post.post_content;
  post_view_count = d.post.post_view_count;
  post_like_count = d.post_like_count;
  is_liked = d.is_liked;
  has_images = d.has_images;
  author = author_summary d.author;
  comments = [];
}

pub data PostCall : Type 0 where
  list_posts : PageParams → PostCall
  get_post : ℕ → PostCall
  create_post : PostCreate → PostCall
  update_post : ℕ → PostUpdate → PostCall
  delete_post like_post unlike_post share_post : ℕ → PostCall
  upload_post_image : ℕ → UploadFile → PostCall
  list_post_images : ℕ → PostCall

pub data PostReply : Type 0 where
  listing : List PostSummaryResponse → PageResponse PostSummaryResponse → PostReply
  detailed : PostDetailResponse → PostReply
  summarised : PostSummaryResponse → PostReply
  shared : String → PostReply
  image : PostImageResponse → PostReply
  images : List PostImageResponse → PostReply
  no_content : PostReply

module _ (P : Platform) where
  unfoldable pub handle_list_posts : PageParams → Handler P PostReply
  unfolding summary
  handle_list_posts params = do
    found ← on_world P.engine P.redis P.storage (PostService.list_posts P.engine P.redis params)
    let items = map (λ row. summary row.0 row.1)
    pure (PostReply.listing (items found.0) (Pagination.create (items found.1) found.2 params))

  unfoldable pub handle_get_post : ℕ → User → Handler P PostReply
  handle_get_post id current = do
    d ← on_world P.engine P.redis P.storage (PostService.get_detail P.engine P.redis id current)
    pure (PostReply.detailed (detail d))

  unfoldable pub handle_create_post : User → PostCreate → Handler P PostReply
  handle_create_post current payload = do
    p ← on_world P.engine P.redis P.storage (PostService.create P.engine P.redis current payload)
    pure (PostReply.summarised (summary p current))

  unfoldable pub handle_update_post : ℕ → User → PostUpdate → Handler P PostReply
  handle_update_post id current payload = do
    d ← on_world P.engine P.redis P.storage (PostService.update P.engine P.redis id current payload)
    pure (PostReply.detailed (detail d))

  unfoldable pub handle_delete_post : ℕ → ℕ → User → Handler P PostReply
  handle_delete_post now id current = do
    on_world P.engine P.redis P.storage (PostService.delete P.engine P.redis now id current)
    pure PostReply.no_content

  unfoldable pub handle_like_post : ℕ → User → Handler P PostReply
  handle_like_post id current = do
    on_world P.engine P.redis P.storage (PostService.like_post P.engine P.redis id current)
    pure PostReply.no_content

  unfoldable pub handle_unlike_post : ℕ → User → Handler P PostReply
  handle_unlike_post id current = do
    on_world P.engine P.redis P.storage (PostService.unlike_post P.engine P.redis id current)
    pure PostReply.no_content

  unfoldable pub handle_share_post : ℕ → Handler P PostReply
  handle_share_post id = do
    w ← gets (λ w. w)
    url ← lift (Images.get_share_url P.str_of id (Images.rows P.engine P.redis P.storage w).posts)
    pure (PostReply.shared url)

  -- `StorageClient` is resolved before the handler runs.
  unfoldable pub handle_upload_post_image : String → ℕ → User → UploadFile → Handler P PostReply
  handle_upload_post_image file_id id current file = do
    lift (get_storage P.storage_settings)
    i ←
        Images.upload_image P.engine P.redis P.storage P.pillow P.file_suffix P.str_of true file_id
          id current file
    pure (PostReply.image i)

  unfoldable pub handle_list_post_images : ℕ → Handler P PostReply
  handle_list_post_images id = do
    lift (get_storage P.storage_settings)
    found ← Images.list_images P.engine P.redis P.storage true id
    pure (PostReply.images found)

  unfoldable pub posts_router : ℕ → String → User → PostCall → Handler P PostReply
  posts_router now file_id current (PostCall.list_posts params) = handle_list_posts params
  posts_router now file_id current (PostCall.get_post id) = handle_get_post id current
  posts_router now file_id current (PostCall.create_post payload) =
      handle_create_post current payload
  posts_router now file_id current (PostCall.update_post id payload) =
      handle_update_post id current payload
  posts_router now file_id current (PostCall.delete_post id) = handle_delete_post now id current
  posts_router now file_id current (PostCall.like_post id) = handle_like_post id current
  posts_router now file_id current (PostCall.unlike_post id) = handle_unlike_post id current
  posts_router now file_id current (PostCall.share_post id) = handle_share_post id
  posts_router now file_id current (PostCall.upload_post_image id file) =
      handle_upload_post_image file_id id current file
  posts_router now file_id current (PostCall.list_post_images id) = handle_list_post_images id
