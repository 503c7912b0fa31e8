-- ===== src/Api/LikesKeep.antt =====
-- The routers leave such values in Redis as likes and their cancellations write.
use green_communuty_backend.Prelude.{ℕ, String, Option, [], ◌∷◌, true, inl, inr}
use green_communuty_backend.Core.Action.{Action, ◌>>=◌, Result-cases, lift, pure, modify}
use green_communuty_backend.Core.Redis.{RedisTexts}
use green_communuty_backend.Core.Keeps.{Keeps, Keeps-bind}
use green_communuty_backend.Core.World.{World}
use green_communuty_backend.Core.Site.{in_session, on_world}
use green_communuty_backend.Core.Storage.{get_storage}
use green_communuty_backend.Models.{User, UserRole, PostImage}
use green_communuty_backend.Menus.Service as MenuService
use green_communuty_backend.Comments.Service as CommentService
use green_communuty_backend.Users.Service as UserService
use green_communuty_backend.Posts.Service as PostService
use green_communuty_backend.Posts.Repository as PostRepository
use green_communuty_backend.Posts.Images as Images
use green_communuty_backend.Posts.StoreImage.{upload_files-world}
use green_communuty_backend.Posts.LikeValues.{
  LikeValues, get_detail-Liked, create-Liked, update-Liked, delete-Liked, like_post-Liked,
  unlike_post-Liked,
}
use green_communuty_backend.Auth.Service as AuthService
use green_communuty_backend.Api.Platform.{Platform, State}
use green_communuty_backend.Api.Users.{
  UserCall, users_router, handle_get_me, handle_update_me, handle_deactivate_me, handle_list_users,
  handle_get_user,
}
use green_communuty_backend.Api.Posts.{
  PostCall, posts_router, handle_list_posts, handle_get_post, handle_create_post,
  handle_update_post, handle_delete_post, handle_like_post, handle_unlike_post, handle_share_post,
  handle_upload_post_image, handle_list_post_images,
}
use green_communuty_backend.Api.Comments.{
  CommentCall, comments_router, handle_list_comments, handle_list_replies, handle_create_comment,
  handle_update_comment, handle_delete_comment,
}
use green_communuty_backend.Api.Menus.{
  MenuCall, menus_router, handle_get_menu_tree, handle_get_menu, handle_create_menu,
  handle_update_menu, handle_delete_menu,
}

module _ (P : Platform) where
  abbrev pub Likes : State P → Type 0
  Likes w = LikeValues P.redis w.world.store

  -- A handler that answers with what one call on the session returns.
  in_session-Likes :
      {A B : Type 0} (m : Action (P.engine.Session) A) (f : A → B)
      → Keeps Likes (in_session P.engine P.redis P.storage m >>= λ a. pure (f a))
  in_session-Likes m f =
      Keeps-bind Likes (in_session P.engine P.redis P.storage m) (λ a. pure (f a)) (λ w h. h)
        (λ a w h. h)

  pub menus-Likes : (now : ℕ) (call : MenuCall) → Keeps Likes (menus_router P now call)
  unfolding menus_router handle_get_menu_tree handle_get_menu handle_create_menu handle_update_menu
      handle_delete_menu
  menus-Likes now MenuCall.get_menu_tree = λ w h. h
  menus-Likes now (MenuCall.get_menu id) = λ w.
      Keeps-bind Likes (lift (MenuService.get_or_404 id (P.engine.live w.world.session).menus)) _
        (λ v h. h) (λ _ v h. h) w
  menus-Likes now (MenuCall.create_menu payload) =
      in_session-Likes (MenuService.create P.engine payload) _
  menus-Likes now (MenuCall.update_menu id payload) =
      in_session-Likes (MenuService.update P.engine P.fuel id payload) _
  menus-Likes now (MenuCall.delete_menu id) =
      in_session-Likes (MenuService.delete P.engine now id) _

  pub comments-Likes :
      (now : ℕ) (current : User) (call : CommentCall)
      → Keeps Likes (comments_router P now current call)
  unfolding comments_router handle_list_comments handle_list_replies handle_create_comment
      handle_update_comment handle_delete_comment
  comments-Likes now current (CommentCall.list_comments post params) =
      in_session-Likes (CommentService.list_by_post P.engine post params) _
  comments-Likes now current (CommentCall.list_replies id) =
      in_session-Likes (CommentService.list_by_parent P.engine id) _
  comments-Likes now current (CommentCall.create_comment post payload) =
      in_session-Likes (CommentService.create P.engine now post current payload) _
  comments-Likes now current (CommentCall.update_comment id content) =
      in_session-Likes (CommentService.update P.engine id current content) _
  comments-Likes now current (CommentCall.delete_comment id) =
      in_session-Likes (CommentService.delete P.engine now id current) _

  pub users-Likes : (current : User) (call : UserCall) → Keeps Likes (users_router P current call)
  unfolding users_router handle_get_me handle_update_me handle_deactivate_me handle_list_users
      handle_get_user UserService.list_users
  users-Likes current UserCall.get_me = λ w h. h
  users-Likes current UserCall.deactivate_me =
      in_session-Likes (UserService.deactivate P.engine current) _
  users-Likes current (UserCall.update_me payload) =
      in_session-Likes (UserService.update P.engine current payload) _
  users-Likes current (UserCall.list_users params) =
      Keeps-bind Likes (lift (AuthService.require_role (UserRole.admin ∷ []) current)) _ (λ w h. h)
        (λ _ w h. h)
  users-Likes current (UserCall.get_user id) = in_session-Likes (UserService.get P.engine id) _

  post_call :
      {A B : Type 0} (m : Action (World P.engine P.redis) A) (f : A → B)
      → Keeps (λ (w : World P.engine P.redis). LikeValues P.redis w.store) m
      → Keeps Likes (on_world P.engine P.redis P.storage m >>= λ a. pure (f a))
  post_call m f keeps =
      Keeps-bind Likes (on_world P.engine P.redis P.storage m) (λ a. pure (f a))
        (λ w h. keeps w.world h) (λ a w h. h)

  store_image-Likes :
      (id : ℕ) (names : Images.Keys) (files : Images.Files) (type : Option String)
      → Keeps Likes (Images.store_image P.engine P.redis P.storage id names files type)
  unfolding Images.store_image
  store_image-Likes id names files type =
      Keeps-bind Likes (Images.upload_files P.engine P.redis P.storage names files type) _
        (λ w h. rw (upload_files-world P.engine P.redis P.storage names files type w) h)
        (λ _.
          Keeps-bind Likes
            (in_session P.engine P.redis P.storage (PostRepository.add_image P.engine _)) _
            (λ w h. h)
            (λ i.
              Keeps-bind Likes (in_session P.engine P.redis P.storage (modify P.engine.commit))
                (λ _. pure i) (λ w h. h) (λ _ v k. k)))

  or_rollback-Likes :
      {A : Type 0} (body : Action (State P) A)
      → Keeps Likes body
      → Keeps Likes (Images.or_rollback P.engine P.redis P.storage body)
  unfolding Images.or_rollback
  or_rollback-Likes body kb w h = elim (Result-cases (body w).0) [
    | inl (a, returned) ↦ rw returned (kb w h)
    | inr (e, raised) ↦ rw raised (kb w h)
  ]

  abbrev store_image_at : String → ℕ → Images.UploadFile → Images.Files → Action (State P) PostImage
  store_image_at file_id id image files =
      Images.store_image P.engine P.redis P.storage id
        (Images.keys_of P.str_of id file_id (P.file_suffix image.filename)) files image.content_type

  upload-Likes :
      (file_id : String) (id : ℕ) (current : User) (image : Images.UploadFile)
      → Keeps Likes (
          Images.upload_image P.engine P.redis P.storage P.pillow P.file_suffix P.str_of true
            file_id id current image)
  unfolding Images.upload_image
  upload-Likes file_id id current image w =
      Keeps-bind Likes
        (lift (PostService.find_post id (Images.rows P.engine P.redis P.storage w).posts)) _
        (λ v h. h)
        (λ post.
          Keeps-bind Likes (lift (Images.own P.engine P.redis P.storage current post true)) _
            (λ v h. h)
            (λ _.
              Keeps-bind Likes (lift (Images.convert_file P.pillow image.file)) _ (λ v h. h)
                (λ files.
                  Keeps-bind Likes
                    (Images.or_rollback P.engine P.redis P.storage
                      (store_image_at file_id id image files))
                    _
                    (or_rollback-Likes (store_image_at file_id id image files)
                      (store_image-Likes id _ files image.content_type))
                    (λ _ v h. h))))
        w

  pub posts-Likes :
      (L : RedisTexts P.redis) (now : ℕ) (file_id : String) (current : User) (call : PostCall)
      → Keeps Likes (posts_router P now file_id current call)
  unfolding posts_router handle_list_posts handle_get_post handle_create_post handle_update_post
      handle_delete_post handle_like_post handle_unlike_post handle_share_post
      handle_upload_post_image handle_list_post_images PostService.list_posts Images.list_images
  posts-Likes L now file_id current (PostCall.list_posts params) = λ w h. h
  posts-Likes L now file_id current (PostCall.get_post id) =
      post_call (PostService.get_detail P.engine P.redis id current) _
        (get_detail-Liked P.redis L P.engine id current)
  posts-Likes L now file_id current (PostCall.create_post payload) =
      post_call (PostService.create P.engine P.redis current payload) _
        (create-Liked P.redis L P.engine current payload)
  posts-Likes L now file_id current (PostCall.update_post id payload) =
      post_call (PostService.update P.engine P.redis id current payload) _
        (update-Liked P.redis L P.engine id current payload)
  posts-Likes L now file_id current (PostCall.delete_post id) =
      post_call (PostService.delete P.engine P.redis now id current) _
        (delete-Liked P.redis L P.engine now id current)
  posts-Likes L now file_id current (PostCall.like_post id) =
      post_call (PostService.like_post P.engine P.redis id current) _
        (like_post-Liked P.redis L P.engine id current)
  posts-Likes L now file_id current (PostCall.unlike_post id) =
      post_call (PostService.unlike_post P.engine P.redis id current) _
        (unlike_post-Liked P.redis L P.engine id current)
  posts-Likes L now file_id current (PostCall.share_post id) = λ w.
      Keeps-bind Likes
        (lift (Images.get_share_url P.str_of id (Images.rows P.engine P.redis P.storage w).posts)) _
        (λ v h. h) (λ _ v h. h) w
  posts-Likes L now file_id current (PostCall.upload_post_image id file) =
      Keeps-bind Likes (lift (get_storage P.storage_settings)) _ (λ w h. h)
        (λ _.
          Keeps-bind Likes
            (Images.upload_image P.engine P.redis P.storage P.pillow P.file_suffix P.str_of true
              file_id id current file)
            _ (upload-Likes file_id id current file) (λ _ w h. h))
  posts-Likes L now file_id current (PostCall.list_post_images id) =
      Keeps-bind Likes (lift (get_storage P.storage_settings)) _ (λ w h. h)
        (λ _.
          Keeps-bind Likes (Images.list_images P.engine P.redis P.storage true id) _
            (λ w.
              Keeps-bind Likes
                (lift (PostService.find_post id (Images.rows P.engine P.redis P.storage w).posts)) _
                (λ v h. h) (λ _ v h. h) w)
            (λ _ w h. h))
