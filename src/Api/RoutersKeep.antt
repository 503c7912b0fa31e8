-- ===== src/Api/RoutersKeep.antt =====
-- The routers and the tables.
use green_communuty_backend.Prelude.{ℕ, String, List, [], ◌∷◌, true, inl, inr}
use green_communuty_backend.Core.Action.{Action, ◌>>=◌, Result-cases, lift, pure}
use green_communuty_backend.Core.Session.{Engine}
use green_communuty_backend.Core.Session.Holds.{Holds}
use green_communuty_backend.Core.Keeps.{Keeps, Keeps-bind}
use green_communuty_backend.Core.World.{World}
use green_communuty_backend.Core.Site.{in_session, on_world}
use green_communuty_backend.Core.Storage.{get_storage}
use green_communuty_backend.Models.{User, UserRole, Post, PostImage, Tables}
use green_communuty_backend.Menus.Service as MenuService
use green_communuty_backend.Menus.Keeps.{MenusValid, create-MenusValid}
use green_communuty_backend.Menus.Moves.{update-MenusValid, delete-MenusValid}
use green_communuty_backend.Menus.Frame as MenuFrame
use green_communuty_backend.Comments.Service as CommentService
use green_communuty_backend.Comments.Keeps.{
  Threaded, create-Threaded, update-Threaded, delete-Threaded,
}
use green_communuty_backend.Comments.Frame as CommentFrame
use green_communuty_backend.Users.Service as UserService
use green_communuty_backend.Users.Unique.{
  EmailsUnique, update-UniqueEmails, deactivate-UniqueEmails,
}
use green_communuty_backend.Users.Frame as UserFrame
use green_communuty_backend.Posts.Service as PostService
use green_communuty_backend.Posts.Images as Images
use green_communuty_backend.Posts.Frame as PostFrame
use green_communuty_backend.Posts.ImageFrame as ImageFrame
use green_communuty_backend.Auth.Service as AuthService
use green_communuty_backend.Api.Platform.{Platform, State}
use green_communuty_backend.Api.Users.{
  UserCall, users_router, handle_get_me, handle_update_me, handle_deactivate_me, handle_list_users,
  handle_get_user,
}
use green_communuty_backend.Api.Posts.{
  PostCall, posts_router, handle_list_posts, handle_get_post, handle_create_post,
  handle_update_post, handle_delete_post, handle_like_post, handle_unlike_post, handle_share_post,
  handle_upload_post_image, handle_list_post_images,
}
use green_communuty_backend.Api.Comments.{
  CommentCall, comments_router, handle_list_comments, handle_list_replies, handle_create_comment,
  handle_update_comment, handle_delete_comment,
}
use green_communuty_backend.Api.Menus.{
  MenuCall, menus_router, handle_get_menu_tree, handle_get_menu, handle_create_menu,
  handle_update_menu, handle_delete_menu,
}
use green_communuty_backend.Api.Sound.{IsSound, menu_call, comment_call, user_call, other_call}

module _ (P : Platform) where
  abbrev E : Engine
  E = P.engine

  abbrev pub Sound : State P → Type 0
  Sound w = IsSound P.engine w.world.session

  -- A handler that answers with what one call on the session returns.
  in_session-Sound :
      {A B : Type 0} (m : Action (P.engine.Session) A) (f : A → B)
      → Keeps (IsSound P.engine) m
      → Keeps Sound (in_session P.engine P.redis P.storage m >>= λ a. pure (f a))
  in_session-Sound m f km =
      Keeps-bind Sound (in_session P.engine P.redis P.storage m) (λ a. pure (f a))
        (λ w h. km w.world.session h) (λ a w h. h)

  pub menus-Sound : (now : ℕ) (call : MenuCall) → Keeps Sound (menus_router P now call)
  unfolding menus_router handle_get_menu_tree handle_get_menu handle_create_menu handle_update_menu
      handle_delete_menu
  menus-Sound now MenuCall.get_menu_tree = λ w h. h
  menus-Sound now (MenuCall.get_menu id) = λ w h.
      elim (Result-cases (MenuService.get_or_404 id (P.engine.live w.world.session).menus)) [
        | inl (m, found) ↦ rw found h
        | inr (e, lost) ↦ rw lost h
      ]
  menus-Sound now (MenuCall.create_menu payload) =
      in_session-Sound (MenuService.create P.engine payload) _ (
        menu_call P.engine (MenuService.create P.engine payload)
          (create-MenusValid P.engine payload)
          (λ Q stable. MenuFrame.create-Keeps P.engine Q stable payload))
  menus-Sound now (MenuCall.update_menu id payload) =
      in_session-Sound (MenuService.update P.engine P.fuel id payload) _ (
        menu_call P.engine (MenuService.update P.engine P.fuel id payload)
          (update-MenusValid P.engine P.fuel id payload)
          (λ Q stable. MenuFrame.update-Keeps P.engine Q stable P.fuel id payload))
  menus-Sound now (MenuCall.delete_menu id) =
      in_session-Sound (MenuService.delete P.engine now id) _ (
        menu_call P.engine (MenuService.delete P.engine now id) (delete-MenusValid P.engine now id)
          (λ Q stable. MenuFrame.delete-Keeps P.engine Q stable now id))

  pub comments-Sound :
      (now : ℕ) (current : User) (call : CommentCall)
      → Keeps Sound (comments_router P now current call)
  unfolding comments_router handle_list_comments handle_list_replies handle_create_comment
      handle_update_comment handle_delete_comment CommentService.list_by_post
      CommentService.list_by_parent
  comments-Sound now current (CommentCall.list_comments post params) =
      in_session-Sound (CommentService.list_by_post P.engine post params) _ (λ s h.
        Keeps-bind (IsSound P.engine)
          (lift (CommentService.ensure_post_exists post (P.engine.live s))) _ (λ v k. k)
          (λ _ v k. k) s h)
  comments-Sound now current (CommentCall.list_replies id) =
      in_session-Sound (CommentService.list_by_parent P.engine id) _
        (λ s h. Keeps-bind (IsSound P.engine) (lift _) _ (λ v k. k) (λ _ v k. k) s h)
  comments-Sound now current (CommentCall.create_comment post payload) =
      in_session-Sound (CommentService.create P.engine now post current payload) _ (
        comment_call P.engine (CommentService.create P.engine now post current payload)
          (create-Threaded P.engine now post current payload)
          (λ Q stable. CommentFrame.create-Keeps P.engine Q stable now post current payload))
  comments-Sound now current (CommentCall.update_comment id content) =
      in_session-Sound (CommentService.update P.engine id current content) _ (
        comment_call P.engine (CommentService.update P.engine id current content)
          (update-Threaded P.engine id current content)
          (λ Q stable. CommentFrame.update-Keeps P.engine Q stable id current content))
  comments-Sound now current (CommentCall.delete_comment id) =
      in_session-Sound (CommentService.delete P.engine now id current) _ (
        comment_call P.engine (CommentService.delete P.engine now id current)
          (delete-Threaded P.engine now id current)
          (λ Q stable. CommentFrame.delete-Keeps P.engine Q stable now id current))

  pub users-Sound : (current : User) (call : UserCall) → Keeps Sound (users_router P current call)
  unfolding users_router handle_get_me handle_update_me handle_deactivate_me handle_list_users
      handle_get_user UserService.get UserService.list_users
  users-Sound current UserCall.get_me = λ w h. h
  users-Sound current UserCall.deactivate_me =
      in_session-Sound (UserService.deactivate P.engine current) _ (
        user_call P.engine (UserService.deactivate P.engine current)
          (deactivate-UniqueEmails P.engine current)
          (λ Q stable. UserFrame.deactivate-Keeps P.engine Q stable current))
  users-Sound current (UserCall.update_me payload) =
      in_session-Sound (UserService.update P.engine current payload) _ (
        user_call P.engine (UserService.update P.engine current payload)
          (update-UniqueEmails P.engine current payload)
          (λ Q stable. UserFrame.update-Keeps P.engine Q stable current payload))
  users-Sound current (UserCall.list_users params) =
      Keeps-bind Sound (lift (AuthService.require_role (UserRole.admin ∷ []) current)) _ (λ w h. h)
        (λ _ w h. h)
  users-Sound current (UserCall.get_user id) =
      in_session-Sound (UserService.get P.engine id) _ (λ s h. h)

  -- The calls of the services on the database and on Redis.
  post_call :
      {A B : Type 0} (m : Action (World P.engine P.redis) A) (f : A → B)
      → ((Q : Tables → Type 0)
          → ((t : Tables) (rows : List Post) → Q t → Q (record t { posts = rows }))
          → Keeps (λ w. Holds P.engine Q w.session) m)
      → Keeps Sound (on_world P.engine P.redis P.storage m >>= λ a. pure (f a))
  post_call m f keeps =
      Keeps-bind Sound (on_world P.engine P.redis P.storage m) (λ a. pure (f a))
        (λ w h.
          other_call P.engine (λ v. v.session) m (keeps (MenusValid P.engine) (λ t rows k. k))
            (keeps (Threaded P.engine) (λ t rows k. k))
            (keeps (EmailsUnique P.engine) (λ t rows k. k)) w.world h)
        (λ a w h. h)

  list_images-Sound : (id : ℕ) → Keeps Sound (Images.list_images P.engine P.redis P.storage true id)
  unfolding Images.list_images
  list_images-Sound id w h =
      elim (Result-cases
        (PostService.find_post id (Images.rows P.engine P.redis P.storage w).posts)) [
          | inr (e, lost) ↦ rw lost h
          | inl (p, found) ↦ rw found h
        ]

  pub posts-Sound :
      (now : ℕ) (file_id : String) (current : User) (call : PostCall)
      → Keeps Sound (posts_router P now file_id current call)
  unfolding posts_router handle_list_posts handle_get_post handle_create_post handle_update_post
      handle_delete_post handle_like_post handle_unlike_post handle_share_post
      handle_upload_post_image handle_list_post_images PostService.list_posts
  posts-Sound now file_id current (PostCall.list_posts params) = λ w h. h
  posts-Sound now file_id current (PostCall.get_post id) =
      post_call (PostService.get_detail P.engine P.redis id current) _
        (λ Q stable. PostFrame.get_detail-Keeps P.engine P.redis Q stable id current)
  posts-Sound now file_id current (PostCall.create_post payload) =
      post_call (PostService.create P.engine P.redis current payload) _
        (λ Q stable. PostFrame.create-Keeps P.engine P.redis Q stable current payload)
  posts-Sound now file_id current (PostCall.update_post id payload) =
      post_call (PostService.update P.engine P.redis id current payload) _
        (λ Q stable. PostFrame.update-Keeps P.engine P.redis Q stable id current payload)
  posts-Sound now file_id current (PostCall.delete_post id) =
      post_call (PostService.delete P.engine P.redis now id current) _
        (λ Q stable. PostFrame.delete-Keeps P.engine P.redis Q stable now id current)
  posts-Sound now file_id current (PostCall.like_post id) =
      post_call (PostService.like_post P.engine P.redis id current) _
        (λ Q stable. PostFrame.like_post-Keeps P.engine P.redis Q stable id current)
  posts-Sound now file_id current (PostCall.unlike_post id) =
      post_call (PostService.unlike_post P.engine P.redis id current) _
        (λ Q stable. PostFrame.unlike_post-Keeps P.engine P.redis Q stable id current)
  posts-Sound now file_id current (PostCall.share_post id) = λ w h.
      Keeps-bind Sound
        (lift (Images.get_share_url P.str_of id (Images.rows P.engine P.redis P.storage w).posts)) _
        (λ v k. k) (λ _ v k. k) w h
  posts-Sound now file_id current (PostCall.upload_post_image id file) =
      let upload =
        Images.upload_image P.engine P.redis P.storage P.pillow P.file_suffix P.str_of true file_id
          id current file in
      let keeps =
        λ (Q : Tables → Type 0)
            (stable : (t : Tables) (rows : List PostImage) → Q t → Q (record t { images = rows })).
          ImageFrame.upload_image-Keeps P.engine P.redis P.storage Q stable P.pillow P.file_suffix
            P.str_of true file_id id current file in
      Keeps-bind Sound (lift (get_storage P.storage_settings)) _ (λ w h. h)
        (λ _.
          Keeps-bind Sound upload _
            (other_call P.engine (λ (v : State P). v.world.session) upload
              (keeps (MenusValid P.engine) (λ t rows k. k))
              (keeps (Threaded P.engine) (λ t rows k. k))
              (keeps (EmailsUnique P.engine) (λ t rows k. k)))
            (λ _ w h. h))
  posts-Sound now file_id current (PostCall.list_post_images id) =
      Keeps-bind Sound (lift (get_storage P.storage_settings)) _ (λ w h. h)
        (λ _.
          Keeps-bind Sound (Images.list_images P.engine P.redis P.storage true id) _
            (list_images-Sound id) (λ _ w h. h))
