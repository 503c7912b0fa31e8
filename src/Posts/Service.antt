-- ===== src/Posts/Service.antt =====
-- app/modules/posts/post_service.py, without the images. A response is the record of what it is
-- built from.
use green_communuty_backend.Prelude.{
  ℕ, ◌+◌, String, Bool, true, false, not, ◌&&◌, Option, none, some, List, [], ◌∷◌, ◌==◌, ltb,
  sort_by, if◌then◌else◌,
}
use green_communuty_backend.Core.Errors.{forbidden, not_found}
use green_communuty_backend.Core.Action.{
  Action, Result, ok, err, ◌>>=◌, ◌>>◌, gets, pure, lift, modify,
}
use green_communuty_backend.Core.Session.{Engine}
use green_communuty_backend.Core.Redis.{Redis}
use green_communuty_backend.Core.World.{World, on_session, on_store, tables}
use green_communuty_backend.Core.Pagination.{PageParams}
use green_communuty_backend.Models.{User, UserRole, user, admin, Post, published, deleted}
use green_communuty_backend.Posts.Repository as Repository

-- app/modules/posts/post_schemas.py
pub record PostCreate : Type 0 where
  pub post_title : String
  pub post_content : String

-- `none` is a field that was not sent. A null, which the schema lets pass and the columns refuse, is
-- left out.
pub record PostUpdate : Type 0 where
  pub post_title : Option String
  pub post_content : Option String

pub record PostDetail : Type 0 where
  pub post : Post
  pub author : User
  pub post_like_count : ℕ
  pub is_liked : Bool
  pub has_images : Bool

abbrev pub is_admin : UserRole → Bool
is_admin admin = true
is_admin user = false

abbrev pub sent_or {ℓ} : {A : Type ℓ} → Option A → A → A
sent_or none old = old
sent_or (some new) old = new

abbrev pub apply_update : PostUpdate → Post → Post
apply_update payload p = record p {
  post_title = sent_or payload.post_title p.post_title;
  post_content = sent_or payload.post_content p.post_content;
}

abbrev pub mark_deleted : ℕ → Post → Post
mark_deleted now p = record p { deleted_at = some now; post_status = deleted }

abbrev pub bump : Post → Post
bump p = record p { post_view_count = p.post_view_count + 1 }

-- `_get_owned`: the author or an administrator.
abbrev owned : User → Option Post → Result Post
owned current none = err not_found
owned current (some p) =
    if not (p.author_id == current.user_id) && not (is_admin current.user_role)
    then err forbidden
    else ok p

unfoldable pub get_owned : ℕ → User → List Post → Result Post
get_owned id current rows = owned current (Repository.get_by_id id rows)

abbrev pub found {ℓ} : {A : Type ℓ} → Option A → Result A
found none = err not_found
found (some a) = ok a

unfoldable pub find_post : ℕ → List Post → Result Post
find_post id rows = found (Repository.get_by_id id rows)

abbrev newer : Post × User → Post × User → Bool
newer a b = ltb (b.0).post_id (a.0).post_id

module _ (E : Engine) (R : Redis) where
  -- The view of another user than the author is counted and committed.
  unfoldable pub count_view : ℕ → Bool → Action (World E R) (Unit {0})
  count_view id is_author =
      if is_author
      then pure tt
      else (on_session E R (Repository.increment_views E id) >> on_session E R (modify E.commit))

  unfoldable pub get_detail : ℕ → User → Action (World E R) PostDetail
  unfolding count_view
  get_detail id current = do
    w ← gets (λ w. w)
    row ← lift (found (Repository.get_detail id (tables E R w)))
    count_view id ((row.0).author_id == current.user_id)
    v ← gets (λ w. w)
    pure (record {
      post = if (row.0).author_id == current.user_id then row.0 else bump row.0;
      author = row.1;
      post_like_count = Repository.count_likes R id (tables E R v).likes v.store;
      is_liked = Repository.get_like R id current.user_id (tables E R v).likes v.store;
      has_images = elim (Repository.list_images id (tables E R v).images) [
        | [] ↦ false
        | _ ∷ _ ↦ true
      ];
    })

  unfoldable pub list_posts :
      PageParams → Action (World E R) (List (Post × User) × List (Post × User) × ℕ)
  list_posts params = do
    w ← gets (λ w. w)
    let t = tables E R w
    let (posts, total) = Repository.list_paginated E params [] t
    pure (sort_by newer (Repository.list_notices t), sort_by newer posts, total)

  unfoldable pub create : User → PostCreate → Action (World E R) Post
  create author payload = do
    post ← on_session E R (
        Repository.add E (λ id. record {
          post_id = id;
          post_title = payload.post_title;
          post_content = payload.post_content;
          author_id = author.user_id;
          post_view_count = 0;
          post_status = published;
          post_is_notice = false;
          deleted_at = none;
        }))
    on_session E R (modify E.commit)
    pure post

  unfoldable pub update : ℕ → User → PostUpdate → Action (World E R) PostDetail
  unfolding get_owned get_detail
  update id current payload = do
    w ← gets (λ w. w)
    lift (get_owned id current (tables E R w).posts)
    on_session E R (Repository.flush_changes E id (apply_update payload))
    on_session E R (modify E.commit)
    get_detail id current

  unfoldable pub delete : ℕ → ℕ → User → Action (World E R) (Unit {0})
  unfolding get_owned
  delete now id current = do
    w ← gets (λ w. w)
    lift (get_owned id current (tables E R w).posts)
    on_session E R (Repository.flush_changes E id (mark_deleted now))
    on_session E R (modify E.commit)

  unfoldable pub like_post : ℕ → User → Action (World E R) (Unit {0})
  unfolding find_post
  like_post id current = do
    w ← gets (λ w. w)
    lift (find_post id (tables E R w).posts)
    if Repository.get_like R id current.user_id (tables E R w).likes w.store
        then pure tt
        else on_store E R (Repository.add_like R id current.user_id)

  unfoldable pub unlike_post : ℕ → User → Action (World E R) (Unit {0})
  unlike_post id current = do
    w ← gets (λ w. w)
    if Repository.get_like R id current.user_id (tables E R w).likes w.store
        then on_store E R (Repository.delete_like R id current.user_id)
        else pure tt
