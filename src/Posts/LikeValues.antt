-- ===== src/Posts/LikeValues.antt =====
-- The values that Redis holds for likes, and the calls that leave them such values.
use green_communuty_backend.Prelude.{
  ℕ, String, Bool, true, false, refl, inl, inr, Option, none, some, List, [], ◌∷◌, ◌==◌, ◌&&◌,
  if◌then◌else◌,
}
use green_communuty_backend.Core.Action.{Result-cases, pure, modify, lift}
use green_communuty_backend.Core.Session.{Engine, flush}
use green_communuty_backend.Core.Keeps.{Keeps, Keeps-bind, Keeps-if}
use green_communuty_backend.Core.Redis.{Redis, RedisTexts, post_like}
use green_communuty_backend.Core.World.{World, on_session, on_store, tables}
use green_communuty_backend.Models.{User}
use green_communuty_backend.Posts.Repository as Repository
use green_communuty_backend.Posts.Repository.Sync.{delete_keys, write_likes, scan_like_to_db}
use green_communuty_backend.Posts.Likes.{IsLikeValue}
use green_communuty_backend.Posts.Service.{
  PostCreate, PostUpdate, find_post, get_owned, found, count_view, get_detail, create, update,
  delete, like_post, unlike_post,
}
use green_communuty_backend.Posts.SyncJob.{post_like_sync}

-- Every key of a like holds nothing, or what a like or its cancellation writes.
abbrev pub LikeValues : (R : Redis) → R.Store → Type 0
LikeValues R s = (p u : ℕ) → IsLikeValue (R.get (post_like p u) s)

chosen :
    (b : Bool) (x y : Option String)
    → IsLikeValue x
    → IsLikeValue y
    → IsLikeValue (if b then x else y)
chosen true x y hx hy = hx
chosen false x y hx hy = hy

module _ (R : Redis) (L : RedisTexts R) where
  set-LikeValues :
      (q v : ℕ) (t : String) (s : R.Store)
      → IsLikeValue (some t)
      → LikeValues R s
      → LikeValues R (R.set (post_like q v) t s)
  set-LikeValues q v t s value h p u =
      rw (L.get-set (post_like p u) (post_like q v) t s)
        (chosen (q == p && v == u) (some t) (R.get (post_like p u) s) value (h p u))

  pub delete_keys-LikeValues :
      (keys : List (ℕ × ℕ)) (s : R.Store) → LikeValues R s → LikeValues R (delete_keys R keys s)
  unfolding delete_keys
  delete_keys-LikeValues [] s h = h
  delete_keys-LikeValues ((q, v) ∷ keys) s h =
      delete_keys-LikeValues keys (R.delete (post_like q v) s) (λ p u.
        rw (L.get-delete (post_like p u) (post_like q v) s)
          (chosen (q == p && v == u) none (R.get (post_like p u) s) tt (h p u)))

  module _ (E : Engine) where
    abbrev pub Liked : World E R → Type 0
    Liked w = LikeValues R w.store

    count_view-Liked : (id : ℕ) (is_author : Bool) → Keeps Liked (count_view E R id is_author)
    unfolding count_view
    count_view-Liked id true = λ w h. h
    count_view-Liked id false =
        Keeps-bind Liked (on_session E R (Repository.increment_views E id))
          (λ _. on_session E R (modify E.commit)) (λ w h. h) (λ _ w h. h)

    pub get_detail-Liked : (id : ℕ) (current : User) → Keeps Liked (get_detail E R id current)
    unfolding get_detail
    get_detail-Liked id current w =
        Keeps-bind Liked (lift (found (Repository.get_detail id (tables E R w)))) _ (λ v h. h)
          (λ row.
            Keeps-bind Liked (count_view E R id ((row.0).author_id == current.user_id)) _
              (count_view-Liked id _) (λ _ v h. h))
          w

    pub create-Liked :
        (author : User) (payload : PostCreate) → Keeps Liked (create E R author payload)
    unfolding create
    create-Liked author payload =
        Keeps-bind Liked (on_session E R (Repository.add E _)) _ (λ w h. h)
          (λ p.
            Keeps-bind Liked (on_session E R (modify E.commit)) (λ _. pure p) (λ w h. h)
              (λ _ w h. h))

    pub update-Liked :
        (id : ℕ) (current : User) (payload : PostUpdate)
        → Keeps Liked (update E R id current payload)
    unfolding update
    update-Liked id current payload w =
        Keeps-bind Liked (lift (get_owned id current (tables E R w).posts)) _ (λ v h. h)
          (λ _.
            Keeps-bind Liked (on_session E R (Repository.flush_changes E id _)) _ (λ v h. h)
              (λ _.
                Keeps-bind Liked (on_session E R (modify E.commit)) (λ _. get_detail E R id current)
                  (λ v h. h) (λ _. get_detail-Liked id current)))
          w

    pub delete-Liked : (now id : ℕ) (current : User) → Keeps Liked (delete E R now id current)
    unfolding delete
    delete-Liked now id current w =
        Keeps-bind Liked (lift (get_owned id current (tables E R w).posts)) _ (λ v h. h)
          (λ _.
            Keeps-bind Liked (on_session E R (Repository.flush_changes E id _))
              (λ _. on_session E R (modify E.commit)) (λ v h. h) (λ _ v h. h))
          w

    pub like_post-Liked : (id : ℕ) (current : User) → Keeps Liked (like_post E R id current)
    unfolding like_post Repository.add_like
    like_post-Liked id current w =
        Keeps-bind Liked (lift (find_post id (tables E R w).posts)) _ (λ v h. h)
          (λ _.
            Keeps-if Liked (Repository.get_like R id current.user_id (tables E R w).likes w.store)
              (pure tt) (on_store E R (Repository.add_like R id current.user_id)) (λ v h. h)
              (λ v h. set-LikeValues id current.user_id "1" v.store refl h))
          w

    pub unlike_post-Liked : (id : ℕ) (current : User) → Keeps Liked (unlike_post E R id current)
    unfolding unlike_post Repository.delete_like
    unlike_post-Liked id current w =
        Keeps-if Liked (Repository.get_like R id current.user_id (tables E R w).likes w.store)
          (on_store E R (Repository.delete_like R id current.user_id)) (pure tt)
          (λ v h. set-LikeValues id current.user_id "0" v.store refl h) (λ v h. h) w

    scan_like_to_db-Liked : Keeps Liked (scan_like_to_db E R)
    unfolding scan_like_to_db write_likes
    scan_like_to_db-Liked =
        Keeps-bind Liked (write_likes E R) (λ keys. on_store E R (delete_keys R keys))
          (λ w.
            Keeps-bind Liked (on_session E R (flush E _)) _ (λ v h. h)
              (λ _.
                Keeps-bind Liked (on_session E R (modify E.commit))
                  (λ _. pure (R.scan_likes w.store)) (λ v h. h) (λ _ v h. h))
              w)
          (λ keys v h. delete_keys-LikeValues keys v.store h)

    pub post_like_sync-Liked : Keeps Liked (post_like_sync E R)
    unfolding post_like_sync
    post_like_sync-Liked w h = elim (Result-cases (scan_like_to_db E R w).0) [
      | inl (done, e) ↦ rw e (scan_like_to_db-Liked w h)
      | inr (x, e) ↦ rw e (scan_like_to_db-Liked w h)
    ]
