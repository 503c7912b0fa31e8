-- ===== src/Posts/Frame.antt =====
-- What the calls of app/modules/posts/post_service.py leave alone: every property of the tables
-- that does not depend on the posts.
use green_communuty_backend.Prelude.{ℕ, Bool, true, false, inl, inr, Bool-cases, List, ◌==◌}
use green_communuty_backend.Core.Action.{Action, ◌>>◌, Result-cases, pure, modify}
use green_communuty_backend.Core.Session.{Engine}
use green_communuty_backend.Core.Session.Holds.{Holds}
use green_communuty_backend.Core.Keeps.{
  Keeps, Keeps-bind, Keeps-flush, Keeps-commit, Keeps-flush-pure,
}
use green_communuty_backend.Core.Redis.{Redis}
use green_communuty_backend.Core.World.{World, on_session, tables}
use green_communuty_backend.Models.{User, Post, Tables}
use green_communuty_backend.Posts.Repository as Repository
use green_communuty_backend.Posts.Service.{
  PostCreate, PostUpdate, apply_update, mark_deleted, get_owned, find_post, found, count_view,
  get_detail, create, update, delete, like_post, unlike_post,
}

module _ (E : Engine) (R : Redis) (P : Tables → Type 0)
    (stable : (t : Tables) (rows : List Post) → P t → P (record t { posts = rows })) where
  abbrev Kept : E.Session → Type 0
  Kept = Holds E P

  abbrev pub InWorld : World E R → Type 0
  InWorld w = Holds E P w.session

  on_session-Keeps :
      {A : Type 0} (m : Action E.Session A) → Keeps Kept m → Keeps InWorld (on_session E R m)
  on_session-Keeps m km w h = km w.session h

  commit_world : Keeps InWorld (on_session E R (modify E.commit))
  commit_world = on_session-Keeps (modify E.commit) (Keeps-commit E P)

  add-Keeps : (draft : ℕ → Post) → Keeps Kept (Repository.add E draft)
  unfolding Repository.add
  add-Keeps draft s h = Keeps-flush-pure E P _ _ (stable (E.live s) _ h.live) s h

  changes-Keeps :
      (id : ℕ) (change : Post → Post) → Keeps Kept (Repository.flush_changes E id change)
  unfolding Repository.flush_changes
  changes-Keeps id change s h = Keeps-flush E P _ (stable (E.live s) _ h.live) s h

  views-Keeps : (id : ℕ) → Keeps Kept (Repository.increment_views E id)
  unfolding Repository.increment_views
  views-Keeps id s h = Keeps-flush E P _ (stable (E.live s) _ h.live) s h

  count_view-Keeps : (id : ℕ) (is_author : Bool) → Keeps InWorld (count_view E R id is_author)
  unfolding count_view
  count_view-Keeps id true w h = h
  count_view-Keeps id false w h =
      Keeps-bind InWorld (on_session E R (Repository.increment_views E id))
        (λ _. on_session E R (modify E.commit))
        (on_session-Keeps (Repository.increment_views E id) (views-Keeps id)) (λ _. commit_world) w
        h

  pub get_detail-Keeps : (id : ℕ) (current : User) → Keeps InWorld (get_detail E R id current)
  unfolding get_detail
  get_detail-Keeps id current w h =
      elim (Result-cases (found (Repository.get_detail id (tables E R w)))) [
        | inr (e, lost) ↦ rw lost h
        | inl (row, there) ↦ rw there (
            Keeps-bind InWorld (count_view E R id ((row.0).author_id == current.user_id)) _
              (count_view-Keeps id _) (λ _ v k. k) w h)
      ]

  pub create-Keeps :
      (author : User) (payload : PostCreate) → Keeps InWorld (create E R author payload)
  unfolding create
  create-Keeps author payload =
      Keeps-bind InWorld (on_session E R (Repository.add E _)) _
        (on_session-Keeps (Repository.add E _) (add-Keeps _))
        (λ p.
          Keeps-bind InWorld (on_session E R (modify E.commit)) (λ _. pure p) commit_world
            (λ _ v k. k))

  pub update-Keeps :
      (id : ℕ) (current : User) (payload : PostUpdate)
      → Keeps InWorld (update E R id current payload)
  unfolding update
  update-Keeps id current payload w h =
      elim (Result-cases (get_owned id current (tables E R w).posts)) [
        | inr (e, refused) ↦ rw refused h
        | inl (p, mine) ↦ rw mine (
            Keeps-bind InWorld
              (on_session E R (Repository.flush_changes E id (apply_update payload)))
              (λ _. on_session E R (modify E.commit) >> get_detail E R id current)
              (on_session-Keeps (Repository.flush_changes E id (apply_update payload))
                (changes-Keeps id _))
              (λ _.
                Keeps-bind InWorld (on_session E R (modify E.commit))
                  (λ _. get_detail E R id current) commit_world (λ _. get_detail-Keeps id current))
              w h)
      ]

  pub delete-Keeps : (now id : ℕ) (current : User) → Keeps InWorld (delete E R now id current)
  unfolding delete
  delete-Keeps now id current w h =
      elim (Result-cases (get_owned id current (tables E R w).posts)) [
        | inr (e, refused) ↦ rw refused h
        | inl (p, mine) ↦ rw mine (
            Keeps-bind InWorld (on_session E R (Repository.flush_changes E id (mark_deleted now)))
              (λ _. on_session E R (modify E.commit))
              (on_session-Keeps (Repository.flush_changes E id (mark_deleted now))
                (changes-Keeps id _))
              (λ _. commit_world) w h)
      ]

  pub like_post-Keeps : (id : ℕ) (current : User) → Keeps InWorld (like_post E R id current)
  unfolding like_post
  like_post-Keeps id current w h = elim (Result-cases (find_post id (tables E R w).posts)) [
    | inr (e, lost) ↦ rw lost h
    | inl (p, there) ↦
        elim (Bool-cases (Repository.get_like R id current.user_id (tables E R w).likes w.store)) [
          | inl liked ↦ rw (there, liked) h
          | inr fresh ↦ rw (there, fresh) h
        ]
  ]

  pub unlike_post-Keeps : (id : ℕ) (current : User) → Keeps InWorld (unlike_post E R id current)
  unfolding unlike_post
  unlike_post-Keeps id current w h =
      elim (Bool-cases (Repository.get_like R id current.user_id (tables E R w).likes w.store)) [
        | inl liked ↦ rw liked h
        | inr fresh ↦ rw fresh h
      ]
