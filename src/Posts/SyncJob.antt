-- ===== src/Posts/SyncJob.antt =====
-- app/modules/posts/post_like_sync.py: the job that the scheduler starts every five minutes, on a
-- session of its own.
use green_communuty_backend.Prelude.{ℕ, ◌≡◌, refl, none, List, true}
use green_communuty_backend.Core.Action.{Action, Result, ok, err, modify}
use green_communuty_backend.Core.Session.{Engine, flush}
use green_communuty_backend.Core.Session.Holds.{Holds, Holds-rollback}
use green_communuty_backend.Core.Keeps.{Keeps}
use green_communuty_backend.Core.Redis.{Redis, RedisTexts, post_like}
use green_communuty_backend.Core.World.{World, on_session, tables}
use green_communuty_backend.Models.{PostLike, Tables}
use green_communuty_backend.Posts.Repository.{has_like, get_like}
use green_communuty_backend.Posts.Repository.Sync.{scan_like_to_db}
use green_communuty_backend.Posts.Likes.{
  IsLikeValue, liked, written, get_like-synced, has_like-synced, drained,
}
use green_communuty_backend.Posts.ImageFrame.{scan_like_to_db-Keeps}

module _ (E : Engine) (R : Redis) where
  abbrev rolled_back : World E R → World E R
  rolled_back w = (on_session E R (modify E.rollback) w).1

  -- `except Exception`
  abbrev settle : Result (Unit {0}) → World E R → World E R
  settle (ok done) w = w
  settle (err e) w = rolled_back w

  -- The `close` at the end drops what is not committed.
  unfoldable pub post_like_sync : Action (World E R) (Unit {0})
  post_like_sync w = let (r, v) = scan_like_to_db E R w in (r, rolled_back (settle r v))

  module _ (P : Tables → Type 0)
      (stable : (t : Tables) (rows : List PostLike) → P t → P (record t { likes = rows })) where
    settle-Holds :
        (r : Result (Unit {0})) (w : World E R)
        → Holds E P w.session
        → Holds E P (settle r w).session
    settle-Holds (ok done) w h = h
    settle-Holds (err e) w h = Holds-rollback E P w.session h

    pub post_like_sync-Keeps : Keeps (λ (w : World E R). Holds E P w.session) post_like_sync
    unfolding post_like_sync
    post_like_sync-Keeps w h = Holds-rollback E P _ (
        settle-Holds (scan_like_to_db E R w).0 (scan_like_to_db E R w).1
          (scan_like_to_db-Keeps E R P stable w h))

  module _ (L : RedisTexts R) (w : World E R) where
    -- What a run of the job has done for a post and a user.
    pub record Delivered (p u : ℕ) (after : World E R) : Type 0 where
      pub saved_like : has_like p u (E.saved after.session).likes ≡ liked E R L w p u w
      pub drained : R.get (post_like p u) after.store ≡ none
      pub same_view : get_like R p u (tables E R after).likes after.store ≡ liked E R L w p u w

    -- If the database takes the change, and Redis holds for a post and a user one of the values
    -- that a like or its cancellation writes, or none, then a run of `post_like_sync` returns, the
    -- committed likes say of the post and the user what `get_like` said before, nothing is left in
    -- Redis for them, and `get_like` still says the same.
    pub post_like_sync-delivers :
        (p u : ℕ)
        → E.accepts (written E R L w) w.session ≡ true
        → IsLikeValue (R.get (post_like p u) w.store)
        → ((post_like_sync w).0 ≡ ok tt) × Delivered p u (post_like_sync w).1
    unfolding post_like_sync scan_like_to_db flush
    post_like_sync-delivers p u taken value = (
      rw taken refl,
      record {
        saved_like =
            rw (taken, E.saved-rollback, E.saved-commit, E.live-write)
              (has_like-synced E R L w p u value);
        drained = rw taken (drained E R L w p u);
        same_view =
            rw (taken, E.live-rollback, E.saved-commit, E.live-write)
              (get_like-synced E R L w p u value);
      },
    )
