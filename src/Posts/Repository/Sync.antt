-- ===== src/Posts/Repository/Sync.antt =====
-- `scan_like_to_db` of app/modules/posts/post_repository.py: the likes that wait in Redis are
-- written to the database.
use green_communuty_backend.Prelude.{
  ℕ, Bool, false, not, Option, none, some, List, [], ◌∷◌, ◌++◌, select, str_eq, ◌&&◌, if◌then◌else◌,
  String,
}
use green_communuty_backend.Core.Action.{Action, ◌>>=◌, ◌>>◌, gets, pure, modify}
use green_communuty_backend.Core.Session.{Engine, flush}
use green_communuty_backend.Core.Redis.{Redis, post_like}
use green_communuty_backend.Core.World.{World, on_session, on_store, tables}
use green_communuty_backend.Models.{PostLike}
use green_communuty_backend.Posts.Repository.{is_like, has_like}

abbrev pub is_text : String → Option String → Bool
is_text t o = elim o [ none ↦ false | some v ↦ str_eq v t ]

-- One round of the loop: the row of the key is added or deleted.
unfoldable pub sync_key : ℕ → ℕ → Option String → List PostLike → List PostLike
sync_key post user status likes =
    if is_text "1" status && not (has_like post user likes)
    then likes ++ record { post_id = post; user_id = user } ∷ []
    else if is_text "0" status && has_like post user likes
    then select (λ l. not (is_like post user l)) likes
    else likes

module _ (R : Redis) where
  unfoldable pub sync_keys : R.Store → List (ℕ × ℕ) → List PostLike → List PostLike
  unfolding sync_key
  sync_keys store [] likes = likes
  sync_keys store ((post, user) ∷ keys) likes =
      sync_keys store keys (sync_key post user (R.get (post_like post user) store) likes)

  -- `delete(*processed_keys)`
  unfoldable pub delete_keys : List (ℕ × ℕ) → R.Store → R.Store
  delete_keys [] store = store
  delete_keys ((post, user) ∷ keys) store = delete_keys keys (R.delete (post_like post user) store)

module _ (E : Engine) (R : Redis) where
  -- The part up to the commit; it returns `processed_keys`.
  unfoldable pub write_likes : Action (World E R) (List (ℕ × ℕ))
  unfolding sync_keys
  write_likes = do
    w ← gets (λ w. w)
    on_session E R (
        flush E (record (tables E R w) {
          likes = sync_keys R w.store (R.scan_likes w.store) (tables E R w).likes;
        }))
    on_session E R (modify E.commit)
    pure (R.scan_likes w.store)

  unfoldable pub scan_like_to_db : Action (World E R) (Unit {0})
  unfolding write_likes delete_keys
  scan_like_to_db = do keys ← write_likes; on_store E R (delete_keys R keys)
