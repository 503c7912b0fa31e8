-- ===== src/Posts/Likes.antt =====
-- The likes as a client sees them, through Redis and the database.
use green_communuty_backend.Prelude.{
  ℕ, String, ◌≡◌, refl, Bool, true, false, not, ◌&&◌, ◌||◌, ◌⊎◌, inl, inr, Option, none, some,
  Bool-cases, Option-cases, List, [], ◌∷◌, ◌++◌, select, first, ◌==◌, str_eq, eq_iff, if◌then◌else◌,
  arith,
}
use green_communuty_backend.Core.Action.{ok}
use green_communuty_backend.Core.Session.{Engine, flush}
use green_communuty_backend.Core.Redis.{Redis, RedisTexts, post_like, has_pair}
use green_communuty_backend.Core.World.{World, tables}
use green_communuty_backend.Models.{User, Post, PostLike, Tables}
use green_communuty_backend.Posts.Repository.{is_like, has_like, get_like, add_like, delete_like}
use green_communuty_backend.Posts.Service.{find_post, like_post, unlike_post}
use green_communuty_backend.Posts.Repository.Sync.{
  sync_key, sync_keys, delete_keys, scan_like_to_db,
}

has_like-append :
    (p u q v : ℕ) (likes : List PostLike)
    → has_like p u (likes ++ record { post_id = q; user_id = v } ∷ [])
      ≡ (has_like p u likes || (q == p && v == u))
unfolding first
has_like-append p u q v [] = ground arith
has_like-append p u q v (l ∷ likes) = ground (arith, has_like-append p u q v likes)

has_like-remove :
    (p u q v : ℕ) (likes : List PostLike)
    → has_like p u (select (λ l. not (is_like q v l)) likes)
      ≡ (has_like p u likes && not (q == p && v == u))
unfolding first select
has_like-remove p u q v [] = ground arith
has_like-remove p u q v (l ∷ likes) = ground (arith, has_like-remove p u q v likes)

-- What a value in Redis makes of a saved like.
abbrev pub settled : Option String → Bool → Bool
settled none saved = saved
settled (some v) saved = str_eq v "1" || (not (str_eq v "0") && saved)

same_row :
    (p u q v : ℕ) (likes : List PostLike)
    → (q == p && v == u) ≡ true
    → has_like q v likes ≡ has_like p u likes
same_row p u q v likes h = let a : q ≡ p = ground arith in let b : v ≡ u = ground arith in cc

one_or_zero : (v : String) → str_eq v "1" ≡ true → str_eq v "0" ≡ false
one_or_zero v h = let e : v ≡ "1" = (eq_iff v "1").0 h in rw e refl

has_like-sync_key :
    (p u q v : ℕ) (status : Option String) (likes : List PostLike)
    → has_like p u (sync_key q v status likes)
      ≡ (if q == p && v == u then settled status (has_like p u likes) else has_like p u likes)
unfolding sync_key
has_like-sync_key p u q v none likes = ground arith
has_like-sync_key p u q v (some t) likes = ground (
  arith,
  one_or_zero t,
  has_like-append p u q v likes,
  has_like-remove p u q v likes,
  same_row p u q v likes,
)

settled_twice :
    (status : Option String) (b : Bool) → settled status (settled status b) ≡ settled status b
settled_twice none b = refl
settled_twice (some v) b = ground arith

module _ (R : Redis) where
  has_like-sync_keys :
      (p u : ℕ) (store : R.Store) (keys : List (ℕ × ℕ)) (likes : List PostLike)
      → has_like p u (sync_keys R store keys likes) ≡ (
          if has_pair p u keys
          then settled (R.get (post_like p u) store) (has_like p u likes)
          else has_like p u likes)
  unfolding sync_keys
  has_like-sync_keys p u store [] likes = refl
  has_like-sync_keys p u store ((q, v) ∷ keys) likes = ground (
    arith,
    has_like-sync_keys p u store keys (sync_key q v (R.get (post_like q v) store) likes),
    has_like-sync_key p u q v (R.get (post_like q v) store) likes,
    settled_twice (R.get (post_like p u) store) (has_like p u likes),
  )

  get-delete_keys :
      (L : RedisTexts R) (p u : ℕ) (keys : List (ℕ × ℕ)) (store : R.Store)
      → R.get (post_like p u) (delete_keys R keys store)
        ≡ (if has_pair p u keys then none else R.get (post_like p u) store)
  unfolding delete_keys
  get-delete_keys L p u [] store = refl
  get-delete_keys L p u ((q, v) ∷ keys) store = ground (
    arith,
    get-delete_keys L p u keys (R.delete (post_like q v) store),
    L.get-delete (post_like p u) (post_like q v) store,
  )

-- A value that the two setters write: a like or a cancelled one.
abbrev pub IsLikeValue : Option String → Type 0
IsLikeValue none = Unit
IsLikeValue (some v) = (str_eq v "1" || str_eq v "0") ≡ true

module _ (E : Engine) (R : Redis) (L : RedisTexts R) (w : World E R) where
  abbrev pub liked : ℕ → ℕ → World E R → Bool
  liked p u x = get_like R p u (tables E R x).likes x.store

  scanned :
      (p u : ℕ)
      → (R.get (post_like p u) w.store ≡ none) ⊎ (has_pair p u (R.scan_likes w.store) ≡ true)
  scanned p u = elim (Option-cases (R.get (post_like p u) w.store)) [
    | inl absent ↦ inl absent
    | inr (v, e) ↦ inr (L.scan_likes-lists p u w.store v e)
  ]

  abbrev synced : List PostLike
  synced = sync_keys R w.store (R.scan_likes w.store) (tables E R w).likes

  pub get_like-synced :
      (p u : ℕ)
      → IsLikeValue (R.get (post_like p u) w.store)
      → get_like R p u synced (delete_keys R (R.scan_likes w.store) w.store) ≡ liked p u w
  unfolding get_like
  get_like-synced p u value = ground (
    arith,
    has_like-sync_keys R p u w.store (R.scan_likes w.store) (tables E R w).likes,
    get-delete_keys R L p u (R.scan_likes w.store) w.store,
    one_or_zero "1",
    scanned p u,
  )

  pub drained :
      (p u : ℕ) → R.get (post_like p u) (delete_keys R (R.scan_likes w.store) w.store) ≡ none
  drained p u = ground (arith, get-delete_keys R L p u (R.scan_likes w.store) w.store, scanned p u)

  -- The saved likes alone give the view, once the values in Redis are gone.
  pub has_like-synced :
      (p u : ℕ) → IsLikeValue (R.get (post_like p u) w.store) → has_like p u synced ≡ liked p u w
  unfolding get_like
  has_like-synced p u value = ground (arith, get_like-synced p u value, drained p u)

  same_like : (p u q v : ℕ) → (p == q && u == v) ≡ true → liked p u w ≡ liked q v w
  same_like p u q v h = let a : p ≡ q = ground arith in let b : u ≡ v = ground arith in cc

  abbrev pub written : Tables
  written = record (tables E R w) { likes = synced }

  -- If Redis holds for a post and a user one of the values that a like or its cancellation writes,
  -- or none, then `scan_like_to_db`, whether the database takes its changes or not, leaves whether
  -- the user likes the post, as `get_like` answers it, as it was.
  pub scan_like_to_db-liked :
      (p u : ℕ)
      → IsLikeValue (R.get (post_like p u) w.store)
      → liked p u (scan_like_to_db E R w).1 ≡ liked p u w
  unfolding scan_like_to_db flush
  scan_like_to_db-liked p u value = elim (Bool-cases (E.accepts written w.session)) [
    | inl taken ↦ rw taken (rw (E.live-commit, E.live-write) (get_like-synced p u value))
    | inr refused ↦ rw refused refl
  ]

  -- If the post is found, then after `like_post` the user likes it, as `get_like` answers, and the
  -- answer for every other post or user is as before.
  pub like_post-liked :
      (id : ℕ) (current : User) (post : Post) (p u : ℕ)
      → find_post id (tables E R w).posts ≡ ok post
      → liked p u (like_post E R id current w).1
        ≡ (if id == p && current.user_id == u then true else liked p u w)
  unfolding like_post get_like add_like
  like_post-liked id current post p u found = ground (
    arith,
    found,
    L.get-set (post_like p u) (post_like id current.user_id) "1" w.store,
    same_like id current.user_id p u,
  )

  -- After `unlike_post` the user does not like the post, as `get_like` answers, and the answer for
  -- every other post or user is as before.
  pub unlike_post-liked :
      (id : ℕ) (current : User) (p u : ℕ)
      → liked p u (unlike_post E R id current w).1
        ≡ (if id == p && current.user_id == u then false else liked p u w)
  unfolding unlike_post get_like delete_like
  unlike_post-liked id current p u = ground (
    arith,
    L.get-set (post_like p u) (post_like id current.user_id) "0" w.store,
    same_like id current.user_id p u,
  )
