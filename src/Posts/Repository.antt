-- ===== src/Posts/Repository.antt =====
-- app/modules/posts/post_repository.py
pub mod Sync
use green_communuty_backend.Prelude.{
  ℕ, zero, suc, ◌+◌, ◌-◌, String, Bool, true, false, not, ◌&&◌, ◌||◌, Option, none, some, List, [],
  ◌∷◌, ◌++◌, map, reverse, select, one_or_none, first, count, update, take, drop, ◌==◌, str_eq,
  is_none, is_some, if◌then◌else◌,
}
use green_communuty_backend.Core.Errors.{value_error}
use green_communuty_backend.Core.Action.{
  Action, ok, err, ◌>>=◌, ◌>>◌, gets, pure, raise, lift, raise_if,
}
use green_communuty_backend.Core.Session.{Engine, flush}
use green_communuty_backend.Core.Redis.{Redis, post_like}
use green_communuty_backend.Core.Pagination.{PageParams, page_of}
use green_communuty_backend.Models.{
  User, Post, PostStatus, PostLike, PostImage, Comment, Tables, published, hidden, deleted,
}

abbrev pub is_published : PostStatus → Bool
is_published published = true
is_published hidden = false
is_published deleted = false

-- `_active`
abbrev pub is_active : Post → Bool
is_active p = is_published p.post_status && is_none p.deleted_at

unfoldable pub get_by_id : ℕ → List Post → Option Post
get_by_id id rows = one_or_none (select (λ p. is_active p && p.post_id == id) rows)

unfoldable pub get_any_by_id : ℕ → List Post → Option Post
get_any_by_id id rows = one_or_none (select (λ p. p.post_id == id) rows)

-- The inner join with the author.
abbrev pub with_author : List User → Post → Option (Post × User)
with_author users p = elim (first (λ u. u.user_id == p.author_id) users) [
  | none ↦ none
  | some u ↦ some (p, u)
]

unfoldable pub join_authors : List User → List Post → List (Post × User)
join_authors users [] = []
join_authors users (p ∷ rest) = elim (with_author users p) [
  | none ↦ join_authors users rest
  | some row ↦ row ∷ join_authors users rest
]

unfoldable pub get_detail : ℕ → Tables → Option (Post × User)
unfolding join_authors
get_detail id t =
    one_or_none (join_authors t.users (select (λ p. is_active p && p.post_id == id) t.posts))

-- Neither title nor content is LIKE any of the words.
abbrev pub passes_words : Engine → List String → Post → Bool
passes_words E [] p = true
passes_words E (w ∷ words) p =
    not (E.text_contains p.post_title w)
    && not (E.text_contains p.post_content w)
    && passes_words E words p

abbrev pub is_listed : Engine → List String → Post → Bool
is_listed E words p = is_active p && not p.post_is_notice && passes_words E words p

-- The rows stand in the order of the primary key, so ORDER BY post_id DESC reverses them.
unfoldable pub list_paginated : Engine → PageParams → List String → Tables → List (Post × User) × ℕ
unfolding join_authors
list_paginated E params words t = (
  page_of params (reverse (join_authors t.users (select (is_listed E words) t.posts))),
  count (is_listed E words) t.posts,
)

unfoldable pub list_notices : Tables → List (Post × User)
unfolding join_authors
list_notices t = join_authors t.users (select (λ p. is_active p && p.post_is_notice) t.posts)

unfoldable pub count_comments : ℕ → List Comment → ℕ
count_comments id rows = count (λ c. c.post_id == id && is_none c.deleted_at) rows

abbrev pub is_like : ℕ → ℕ → PostLike → Bool
is_like post user l = l.post_id == post && l.user_id == user

abbrev pub has_like : ℕ → ℕ → List PostLike → Bool
has_like post user likes = is_some (first (is_like post user) likes)

abbrev has_user : ℕ → List (ℕ × Bool) → Bool
has_user user [] = false
has_user user ((u, _) ∷ rest) = u == user || has_user user rest

unfoldable pub list_images : ℕ → List PostImage → List PostImage
list_images id rows = select (λ i. i.post_id == id) rows

module _ (E : Engine) where
  open E use {Session, live, next_id}

  unfoldable pub increment_views : ℕ → Action Session (Unit {0})
  increment_views id = do
    t ← gets live
    flush E (record t {
      posts =
          update (λ p. p.post_id == id) (λ p. record p { post_view_count = p.post_view_count + 1 })
            t.posts;
    })

  unfoldable pub add : (ℕ → Post) → Action Session Post
  add draft = do
    t ← gets live
    id ← gets (next_id (map (λ p. p.post_id) t.posts))
    flush E (record t { posts = t.posts ++ draft id ∷ [] })
    pure (draft id)

  -- `flush` after the fields of one loaded post were set.
  unfoldable pub flush_changes : ℕ → (Post → Post) → Action Session (Unit {0})
  flush_changes id change = do
    t ← gets live
    flush E (record t { posts = update (λ p. p.post_id == id) change t.posts })

  abbrev pub hide : Post → Post
  hide p = record p { post_status = hidden }

  -- What `hide_if_published` does with the post that it found.
  abbrev pub hide_found : ℕ → Option Post → Action Session (Unit {0})
  hide_found id none = raise value_error
  hide_found id (some p) = if is_published p.post_status then flush_changes id hide else pure tt

  unfoldable pub hide_if_published : ℕ → Action Session (Unit {0})
  hide_if_published id = do t ← gets live; hide_found id (get_any_by_id id t.posts)

  unfoldable pub add_image : (ℕ → PostImage) → Action Session PostImage
  add_image draft = do
    t ← gets live
    id ← gets (next_id (map (λ i. i.image_id) t.images))
    flush E (record t { images = t.images ++ draft id ∷ [] })
    pure (draft id)

module _ (R : Redis) where
  -- The users with a value for the post in Redis, each once, and whether it is a like.
  unfoldable pub pending : ℕ → R.Store → List (ℕ × ℕ) → List (ℕ × Bool)
  pending post store [] = []
  pending post store ((p, user) ∷ keys) =
      let rest = pending post store keys in
      if not (p == post) || has_user user rest
      then rest
      else elim (R.get (post_like post user) store) [
        | none ↦ rest
        | some value ↦ (user, str_eq value "1") ∷ rest
      ]

  -- `total + sum(int(liked) - int(user_id in saved))`: the added terms first, then the others.
  unfoldable pub count_likes : ℕ → List PostLike → R.Store → ℕ
  unfolding pending
  count_likes post likes store =
      let users = pending post store (R.scan_likes store) in
      count (λ l. l.post_id == post) likes
      + count (λ e. e.1 && not (has_like post e.0 likes)) users
      - count (λ e. not e.1 && has_like post e.0 likes) users

  -- Redis first, the database where it has no value.
  unfoldable pub get_like : ℕ → ℕ → List PostLike → R.Store → Bool
  get_like post user likes store = elim (R.get (post_like post user) store) [
    | some status ↦ str_eq status "1"
    | none ↦ has_like post user likes
  ]

  unfoldable pub add_like : ℕ → ℕ → R.Store → R.Store
  add_like post user = R.set (post_like post user) "1"

  unfoldable pub delete_like : ℕ → ℕ → R.Store → R.Store
  delete_like post user = R.set (post_like post user) "0"
