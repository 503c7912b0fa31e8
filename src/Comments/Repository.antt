-- ===== src/Comments/Repository.antt =====
-- app/modules/comments/comment_repository.py
use green_communuty_backend.Prelude.{
  ℕ, String, Bool, ◌&&◌, ◌||◌, Option, some, List, [], ◌∷◌, ◌++◌, map, select, first, take,
  one_or_none, count, update, sort_by, ltb, ◌==◌, opt_eq, is_none, is_some, str_eq, if◌then◌else◌,
}
use green_communuty_backend.Core.Action.{Action, ◌>>=◌, ◌>>◌, gets, pure}
use green_communuty_backend.Core.Session.{Engine, flush}
use green_communuty_backend.Core.Pagination.{PageParams, page_of}
use green_communuty_backend.Models.{Comment, User, Tables}

-- `_active`
abbrev pub is_active : Comment → Bool
is_active c = is_none c.deleted_at

unfoldable pub get_by_id : ℕ → List Comment → Option Comment
get_by_id id rows = one_or_none (select (λ c. is_active c && c.comment_id == id) rows)

unfoldable pub get_parent_comment : ℕ → List Comment → Option Comment
get_parent_comment id rows = one_or_none (select (λ c. is_active c && c.comment_id == id) rows)

-- `_comment_sort_key` with `reverse=True`: `a` is newer than `b`.
abbrev pub newer : Comment → Comment → Bool
newer a b =
    ltb b.created_at a.created_at || (a.created_at == b.created_at && ltb b.comment_id a.comment_id)

abbrev pub is_top : ℕ → Comment → Bool
is_top post c = is_active c && c.post_id == post && is_none c.parent_comment_id

abbrev pub is_reply_to : ℕ → Comment → Bool
is_reply_to parent c = opt_eq c.parent_comment_id (some parent) && is_active c

-- The dictionary of the parents that have a reply, with the number of their replies.
unfoldable pub count_replies_by_parents : List ℕ → List Comment → List (ℕ × ℕ)
count_replies_by_parents [] rows = []
count_replies_by_parents (id ∷ ids) rows =
    let rest = count_replies_by_parents ids rows in
    let n = count (is_reply_to id) rows in if n == 0 then rest else (id, n) ∷ rest

unfoldable pub list_by_post : ℕ → PageParams → List Comment → List Comment × ℕ × List (ℕ × ℕ)
unfolding count_replies_by_parents
list_by_post post params rows =
    let comments = page_of params (sort_by newer (select (is_top post) rows)) in
    (
      comments,
      count (is_top post) rows,
      count_replies_by_parents (map (λ c. c.comment_id) comments) rows,
    )

unfoldable pub list_by_parent : ℕ → List Comment → List Comment
list_by_parent parent rows =
    select (λ c. is_active c && opt_eq c.parent_comment_id (some parent)) rows

-- The user wrote an active comment of the post.
abbrev wrote : ℕ → List Comment → User → Bool
wrote post comments u =
    is_some (first (λ c. c.author_id == u.user_id && c.post_id == post && is_active c) comments)

unfoldable pub search_mention_users : Engine → ℕ → String → Tables → List User
search_mention_users E post nickname t =
    if str_eq nickname ""
    then take 5 (select (wrote post t.comments) t.users)
    else take 5 (select (λ u. E.text_contains u.user_nickname nickname) t.users)

module _ (E : Engine) where
  open E use {Session, live, next_id}

  unfoldable pub add : (ℕ → Comment) → Action Session Comment
  add draft = do
    t ← gets live
    id ← gets (next_id (map (λ c. c.comment_id) t.comments))
    flush E (record t { comments = t.comments ++ draft id ∷ [] })
    pure (draft id)

  -- `flush` after a field of one loaded comment was set.
  unfoldable pub flush_changes : ℕ → (Comment → Comment) → Action Session (Unit {0})
  flush_changes id change = do
    t ← gets live
    flush E (record t { comments = update (λ c. c.comment_id == id) change t.comments })
