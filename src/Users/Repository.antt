-- ===== src/Users/Repository.antt =====
-- app/modules/users/user_repository.py
use green_communuty_backend.Prelude.{
  ℕ, zero, String, Bool, Option, List, [], ◌∷◌, ◌++◌, map, reverse, length, count, first, update,
  ◌==◌, ltb,
}
use green_communuty_backend.Core.Action.{Action, ◌>>=◌, ◌>>◌, gets, pure}
use green_communuty_backend.Core.Session.{Engine, flush}
use green_communuty_backend.Core.Pagination.{PageParams, page_of}
use green_communuty_backend.Models.{User}

unfoldable pub get_user_by_id : ℕ → List User → Option User
get_user_by_id id users = first (λ u. u.user_id == id) users

-- ORDER BY user_id DESC, one page of it, and the number of all users.
unfoldable pub list_users_page : PageParams → List User → List User × ℕ
list_users_page params users = (page_of params (reverse users), length users)

module _ (E : Engine) where
  open E use {Session, live, next_id, text_equal}

  -- The column is unique, so there is one such row at most.
  unfoldable pub get_user_by_email : String → List User → Option User
  get_user_by_email email users = first (λ u. text_equal u.user_email email) users

  unfoldable pub exists_by_email : String → List User → Bool
  exists_by_email email users = ltb zero (count (λ u. text_equal u.user_email email) users)

  unfoldable pub add : (ℕ → User) → Action Session User
  add draft = do
    t ← gets live
    id ← gets (next_id (map (λ u. u.user_id) t.users))
    flush E (record t { users = t.users ++ draft id ∷ [] })
    pure (draft id)

  -- `flush` after the fields of one loaded user were set.
  unfoldable pub flush_changes : ℕ → (User → User) → Action Session (Unit {0})
  flush_changes id change = do
    t ← gets live
    flush E (record t { users = update (λ u. u.user_id == id) change t.users })
