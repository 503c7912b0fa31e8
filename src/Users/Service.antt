-- ===== src/Users/Service.antt =====
-- app/modules/users/user_service.py
use green_communuty_backend.Prelude.{
  ℕ, String, Bool, true, false, Option, none, some, List, if◌then◌else◌,
}
use green_communuty_backend.Core.Errors.{Error, conflict, not_found}
use green_communuty_backend.Core.Action.{
  Action, Result, ok, err, ◌>>=◌, ◌>>◌, gets, pure, lift, modify, raise_if,
}
use green_communuty_backend.Core.Session.{Engine}
use green_communuty_backend.Core.Pagination.{PageParams}
use green_communuty_backend.Models.{User, UserRole}
use green_communuty_backend.Auth.Security.{Crypto, hash_password}
use green_communuty_backend.Users.Repository.{
  get_user_by_id, list_users_page, exists_by_email, add, flush_changes,
}

-- app/modules/users/user_schemas.py
pub record UserCreate : Type 0 where
  pub user_email : String
  pub user_password : String
  pub user_nickname : String

-- `none` is a field that was not sent. A null, which the schema lets pass and the column refuses, is
-- left out.
pub record UserUpdate : Type 0 where
  pub user_nickname : Option String

abbrev found_user : Option User → Result User
found_user none = err not_found
found_user (some u) = ok u

abbrev pub set_nickname : Option String → User → User
set_nickname none u = u
set_nickname (some name) u = record u { user_nickname = name }

abbrev pub set_inactive : User → User
set_inactive u = record u { user_is_active = false }

-- What `except IntegrityError` catches.
abbrev pub is_integrity : Error → Bool
is_integrity Error.integrity_error = true
is_integrity _ = false

module _ (E : Engine) where
  open E use {Session, live, commit, rollback}

  unfoldable pub get : ℕ → Action Session User
  get id = do t ← gets live; lift (found_user (get_user_by_id id t.users))

  unfoldable pub list_users : PageParams → Action Session (List User × ℕ)
  list_users params = do t ← gets live; pure (list_users_page params t.users)

  abbrev pub draft : UserCreate → String → ℕ → User
  draft payload hash id = record {
    user_id = id;
    user_email = payload.user_email;
    user_password_hash = hash;
    user_nickname = payload.user_nickname;
    user_role = UserRole.user;
    user_is_active = true;
  }

  -- The `except` block: after the rollback, a conflict if the address is taken by now.
  abbrev pub refused : String → Error → Action Session User
  refused email e s =
      if is_integrity e
      then (let s' = rollback s in
          if exists_by_email E email (live s').users then (err conflict, s') else (err e, s'))
      else (err e, s)

  abbrev pub finish : String → Result User → Action Session User
  finish email (ok u) s = (ok u, commit s)
  finish email (err e) s = refused email e s

  -- The `try` block and its `except`.
  unfoldable pub insert : UserCreate → String → Action Session User
  insert payload hash s =
      let (r, s') = add E (draft payload hash) s in finish payload.user_email r s'

  unfoldable pub create : Crypto → UserCreate → Action Session User
  create C payload = do
    t ← gets live
    lift (raise_if (exists_by_email E payload.user_email t.users) conflict)
    hash ← lift (hash_password C payload.user_password)
    insert payload hash

  unfoldable pub update : User → UserUpdate → Action Session User
  update u payload = do
    flush_changes E u.user_id (set_nickname payload.user_nickname)
    modify commit
    pure (set_nickname payload.user_nickname u)

  unfoldable pub deactivate : User → Action Session (Unit {0})
  deactivate u = do flush_changes E u.user_id set_inactive; modify commit
