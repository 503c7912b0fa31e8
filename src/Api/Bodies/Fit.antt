-- ===== src/Api/Bodies/Fit.antt =====
-- Accepted bodies and the code behind them.
use green_communuty_backend.Prelude.{
  ℕ, String, true, ◌≡◌, ◌≢◌, ◌≤◌, refl, Option, none, some, [], arith,
}
use green_communuty_backend.Core.Errors.{value_error}
use green_communuty_backend.Core.Action.{ok, err}
use green_communuty_backend.Core.Session.{Engine}
use green_communuty_backend.Auth.Security.{Crypto, hash_password}
use green_communuty_backend.Users.Service.{UserCreate, create}
use green_communuty_backend.Users.Signup.{create-no_value_error}
use green_communuty_backend.Migrations.Catalog.{find, ColumnType, varchar, Catalog}
use green_communuty_backend.Migrations.Ddl.{ddl_all}
use green_communuty_backend.Migrations.Metadata.{create_all}
use green_communuty_backend.Migrations.Declared.{registered}
use green_communuty_backend.Posts.Service.{PostCreate, PostUpdate}
use green_communuty_backend.Api.Bodies.{
  text_length, title_str, menu_name_str, nickname_str, password_str, validate_password_bytes,
  user_create, post_create, post_update,
}

module _ (C : Crypto) (email_str : String → Option String)
    (strip_whitespace : String → String) where
  accepted_password :
      (sent p : UserCreate)
      → user_create C email_str strip_whitespace sent ≡ some p
      → hash_password C p.user_password ≡ ok (C.hashpw p.user_password)
  unfolding user_create hash_password password_str validate_password_bytes
  accepted_password sent p h = ground arith

  -- For a body that UserCreate accepted, whatever the database answers, `create` of the user
  -- service does not raise ValueError: the password is not too long for `hash_password`.
  pub user_create-no_value_error :
      (E : Engine) (sent p : UserCreate) (s : E.Session)
      → user_create C email_str strip_whitespace sent ≡ some p
      → (create E C p s).0 ≢ err value_error
  user_create-no_value_error E sent p s h =
      create-no_value_error E C p s (C.hashpw p.user_password) (accepted_password sent p h)

width : ColumnType → Option ℕ
width (varchar n) = some n
width _ = none

-- The length of a VARCHAR column in the tables that the models declare.
limit : String → String → Option Catalog → Option ℕ
unfolding find width
limit table column none = none
limit table column (some c) = elim (find table c) [
  | none ↦ none
  | some t ↦ elim (find column t.columns) [ none ↦ none | some i ↦ width i.type ]
]

unfoldable pub column_limit : String → String → Option ℕ
unfolding limit ddl_all create_all registered
column_limit table column = limit table column (ddl_all (create_all registered) [])

-- The text is no longer than the VARCHAR column that it goes to.
abbrev pub Within : Option ℕ → String → Type 0
Within none t = ⊥
Within (some n) t = text_length t ≤ n

-- A text of an accepted body that is stored in a VARCHAR column.
pub data Accepted (C : Crypto) (email_str : String → Option String)
    (strip_whitespace : String → String) : Type 0 where
  titled : (sent p : PostCreate) → post_create sent ≡ some p → Accepted C email_str strip_whitespace
  retitled :
      (sent p : PostUpdate) (t : String)
      → post_update sent ≡ some p
      → p.post_title ≡ some t
      → Accepted C email_str strip_whitespace
  nicknamed :
      (sent p : UserCreate)
      → user_create C email_str strip_whitespace sent ≡ some p
      → Accepted C email_str strip_whitespace
  renamed :
      (sent t : String)
      → nickname_str strip_whitespace sent ≡ some t
      → Accepted C email_str strip_whitespace
  menu_named : (t : String) → menu_name_str t ≡ true → Accepted C email_str strip_whitespace

sized_title : (t : String) → title_str t ≡ true → text_length t ≤ 200
unfolding title_str
sized_title t h = ground arith

sized_nickname :
    (strip_whitespace : String → String) (sent t : String)
    → nickname_str strip_whitespace sent ≡ some t
    → text_length t ≤ 50
unfolding nickname_str
sized_nickname strip_whitespace sent t h = ground arith

sized_menu_name : (t : String) → menu_name_str t ≡ true → text_length t ≤ 50
unfolding menu_name_str
sized_menu_name t h = ground arith

title_created : (sent p : PostCreate) → post_create sent ≡ some p → title_str p.post_title ≡ true
unfolding post_create
title_created sent p h = ground arith

title_updated :
    (sent p : PostUpdate) (t : String)
    → post_update sent ≡ some p
    → p.post_title ≡ some t
    → title_str t ≡ true
unfolding post_update
title_updated sent p t h e = ground arith

nickname_made :
    (C : Crypto) (email_str : String → Option String) (strip_whitespace : String → String)
    (sent p : UserCreate)
    → user_create C email_str strip_whitespace sent ≡ some p
    → nickname_str strip_whitespace sent.user_nickname ≡ some p.user_nickname
unfolding user_create
nickname_made C email_str strip_whitespace sent p h = ground arith

limits :
    (column_limit "posts" "post_title" ≡ some 200)
    × (column_limit "users" "user_nickname" ≡ some 50)
    × (column_limit "menus" "menu_name" ≡ some 50)
unfolding column_limit
limits = (refl, refl, refl)

module _ {C : Crypto} {email_str : String → Option String}
    {strip_whitespace : String → String} where
  abbrev pub table_of : Accepted C email_str strip_whitespace → String
  table_of (titled sent p h) = "posts"
  table_of (retitled sent p t h e) = "posts"
  table_of (nicknamed sent p h) = "users"
  table_of (renamed sent t h) = "users"
  table_of (menu_named t h) = "menus"

  abbrev pub column_of : Accepted C email_str strip_whitespace → String
  column_of (titled sent p h) = "post_title"
  column_of (retitled sent p t h e) = "post_title"
  column_of (nicknamed sent p h) = "user_nickname"
  column_of (renamed sent t h) = "user_nickname"
  column_of (menu_named t h) = "menu_name"

  abbrev pub text_of : Accepted C email_str strip_whitespace → String
  text_of (titled sent p h) = p.post_title
  text_of (retitled sent p t h e) = t
  text_of (nicknamed sent p h) = p.user_nickname
  text_of (renamed sent t h) = t
  text_of (menu_named t h) = t

  -- The title of an accepted PostCreate or PostUpdate, the nickname of an accepted UserCreate, an
  -- accepted NicknameStr and an accepted MenuNameStr are no longer than the VARCHAR columns that
  -- the models declare for them.
  pub Accepted-fits :
      (a : Accepted C email_str strip_whitespace)
      → Within (column_limit (table_of a) (column_of a)) (text_of a)
  Accepted-fits (titled sent p h) =
      rw (limits.0) (sized_title p.post_title (title_created sent p h))
  Accepted-fits (retitled sent p t h e) = rw (limits.0) (sized_title t (title_updated sent p t h e))
  Accepted-fits (nicknamed sent p h) = rw (limits.1) (
      sized_nickname strip_whitespace sent.user_nickname p.user_nickname
        (nickname_made C email_str strip_whitespace sent p h))
  Accepted-fits (renamed sent t h) = rw (limits.1) (sized_nickname strip_whitespace sent t h)
  Accepted-fits (menu_named t h) = rw (limits.2) (sized_menu_name t h)
