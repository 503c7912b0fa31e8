-- ===== src/Api/Bodies.antt =====
-- The checks that pydantic makes of the request bodies, from the *_schemas.py files. What makes an
-- EmailStr, and the text that `strip_whitespace=True` leaves, are parameters.
pub mod Fit
use green_communuty_backend.Prelude.{
  ℕ, suc, String, Bool, true, false, not, ◌&&◌, Option, none, some, List, [], ◌∷◌, ltb, leb,
  if◌then◌else◌,
}
use green_communuty_backend.Auth.Security.{Crypto, bcrypt_max_password_bytes}
use green_communuty_backend.Users.Service.{UserCreate}
use green_communuty_backend.Posts.Service.{PostCreate, PostUpdate}

-- Python's `len` of a text: its code points.
unfoldable pub text_length : String → ℕ
text_length String.[] = 0
text_length (String.◌∷◌ c s) = suc (text_length s)

-- `Field(min_length=low, max_length=high)`
abbrev pub sized : ℕ → ℕ → String → Bool
sized low high t = leb low (text_length t) && leb (text_length t) high

unfoldable pub title_str : String → Bool
title_str = sized 1 200

unfoldable pub content_str : String → Bool
content_str t = leb 1 (text_length t)

unfoldable pub menu_name_str : String → Bool
menu_name_str = sized 1 50

module _ (strip_whitespace : String → String) where
  -- The accepted text is the stripped one.
  unfoldable pub nickname_str : String → Option String
  nickname_str t = if sized 2 50 (strip_whitespace t) then some (strip_whitespace t) else none

module _ (C : Crypto) (email_str : String → Option String)
    (strip_whitespace : String → String) where
  unfoldable pub validate_password_bytes : String → Bool
  validate_password_bytes value = not (ltb bcrypt_max_password_bytes (C.encoded_len value))

  unfoldable pub password_str : String → Bool
  unfolding validate_password_bytes
  password_str t = sized 8 bcrypt_max_password_bytes t && validate_password_bytes t

  abbrev made : String → Option String → Option String → Option UserCreate
  made password (some email) (some nickname) =
      some (record { user_email = email; user_password = password; user_nickname = nickname })
  made password none nickname = none
  made password (some email) none = none

  -- `UserCreate`
  unfoldable pub user_create : UserCreate → Option UserCreate
  unfolding password_str nickname_str
  user_create sent =
      if password_str sent.user_password
      then made sent.user_password (email_str sent.user_email)
          (nickname_str strip_whitespace sent.user_nickname)
      else none

-- `PostCreate` and `PostUpdate`
unfoldable pub post_create : PostCreate → Option PostCreate
unfolding title_str content_str
post_create sent =
    if title_str sent.post_title && content_str sent.post_content then some sent else none

abbrev optional : (String → Bool) → Option String → Bool
optional test none = true
optional test (some t) = test t

unfoldable pub post_update : PostUpdate → Option PostUpdate
unfolding title_str content_str
post_update sent =
    if optional title_str sent.post_title && optional content_str sent.post_content
    then some sent
    else none
