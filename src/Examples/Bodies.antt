-- ===== src/Examples/Bodies.antt =====
-- Request bodies at concrete inputs.
use green_communuty_backend.Prelude.{◌≢◌, refl, some}
use green_communuty_backend.Core.Errors.{value_error}
use green_communuty_backend.Core.Action.{err}
use green_communuty_backend.Config.Texts.{strip}
use green_communuty_backend.Users.Service.{UserCreate, create}
use green_communuty_backend.Posts.Service.{PostCreate}
use green_communuty_backend.Api.Bodies.{user_create, post_create, text_length}
use green_communuty_backend.Api.Bodies.Fit.{
  titled, Within, column_limit, Accepted-fits, user_create-no_value_error,
}
use green_communuty_backend.Examples.Database.{permissive}
use green_communuty_backend.Examples.Signing.{signing}
use green_communuty_backend.Examples.Members.{founded}

abbrev dora : UserCreate
dora = record {
  user_email = "dora@example.com";
  user_password = "password1";
  user_nickname = " dora ";
}

abbrev accepted_dora : UserCreate
accepted_dora = record dora { user_nickname = "dora" }

user_create-no_value_error_example :
    (create permissive signing accepted_dora founded).0 ≢ err value_error
unfolding user_create text_length strip
user_create-no_value_error_example =
    user_create-no_value_error signing some strip permissive dora accepted_dora founded refl

abbrev hello : PostCreate
hello = record { post_title = "Hello"; post_content = "First." }

Accepted-fits_example : Within (column_limit "posts" "post_title") "Hello"
unfolding post_create text_length
Accepted-fits_example =
    Accepted-fits {C = signing} {email_str = some} {strip_whitespace = strip}
      (titled hello hello refl)
