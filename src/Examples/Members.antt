-- ===== src/Examples/Members.antt =====
-- Users at concrete inputs.
use green_communuty_backend.Prelude.{
  ◌≡◌, refl, true, false, [], ◌∷◌, ◌++◌, first, select, count, arith,
}
use green_communuty_backend.Core.Errors.{conflict}
use green_communuty_backend.Core.Action.{ok, err}
use green_communuty_backend.Core.Session.{flush}
use green_communuty_backend.Core.Session.Holds.{Holds}
use green_communuty_backend.Models.{User, Tables}
use green_communuty_backend.Auth.Security.{hash_password}
use green_communuty_backend.Users.Repository.{get_user_by_id, exists_by_email, add}
use green_communuty_backend.Users.Service.{UserCreate, create, insert}
use green_communuty_backend.Users.Unique.{EmailsUnique, create-UniqueEmails}
use green_communuty_backend.Users.Signup.{create-ok}
use green_communuty_backend.Examples.Database.{State, permissive}
use green_communuty_backend.Examples.Signing.{signing}
use green_communuty_backend.Examples.Rows.{ann, opened, community}

abbrev nobody : Tables
nobody = record community { users = [] }

abbrev pub founded : State
founded = record { live = nobody; saved = nobody }

pub founded-UniqueEmails : Holds permissive (EmailsUnique permissive) founded
unfolding get_user_by_id first
founded-UniqueEmails =
    let unique : EmailsUnique permissive nobody = record { unique = λ a b u v h. ground arith } in
    record { live = unique; saved = unique }

abbrev pub carla : UserCreate
carla = record {
  user_email = "carla@example.com";
  user_password = "a long secret";
  user_nickname = "carla";
}

abbrev carla_row : User
carla_row = record ann {
  user_id = 1;
  user_email = "carla@example.com";
  user_password_hash = "a long secret";
  user_nickname = "carla";
}

abbrev joined : State
joined = (create permissive signing carla founded).1

joined-UniqueEmails : Holds permissive (EmailsUnique permissive) joined
joined-UniqueEmails = create-UniqueEmails permissive signing carla founded founded-UniqueEmails

signed_up : (create permissive signing carla founded).0 ≡ ok carla_row
unfolding create insert add flush hash_password exists_by_email count select
signed_up = refl

create-ok_example :
    (hash_password signing "a long secret" ≡ ok "a long secret")
    × (carla_row.user_email ≡ carla.user_email)
    × (carla_row.user_is_active ≡ true)
    × (exists_by_email permissive "carla@example.com" [] ≡ false)
    × ((permissive.saved (create permissive signing carla founded).1).users ≡ [] ++ carla_row ∷ [])
create-ok_example = create-ok permissive signing carla founded carla_row signed_up

signed_up_twice :
    (create permissive signing (record carla { user_email = "ann@example.com" }) opened).0
    ≡ err conflict
unfolding create exists_by_email count select
signed_up_twice = refl
