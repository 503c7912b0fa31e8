-- ===== src/Examples/Site.antt =====
-- An object storage that keeps what is uploaded, an image library that changes nothing, and the
-- platform made of the small parts.
use Prim.Native.String.{◌++◌}
use green_communuty_backend.Prelude.{
  ℕ, String, refl, false, Option, none, some, List, [], ◌∷◌, str_eq, if◌then◌else◌,
}
use green_communuty_backend.Core.Action.{ok}
use green_communuty_backend.Core.Storage.{Storage, StorageLaws, s3}
use green_communuty_backend.Posts.Images.{Pillow}
use green_communuty_backend.Api.Platform.{Platform, State}
use green_communuty_backend.Api.Auth.{Client}
use green_communuty_backend.Auth.Security.{Settings}
use green_communuty_backend.Examples.Database.{permissive}
use green_communuty_backend.Examples.Cache.{cache}
use green_communuty_backend.Examples.Signing.{signing}
use green_communuty_backend.Examples.Rows.{started}

abbrev kept : String → List (String × List ℕ) → Option (List ℕ)
kept key [] = none
kept key ((k, bytes) ∷ rest) = if str_eq k key then some bytes else kept key rest

abbrev pub shelf : Storage
shelf = record {
  Bucket = List (String × List ℕ);
  upload = λ key bytes type b. (ok tt, (key, bytes) ∷ b);
  generate_presigned_url = λ key seconds. ok ("https://images.example.com/" ++ key);
  stored = kept;
}

pub shelf-laws : StorageLaws shelf
shelf-laws = record { stored-upload = λ key other bytes type b done. refl }

abbrev pub plain_images : Pillow
plain_images = record {
  Image = List ℕ;
  open_transposed = λ bytes. some bytes;
  width = λ i. 1;
  height = λ i. 1;
  mode = λ i. "RGB";
  has_transparency_info = λ i. false;
  convert = λ mode i. i;
  thumbnail = λ w h i. i;
  on_white = λ i. i;
  fit = λ w h i. i;
  pad = λ w h i. i;
  save_webp = λ quality i. some i;
}

abbrev pub short_lived : Settings
short_lived = record {
  access_token_expire_minutes = 1;
  refresh_token_expire_days = 1;
  login_rate_limit_max_attempts = 5;
  login_rate_limit_window_seconds = 300;
}

abbrev pub platform : Platform
platform = record {
  engine = permissive;
  redis = cache;
  storage = shelf;
  crypto = signing;
  pillow = plain_images;
  settings = short_lived;
  storage_settings = record {
    storage_provider = s3;
    s3_access_key = some "key";
    s3_secret_key = some "secret";
    s3_bucket = some "images";
    r2_account_id = none;
    r2_access_key_id = none;
    r2_secret_access_key = none;
    r2_bucket_name = none;
  };
  lower = λ s. s;
  str_of = λ n. "7";
  file_suffix = λ name. ".png";
  fuel = 9;
}

abbrev pub site : State platform
site = record { world = started; bucket = [] }

abbrev pub stranger : Client
stranger = record {
  now = 10;
  ids = record { access_jti = "a"; refresh_jti = "r" };
  host = none;
  refresh_cookie = none;
  bearer = none;
}
