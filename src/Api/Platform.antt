-- ===== src/Api/Platform.antt =====
-- What a request runs on: the libraries and services outside the repository, and the settings.
use green_communuty_backend.Prelude.{ℕ, String, Option}
use green_communuty_backend.Core.Action.{Action}
use green_communuty_backend.Core.Session.{Engine}
use green_communuty_backend.Core.Redis.{Redis}
use green_communuty_backend.Core.Storage.{Storage, StorageSettings}
use green_communuty_backend.Core.Site.{Site}
use green_communuty_backend.Auth.Security.{Crypto, Settings}
use green_communuty_backend.Posts.Images.{Pillow}

-- `lower` is Python's `str.lower`, `str_of` its `str` of a number, `file_suffix` the lower case
-- suffix of a file name. `fuel` is the number of rounds given to a loop of the menus.
pub record Platform : Type 1 where
  pub engine : Engine
  pub redis : Redis
  pub storage : Storage
  pub crypto : Crypto
  pub pillow : Pillow
  pub settings : Settings
  pub storage_settings : StorageSettings
  pub lower : String → String
  pub str_of : ℕ → String
  pub file_suffix : Option String → String
  pub fuel : ℕ

abbrev pub State : Platform → Type 0
State P = Site P.engine P.redis P.storage

-- A handler of the web interface.
abbrev pub Handler : Platform → Type 0 → Type 0
Handler P A = Action (State P) A
