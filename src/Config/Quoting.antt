-- ===== src/Config/Quoting.antt =====
-- The credentials in the addresses of app/core/config.py.
use Prim.Native.Char.{Char, code}
use Prim.Native.String.append
use green_communuty_backend.Prelude.{ℕ, String, Bool, not, ◌&&◌, [], ◌∷◌, ◌==◌, if◌then◌else◌}
use green_communuty_backend.Config.Texts.{is_safe}
use green_communuty_backend.Config.Settings.{Settings}

-- A character that quoting never writes.
abbrev pub is_reserved : ℕ → Bool
is_reserved n = not (is_safe n) && not (n == 43) && not (n == 37)

-- The text before the first character of a number, and the text after it.
abbrev pub cut : ℕ → String → String × String
cut n String.[] = (String.[], String.[])
cut n (String.◌∷◌ c s) =
    let (before, after) = cut n s in
    if code c == n then (String.[], s) else (String.◌∷◌ c before, after)

-- What a reader of an address finds after `//`: the user name up to the `:`, the password up to
-- the `@`, and the rest, as they stand there.
pub record Address : Type 0 where
  pub user : String
  pub password : String
  pub rest : String

abbrev pub after_scheme : String → String
after_scheme url = (cut 47 (cut 47 url).1).1

abbrev pub read_address : String → Address
read_address url =
    let (user, other) = cut 58 (after_scheme url) in
    let (password, rest) = cut 64 other in record { user = user; password = password; rest = rest }
