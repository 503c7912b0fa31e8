-- ===== src/Auth/Security.antt =====
-- app/core/security.py. PyJWT, bcrypt, SHA-256 and Python's `str` and `int` are parameters.
use green_communuty_backend.Prelude.{
  ℕ, ◌+◌, ◌*◌, String, ◌≡◌, Bool, false, not, Option, none, some, str_eq, leb, ltb, ◌&&◌, true,
  if◌then◌else◌,
}
use green_communuty_backend.Core.Errors.{unauthorized, value_error}
use green_communuty_backend.Core.Action.{Result, ok, err}

pub data TokenType : Type 0 where
  access refresh : TokenType

abbrev pub type_value : TokenType → String
type_value access = "access"
type_value refresh = "refresh"

pub record Claims : Type 0 where
  pub sub : String
  pub type : String
  pub jti : String
  pub iat : ℕ
  pub exp : ℕ

pub record TokenPayload : Type 0 where
  pub user_id : ℕ
  pub token_type : TokenType
  pub jti : String
  pub expires_at : ℕ

-- The libraries, with the server's key: `decode now token` is none where PyJWT raises; `checkpw`
-- is none where bcrypt raises a ValueError; `encoded_len` counts the bytes of UTF-8.
pub record Crypto : Type 0 where
  pub encode : Claims → String
  pub decode : ℕ → String → Option Claims
  pub str_of : ℕ → String
  pub int_of : String → Option ℕ
  pub sha256 : String → String
  pub encoded_len : String → ℕ
  pub hashpw : String → String
  pub checkpw : String → String → Option Bool

-- What their documentation says: a token that was signed is read back from its issue time (`iat`)
-- until it expires, whatever is read back has not expired, and a number that was printed is read
-- back. Times are whole seconds.
pub record CryptoLaws (C : Crypto) : Type 0 where
  pub decode-encode :
      (now : ℕ) (c : Claims)
      → C.decode now (C.encode c) ≡ (if leb c.iat now && ltb now c.exp then some c else none)
  pub decode-live :
      (now : ℕ) (token : String) (c : Claims) → C.decode now token ≡ some c → ltb now c.exp ≡ true
  pub int_of-str_of : (n : ℕ) → C.int_of (C.str_of n) ≡ some n

-- app/core/config.py, the values that signing in uses; times in seconds
pub record Settings : Type 0 where
  pub access_token_expire_minutes : ℕ
  pub refresh_token_expire_days : ℕ
  pub login_rate_limit_max_attempts : ℕ
  pub login_rate_limit_window_seconds : ℕ

abbrev pub bcrypt_max_password_bytes : ℕ
bcrypt_max_password_bytes = 72

abbrev pub payload_of : TokenType → Claims → Option ℕ → Result TokenPayload
payload_of expected c none = err unauthorized
payload_of expected c (some user) =
    ok (record { user_id = user; token_type = expected; jti = c.jti; expires_at = c.exp })

module _ (C : Crypto) where
  unfoldable pub hash_password : String → Result String
  hash_password password =
      if ltb bcrypt_max_password_bytes (C.encoded_len password)
      then err value_error
      else ok (C.hashpw password)

  abbrev checked : Option Bool → Bool
  checked none = false
  checked (some b) = b

  unfoldable pub verify_password : String → String → Bool
  verify_password password hash =
      if ltb bcrypt_max_password_bytes (C.encoded_len password)
      then false
      else checked (C.checkpw password hash)

  -- `_create_token`, at a time, with a fresh id and a lifetime in seconds.
  unfoldable pub create_token : ℕ → String → ℕ → TokenType → ℕ → String
  create_token now jti user type lifetime = C.encode (record {
    sub = C.str_of user;
    type = type_value type;
    jti = jti;
    iat = now;
    exp = now + lifetime;
  })

  unfoldable pub create_access_token : Settings → ℕ → String → ℕ → String
  unfolding create_token
  create_access_token cfg now jti user =
      create_token now jti user access (cfg.access_token_expire_minutes * 60)

  unfoldable pub create_refresh_token : Settings → ℕ → String → ℕ → String
  unfolding create_token
  create_refresh_token cfg now jti user =
      create_token now jti user refresh (cfg.refresh_token_expire_days * 86400)

  abbrev pub read_claims : TokenType → Option Claims → Result TokenPayload
  read_claims expected none = err unauthorized
  read_claims expected (some c) =
      if not (str_eq c.type (type_value expected))
      then err unauthorized
      else payload_of expected c (C.int_of c.sub)

  unfoldable pub decode_token : ℕ → String → TokenType → Result TokenPayload
  decode_token now token expected = read_claims expected (C.decode now token)

  unfoldable pub hash_token : String → String
  hash_token token = C.sha256 token

  unfoldable pub verify_token_hash : String → String → Bool
  unfolding hash_token
  verify_token_hash token stored = str_eq (hash_token token) stored
