-- ===== src/Auth/TokenStore.antt =====
-- app/modules/auth/token_store.py
use green_communuty_backend.Prelude.{
  ℕ, ◌*◌, String, Bool, Option, none, some, List, [], ◌∷◌, length, max, is_some, if◌then◌else◌,
}
use green_communuty_backend.Core.Redis.{Redis, Key}
use green_communuty_backend.Auth.Security.{Crypto, Settings, verify_token_hash}

pub data TokenState : Type 0 where
  active reused forged unknown : TokenState

-- `self._ttl_seconds`
abbrev pub ttl_seconds : Settings → ℕ
ttl_seconds cfg = cfg.refresh_token_expire_days * 86400

module _ (R : Redis) where
  unfoldable pub save : Settings → ℕ → String → String → R.Store → R.Store
  save cfg user jti hash store =
      let set = R.set_ex (Key.refresh user jti) hash (ttl_seconds cfg) store in
      let added = R.sadd (Key.refresh_index user) jti set in
      R.expire (Key.refresh_index user) (ttl_seconds cfg) added

  abbrev judge : Crypto → String → Bool → Option String → TokenState
  judge C token used none = if used then reused else unknown
  judge C token used (some stored) = if verify_token_hash C token stored then active else forged

  unfoldable pub verify : Crypto → ℕ → String → String → R.Store → TokenState
  verify C user jti token store =
      judge C token (is_some (R.get (Key.refresh_used user jti) store))
        (R.get (Key.refresh user jti) store)

  unfoldable pub revoke : ℕ → String → R.Store → R.Store
  revoke user jti store =
      R.srem (Key.refresh_index user) jti (R.delete (Key.refresh user jti) store)

  unfoldable pub rotate : ℕ → String → ℕ → R.Store → R.Store
  unfolding revoke
  rotate user jti remaining store =
      R.set_ex (Key.refresh_used user jti) "1" (max remaining 1) (revoke user jti store)

  unfoldable pub delete_tokens : ℕ → List String → R.Store → R.Store
  delete_tokens user [] store = store
  delete_tokens user (jti ∷ jtis) store =
      delete_tokens user jtis (R.delete (Key.refresh user jti) store)

  -- The store without the user's tokens, and their number (SMEMBERS lists no member twice).
  unfoldable pub revoke_all : ℕ → R.Store → ℕ × R.Store
  unfolding delete_tokens
  revoke_all user store =
      let jtis = R.smembers (Key.refresh_index user) store in
      (length jtis, R.delete (Key.refresh_index user) (delete_tokens user jtis store))
