-- ===== src/Auth/States.antt =====
-- What the token store says of a token, around each operation of token_store.py.
use green_communuty_backend.Prelude.{
  ℕ, ◌<◌, max, ◌∙◌, String, ◌≡◌, ◌≢◌, refl, inl, inr, Bool, true, false, ◌&&◌, none, some,
  Bool-cases, is_some, ◌==◌, str_eq, eq_iff, if◌then◌else◌, arith,
}
use green_communuty_backend.Core.Redis.{Redis, RedisTexts, RedisExpiry, Key}
use green_communuty_backend.Auth.Security.{Crypto, Settings, hash_token, verify_token_hash}
use green_communuty_backend.Auth.TokenStore as TokenStore
use green_communuty_backend.Auth.TokenStore.{TokenState, save, revoke, rotate}

abbrev pub is_token : ℕ → String → ℕ → String → Bool
is_token a j b k = a == b && str_eq j k

str_eq_refl : (a : String) → str_eq a a ≡ true
str_eq_refl a = (eq_iff a a).1 refl

pub key_same : (u : ℕ) (j : String) → is_token u j u j ≡ true
key_same u j = ground (arith, str_eq_refl j)

module _ (R : Redis) (L : RedisTexts R) (C : Crypto) (cfg : Settings) where
  get_used-save :
      (user owner : ℕ) (jti other hash : String) (store : R.Store)
      → R.get (Key.refresh_used owner other) (save R cfg user jti hash store)
        ≡ R.get (Key.refresh_used owner other) store
  unfolding save
  get_used-save user owner jti other hash store =
      rw (L.get-expire_index, L.get-sadd, L.get-set_ex) refl

  get_refresh-save :
      (user owner : ℕ) (jti other hash : String) (store : R.Store)
      → R.get (Key.refresh owner other) (save R cfg user jti hash store) ≡ (
          if is_token user jti owner other
          then some hash
          else R.get (Key.refresh owner other) store)
  unfolding save
  get_refresh-save user owner jti other hash store =
      rw (L.get-expire_index, L.get-sadd, L.get-set_ex) refl

  get_refresh-revoke :
      (user owner : ℕ) (jti other : String) (store : R.Store)
      → R.get (Key.refresh owner other) (revoke R user jti store)
        ≡ (if is_token user jti owner other then none else R.get (Key.refresh owner other) store)
  unfolding revoke
  get_refresh-revoke user owner jti other store = rw (L.get-srem, L.get-delete) refl

  get_used-revoke :
      (user owner : ℕ) (jti other : String) (store : R.Store)
      → R.get (Key.refresh_used owner other) (revoke R user jti store)
        ≡ R.get (Key.refresh_used owner other) store
  unfolding revoke
  get_used-revoke user owner jti other store = rw (L.get-srem, L.get-delete) refl

  get_used-rotate :
      (user remaining : ℕ) (jti : String) (store : R.Store)
      → R.get (Key.refresh_used user jti) (rotate R user jti remaining store) ≡ some "1"
  unfolding rotate
  get_used-rotate user remaining jti store = rw (L.get-set_ex, key_same user jti) refl

  get_refresh-rotate :
      (user remaining : ℕ) (jti : String) (store : R.Store)
      → R.get (Key.refresh user jti) (rotate R user jti remaining store) ≡ none
  unfolding rotate
  get_refresh-rotate user remaining jti store =
      rw (L.get-set_ex, get_refresh-revoke, key_same user jti) refl

  module _ (X : RedisExpiry R) where
    -- The mark of a rotation lasts as long as it says, whatever other token is saved after.
    ttl_used-save-rotate :
        (user remaining owner : ℕ) (jti new hash : String) (store : R.Store)
        → R.ttl
            (Key.refresh_used user jti)
            (save R cfg owner new hash (rotate R user jti remaining store))
          ≡ max remaining 1
    unfolding save rotate
    ttl_used-save-rotate user remaining owner jti new hash store =
        X.ttl-expire_other _ _ _ _ refl
        ∙ X.ttl-sadd _ _ _ _ refl
        ∙ X.ttl-set_ex_other _ _ _ _ _ refl
        ∙ X.ttl-set_ex _ _ _ _ (omega arith)

    -- A token that was used stays used while its mark lasts, whatever other token is saved after.
    pub verify-elapse-save-rotate :
        (user remaining owner seconds : ℕ) (jti token new hash : String) (store : R.Store)
        → is_token owner new user jti ≡ false
        → seconds < remaining
        → TokenStore.verify R C user jti token
            (R.elapse seconds (save R cfg owner new hash (rotate R user jti remaining store)))
          ≡ TokenState.reused
    unfolding TokenStore.verify
    verify-elapse-save-rotate user remaining owner seconds jti token new hash store other soon =
        let rotated = rotate R user jti remaining store in
        let after = save R cfg owner new hash rotated in
        let lasts : seconds < R.ttl (Key.refresh_used user jti) after =
          rw (ttl_used-save-rotate user remaining owner jti new hash store) (omega arith) in
        let used : R.get (Key.refresh_used user jti) (R.elapse seconds after) ≡ some "1" =
          X.get-elapse (Key.refresh_used user jti) seconds after lasts
          ∙ get_used-save owner user new jti hash rotated
          ∙ get_used-rotate user remaining jti store in
        let gone : R.get (Key.refresh user jti) (R.elapse seconds after) ≡ none =
          X.get-elapse_none (Key.refresh user jti) seconds after (
            get_refresh-save owner user new jti hash rotated
            ∙ rw other (get_refresh-rotate user remaining jti store)) in
        rw (used, gone) refl

  -- Revoking a token leaves the state of every other token.
  pub verify-revoke_other :
      (user owner : ℕ) (jti other token : String) (store : R.Store)
      → is_token user jti owner other ≡ false
      → TokenStore.verify R C owner other token (revoke R user jti store)
        ≡ TokenStore.verify R C owner other token store
  unfolding TokenStore.verify
  verify-revoke_other user owner jti other token store apart =
      rw (get_used-revoke, get_refresh-revoke, apart) refl

  -- A revoked token is active no more.
  pub verify-revoke_same :
      (user : ℕ) (jti token : String) (store : R.Store)
      → TokenStore.verify R C user jti token (revoke R user jti store) ≢ TokenState.active
  unfolding TokenStore.verify
  verify-revoke_same user jti token store =
      rw (TokenStore.verify, get_refresh-revoke, key_same user jti, get_used-revoke)
        (elim (Bool-cases (is_some (R.get (Key.refresh_used user jti) store))) [
          | inl used ↦ rw used (λ h. cc)
          | inr unused ↦ rw unused (λ h. cc)
        ])

  -- A token that was just saved is active, if its id was not used before.
  pub verify-save :
      (user : ℕ) (jti token : String) (store : R.Store)
      → R.get (Key.refresh_used user jti) store ≡ none
      → TokenStore.verify R C user jti token (save R cfg user jti (hash_token C token) store)
        ≡ TokenState.active
  unfolding TokenStore.verify verify_token_hash
  verify-save user jti token store fresh =
      rw
        (
          get_used-save user user jti jti (hash_token C token) store,
          fresh,
          get_refresh-save user user jti jti (hash_token C token) store,
          key_same user jti,
          str_eq_refl (hash_token C token),
        )
        refl

  -- A rotation marks no other token as used.
  pub used-rotate :
      (user owner remaining : ℕ) (jti other : String) (store : R.Store)
      → is_token user jti owner other ≡ false
      → R.get (Key.refresh_used owner other) (rotate R user jti remaining store)
        ≡ R.get (Key.refresh_used owner other) store
  unfolding rotate
  used-rotate user owner remaining jti other store apart =
      rw (L.get-set_ex, apart, get_used-revoke) refl
