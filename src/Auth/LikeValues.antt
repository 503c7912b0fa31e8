-- ===== src/Auth/LikeValues.antt =====
-- Signing in, renewing and signing out leave the values that Redis holds for likes alone.
use green_communuty_backend.Prelude.{
  ℕ, String, false, ◌≡◌, refl, inl, inr, Bool-cases, Option, none, some, List, [], ◌∷◌, str_eq,
}
use green_communuty_backend.Core.Action.{Result, ok, err, Result-cases, lift}
use green_communuty_backend.Core.Session.{Engine}
use green_communuty_backend.Core.Redis.{Redis, RedisTexts, RedisApart, Key, post_like, key_eq}
use green_communuty_backend.Core.Keeps.{Keeps, Keeps-bind}
use green_communuty_backend.Core.World.{World, tables}
use green_communuty_backend.Models.{User}
use green_communuty_backend.Posts.LikeValues.{LikeValues}
use green_communuty_backend.Users.Repository.{get_user_by_id, get_user_by_email}
use green_communuty_backend.Auth.Security.{
  Crypto, Settings, TokenPayload, access, refresh, decode_token, verify_password,
}
use green_communuty_backend.Auth.RateLimit.{hit, reset}
use green_communuty_backend.Auth.TokenStore.{
  TokenState, save, revoke, rotate, delete_tokens, revoke_all, ttl_seconds,
}
use green_communuty_backend.Auth.Service.{
  FreshIds, check_key, check_login_rate_limit, reset_login_rate_limit, issue_tokens, login,
  may_login, hash_of, renew, active_user, by_state, verify_state, refresh_tokens, revoke_decoded,
  logout, logout_all, get_current_user,
}

module _ (R : Redis) (L : RedisTexts R) (A : RedisApart R) where
  -- A key that is no like's.
  abbrev Foreign : Key → Type 0
  Foreign k = (p u : ℕ) → key_eq k (post_like p u) ≡ false

  set_ex-Likes :
      (k : Key) (t : String) (n : ℕ) (s : R.Store)
      → Foreign k
      → LikeValues R s
      → LikeValues R (R.set_ex k t n s)
  set_ex-Likes k t n s foreign h p u =
      rw (L.get-set_ex (post_like p u) k t n s, foreign p u) (h p u)

  delete-Likes : (k : Key) (s : R.Store) → Foreign k → LikeValues R s → LikeValues R (R.delete k s)
  delete-Likes k s foreign h p u = rw (L.get-delete (post_like p u) k s, foreign p u) (h p u)

  hit-Likes :
      (k : Key) (most window : ℕ) (s : R.Store)
      → Foreign k
      → LikeValues R s
      → LikeValues R (hit R k most window s).1
  unfolding hit
  hit-Likes k most window s foreign h p u =
      rw (A.get-incr (post_like p u) k window s (foreign p u)) (h p u)

  save-Likes :
      (cfg : Settings) (user : ℕ) (jti hash : String) (s : R.Store)
      → LikeValues R s
      → LikeValues R (save R cfg user jti hash s)
  unfolding save
  save-Likes cfg user jti hash s h p u =
      rw
        (
          L.get-expire_index (post_like p u) user (ttl_seconds cfg) _,
          L.get-sadd (post_like p u) (Key.refresh_index user) jti _,
        )
        (set_ex-Likes (Key.refresh user jti) hash (ttl_seconds cfg) s (λ q v. refl) h p u)

  revoke-Likes :
      (user : ℕ) (jti : String) (s : R.Store) → LikeValues R s → LikeValues R (revoke R user jti s)
  unfolding revoke
  revoke-Likes user jti s h p u =
      rw (L.get-srem (post_like p u) (Key.refresh_index user) jti _)
        (delete-Likes (Key.refresh user jti) s (λ q v. refl) h p u)

  rotate-Likes :
      (user : ℕ) (jti : String) (remaining : ℕ) (s : R.Store)
      → LikeValues R s
      → LikeValues R (rotate R user jti remaining s)
  unfolding rotate
  rotate-Likes user jti remaining s h =
      set_ex-Likes (Key.refresh_used user jti) "1" _ (revoke R user jti s) (λ q v. refl)
        (revoke-Likes user jti s h)

  delete_tokens-Likes :
      (user : ℕ) (jtis : List String) (s : R.Store)
      → LikeValues R s
      → LikeValues R (delete_tokens R user jtis s)
  unfolding delete_tokens
  delete_tokens-Likes user [] s h = h
  delete_tokens-Likes user (jti ∷ jtis) s h =
      delete_tokens-Likes user jtis (R.delete (Key.refresh user jti) s)
        (delete-Likes (Key.refresh user jti) s (λ q v. refl) h)

  revoke_all-Likes :
      (user : ℕ) (s : R.Store) → LikeValues R s → LikeValues R (revoke_all R user s).1
  unfolding revoke_all
  revoke_all-Likes user s h =
      delete-Likes (Key.refresh_index user)
        (delete_tokens R user (R.smembers (Key.refresh_index user) s) s) (λ q v. refl)
        (delete_tokens-Likes user (R.smembers (Key.refresh_index user) s) s h)

  module _ (E : Engine) (C : Crypto) (cfg : Settings) (lower : String → String) where
    abbrev Liked : World E R → Type 0
    Liked w = LikeValues R w.store

    check_key-Liked : (key : Key) → Foreign key → Keeps Liked (check_key E R C cfg lower key)
    unfolding check_key
    check_key-Liked key foreign w h = hit-Likes key _ _ w.store foreign h

    limit-Liked :
        (email ip : String) → Keeps Liked (check_login_rate_limit E R C cfg lower email ip)
    unfolding check_login_rate_limit
    limit-Liked email ip =
        Keeps-bind Liked (check_key E R C cfg lower (Key.ratelimit_email (lower email))) _
          (check_key-Liked (Key.ratelimit_email (lower email)) (λ p u. refl))
          (λ _. check_key-Liked (Key.ratelimit_ip ip) (λ p u. refl))

    reset-Liked :
        (email ip : String) → Keeps Liked (reset_login_rate_limit E R C cfg lower email ip)
    unfolding reset_login_rate_limit reset
    reset-Liked email ip w h =
        delete-Likes (Key.ratelimit_ip ip) (reset R (Key.ratelimit_email (lower email)) w.store)
          (λ p u. refl) (delete-Likes (Key.ratelimit_email (lower email)) w.store (λ p u. refl) h)

    issue-Liked :
        (now : ℕ) (ids : FreshIds) (user : ℕ)
        → Keeps Liked (issue_tokens E R C cfg lower now ids user)
    unfolding issue_tokens
    issue-Liked now ids user w h = save-Likes cfg user ids.refresh_jti _ w.store h

    pub login-Liked :
        (now : ℕ) (ids : FreshIds) (email password ip : String)
        → Keeps Liked (login E R C cfg lower now ids email password ip)
    unfolding login
    login-Liked now ids email password ip =
        Keeps-bind Liked (check_login_rate_limit E R C cfg lower email ip) _ (limit-Liked email ip)
          (λ _ w.
            Keeps-bind Liked
              (lift (may_login (user w) (verify_password C password (hash_of (user w))))) _
              (λ v h. h)
              (λ u.
                Keeps-bind Liked (reset_login_rate_limit E R C cfg lower email ip)
                  (λ _. issue_tokens E R C cfg lower now ids u.user_id) (reset-Liked email ip)
                  (λ _. issue-Liked now ids u.user_id))
              w)
      where
        user : World E R → Option User
        user w = get_user_by_email E email (tables E R w).users

    renew-Liked :
        (now : ℕ) (ids : FreshIds) (p : TokenPayload) (found : Result User)
        → Keeps Liked (renew E R C cfg lower now ids p found)
    renew-Liked now ids p (err e) w h = revoke_all-Likes p.user_id w.store h
    renew-Liked now ids p (ok u) w h =
        issue-Liked now ids u.user_id _ (rotate-Likes p.user_id p.jti _ w.store h)

    by_state-Liked :
        (now : ℕ) (ids : FreshIds) (p : TokenPayload) (state : TokenState)
        → Keeps Liked (by_state E R C cfg lower now ids p state)
    by_state-Liked now ids p TokenState.reused w h = revoke_all-Likes p.user_id w.store h
    by_state-Liked now ids p TokenState.forged w h = revoke_all-Likes p.user_id w.store h
    by_state-Liked now ids p TokenState.unknown w h = h
    by_state-Liked now ids p TokenState.active w h =
        renew-Liked now ids p (active_user (get_user_by_id p.user_id (tables E R w).users)) w h

    pub refresh_tokens-Liked :
        (now : ℕ) (ids : FreshIds) (token : String)
        → Keeps Liked (refresh_tokens E R C cfg lower now ids token)
    unfolding refresh_tokens
    refresh_tokens-Liked now ids token w h =
        elim (Result-cases (decode_token C now token refresh)) [
          | inr (e, bad) ↦ rw bad h
          | inl (p, good) ↦
              rw good (by_state-Liked now ids p (verify_state E R C cfg lower p token w) w h)
        ]

    revoke-Liked : (r : Result TokenPayload) → Keeps Liked (revoke_decoded E R C cfg lower r)
    revoke-Liked (err e) w h = h
    revoke-Liked (ok p) w h = revoke-Likes p.user_id p.jti w.store h

    pub logout-Liked :
        (now : ℕ) (presented : Option String) → Keeps Liked (logout E R C cfg lower now presented)
    unfolding logout
    logout-Liked now none w h = h
    logout-Liked now (some token) w h = elim (Bool-cases (str_eq token "")) [
      | inl empty ↦ rw empty h
      | inr full ↦ rw full (revoke-Liked (decode_token C now token refresh) w h)
    ]

    pub logout_all-Liked : (user : ℕ) → Keeps Liked (logout_all E R C cfg lower user)
    unfolding logout_all
    logout_all-Liked user w h = revoke_all-Likes user w.store h

    pub get_current_user-Liked :
        (now : ℕ) (bearer : Option String)
        → Keeps Liked (get_current_user E R C cfg lower now bearer)
    unfolding get_current_user
    get_current_user-Liked now none w h = h
    get_current_user-Liked now (some token) w h =
        elim (Result-cases (decode_token C now token access)) [
          | inr (e, bad) ↦ rw bad h
          | inl (p, good) ↦ rw good h
        ]
