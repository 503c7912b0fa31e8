-- ===== src/Auth/Limits.antt =====
-- Signing in: who may, and how many times one may fail.
use green_communuty_backend.Prelude.{
  ℕ, suc, ◌≤◌, String, ◌≡◌, ◌≢◌, refl, sym, ap, ◌∙◌, inl, inr, Bool, true, false, Option, none,
  some, Bool-cases, leb, str_eq, eq_iff, arith,
}
use green_communuty_backend.Core.Errors.{Error, unauthorized, rate_limited}
use green_communuty_backend.Core.Action.{ok_err, ok_inj, Result, ok, err, Result-cases}
use green_communuty_backend.Core.Session.{Engine}
use green_communuty_backend.Core.Redis.{Redis, RedisCounters, Key}
use green_communuty_backend.Core.World.{World, tables}
use green_communuty_backend.Models.{User}
use green_communuty_backend.Auth.Security.{Crypto, Settings, verify_password, create_access_token}
use green_communuty_backend.Auth.RateLimit.{hit}
use green_communuty_backend.Users.Repository.{get_user_by_email}
use green_communuty_backend.Auth.Service.{
  IssuedTokens, FreshIds, hash_of, may_login, check_key, check_login_rate_limit, login,
  issue_tokens, reset_login_rate_limit,
}

unauthorized_limited :
    {A : Type 0} (retry : ℕ) → ◌≢◌ {A = Result A} (err unauthorized) (err (rate_limited retry))
unauthorized_limited retry h = cc

key_same_email : (a : String) → str_eq a a ≡ true
key_same_email a = (eq_iff a a).1 refl

may_login-ok :
    (found : Option User) (right : Bool) (u : User)
    → may_login found right ≡ ok u
    → (found ≡ some u) × (right ≡ true) × (u.user_is_active ≡ true)
may_login-ok none right u h = ground arith
may_login-ok (some v) right u h = ground arith

may_login-err :
    (found : Option User) (right : Bool) (e : Error)
    → may_login found right ≡ err e
    → e ≡ unauthorized
may_login-err none right e h = ground arith
may_login-err (some v) right e h = ground arith

module _ (E : Engine) (R : Redis) (C : Crypto) (cfg : Settings) (lower : String → String) where
  abbrev counted : Key → World E R → World E R
  counted key w = record w {
    store = R.incr_expire_nx key cfg.login_rate_limit_window_seconds w.store;
  }

  abbrev within : Key → World E R → Bool
  within key w = leb (R.counter key (counted key w).store) cfg.login_rate_limit_max_attempts

  check_key-passes :
      (key : Key) (w : World E R)
      → within key w ≡ true
      → check_key E R C cfg lower key w ≡ (ok tt, counted key w)
  unfolding check_key hit
  check_key-passes key w few = rw few refl

  check_key-stops :
      (key : Key) (w : World E R)
      → within key w ≡ false
      → (retry : ℕ) × (check_key E R C cfg lower key w ≡ (err (rate_limited retry), counted key w))
  unfolding check_key hit
  check_key-stops key w many = rw many (_, refl)

  -- How the two checks before signing in went.
  data Course (email ip : String) (w : World E R) : Type 0 where
    passed :
        check_login_rate_limit E R C cfg lower email ip w
          ≡ (ok tt, counted (Key.ratelimit_ip ip) (counted (Key.ratelimit_email (lower email)) w))
        → Course email ip w
    stopped :
        (retry : ℕ) (w' : World E R)
        → check_login_rate_limit E R C cfg lower email ip w ≡ (err (rate_limited retry), w')
        → Course email ip w

  course : (email ip : String) (w : World E R) → Course email ip w
  unfolding check_login_rate_limit
  course email ip w =
      let mail = Key.ratelimit_email (lower email) in
      elim (Bool-cases (within mail w)) [
        | inr many ↦
            let (retry, stop) = check_key-stops mail w many in
            stopped retry (counted mail w) (rw stop refl)
        | inl few ↦ elim (Bool-cases (within (Key.ratelimit_ip ip) (counted mail w))) [
          | inr many ↦
              let (retry, stop) = check_key-stops (Key.ratelimit_ip ip) (counted mail w) many in
              stopped retry (counted (Key.ratelimit_ip ip) (counted mail w))
                (rw (check_key-passes mail w few, stop) refl)
          | inl few_too ↦ passed (
              rw
                (
                  check_key-passes mail w few,
                  check_key-passes (Key.ratelimit_ip ip) (counted mail w) few_too,
                )
                refl)
        ]
      ]

  -- If `login` issues tokens, then there is a user whom the database finds by that address, whose
  -- stored hash the password matches, and who is active.
  pub login-ok :
      (now : ℕ) (ids : FreshIds) (email password ip : String) (w : World E R)
      (issued : IssuedTokens)
      → (login E R C cfg lower now ids email password ip w).0 ≡ ok issued
      → (u : User) × (get_user_by_email E email (tables E R w).users ≡ some u)
        × (verify_password C password u.user_password_hash ≡ true)
        × (u.user_is_active ≡ true)
  unfolding login
  login-ok now ids email password ip w issued done = elim (course email ip w) [
    | stopped retry w' stop ↦ absurd (ok_err issued (rate_limited retry) (sym done ∙ rw stop refl))
    | passed go ↦
        let found = get_user_by_email E email (tables E R w).users in
        elim (Result-cases (may_login found (verify_password C password (hash_of found)))) [
          | inr (e, wrong) ↦ absurd (ok_err issued e (sym done ∙ rw (go, wrong) refl))
          | inl (u, right) ↦
              let (known, secret, active) = may_login-ok _ _ u right in
              (u, known, rw known at secret, active)
        ]
  ]

  -- The access token that `login` gives is the one of the user who was found.
  pub login-issues :
      (now : ℕ) (ids : FreshIds) (email password ip : String) (w : World E R)
      (issued : IssuedTokens)
      → (login E R C cfg lower now ids email password ip w).0 ≡ ok issued
      → (u : User) × (get_user_by_email E email (tables E R w).users ≡ some u)
        × (u.user_is_active ≡ true)
        × (issued.access_token ≡ create_access_token C cfg now ids.access_jti u.user_id)
  unfolding login issue_tokens reset_login_rate_limit
  login-issues now ids email password ip w issued done = elim (course email ip w) [
    | stopped retry w' stop ↦ absurd (ok_err issued (rate_limited retry) (sym done ∙ rw stop refl))
    | passed go ↦
        let found = get_user_by_email E email (tables E R w).users in
        elim (Result-cases (may_login found (verify_password C password (hash_of found)))) [
          | inr (e, wrong) ↦ absurd (ok_err issued e (sym done ∙ rw (go, wrong) refl))
          | inl (u, right) ↦
              let (known, secret, active) = may_login-ok _ _ u right in
              (
                u,
                known,
                active,
                ap (λ (i : IssuedTokens). i.access_token)
                    (sym (ok_inj _ issued (rw (go, right) at done))),
              )
        ]
  ]

  module _ (L : RedisCounters R) where
    -- If the counter of an address is at the allowed number of attempts or above it, `login` for
    -- that address raises a rate limit error, whatever the password is, and leaves the database
    -- session alone.
    pub login-limited :
        (now : ℕ) (ids : FreshIds) (email password ip : String) (w : World E R)
        → cfg.login_rate_limit_max_attempts ≤ R.counter (Key.ratelimit_email (lower email)) w.store
        → (retry : ℕ) × ((login E R C cfg lower now ids email password ip w).0
            ≡ err (rate_limited retry))
          × ((login E R C cfg lower now ids email password ip w).1.session ≡ w.session)
    unfolding login check_login_rate_limit
    login-limited now ids email password ip w full =
        let mail = Key.ratelimit_email (lower email) in
        let (retry, stop) =
          check_key-stops mail w
            (rw L.counter-incr (rw (key_same_email (lower email)) (ground arith))) in
        (retry, rw stop refl, rw stop refl)

    -- If `login` raises unauthorized, the counter of the address and the counter of the client's
    -- IP have each grown by one.
    pub login-counts :
        (now : ℕ) (ids : FreshIds) (email password ip : String) (w : World E R)
        → (login E R C cfg lower now ids email password ip w).0 ≡ err unauthorized
        → let after = (login E R C cfg lower now ids email password ip w).1.store in
          (R.counter (Key.ratelimit_email (lower email)) after
            ≡ suc (R.counter (Key.ratelimit_email (lower email)) w.store))
          × (R.counter (Key.ratelimit_ip ip) after ≡ suc (R.counter (Key.ratelimit_ip ip) w.store))
    unfolding login reset_login_rate_limit issue_tokens
    login-counts now ids email password ip w failed = elim (course email ip w) [
      | stopped retry w' stop ↦ absurd (unauthorized_limited retry (sym failed ∙ rw stop refl))
      | passed go ↦
          let found = get_user_by_email E email (tables E R w).users in
          elim (Result-cases (may_login found (verify_password C password (hash_of found)))) [
            | inl (u, right) ↦ absurd (ok_err _ unauthorized (rw (go, right) at failed))
            | inr (e, wrong) ↦
                rw (go, wrong)
                  (
                    rw (L.counter-incr, L.counter-incr, key_same_email (lower email)) refl,
                    rw (L.counter-incr, key_same_email ip, L.counter-incr) refl,
                  )
          ]
    ]
