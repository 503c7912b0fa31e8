-- ===== src/Auth/Rotation.antt =====
-- `refresh` and `logout` of app/modules/auth/service.py, and what the store says of the tokens around
-- them.
use green_communuty_backend.Prelude.{
  ℕ, ◌+◌, ◌*◌, ◌-◌, String, ◌≡◌, ◌≢◌, refl, sym, ap, ◌∙◌, ◌⊎◌, List, [], ◌∷◌, first, inl, inr, true,
  false, none, some, Bool-cases, leb, ltb, str_eq, arith,
}
use green_communuty_backend.Core.Errors.{unauthorized}
use green_communuty_backend.Core.Action.{ok_err, ok_inj, ok, Result-cases}
use green_communuty_backend.Core.Session.{Engine}
use green_communuty_backend.Core.Redis.{Redis, RedisTexts, Key}
use green_communuty_backend.Core.World.{World, tables}
use green_communuty_backend.Models.{User}
use green_communuty_backend.Auth.Security.{
  Crypto, CryptoLaws, Settings, TokenPayload, refresh, create_refresh_token, decode_token,
  hash_token,
}
use green_communuty_backend.Auth.TokenStore as TokenStore
use green_communuty_backend.Auth.TokenStore.{TokenState, save, revoke, rotate}
use green_communuty_backend.Auth.Tokens.{decode_refresh}
use green_communuty_backend.Auth.States.{
  is_token, verify-revoke_other, verify-revoke_same, verify-save, used-rotate,
}
use green_communuty_backend.Users.Repository.{get_user_by_id}
use green_communuty_backend.Auth.Service.{
  IssuedTokens, FreshIds, active_user, issue_tokens, refresh_tokens, logout,
}

State-cases :
    (t : TokenState)
    → (t ≡ TokenState.active)
      ⊎ (t ≡ TokenState.reused)
      ⊎ (t ≡ TokenState.forged)
      ⊎ (t ≡ TokenState.unknown)
State-cases TokenState.active = inl refl
State-cases TokenState.reused = inr (inl refl)
State-cases TokenState.forged = inr (inr (inl refl))
State-cases TokenState.unknown = inr (inr (inr refl))

found_id :
    (id : ℕ) (users : List User) (u : User)
    → active_user (get_user_by_id id users) ≡ ok u
    → u.user_id ≡ id
unfolding get_user_by_id first
found_id id [] u h = ground arith
found_id id (v ∷ users) u h = ground (arith, found_id id users u)

module _ (R : Redis) (L : RedisTexts R) (C : Crypto) (cfg : Settings) (E : Engine)
    (lower : String → String) where
  -- What a renewal that returns did.
  refresh_tokens-ok :
      (now : ℕ) (ids : FreshIds) (token : String) (w : World E R) (p : TokenPayload)
      (issued : IssuedTokens)
      → decode_token C now token refresh ≡ ok p
      → (refresh_tokens E R C cfg lower now ids token w).0 ≡ ok issued
      → (u : User) × (TokenStore.verify R C p.user_id p.jti token w.store ≡ TokenState.active)
        × (active_user (get_user_by_id p.user_id (tables E R w).users) ≡ ok u)
        × (issued.refresh_token ≡ create_refresh_token C cfg now ids.refresh_jti u.user_id)
        × ((refresh_tokens E R C cfg lower now ids token w).1 ≡ record w {
          store =
              save R cfg u.user_id ids.refresh_jti
                (hash_token C (create_refresh_token C cfg now ids.refresh_jti u.user_id))
                (rotate R p.user_id p.jti (p.expires_at - now) w.store);
        })
  unfolding refresh_tokens issue_tokens
  refresh_tokens-ok now ids token w p issued read done =
      elim (State-cases (TokenStore.verify R C p.user_id p.jti token w.store)) [
        | inr (inl reused) ↦ absurd (ok_err issued unauthorized (sym done ∙ rw (read, reused) refl))
        | inr (inr (inl forged)) ↦
            absurd (ok_err issued unauthorized (sym done ∙ rw (read, forged) refl))
        | inr (inr (inr unknown)) ↦
            absurd (ok_err issued unauthorized (sym done ∙ rw (read, unknown) refl))
        | inl active ↦
            elim (Result-cases (active_user (get_user_by_id p.user_id (tables E R w).users))) [
              | inr (e, gone) ↦ absurd (ok_err issued e (sym done ∙ rw (read, active, gone) refl))
              | inl (u, found) ↦ (
                u,
                active,
                found,
                sym (
                    ap (λ (i : IssuedTokens). i.refresh_token)
                      (ok_inj _ issued (rw (read, active, found) at done))),
                rw (read, active, found) refl,
              )
            ]
      ]

  -- If a renewal returns, the id of the new refresh token differs from the old one's and was never
  -- marked as used, then at any time from the renewal until the new token expires it decodes to the
  -- same user with the new id, and the store has it as active after the renewal.
  pub refresh_tokens-renews :
      (K : CryptoLaws C) (now later : ℕ) (ids : FreshIds) (token : String) (w : World E R)
      (p : TokenPayload) (issued : IssuedTokens)
      → decode_token C now token refresh ≡ ok p
      → is_token p.user_id p.jti p.user_id ids.refresh_jti ≡ false
      → R.get (Key.refresh_used p.user_id ids.refresh_jti) w.store ≡ none
      → leb now later ≡ true
      → ltb later (now + cfg.refresh_token_expire_days * 86400) ≡ true
      → (refresh_tokens E R C cfg lower now ids token w).0 ≡ ok issued
      → (decode_token C later issued.refresh_token refresh
          ≡ ok (record {
            user_id = p.user_id;
            token_type = refresh;
            jti = ids.refresh_jti;
            expires_at = now + cfg.refresh_token_expire_days * 86400;
          }))
        × (TokenStore.verify R C p.user_id ids.refresh_jti issued.refresh_token
              (refresh_tokens E R C cfg lower now ids token w).1.store
            ≡ TokenState.active)
  refresh_tokens-renews K now later ids token w p issued read other fresh issued_before early done =
      let (u, live, found, sent, after) = refresh_tokens-ok now ids token w p issued read done in
      let mine = found_id p.user_id (tables E R w).users u found in
      (
        rw (sent, mine)
            (decode_refresh C K cfg now later p.user_id ids.refresh_jti issued_before early),
        rw (after, sent, mine)
            (verify-save R L C cfg p.user_id ids.refresh_jti _ _ (
              used-rotate R L C cfg p.user_id p.user_id (p.expires_at - now) p.jti ids.refresh_jti
                w.store other
              ∙ fresh)),
      )

  -- If a token that is not empty decodes as a refresh token, `logout` with it returns without an
  -- error, and the store does not have the token as active afterwards.
  pub logout-ends :
      (now : ℕ) (token : String) (w : World E R) (p : TokenPayload)
      → str_eq token "" ≡ false
      → decode_token C now token refresh ≡ ok p
      → ((logout E R C cfg lower now (some token) w).0 ≡ ok tt)
        × (TokenStore.verify R C p.user_id p.jti token
              (logout E R C cfg lower now (some token) w).1.store
            ≢ TokenState.active)
  unfolding logout
  logout-ends now token w p filled read = (
    rw (filled, read) refl,
    rw (filled, read) (verify-revoke_same R L C cfg p.user_id p.jti token w.store),
  )

  -- Whatever is presented to `logout`, the store says of every other token (of another id or
  -- another user than the one that is presented decodes to) what it said before.
  pub logout-others :
      (now : ℕ) (token : String) (w : World E R) (owner : ℕ) (jti other : String)
      → ((p : TokenPayload)
          → decode_token C now token refresh ≡ ok p
          → is_token p.user_id p.jti owner jti ≡ false)
      → TokenStore.verify R C owner jti other (logout E R C cfg lower now (some token) w).1.store
        ≡ TokenStore.verify R C owner jti other w.store
  unfolding logout
  logout-others now token w owner jti other apart = elim (Bool-cases (str_eq token "")) [
    | inl empty ↦ rw empty refl
    | inr filled ↦ elim (Result-cases (decode_token C now token refresh)) [
      | inr (e, invalid) ↦ rw (filled, invalid) refl
      | inl (p, read) ↦
          rw (filled, read)
            (verify-revoke_other R L C cfg p.user_id owner p.jti jti other w.store (apart p read))
    ]
  ]
